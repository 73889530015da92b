-- ===== src/Arch/Tests.antt =====
-- The processor status word of ARM: the T flag at bit 5, and the mode in the low five bits.
use ghidra_unicorn.Prelude.{
  nat_eq, string_eq, ℕ, ◌<◌, ◌/◌, ◌%◌, ◌^◌, ◌≡◌, refl, sym, ◌∙◌, ap, subst, inl, inr, Bool-cases,
  some_inj, ◌==◌, not, true, if◌then◌else◌, arith, false, none, some, [], ◌∷◌,
}
use ghidra_unicorn.Arch.{Text, ArchSpec, get_bits, set_bits, reg, reg_in, flag, flag_in}
use ghidra_unicorn.Arch.Bits.{get_bits-set_bits}
use ghidra_unicorn.Arch.Registers.{Chip, resolve, thumb, reg_read, reg_write}
use ghidra_unicorn.Arch.Registers.Written.{ChipLaws, Takes, reg_read-reg_write}

-- User mode in ARM state becomes user mode in Thumb state.
thumb_set : set_bits 5 1 0x10 1 ≡ some 0x30
unfolding set_bits get_bits
thumb_set = refl

get_bits-set_bits_example :
    (get_bits 5 1 0x30 ≡ 1)
    × (0x30 % 2 ^ 5 ≡ 0x10 % 2 ^ 5)
    × (0x30 / 2 ^ 5 / 2 ^ 1 ≡ 0x10 / 2 ^ 5 / 2 ^ 1)
get_bits-set_bits_example = get_bits-set_bits 5 1 0x10 1 0x30 thumb_set

-- A chip with one register of 32 bits, and number 7, which is always 0.
abbrev chip : Chip
chip = record {
  State = ℕ;
  read = λ s n. some (if n == 7 then 0 else s % 2 ^ 32);
  write = λ s n value. some (if n == 7 then s else value);
}

chip-fits : (s uc value : ℕ) → chip.read s uc ≡ some value → value < 2 ^ 32
chip-fits s uc value p = elim (Bool-cases (uc == 7)) [
  | inl q ↦ let e : 0 ≡ value = some_inj (rw q at p) in omega (arith, e)
  | inr q ↦
      let e : s % 2 ^ 32 ≡ value = some_inj (rw q at p) in subst (λ x. x < 2 ^ 32) e (omega arith)
]

chip-written :
    (s s' uc value : ℕ)
    → not (uc == 7) ≡ true
    → value < 2 ^ 32
    → chip.write s uc value ≡ some s'
    → chip.read s' uc ≡ some value
chip-written s s' uc value stores small p = elim (Bool-cases (uc == 7)) [
  | inl q ↦ absurd (ground arith)
  | inr q ↦
      let e : value ≡ s' = some_inj (rw q at p) in
      rw q (ap some (ap (λ x. x % 2 ^ 32) (sym e) ∙ omega (arith, small)))
]

abbrev chip_laws : ChipLaws chip
chip_laws = record {
  width = λ uc. 32;
  stores = λ uc. not (uc == 7);
  fits = chip-fits;
  written = chip-written;
}

abbrev text : Text
text = record { lower = λ x. x; has = λ x y. false; split_space = λ x. none; split_dot = λ x. none }

abbrev spec : ArchSpec
spec = record {
  bits = 32;
  regs = record { name = "cpsr"; uc = 3; size = 4 } ∷ [];
  pc = "pc";
  sp = "sp";
  call_mnemonics = "bl" ∷ [];
  return_mnemonics = [];
  thumb_field = none;
  flags = record { name = "TB"; source = "cpsr"; bit = 5; width = 1 } ∷ [];
  status = some "cpsr";
  fields = [];
}

flag_written : reg_write chip text spec 0x10 "TB" 1 ≡ some 0x30
unfolding reg_write resolve flag flag_in reg reg_in set_bits get_bits thumb
flag_written = refl

flag_taken : Takes chip_laws (resolve text spec "TB") 1
unfolding resolve flag flag_in reg reg_in
flag_taken = (refl, omega arith)

reg_read-reg_write_example : reg_read chip text spec 0x30 "TB" ≡ some 1
reg_read-reg_write_example =
    reg_read-reg_write chip text spec 0x10 0x30 "TB" 1 chip_laws flag_taken refl flag_written
