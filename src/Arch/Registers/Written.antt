-- ===== src/Arch/Registers/Written.antt =====
-- Reading back what was written by name.
use ghidra_unicorn.Prelude.{
  nat_eq, string_eq, ℕ, ◌+◌, ◌^◌, ◌≤◌, ◌<◌, ◌≡◌, refl, sym, inl, inr, Option-cases, ◌∙◌, ap, Bool,
  true, false, Option, none, some, String,
}
use ghidra_unicorn.Arch.{Text, Reg, ArchSpec, get_bits, set_bits}
use ghidra_unicorn.Arch.Bits.{get_bits-set_bits, set_bits-lt}
use ghidra_unicorn.Arch.Registers.{
  Chip, Name, unknown, in_field, in_flag, whole, resolve, mapped, read_name, reg_read, write_new,
  write_part, write_name, keep_in_thumb, keeps_thumb, reg_write,
}

-- What the engine documents of its registers: each has a width and holds no more. A register that stores
-- all that is written, which a zero register and the program counter do not, reads back a value that
-- fits it.
pub record ChipLaws (chip : Chip) : Type 0 where
  pub width : ℕ → ℕ
  pub stores : ℕ → Bool
  pub fits : (s : chip.State) (uc value : ℕ) → chip.read s uc ≡ some value → value < 2 ^ width uc
  pub written :
      (s s' : chip.State) (uc value : ℕ)
      → stores uc ≡ true
      → value < 2 ^ width uc
      → chip.write s uc value ≡ some s'
      → chip.read s' uc ≡ some value

-- A name can take a value: its register stores what is written, and the value, or the whole part that
-- the name stands for, lies in the register.
abbrev pub Takes : {chip : Chip} → ChipLaws chip → Name → ℕ → Type 0
Takes laws unknown value = Unit
Takes laws (in_field r f) value = (laws.stores r.uc ≡ true) × (f.bit + f.width ≤ laws.width r.uc)
Takes laws (in_flag r f) value = (laws.stores r.uc ≡ true) × (f.bit + f.width ≤ laws.width r.uc)
Takes laws (whole r) value = (laws.stores r.uc ≡ true) × (value < 2 ^ laws.width r.uc)

module _ (chip : Chip) (laws : ChipLaws chip) where
  -- A part of a register reads back.
  write_part-read :
      (s s' : chip.State) (r : Reg) (bit width value : ℕ) (o : Option ℕ)
      → chip.read s r.uc ≡ o
      → laws.stores r.uc ≡ true
      → bit + width ≤ laws.width r.uc
      → write_part chip s r (λ current. set_bits bit width current value) o ≡ some s'
      → mapped (get_bits bit width) (chip.read s' r.uc) ≡ some value
  write_part-read s s' r bit width value none there stores inside p = absurd (cc)
  write_part-read s s' r bit width value (some current) there stores inside p =
      elim (Option-cases (set_bits bit width current value)) [
        | inl q ↦ let nothing : none ≡ some s' = sym (ap (write_new chip s r) q) ∙ p in absurd (cc)
        | inr (new, q) ↦
            let done : chip.write s r.uc new ≡ some s' = sym (ap (write_new chip s r) q) ∙ p in
            let small =
              set_bits-lt bit width current value new (laws.width r.uc) q inside
                (laws.fits s r.uc current there) in
            ap (mapped (get_bits bit width)) (laws.written s s' r.uc new stores small done)
            ∙ ap some (get_bits-set_bits bit width current value new q).0
      ]

  read_name-write_name :
      (s s' : chip.State) (name : Name) (value : ℕ)
      → Takes laws name value
      → write_name chip s name value ≡ some s'
      → read_name chip s' name ≡ some value
  read_name-write_name s s' unknown value t p = absurd (cc)
  read_name-write_name s s' (in_field r f) value (stores, inside) p =
      write_part-read s s' r f.bit f.width value (chip.read s r.uc) refl stores inside p
  read_name-write_name s s' (in_flag r f) value (stores, inside) p =
      write_part-read s s' r f.bit f.width value (chip.read s r.uc) refl stores inside p
  read_name-write_name s s' (whole r) value (stores, small) p =
      laws.written s s' r.uc value stores small p

  not_kept :
      (kept : Bool) (text : Text) (spec : ArchSpec) (value : ℕ) (o : Option chip.State)
      (s' : chip.State)
      → kept ≡ false
      → keep_in_thumb chip kept text spec value o ≡ some s'
      → o ≡ some s'
  not_kept kept text spec value none s' q p = absurd (cc)
  not_kept false text spec value (some s) s' q p = p
  not_kept true text spec value (some s) s' q p = absurd (cc)

-- A register, a flag or a field that was written by name reads back as the value written, where its
-- register stores what is written and the value, or the flag or field, lies in the width of the register,
-- unless it is the program counter of a processor in Thumb state.
pub reg_read-reg_write :
    (chip : Chip) (text : Text) (spec : ArchSpec) (s s' : chip.State) (name : String) (value : ℕ)
    (laws : ChipLaws chip)
    → Takes laws (resolve text spec name) value
    → keeps_thumb chip text spec s name ≡ false
    → reg_write chip text spec s name value ≡ some s'
    → reg_read chip text spec s' name ≡ some value
unfolding reg_read reg_write
reg_read-reg_write chip text spec s s' name value laws takes plain p =
    read_name-write_name chip laws s s' (resolve text spec name) value takes
      (not_kept chip laws (keeps_thumb chip text spec s name) text spec value _ s' plain p)
