-- ===== src/Engine/Toy.antt =====
-- A machine with the one page at address 0 and one register, which satisfies what is assumed of the engine.
use ghidra_unicorn.Prelude.{
  nat_eq, nat_beq_iff, ℕ, ◌+◌, ◌≤◌, ◌≡◌, refl, sym, ◌∙◌, ap, ◌⊎◌, inl, inr, ◌&&◌, ◌==◌, Option,
  none, some, [], ◌∷◌, arith, if◌then◌else◌, length, Bool-cases,
}
use ghidra_unicorn.Engine.{Bytes, page, Region, Engine, EngineLaws}

abbrev pub zero_page : Region
zero_page = record { start = 0; last = 4095; perms = 7 }

-- The bytes of the page, and the register.
pub record OnePage : Type 0 where
  pub bytes : Bytes
  pub register : ℕ

unfoldable pub toy_read : OnePage → ℕ → ℕ → Option Bytes
toy_read m a n = if a == 0 && length m.bytes == n then some m.bytes else none

unfoldable pub toy_write : OnePage → ℕ → Bytes → Option OnePage
toy_write m a d =
    if a == 0 && length m.bytes == length d then some (record m { bytes = d }) else none

abbrev pub toy : Engine
toy = record {
  Machine = OnePage;
  Context = ℕ;
  regions = λ m. zero_page ∷ [];
  mem_read = toy_read;
  mem_write = toy_write;
  mem_map = λ m start size perms. none;
  mem_unmap = λ m start size. none;
  context_save = λ m. m.register;
  context_restore = λ m c. record m { register = c };
  context_size = λ c. 8;
}

toy_write-eq-some :
    (m : OnePage) (a : ℕ) (d : Bytes) (m' : OnePage)
    → toy_write m a d ≡ some m'
    → (a ≡ 0) × (length m.bytes ≡ length d) × (m'.bytes ≡ d)
unfolding toy_write
toy_write-eq-some m a d m' p = elim (Bool-cases (a == 0 && length m.bytes == length d)) [
  | inl q ↦ (
    ground (arith, nat_beq_iff a 0),
    ground (arith, nat_beq_iff (length m.bytes) (length d)),
    ap (λ (o : Option OnePage). elim o [ none ↦ m'.bytes | some x ↦ x.bytes ]) (sym p) ∙ rw q refl,
  )
  | inr q ↦ absurd (ground arith)
]

toy_write_apart :
    (m : OnePage) (a q : ℕ) (d : Bytes) (m' : OnePage)
    → toy_write m a d ≡ some m'
    → (q + page ≤ a) ⊎ (a + length d ≤ q)
    → toy_read m' q page ≡ toy_read m q page
unfolding toy_read
toy_write_apart m a q d m' p o =
    let (z, l, b) = toy_write-eq-some m a d m' p in
    let l' : length m'.bytes ≡ length d = ap length b in
    ground (
      arith,
      nat_beq_iff q 0,
      nat_beq_iff (length m'.bytes) 4096,
      nat_beq_iff (length m.bytes) 4096,
    )

pub toy_laws : EngineLaws toy
unfolding toy_read toy_write
toy_laws = record {
  read_length = λ m a n d p. ground (arith, nat_beq_iff a 0, nat_beq_iff (length m.bytes) n);
  write_page = λ m a old d al l p. (
    record m { bytes = d },
    ground (
      arith,
      nat_beq_iff a 0,
      nat_beq_iff (length m.bytes) 4096,
      nat_beq_iff (length m.bytes) (length d),
    ),
    ground (arith, nat_beq_iff a 0, nat_beq_iff (length m.bytes) 4096, nat_beq_iff (length d) 4096),
  );
  write_unmapped = λ m a d al l p. ground (
    arith,
    nat_beq_iff a 0,
    nat_beq_iff (length m.bytes) 4096,
    nat_beq_iff (length m.bytes) (length d),
  );
  write_apart = λ m a q d m' p al o. toy_write_apart m a q d m' p o;
  write_regions = λ m a d m' p. refl;
  mapped_in_region =
      λ m q d al p. (zero_page, inl refl, omega arith, ground (arith, nat_beq_iff q 0));
  region_aligned = λ m r i. elim i [ inl p ↦ ground arith | inr f ↦ elim f [ ] ];
  restore_page = λ m c q. refl;
  restore_context = λ m c. refl;
}
