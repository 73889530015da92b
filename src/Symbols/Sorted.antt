-- ===== src/Symbols/Sorted.antt =====
-- The tables ascend by address.
use ghidra_unicorn.Prelude.{
  nat_eq, string_eq, nat_beq_iff, ℕ, ◌≤◌, ◌≡◌, inl, inr, Bool, true, false, List, [], ◌∷◌, ◌++◌,
  String, ltb, sort, place, All, arith, Bool-cases,
}
use ghidra_unicorn.Symbols.{Symbol, SymbolTable, symbol_le, with_size, extend}

-- No symbol is before one that it follows.
abbrev pub Ascending : List Symbol → Type 0
Ascending [] = Unit
Ascending (s ∷ l) = All (λ x. s.address ≤ x.address) l × Ascending l

module _ (name_le : String → String → Bool) where
  symbol_le-true : (a b : Symbol) → symbol_le name_le a b ≡ true → a.address ≤ b.address
  unfolding symbol_le
  symbol_le-true a b p = ground (arith, nat_beq_iff a.address b.address)

  symbol_le-false : (a b : Symbol) → symbol_le name_le a b ≡ false → b.address ≤ a.address
  unfolding symbol_le
  symbol_le-false a b p = ground (arith, nat_beq_iff a.address b.address)

  All-place :
      (n : ℕ) (x : Symbol) (l : List Symbol)
      → n ≤ x.address
      → All (λ s. n ≤ s.address) l
      → All (λ s. n ≤ s.address) (place (symbol_le name_le) x l)
  unfolding place
  All-place n x [] p a = (p, tt)
  All-place n x (y ∷ l) p a = elim (Bool-cases (symbol_le name_le x y)) [
    | inl q ↦ rw q (p, a)
    | inr q ↦ rw q (a.0, All-place n x l p a.1)
  ]

  All-from :
      (n m : ℕ) (l : List Symbol) → n ≤ m → All (λ s. m ≤ s.address) l → All (λ s. n ≤ s.address) l
  All-from n m [] p a = tt
  All-from n m (y ∷ l) p a = (omega (arith, a.0), All-from n m l p a.1)

  Ascending-place :
      (x : Symbol) (l : List Symbol) → Ascending l → Ascending (place (symbol_le name_le) x l)
  unfolding place
  Ascending-place x [] a = (tt, tt)
  Ascending-place x (y ∷ l) a = elim (Bool-cases (symbol_le name_le x y)) [
    | inl q ↦ let le = symbol_le-true x y q in rw q ((le, All-from x.address y.address l le a.0), a)
    | inr q ↦ rw q (All-place y.address x l (symbol_le-false x y q) a.0, Ascending-place x l a.1)
  ]

  Ascending-sort : (l : List Symbol) → Ascending (sort (symbol_le name_le) l)
  unfolding sort
  Ascending-sort [] = tt
  Ascending-sort (x ∷ l) = Ascending-place x (sort (symbol_le name_le) l) (Ascending-sort l)

All-with_size :
    (n : ℕ) (l : List Symbol) → All (λ s. n ≤ s.address) l → All (λ s. n ≤ s.address) (with_size l)
unfolding with_size
All-with_size n [] a = tt
All-with_size n (y ∷ l) a = elim (Bool-cases (ltb 0 y.size)) [
  | inl q ↦ rw q (a.0, All-with_size n l a.1)
  | inr q ↦ rw q (All-with_size n l a.1)
]

Ascending-with_size : (l : List Symbol) → Ascending l → Ascending (with_size l)
unfolding with_size
Ascending-with_size [] a = tt
Ascending-with_size (y ∷ l) a = elim (Bool-cases (ltb 0 y.size)) [
  | inl q ↦ rw q (All-with_size y.address l a.0, Ascending-with_size l a.1)
  | inr q ↦ rw q (Ascending-with_size l a.1)
]

-- Both tables ascend after `extend`.
pub extend-Ascending :
    (name_le : String → String → Bool) (symbols : List Symbol) (t : SymbolTable)
    → Ascending (extend name_le symbols t).sorted × Ascending (extend name_le symbols t).sized
unfolding extend
extend-Ascending name_le symbols t =
    let sorted = Ascending-sort name_le (t.sorted ++ symbols) in
    (sorted, Ascending-with_size (sort (symbol_le name_le) (t.sorted ++ symbols)) sorted)
