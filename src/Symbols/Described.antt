-- ===== src/Symbols/Described.antt =====
-- The labels that describe an address outside every function.
use ghidra_unicorn.Prelude.{
  string_eq, nat_eq, ℕ, zero, suc, ◌+◌, ◌-◌, ◌≤◌, ◌<◌, ◌≡◌, refl, sym, ◌∙◌, ap, subst, inl, inr,
  true, false, Option, none, some, String, ltb, arith, Bool-cases,
}
use ghidra_unicorn.Symbols.{
  Symbol, SymbolTable, nth, bisect_right, is_none, enclosing, label_turn, label_from, described,
  describe,
}
use ghidra_unicorn.Symbols.Sorted.{Ascending}
use ghidra_unicorn.Symbols.Nearest.{Ascending-nth, bisect_right-before, bisect_right-there}
use ghidra_unicorn.Symbols.Enclosing.{same_at}

module _ (address max_offset : ℕ) (t : SymbolTable) where
  -- A label without a size, outside every sized symbol and near the address.
  pub record Labelled (name : String) (offset : ℕ) : Type 0 where
    pub at : ℕ
    pub label : Symbol
    pub there : nth at t.sorted ≡ some label
    pub named : label.name ≡ name
    pub sum : label.address + offset ≡ address
    pub near : offset ≤ max_offset
    pub bare : label.size ≡ 0
    pub outside : enclosing label.address t ≡ none

  -- A sized symbol at or after one position, and before another.
  pub record SizedBetween (low high : ℕ) : Type 0 where
    pub at : ℕ
    pub symbol : Symbol
    pub from : low ≤ at
    pub before : at < high
    pub there : nth at t.sorted ≡ some symbol
    pub sized : 0 < symbol.size

  -- What is found among the first symbols. Nothing is, only if each near one that is outside every sized
  -- symbol has a size, or has one with a size after it.
  abbrev pub LabelIn : ℕ → Option (String × ℕ) → Type 0
  LabelIn i none =
      (j : ℕ) (x : Symbol)
      → j < i
      → nth j t.sorted ≡ some x
      → address ≤ x.address + max_offset
      → enclosing x.address t ≡ none
      → SizedBetween j i
  LabelIn i (some (name, offset)) = Labelled name offset

  is_none-true : (r : Option (Symbol × ℕ)) → is_none r ≡ true → r ≡ none
  is_none-true none p = refl
  is_none-true (some _) p = absurd (cc)

  -- A label inside a sized symbol is passed over.
  LabelIn-suc :
      (i : ℕ) (y : Symbol) (r : Option (String × ℕ))
      → nth i t.sorted ≡ some y
      → is_none (enclosing y.address t) ≡ false
      → LabelIn i r
      → LabelIn (suc i) r
  LabelIn-suc i y (some (name, offset)) there inside before = before
  LabelIn-suc i y none there inside before = λ j x lt q near out. elim (Bool-cases (ltb j i)) [
    | inl b ↦
        let s = before j x (ground arith) q near out in
        record {
          at = s.at;
          symbol = s.symbol;
          from = s.from;
          before = omega (arith, s.before);
          there = s.there;
          sized = s.sized;
        }
    | inr b ↦
        let same : y ≡ x = same_at i j t.sorted x y there q (ground (arith, lt)) in
        let none_there : enclosing y.address t ≡ none =
          ap (λ z. enclosing (z.address) t) same ∙ out in
        let both : is_none (enclosing y.address t) ≡ true = ap is_none none_there in absurd (cc)
  ]

  label_turn-LabelIn :
      (i : ℕ) (y : Symbol) (r : Option (String × ℕ))
      → Ascending t.sorted
      → nth i t.sorted ≡ some y
      → y.address ≤ address
      → LabelIn i r
      → LabelIn (suc i) (label_turn address max_offset t (some y) r)
  label_turn-LabelIn i y r asc there low before =
      elim (Bool-cases (ltb max_offset (address - y.address))) [
        | inl far ↦ rw far (λ j x lt q near out.
            let first = Ascending-nth j i t.sorted x y asc (omega (arith, lt)) q there in
            absurd (ground (arith, first, near, far)))
        | inr close ↦ rw close (elim (Bool-cases (ltb 0 y.size)) [
          | inl sized ↦ rw sized (λ j x lt q near out. record {
            at = i;
            symbol = y;
            from = omega (arith, lt);
            before = omega arith;
            there = there;
            sized = ground (arith, sized);
          })
          | inr bare ↦ rw bare (elim (Bool-cases (is_none (enclosing y.address t))) [
            | inl out ↦ rw out record {
              at = i;
              label = y;
              there = there;
              named = refl;
              sum = omega (arith, low);
              near = ground (arith, close);
              bare = ground (arith, bare);
              outside = is_none-true (enclosing y.address t) out;
            }
            | inr inside ↦ rw inside (LabelIn-suc i y r there inside before)
          ])
        ])
      ]

  label_from-LabelIn :
      (i : ℕ)
      → Ascending t.sorted
      → i ≤ bisect_right address t.sorted
      → LabelIn i (label_from address max_offset t i)
  unfolding label_from
  label_from-LabelIn zero asc le = λ j x lt. absurd (omega (arith, lt))
  label_from-LabelIn (suc i) asc le =
      let (y, there) = bisect_right-there address i t.sorted le in
      let low = bisect_right-before address i t.sorted y there le in
      let before = label_from-LabelIn i asc (omega (arith, le)) in
      subst
        (λ z.
          LabelIn (suc i) (label_turn address max_offset t z (label_from address max_offset t i)))
        (sym there)
        (label_turn-LabelIn i y (label_from address max_offset t i) asc there low before)

  -- What describes an address: what encloses it, else a label.
  abbrev pub DescribedIn : Option (Symbol × ℕ) → Option (String × ℕ) → Type 0
  DescribedIn (some (s, offset)) r = r ≡ some (s.name, offset)
  DescribedIn none r = LabelIn (bisect_right address t.sorted) r

  described-DescribedIn :
      (e : Option (Symbol × ℕ))
      → Ascending t.sorted
      → DescribedIn e (described address max_offset t e)
  described-DescribedIn (some (s, offset)) asc = refl
  described-DescribedIn none asc =
      label_from-LabelIn (bisect_right address t.sorted) asc (omega arith)

-- In a table that ascends, `describe` names the symbol that encloses the address. Where none does, it
-- names a label without a size, outside every sized symbol and at most `max_offset` before the
-- address. It gives nothing only if each symbol that is so near and that nothing encloses has a size,
-- or one with a size stands after it and at or before the address.
pub describe-DescribedIn :
    (address max_offset : ℕ) (t : SymbolTable)
    → Ascending t.sorted
    → DescribedIn address max_offset t (enclosing address t) (describe address max_offset t)
unfolding describe
describe-DescribedIn address max_offset t asc =
    described-DescribedIn address max_offset t (enclosing address t) asc
