-- ===== src/Symbols/Nearest.antt =====
-- What the searches of the table find.
use ghidra_unicorn.Prelude.{
  nat_eq, string_eq, nat_beq_iff, ℕ, zero, suc, ◌+◌, ◌≤◌, ◌<◌, ◌≡◌, refl, sym, ◌∙◌, subst, inl, inr,
  Option, none, some, List, [], ◌∷◌, leb, leb→le, ◌==◌, All, arith, Bool-cases, some_inj,
}
use ghidra_unicorn.Symbols.{
  Symbol, SymbolTable, nth, bisect_right, back_up, first_at, nearest_of, nearest,
}
use ghidra_unicorn.Symbols.Sorted.{Ascending}

All-nth :
    (n i : ℕ) (l : List Symbol) (s : Symbol)
    → All (λ x. n ≤ x.address) l
    → nth i l ≡ some s
    → n ≤ s.address
unfolding nth
All-nth n i [] s a p = absurd (cc)
All-nth n zero (x ∷ l) s a p = subst (λ y. n ≤ y.address) (some_inj p) a.0
All-nth n (suc i) (x ∷ l) s a p = All-nth n i l s a.1 p

pub Ascending-nth :
    (i j : ℕ) (l : List Symbol) (a b : Symbol)
    → Ascending l
    → i ≤ j
    → nth i l ≡ some a
    → nth j l ≡ some b
    → a.address ≤ b.address
unfolding nth
Ascending-nth i j [] a b asc le p q = absurd (cc)
Ascending-nth zero zero (x ∷ l) a b asc le p q =
    let same : a ≡ b = some_inj (sym p ∙ q) in subst (λ y. a.address ≤ y.address) same (omega arith)
Ascending-nth zero (suc j) (x ∷ l) a b asc le p q =
    subst (λ y. y.address ≤ b.address) (some_inj p) (All-nth x.address j l b asc.0 q)
Ascending-nth (suc i) zero (x ∷ l) a b asc le p q = absurd (omega (arith, le))
Ascending-nth (suc i) (suc j) (x ∷ l) a b asc le p q =
    Ascending-nth i j l a b asc.1 (omega (arith, le)) p q

-- The symbols at and after the bisection point are after the address.
pub bisect_right-after :
    (address j : ℕ) (l : List Symbol) (s : Symbol)
    → Ascending l
    → nth j l ≡ some s
    → bisect_right address l ≤ j
    → address < s.address
unfolding nth bisect_right
bisect_right-after address j [] s asc p le = absurd (cc)
bisect_right-after address zero (x ∷ l) s asc p le = elim (Bool-cases (leb x.address address)) [
  | inl q ↦ absurd (ground arith)
  | inr q ↦ subst (λ y. address < y.address) (some_inj p) (ground arith)
]
bisect_right-after address (suc j) (x ∷ l) s asc p le = elim (Bool-cases (leb x.address address)) [
  | inl q ↦ bisect_right-after address j l s asc.1 p (ground arith)
  | inr q ↦
      let later = All-nth x.address j l s asc.0 p in
      let first : address < x.address = ground arith in omega (arith, later, first)
]

pub bisect_right-before :
    (address j : ℕ) (l : List Symbol) (s : Symbol)
    → nth j l ≡ some s
    → j < bisect_right address l
    → s.address ≤ address
unfolding nth bisect_right
bisect_right-before address j [] s p l = absurd (cc)
bisect_right-before address zero (x ∷ l) s p le = elim (Bool-cases (leb x.address address)) [
  | inl q ↦ subst (λ y. y.address ≤ address) (some_inj p) (leb→le x.address address q)
  | inr q ↦ absurd (ground arith)
]
bisect_right-before address (suc j) (x ∷ l) s p le =
    bisect_right-before address j l s p (ground arith)

-- There is a symbol before the bisection point.
pub bisect_right-there :
    (address i : ℕ) (l : List Symbol)
    → i < bisect_right address l
    → (x : Symbol) × (nth i l ≡ some x)
unfolding nth bisect_right
bisect_right-there address i [] le = absurd (omega (arith, le))
bisect_right-there address zero (x ∷ l) le = (x, refl)
bisect_right-there address (suc i) (x ∷ l) le = bisect_right-there address i l (ground arith)

-- There is a symbol before every symbol but the first.
nth-before :
    (i : ℕ) (l : List Symbol) (s : Symbol)
    → nth (suc i) l ≡ some s
    → (x : Symbol) × (nth i l ≡ some x)
unfolding nth
nth-before i [] s p = absurd (cc)
nth-before zero (x ∷ l) s p = (x, refl)
nth-before (suc i) (x ∷ l) s p = nth-before i l s p

-- A position of the first of the symbols at one address.
record FirstAt (addr : ℕ) (l : List Symbol) (at : ℕ) : Type 0 where
  found : Symbol
  there : nth at l ≡ some found
  here : found.address ≡ addr
  earlier : (j : ℕ) (x : Symbol) → j < at → nth j l ≡ some x → x.address < addr

back_up-FirstAt :
    (addr : ℕ) (l : List Symbol) (i : ℕ) (s : Symbol)
    → Ascending l
    → nth i l ≡ some s
    → s.address ≡ addr
    → FirstAt addr l (back_up addr l i)
unfolding back_up
back_up-FirstAt addr l zero s asc p e = record {
  found = s;
  there = p;
  here = e;
  earlier = λ j x lt. absurd (omega (arith, lt));
}
back_up-FirstAt addr l (suc i) s asc p e =
    let (y, q) = nth-before i l s p in
    rw q (elim (Bool-cases (y.address == addr)) [
      | inl b ↦ rw b (back_up-FirstAt addr l i y asc q ((nat_beq_iff y.address addr).0 b))
      | inr b ↦ rw b record {
        found = s;
        there = p;
        here = e;
        earlier = λ j x lt r.
            let low = Ascending-nth j i l x y asc (omega (arith, lt)) r q in
            let high = Ascending-nth i (suc i) l y s asc (omega arith) q p in
            ground (arith, low, high, e, b, nat_beq_iff y.address addr);
      }
    ])

-- The symbol that is found, with where it stands: at or before the address, none is nearer, and those
-- that stand before it are at addresses before its own.
pub record Nearest (address : ℕ) (l : List Symbol) (s : Symbol) (offset : ℕ) : Type 0 where
  pub at : ℕ
  pub there : nth at l ≡ some s
  pub sum : s.address + offset ≡ address
  pub none_nearer :
      (j : ℕ) (x : Symbol) → nth j l ≡ some x → x.address ≤ address → x.address ≤ s.address
  pub earlier : (j : ℕ) (x : Symbol) → j < at → nth j l ≡ some x → x.address < s.address

-- What `nearest` finds: nothing only where every symbol is after the address.
abbrev pub NearestIn : ℕ → List Symbol → Option (Symbol × ℕ) → Type 0
NearestIn address l none = (j : ℕ) (x : Symbol) → nth j l ≡ some x → address < x.address
NearestIn address l (some (s, offset)) = Nearest address l s offset

first_at-NearestIn :
    (address i : ℕ) (l : List Symbol) (y : Symbol)
    → Ascending l
    → bisect_right address l ≡ suc i
    → nth i l ≡ some y
    → NearestIn address l (first_at address l i (some y))
first_at-NearestIn address i l y asc split p =
    let first = back_up-FirstAt y.address l i y asc p refl in
    let low = bisect_right-before address i l y p (omega (arith, split)) in
    let same = first.here in
    rw first.there record {
      at = back_up y.address l i;
      there = first.there;
      sum = omega (arith, same, low);
      none_nearer = λ j z q le. elim (Bool-cases (leb j i)) [
        | inl b ↦
            let before = Ascending-nth j i l z y asc (leb→le j i b) q p in
            omega (arith, before, same)
        | inr b ↦
            let past : bisect_right address l ≤ j = ground (arith, split) in
            let after = bisect_right-after address j l z asc q past in
            absurd (omega (arith, after, le))
      ];
      earlier = λ j x lt q. let before = first.earlier j x lt q in omega (arith, before, same);
    }

nearest_of-NearestIn :
    (address i : ℕ) (l : List Symbol)
    → Ascending l
    → bisect_right address l ≡ i
    → NearestIn address l (nearest_of address l i)
nearest_of-NearestIn address zero l asc split =
    λ j x q. bisect_right-after address j l x asc q (omega (arith, split))
nearest_of-NearestIn address (suc i) l asc split =
    let (y, there) = bisect_right-there address i l (omega (arith, split)) in
    subst (λ z. NearestIn address l (first_at address l i z)) (sym there)
      (first_at-NearestIn address i l y asc split there)

-- In a table that ascends, the symbol that `nearest` gives is at or before the address, which it
-- and the offset sum to; no symbol at or before the address is after it, and every symbol that
-- stands before it is at an address before its own. It gives none only if every symbol is after the
-- address.
pub nearest-NearestIn :
    (address : ℕ) (t : SymbolTable)
    → Ascending t.sorted
    → NearestIn address t.sorted (nearest address t)
unfolding nearest
nearest-NearestIn address t asc =
    nearest_of-NearestIn address (bisect_right address t.sorted) t.sorted asc refl
