-- ===== src/Symbols/Enclosing.antt =====
-- The sized symbols that cover an address.
use ghidra_unicorn.Prelude.{
  ℕ, zero, suc, ◌+◌, ◌-◌, ◌≤◌, ◌<◌, ◌≡◌, sym, ◌∙◌, ap, subst, inl, inr, true, false, Option, none,
  some, List, ltb, arith, Bool-cases, some_inj,
}
use ghidra_unicorn.Symbols.{
  Symbol, SymbolTable, contains, nth, bisect_right, enclosing_turn, enclosing_from, enclosing,
}
use ghidra_unicorn.Symbols.Sorted.{Ascending}
use ghidra_unicorn.Symbols.Nearest.{Ascending-nth, bisect_right-after, bisect_right-there}

contains-sum :
    (address : ℕ) (s : Symbol)
    → contains s address ≡ true
    → s.address + (address - s.address) ≡ address
unfolding contains
contains-sum address s p = ground arith

contains-after : (address : ℕ) (s : Symbol) → address < s.address → contains s address ≡ false
unfolding contains
contains-after address s lt = ground arith

-- None of the symbols from one position up to another covers the address.
abbrev pub NoneCovers : ℕ → List Symbol → ℕ → ℕ → Type 0
NoneCovers address l low i =
    (j : ℕ) (x : Symbol) → low ≤ j → j < i → nth j l ≡ some x → contains x address ≡ false

-- None of the symbols that begin near the address covers it.
abbrev pub NoneNearCovers : ℕ → List Symbol → ℕ → Type 0
NoneNearCovers address l i =
    (j : ℕ) (x : Symbol)
    → j < i
    → nth j l ≡ some x
    → address ≤ x.address + 0x100000
    → contains x address ≡ false

-- The symbol at one position covers the address, and none after it does.
pub record Covers (address : ℕ) (l : List Symbol) (i : ℕ) (s : Symbol) (offset : ℕ) : Type 0 where
  pub at : ℕ
  pub there : nth at l ≡ some s
  pub covers : contains s address ≡ true
  pub sum : s.address + offset ≡ address
  pub last : NoneCovers address l (suc at) i

-- What is found among the first symbols.
abbrev pub Enclosed : ℕ → List Symbol → ℕ → Option (Symbol × ℕ) → Type 0
Enclosed address l i none = NoneNearCovers address l i
Enclosed address l i (some (s, offset)) = Covers address l i s offset

pub same_at :
    (i j : ℕ) (l : List Symbol) (x y : Symbol) → nth i l ≡ some y → nth j l ≡ some x → j ≡ i → y ≡ x
same_at i j l x y p q e = some_inj (sym p ∙ ap (λ k. nth k l) (sym e) ∙ q)

NoneNearCovers-suc :
    (address i : ℕ) (l : List Symbol) (y : Symbol)
    → nth i l ≡ some y
    → contains y address ≡ false
    → NoneNearCovers address l i
    → NoneNearCovers address l (suc i)
NoneNearCovers-suc address i l y there out before j x le q near = elim (Bool-cases (ltb j i)) [
  | inl b ↦ before j x (ground arith) q near
  | inr b ↦
      subst (λ z. contains z address ≡ false) (same_at i j l x y there q (ground (arith, le))) out
]

NoneCovers-suc :
    (address low i : ℕ) (l : List Symbol) (y : Symbol)
    → nth i l ≡ some y
    → contains y address ≡ false
    → NoneCovers address l low i
    → NoneCovers address l low (suc i)
NoneCovers-suc address low i l y there out before j x from le q = elim (Bool-cases (ltb j i)) [
  | inl b ↦ before j x from (ground arith) q
  | inr b ↦
      subst (λ z. contains z address ≡ false) (same_at i j l x y there q (ground (arith, le))) out
]

-- A symbol that is passed over is none that covers the address.
Enclosed-suc :
    (address i : ℕ) (l : List Symbol) (y : Symbol) (r : Option (Symbol × ℕ))
    → nth i l ≡ some y
    → contains y address ≡ false
    → Enclosed address l i r
    → Enclosed address l (suc i) r
Enclosed-suc address i l y none there out e = NoneNearCovers-suc address i l y there out e
Enclosed-suc address i l y (some (s, offset)) there out e = record {
  at = e.at;
  there = e.there;
  covers = e.covers;
  sum = e.sum;
  last = NoneCovers-suc address (suc e.at) i l y there out e.last;
}

NoneNearCovers-far :
    (address i : ℕ) (l : List Symbol) (y : Symbol)
    → Ascending l
    → nth i l ≡ some y
    → ltb 0x100000 (address - y.address) ≡ true
    → NoneNearCovers address l i
NoneNearCovers-far address i l y asc there far j x le q near =
    let before = Ascending-nth j i l x y asc (omega (arith, le)) q there in
    absurd (ground (arith, before, near, far))

covered :
    (address i : ℕ) (l : List Symbol) (y : Symbol)
    → nth i l ≡ some y
    → contains y address ≡ true
    → Covers address l (suc i) y (address - y.address)
covered address i l y there c = record {
  at = i;
  there = there;
  covers = c;
  sum = contains-sum address y c;
  last = λ j x from le q. absurd (omega (arith, from, le));
}

enclosing_turn-Enclosed :
    (address i : ℕ) (l : List Symbol) (y : Symbol) (r : Option (Symbol × ℕ))
    → Ascending l
    → nth i l ≡ some y
    → Enclosed address l i r
    → Enclosed address l (suc i) (enclosing_turn address (some y) r)
enclosing_turn-Enclosed address i l y r asc there before = elim (Bool-cases (contains y address)) [
  | inl c ↦ rw c (covered address i l y there c)
  | inr c ↦ rw c (elim (Bool-cases (ltb 0x100000 (address - y.address))) [
    | inl far ↦
        rw far (
          NoneNearCovers-suc address i l y there c (NoneNearCovers-far address i l y asc there far))
    | inr close ↦ rw close (Enclosed-suc address i l y r there c before)
  ])
]

enclosing_from-Enclosed :
    (address i : ℕ) (l : List Symbol)
    → Ascending l
    → i ≤ bisect_right address l
    → Enclosed address l i (enclosing_from address l i)
unfolding enclosing_from
enclosing_from-Enclosed address zero l asc le = λ j x lt. absurd (omega (arith, lt))
enclosing_from-Enclosed address (suc i) l asc le =
    let (y, there) = bisect_right-there address i l le in
    let before = enclosing_from-Enclosed address i l asc (omega (arith, le)) in
    subst (λ z. Enclosed address l (suc i) (enclosing_turn address z (enclosing_from address l i)))
      (sym there)
      (enclosing_turn-Enclosed address i l y (enclosing_from address l i) asc there before)

-- What `enclosing` finds in the table of the sized symbols.
abbrev pub EnclosedIn : ℕ → List Symbol → Option (Symbol × ℕ) → Type 0
EnclosedIn address l none =
    (j : ℕ) (x : Symbol)
    → nth j l ≡ some x
    → address ≤ x.address + 0x100000
    → contains x address ≡ false
EnclosedIn address l (some (s, offset)) =
    (at : ℕ) × (nth at l ≡ some s)
    × (contains s address ≡ true)
    × (s.address + offset ≡ address)
    × ((j : ℕ) (x : Symbol) → at < j → nth j l ≡ some x → contains x address ≡ false)

Enclosed-EnclosedIn :
    (address : ℕ) (l : List Symbol) (r : Option (Symbol × ℕ))
    → Ascending l
    → Enclosed address l (bisect_right address l) r
    → EnclosedIn address l r
Enclosed-EnclosedIn address l none asc e = λ j x q near.
    elim (Bool-cases (ltb j (bisect_right address l))) [
      | inl b ↦ e j x (ground arith) q near
      | inr b ↦ contains-after address x (bisect_right-after address j l x asc q (ground arith))
    ]
Enclosed-EnclosedIn address l (some (s, offset)) asc e = (
  e.at,
  e.there,
  e.covers,
  e.sum,
  λ j x past q. elim (Bool-cases (ltb j (bisect_right address l))) [
    | inl b ↦ e.last j x (omega (arith, past)) (ground arith) q
    | inr b ↦ contains-after address x (bisect_right-after address j l x asc q (ground arith))
  ],
)

-- In a table that ascends, a symbol that `enclosing` gives is one of the sized symbols, covers the
-- address, sums to it with the offset, and none that stands after it covers the address. When it
-- gives none, no sized symbol that begins at most 0x100000 before the address covers it.
pub enclosing-EnclosedIn :
    (address : ℕ) (t : SymbolTable)
    → Ascending t.sized
    → EnclosedIn address t.sized (enclosing address t)
unfolding enclosing
enclosing-EnclosedIn address t asc =
    Enclosed-EnclosedIn address t.sized
      (enclosing_from address t.sized (bisect_right address t.sized)) asc
      (enclosing_from-Enclosed address (bisect_right address t.sized) t.sized asc (omega arith))
