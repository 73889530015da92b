-- ===== src/Heap/Fit.antt =====
-- What `_fit` finds on the free list.
use ghidra_unicorn.Prelude.{
  nat_eq, ℕ, ◌≤◌, ◌≡◌, refl, ◌⊎◌, inl, inr, Option, none, some, [], ◌∷◌, arith, true, ltb,
  if◌then◌else◌, Dict, In, Bool-cases,
}
use ghidra_unicorn.Heap.{Block, Heap, better, fit_from, fit}

-- The best so far is large enough.
abbrev Suits : ℕ → Option Block → Type 0
Suits want none = Unit
Suits want (some b) = want ≤ b.capacity

module _ (want : ℕ) where
  better-le : (c x : Block) → better want (some c) x ≡ true → x.capacity ≤ c.capacity
  unfolding better
  better-le c x h = ground arith

  better-Suits :
      (best : Option Block) (x : Block)
      → Suits want best
      → Suits want (if better want best x then some x else best)
  unfolding better
  better-Suits best x s = ground arith

  -- A block that is large enough leaves a best that is no larger.
  better_of_large :
      (best : Option Block) (x : Block)
      → want ≤ x.capacity
      → (z : Block) × ((if better want best x then some x else best) ≡ some z)
        × (z.capacity ≤ x.capacity)
  unfolding better
  better_of_large none x w = (x, ground arith, omega arith)
  better_of_large (some c) x w = elim (Bool-cases (ltb x.capacity c.capacity)) [
    | inl p ↦ (x, ground arith, omega arith)
    | inr p ↦ (c, ground arith, ground arith)
  ]

  fit_from-In :
      (best : Option Block) (l : Dict ℕ Block) (b : Block)
      → fit_from want best l ≡ some b
      → (best ≡ some b) ⊎ ((a : ℕ) × In (a, b) l)
  unfolding fit_from
  fit_from-In best [] b h = inl h
  fit_from-In best ((a, x) ∷ l) b h =
      elim (fit_from-In (if better want best x then some x else best) l b h) [
        | inl p ↦ elim (Bool-cases (better want best x)) [
          | inl q ↦ inr (a, inl (ground arith))
          | inr q ↦ inl (ground arith)
        ]
        | inr (c, i) ↦ inr (c, inr i)
      ]

  fit_from-large :
      (best : Option Block) (l : Dict ℕ Block) (b : Block)
      → Suits want best
      → fit_from want best l ≡ some b
      → want ≤ b.capacity
  unfolding fit_from
  fit_from-large best [] b s h = ground arith
  fit_from-large best ((a, x) ∷ l) b s h =
      fit_from-large (if better want best x then some x else best) l b (better-Suits best x s) h

  -- The best so far is at least as large as the result.
  fit_from-le :
      (c : Block) (l : Dict ℕ Block)
      → (b : Block) × (fit_from want (some c) l ≡ some b) × (b.capacity ≤ c.capacity)
  unfolding fit_from
  fit_from-le c [] = (c, refl, ground arith)
  fit_from-le c ((a, x) ∷ l) = elim (Bool-cases (better want (some c) x)) [
    | inl p ↦
        let (b, e, le) = fit_from-le x l in let down = better-le c x p in rw p (b, e, omega arith)
    | inr p ↦ rw p (fit_from-le c l)
  ]

  fit_from-least :
      (best : Option Block) (l : Dict ℕ Block) (a : ℕ) (x : Block)
      → In (a, x) l
      → want ≤ x.capacity
      → (b : Block) × (fit_from want best l ≡ some b) × (b.capacity ≤ x.capacity)
  unfolding fit_from
  fit_from-least best [] a x i w = elim i [ ]
  fit_from-least best ((c, y) ∷ l) a x (inl p) w =
      let (z, e, le) = better_of_large best y (ground arith) in
      let (b, found, less) = fit_from-le z l in rw e (b, found, ground arith)
  fit_from-least best ((c, y) ∷ l) a x (inr i) w =
      fit_from-least (if better want best y then some y else best) l a x i w

-- `_fit` returns a block of the free list, large enough, and no larger than any other that is.
pub fit_best :
    (h : Heap) (want : ℕ) (b : Block)
    → fit h want ≡ some b
    → ((a : ℕ) × In (a, b) h.freed)
      × (want ≤ b.capacity)
      × ((a : ℕ) (x : Block) → In (a, x) h.freed → want ≤ x.capacity → b.capacity ≤ x.capacity)
unfolding fit
fit_best h want b e = (
  elim (fit_from-In want none h.freed b e) [ inl p ↦ absurd (cc) | inr i ↦ i ],
  fit_from-large want none h.freed b tt e,
  λ a x i w. let (c, f, le) = fit_from-least want none h.freed a x i w in ground arith,
)

-- `_fit` finds nothing only where no freed block is large enough.
pub fit-none :
    (h : Heap) (want a : ℕ) (x : Block)
    → fit h want ≡ none
    → In (a, x) h.freed
    → ¬ (want ≤ x.capacity)
unfolding fit
fit-none h want a x e i w = let (b, f, le) = fit_from-least want none h.freed a x i w in cc
