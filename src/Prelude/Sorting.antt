-- ===== src/Prelude/Sorting.antt =====
-- `sorted`: a stable insertion sort by a Boolean test. The items stay the same.
use mathlib.Core.Path.{◌≡◌}
use mathlib.Core.Logic.{◌⊎◌, inl, inr}
use mathlib.Core.Bool.{Bool}
use mathlib.Core.List.{List, [], ◌∷◌}
use ghidra_unicorn.Prelude.Tests.{if◌then◌else◌, Bool-cases}
use ghidra_unicorn.Prelude.Lists.{In}

module _ {ℓ} {A : Type ℓ} (le : A → A → Bool) where
  unfoldable pub place : A → List A → List A
  place x [] = x ∷ []
  place x (y ∷ l) = if le x y then x ∷ y ∷ l else y ∷ place x l

  unfoldable pub sort : List A → List A
  sort [] = []
  sort (x ∷ l) = place x (sort l)

module _ {ℓ} {A : Type ℓ} (le : A → A → Bool) where
  In-place : (a x : A) (l : List A) → (a ≡ x) ⊎ In a l → In a (place le x l)
  unfolding place
  In-place a x [] h = h
  In-place a x (y ∷ l) h = elim (Bool-cases (le x y)) [
    | inl p ↦ rw p h
    | inr p ↦ rw p (elim h [
      | inl q ↦ inr (In-place a x l (inl q))
      | inr i ↦ elim i [ inl q ↦ inl q | inr j ↦ inr (In-place a x l (inr j)) ]
    ])
  ]

  In-place_inv : (a x : A) (l : List A) → In a (place le x l) → (a ≡ x) ⊎ In a l
  unfolding place
  In-place_inv a x [] h = h
  In-place_inv a x (y ∷ l) h = elim (Bool-cases (le x y)) [
    | inl p ↦ rw p at h
    | inr p ↦ elim (rw p at h) [
      | inl q ↦ inr (inl q)
      | inr j ↦ elim (In-place_inv a x l j) [ inl q ↦ inl q | inr k ↦ inr (inr k) ]
    ]
  ]

  pub In-sort : (a : A) (l : List A) → In a l → In a (sort le l)
  unfolding sort
  In-sort a [] i = i
  In-sort a (x ∷ l) (inl p) = In-place a x (sort le l) (inl p)
  In-sort a (x ∷ l) (inr i) = In-place a x (sort le l) (inr (In-sort a l i))

  pub In-sort_inv : (a : A) (l : List A) → In a (sort le l) → In a l
  unfolding sort
  In-sort_inv a [] i = i
  In-sort_inv a (x ∷ l) i = elim (In-place_inv a x (sort le l) i) [
    | inl p ↦ inl p
    | inr j ↦ inr (In-sort_inv a l j)
  ]
