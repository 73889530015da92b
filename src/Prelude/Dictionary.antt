-- ===== src/Prelude/Dictionary.antt =====
-- Python's `dict` in insertion order. A write to a key that is there keeps its place, a new key goes
-- to the end: code that walks a dict sees this order.
use mathlib.Core.Path.{◌≡◌, refl, subst}
use mathlib.Core.Bool.{Bool, true, false}
use mathlib.Core.Option.{Option, none, some}
use mathlib.Core.List.{List, [], ◌∷◌}
use native.Mathlib.Omega.{arith}
use ghidra_unicorn.Prelude.Tests.{Bool-cases, if◌then◌else◌}
use ghidra_unicorn.Prelude.Lists.{In, All}
use mathlib.Core.Logic.{inl, inr}
use ghidra_unicorn.Prelude.Equality.{Key, ◌==◌}

abbrev pub Dict {ℓ κ} : Type ℓ → Type κ → Type (ℓ ⊔ κ)
Dict K V = List (K × V)

-- `a` if it is there, else `b`
abbrev pub or_else {ℓ} : {A : Type ℓ} → Option A → Option A → Option A
or_else none b = b
or_else (some a) b = some a

module _ {ℓ κ} {K : Type ℓ} {V : Type κ} ⦃e : Key K⦄ where
  -- d.get(k)
  unfoldable pub lookup : K → Dict K V → Option V
  lookup k [] = none
  lookup k ((i, w) ∷ rest) = if i == k then some w else lookup k rest

  -- k in d
  abbrev pub contains : K → Dict K V → Bool
  contains k d = elim (lookup k d) [ some _ ↦ true | none ↦ false ]

  -- d[k] = v
  unfoldable pub insert : K → V → Dict K V → Dict K V
  insert k v [] = (k, v) ∷ []
  insert k v ((j, w) ∷ d) = if j == k then (j, v) ∷ d else (j, w) ∷ insert k v d

  -- d.pop(k, None)
  unfoldable pub erase : K → Dict K V → Dict K V
  erase k [] = []
  erase k ((j, w) ∷ d) = let rest = erase k d in if j == k then rest else (j, w) ∷ rest

  -- d.update(e)
  unfoldable pub update : Dict K V → Dict K V → Dict K V
  update d [] = d
  update d ((k, v) ∷ u) = update (insert k v d) u

module _ {ℓ κ} {K : Type ℓ} {V : Type κ} ⦃e : Key K⦄ where
  pub lookup-insert :
      (k j : K) (v : V) (d : Dict K V)
      → lookup j (insert k v d) ≡ (if k == j then some v else lookup j d)
  unfolding lookup insert
  lookup-insert k j v [] = refl
  lookup-insert k j v ((i, w) ∷ d) =
      ground (arith, e.same_iff i k, e.same_iff i j, e.same_iff k j, lookup-insert k j v d)

  pub lookup-erase :
      (k j : K) (d : Dict K V) → lookup j (erase k d) ≡ (if k == j then none else lookup j d)
  unfolding lookup erase
  lookup-erase k j [] = ground arith
  lookup-erase k j ((i, w) ∷ d) =
      ground (arith, e.same_iff i k, e.same_iff i j, e.same_iff k j, lookup-erase k j d)

  -- No key stands twice, as in every dict.
  abbrev pub Unique : Dict K V → Type κ
  Unique [] = Unit
  Unique ((k, v) ∷ d) = (lookup k d ≡ none) × Unique d

  pub insert-Unique : (k : K) (v : V) (d : Dict K V) → Unique d → Unique (insert k v d)
  unfolding insert lookup
  insert-Unique k v [] h = (refl, tt)
  insert-Unique k v ((i, w) ∷ d) h =
      ground (arith, e.same_iff i k, e.same_iff k i, lookup-insert k i v d, insert-Unique k v d h.1)

  pub erase-Unique : (k : K) (d : Dict K V) → Unique d → Unique (erase k d)
  unfolding erase
  erase-Unique k [] h = tt
  erase-Unique k ((i, w) ∷ d) h = ground (arith, lookup-erase k i d, erase-Unique k d h.1)

  -- Without a second entry for its key, an entry is what `lookup` finds.
  pub lookup_of_In : (k : K) (v : V) (d : Dict K V) → Unique d → In (k, v) d → lookup k d ≡ some v
  unfolding lookup
  lookup_of_In k v [] h i = elim i [ ]
  lookup_of_In k v ((j, w) ∷ d) h (inl p) = ground (arith, e.same_iff j k)
  lookup_of_In k v ((j, w) ∷ d) h (inr i) = ground (arith, e.same_iff j k, lookup_of_In k v d h.1 i)

  pub In-lookup : (k : K) (v : V) (d : Dict K V) → lookup k d ≡ some v → In (k, v) d
  unfolding lookup
  In-lookup k v [] h = absurd (cc)
  In-lookup k v ((j, w) ∷ d) h = elim (Bool-cases (j == k)) [
    | inl p ↦ inl (ground (arith, e.same_iff j k))
    | inr p ↦ inr (In-lookup k v d (ground arith))
  ]

  pub lookup-update :
      (k : K) (d u : Dict K V)
      → Unique u
      → lookup k (update d u) ≡ or_else (lookup k u) (lookup k d)
  unfolding lookup update
  lookup-update k d [] h = refl
  lookup-update k d ((j, w) ∷ u) h =
      ground (arith, lookup-update k (insert j w d) u h.1, lookup-insert j k w d, e.same_iff j k)

  pub update-Unique : (d u : Dict K V) → Unique d → Unique (update d u)
  unfolding update
  update-Unique d [] h = h
  update-Unique d ((j, w) ∷ u) h = update-Unique (insert j w d) u (insert-Unique j w d h)

-- What holds of every entry holds of the one that is found.
pub lookup-All :
    {K V : Type 0} ⦃e : Key K⦄ (P : V → Type 0) (name : K) (d : Dict K V) (v : V)
    → All (λ (h : K × V). P h.1) d
    → lookup name d ≡ some v
    → P v
unfolding lookup
lookup-All P name [] v a p = absurd (cc)
lookup-All P name ((k, x) ∷ d) v a p = elim (Bool-cases (k == name)) [
  | inl q ↦ subst P (ground arith) a.0
  | inr q ↦ lookup-All P name d v a.1 (ground arith)
]
