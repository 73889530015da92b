-- ===== src/Effects/Entries.antt =====
-- The entries of a log: the cuts of `truncate` and `forget_before`, and the index by instruction.
use ghidra_unicorn.Prelude.{
  nat_eq, nat_beq_iff, ℕ, ◌+◌, ◌≤◌, ◌<◌, ◌≡◌, refl, ap, Option, none, some, List, [], ◌∷◌, ◌++◌,
  arith, ltb, leb, ◌==◌, if◌then◌else◌, Dict, lookup, erase, All, or_else, lookup-erase, Bool-cases,
  inl, inr,
}
use ghidra_unicorn.Effects.{Effect, EffectLog, cut_newest, split_newest, split_oldest, unindex}

module _ {S D : Type 0} where
  -- The instructions of the entries ascend, each after the one before.
  abbrev pub After : ℕ → List (Effect S D) → Type 0
  After k [] = Unit
  After k (effect ∷ entries) = (k ≤ effect.icount) × After (effect.icount + 1) entries

  -- The entry of an instruction, found by walking the entries.
  abbrev pub find : ℕ → List (Effect S D) → Option (Effect S D)
  find k [] = none
  find k (effect ∷ entries) = if effect.icount == k then some effect else find k entries

  -- A log between two calls: the entries ascend, and the index finds what the entries hold.
  pub record IsIndexed (log : EffectLog S D) : Type 0 where
    pub ascending : After 0 log.entries
    pub index : (k : ℕ) → lookup k log.by_icount ≡ find k log.entries

  All-After :
      (k n : ℕ) (entries : List (Effect S D))
      → k ≤ n
      → After n entries
      → All (λ (x : Effect S D). k ≤ x.icount) entries
  All-After k n [] l h = tt
  All-After k n (effect ∷ entries) l h =
      (ground arith, All-After k (effect.icount + 1) entries (ground arith) h.1)

  find-below :
      (k n : ℕ) (entries : List (Effect S D)) → After n entries → k < n → find k entries ≡ none
  find-below k n [] h l = refl
  find-below k n (effect ∷ entries) h l =
      ground (arith, find-below k (effect.icount + 1) entries h.1)

  -- `kept` and `popped` are the entries, those before `k` and those that are not.
  abbrev pub Cut : ℕ → List (Effect S D) → List (Effect S D) × List (Effect S D) → Type 0
  Cut k entries (kept, popped) =
      (kept ++ popped ≡ entries)
      × All (λ (x : Effect S D). x.icount < k) kept
      × All (λ (x : Effect S D). k ≤ x.icount) popped

  cut_newest-Cut :
      (k : ℕ) (effect : Effect S D) (entries kept popped : List (Effect S D))
      → After (effect.icount + 1) entries
      → Cut k entries (kept, popped)
      → Cut k (effect ∷ entries) (cut_newest k effect kept popped)
  cut_newest-Cut k effect entries [] popped h (p, _, new) =
      elim (Bool-cases (leb k effect.icount)) [
        | inl q ↦ rw q (ap (λ l. effect ∷ l) p, tt, (ground arith, new))
        | inr q ↦ rw q (ap (λ l. effect ∷ l) p, (ground arith, tt), new)
      ]
  cut_newest-Cut k effect [] (next ∷ more) popped h (p, (b, old), new) = absurd (cc)
  cut_newest-Cut k effect (first ∷ entries) (next ∷ more) popped h (p, (b, old), new) =
      let q : next.icount ≡ first.icount = ap (λ l. elim l [ [] ↦ 0 | x ∷ _ ↦ x.icount ]) p in
      (ap (λ l. effect ∷ l) p, (ground arith, (b, old)), new)

  pub split_newest-Cut :
      (k n : ℕ) (entries : List (Effect S D))
      → After n entries
      → Cut k entries (split_newest k entries)
  unfolding split_newest
  split_newest-Cut k n [] h = (refl, tt, tt)
  split_newest-Cut k n (effect ∷ entries) h =
      cut_newest-Cut k effect entries (split_newest k entries).0 (split_newest k entries).1 h.1
        (split_newest-Cut k (effect.icount + 1) entries h.1)

  -- The cut of `forget_before`: what goes comes first.
  pub split_oldest-Cut :
      (k n : ℕ) (entries : List (Effect S D))
      → After n entries
      → Cut k entries (split_oldest k entries)
  unfolding split_oldest
  split_oldest-Cut k n [] h = (refl, tt, tt)
  split_oldest-Cut k n (effect ∷ entries) h =
      let (whole, old, new) = split_oldest-Cut k (effect.icount + 1) entries h.1 in
      elim (Bool-cases (ltb effect.icount k)) [
        | inl q ↦ rw q (ap (λ l. effect ∷ l) whole, (ground arith, old), new)
        | inr q ↦
            rw q
              (refl, tt, (ground arith, All-After k (effect.icount + 1) entries (ground arith) h.1))
      ]

  pub find-unindex :
      (j : ℕ) (entries : List (Effect S D)) (index : Dict ℕ (Effect S D))
      → lookup j (unindex entries index)
        ≡ elim (find j entries) [ none ↦ lookup j index | some _ ↦ none ]
  unfolding unindex
  find-unindex j [] index = refl
  find-unindex j (effect ∷ entries) index = ground (
    arith,
    nat_beq_iff effect.icount j,
    lookup-erase effect.icount j index,
    find-unindex j entries (erase effect.icount index),
  )

  pub find-append :
      (j : ℕ) (a b : List (Effect S D)) → find j (a ++ b) ≡ or_else (find j a) (find j b)
  find-append j [] b = refl
  find-append j (effect ∷ a) b = ground (arith, find-append j a b)

  pub find-old :
      (j k : ℕ) (entries : List (Effect S D))
      → All (λ (x : Effect S D). x.icount < k) entries
      → k ≤ j
      → find j entries ≡ none
  find-old j k [] h l = refl
  find-old j k (effect ∷ entries) h l = ground (arith, find-old j k entries h.1 l)

  pub find-new :
      (j k : ℕ) (entries : List (Effect S D))
      → All (λ (x : Effect S D). k ≤ x.icount) entries
      → j < k
      → find j entries ≡ none
  find-new j k [] h l = refl
  find-new j k (effect ∷ entries) h l = ground (arith, find-new j k entries h.1 l)

  pub After-left : (n : ℕ) (a b : List (Effect S D)) → After n (a ++ b) → After n a
  After-left n [] b h = tt
  After-left n (effect ∷ a) b h = (h.0, After-left (effect.icount + 1) a b h.1)

  pub After-lower : (m n : ℕ) (a : List (Effect S D)) → m ≤ n → After n a → After m a
  After-lower m n [] l h = tt
  After-lower m n (effect ∷ a) l h = (ground arith, h.1)

  pub After-right : (n : ℕ) (a b : List (Effect S D)) → After n (a ++ b) → After 0 b
  After-right n [] b h = After-lower 0 n b (ground arith) h
  After-right n (effect ∷ a) b h = After-right (effect.icount + 1) a b h.1

  -- Dropping the entries that are not before `k` from the index.
  pub index-kept :
      (j k : ℕ) (a b entries : List (Effect S D)) (index : Dict ℕ (Effect S D))
      → Cut k entries (a, b)
      → lookup j index ≡ find j entries
      → lookup j (unindex b index) ≡ find j a
  index-kept j k a b entries index (whole, old, new) p = ground (
    arith,
    find-unindex j b index,
    find-append j a b,
    find-old j k a old,
    find-new j k b new,
    whole,
    p,
  )

  pub index-dropped :
      (j k : ℕ) (a b entries : List (Effect S D)) (index : Dict ℕ (Effect S D))
      → Cut k entries (a, b)
      → lookup j index ≡ find j entries
      → lookup j (unindex a index) ≡ find j b
  index-dropped j k a b entries index (whole, old, new) p = ground (
    arith,
    find-unindex j a index,
    find-append j a b,
    find-old j k a old,
    find-new j k b new,
    whole,
    p,
  )
