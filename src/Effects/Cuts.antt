-- ===== src/Effects/Cuts.antt =====
-- What a rewind and a drop of the oldest history leave of a log (`truncate`, `forget_before`).
use ghidra_unicorn.Prelude.{
  nat_eq, ℕ, ◌≤◌, ◌<◌, ◌≡◌, refl, sym, ◌∙◌, ap, Option, none, some, List, [], ◌∷◌, ◌++◌, arith, ltb,
  leb, if◌then◌else◌, lookup, All, subst,
}
use ghidra_unicorn.Effects.{
  Effect, EffectLog, new_log, split_newest, split_oldest, truncate, forget_before, before_of,
}
use ghidra_unicorn.Effects.Entries.{
  After, Cut, IsIndexed, split_newest-Cut, split_oldest-Cut, index-kept, index-dropped, find-append,
  find-old, find-new, After-left, After-right,
}

module _ {S D : Type 0} where
  -- The entry of the first instruction at or after `k`.
  abbrev pub first_from : ℕ → List (Effect S D) → Option (Effect S D)
  first_from k [] = none
  first_from k (effect ∷ entries) =
      if leb k effect.icount then some effect else first_from k entries

  head-first_from :
      (k : ℕ) (a b : List (Effect S D))
      → All (λ (x : Effect S D). x.icount < k) a
      → All (λ (x : Effect S D). k ≤ x.icount) b
      → before_of b ≡ elim (first_from k (a ++ b)) [ none ↦ none | some x ↦ x.before ]
  head-first_from k [] [] o n = refl
  head-first_from k [] (effect ∷ b) o n = ground arith
  head-first_from k (effect ∷ a) b o n = ground (arith, head-first_from k a b o.1 n)

  -- A log with no entries is indexed.
  pub new_log-IsIndexed : IsIndexed (new_log {S = S} {D = D})
  unfolding lookup
  new_log-IsIndexed = record { ascending = tt; index = λ k. refl }

  -- `truncate` keeps a log indexed: its entries ascend, and its index finds exactly its entries.
  pub truncate-IsIndexed :
      (k : ℕ) (log : EffectLog S D) → IsIndexed log → IsIndexed (truncate k log).0
  unfolding truncate
  truncate-IsIndexed k log h =
      let a : List (Effect S D) = (split_newest k log.entries).0 in
      let b : List (Effect S D) = (split_newest k log.entries).1 in
      let c : Cut k log.entries (a, b) = split_newest-Cut k 0 log.entries h.ascending in
      record {
        ascending = After-left 0 a b (subst (λ l. After 0 l) (sym c.0) h.ascending);
        index = λ j. index-kept j k a b log.entries log.by_icount c (h.index j);
      }

  -- `forget_before` keeps a log indexed.
  pub forget_before-IsIndexed :
      (k : ℕ) (log : EffectLog S D) → IsIndexed log → IsIndexed (forget_before k log).0
  unfolding forget_before
  forget_before-IsIndexed k log h =
      let a : List (Effect S D) = (split_oldest k log.entries).0 in
      let b : List (Effect S D) = (split_oldest k log.entries).1 in
      let c : Cut k log.entries (a, b) = split_oldest-Cut k 0 log.entries h.ascending in
      record {
        ascending = After-right 0 a b (subst (λ l. After 0 l) (sym c.0) h.ascending);
        index = λ j. index-dropped j k a b log.entries log.by_icount c (h.index j);
      }

  -- In an indexed log, after `truncate k` the effect of an instruction before `k` is found as before, and none of an
  -- instruction at or after `k` is.
  pub lookup-truncate :
      (k j : ℕ) (log : EffectLog S D)
      → IsIndexed log
      → lookup j (truncate k log).0.by_icount ≡ (if ltb j k then lookup j log.by_icount else none)
  unfolding truncate
  lookup-truncate k j log h =
      let a : List (Effect S D) = (split_newest k log.entries).0 in
      let b : List (Effect S D) = (split_newest k log.entries).1 in
      let c : Cut k log.entries (a, b) = split_newest-Cut k 0 log.entries h.ascending in
      ground (
        arith,
        index-kept j k a b log.entries log.by_icount c (h.index j),
        h.index j,
        find-append j a b,
        c.0,
        find-old j k a c.1,
        find-new j k b c.2,
      )

  -- In an indexed log, after `forget_before k` the effect of an instruction at or after `k` is found as before, and
  -- none of an instruction before `k` is.
  pub lookup-forget_before :
      (k j : ℕ) (log : EffectLog S D)
      → IsIndexed log
      → lookup j (forget_before k log).0.by_icount
        ≡ (if ltb j k then none else lookup j log.by_icount)
  unfolding forget_before
  lookup-forget_before k j log h =
      let a : List (Effect S D) = (split_oldest k log.entries).0 in
      let b : List (Effect S D) = (split_oldest k log.entries).1 in
      let c : Cut k log.entries (a, b) = split_oldest-Cut k 0 log.entries h.ascending in
      ground (
        arith,
        index-dropped j k a b log.entries log.by_icount c (h.index j),
        h.index j,
        find-append j a b,
        c.0,
        find-old j k a c.1,
        find-new j k b c.2,
      )

  -- In an indexed log, the layer's own state that `truncate k` restores is the one from before the first effect at or
  -- after `k`, and nothing is restored where there is none.
  pub truncate-before :
      (k : ℕ) (log : EffectLog S D)
      → IsIndexed log
      → (truncate k log).1 ≡ elim (first_from k log.entries) [ none ↦ none | some x ↦ x.before ]
  unfolding truncate
  truncate-before k log h =
      let a : List (Effect S D) = (split_newest k log.entries).0 in
      let b : List (Effect S D) = (split_newest k log.entries).1 in
      let (p, o, n) : Cut k log.entries (a, b) = split_newest-Cut k 0 log.entries h.ascending in
      head-first_from k a b o n
      ∙ ap (λ l. elim (first_from k l) [ none ↦ none | some x ↦ x.before ]) p
