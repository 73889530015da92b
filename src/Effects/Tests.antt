-- ===== src/Effects/Tests.antt =====
-- A log of two effects, cut by a rewind and by the loss of the oldest history.
use ghidra_unicorn.Prelude.{
  nat_eq, ℕ, ◌≡◌, refl, none, some, [], ◌∷◌, arith, ltb, if◌then◌else◌, lookup,
}
use ghidra_unicorn.Effects.{Effect, EffectLog, new_effect, truncate, forget_before}
use ghidra_unicorn.Effects.Entries.{IsIndexed}
use ghidra_unicorn.Effects.Cuts.{
  first_from, truncate-IsIndexed, lookup-truncate, lookup-forget_before, truncate-before,
}

abbrev opening : Effect ℕ ℕ
opening = new_effect 3 "open" (some 10)

abbrev reading : Effect ℕ ℕ
reading = new_effect 7 "read" (some 11)

abbrev log : EffectLog ℕ ℕ
log = record {
  entries = opening ∷ reading ∷ [];
  by_icount = (3, opening) ∷ (7, reading) ∷ [];
  current = none;
}

log-IsIndexed : IsIndexed log
unfolding lookup
log-IsIndexed = record { ascending = (omega arith, (omega arith, tt)); index = λ k. refl }

truncate-IsIndexed_example : IsIndexed (truncate 5 log).0
truncate-IsIndexed_example = truncate-IsIndexed 5 log log-IsIndexed

lookup-truncate_example :
    lookup 3 (truncate 5 log).0.by_icount ≡ (if ltb 3 5 then lookup 3 log.by_icount else none)
lookup-truncate_example = lookup-truncate 5 3 log log-IsIndexed

lookup-forget_before_example :
    lookup 3 (forget_before 5 log).0.by_icount ≡ (if ltb 3 5 then none else lookup 3 log.by_icount)
lookup-forget_before_example = lookup-forget_before 5 3 log log-IsIndexed

truncate-before_example :
    (truncate 5 log).1 ≡ elim (first_from 5 log.entries) [ none ↦ none | some x ↦ x.before ]
truncate-before_example = truncate-before 5 log log-IsIndexed
