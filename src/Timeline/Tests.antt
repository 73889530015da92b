-- ===== src/Timeline/Tests.antt =====
-- A history of the one-page machine: a page of zeros is overwritten and brought back.
use ghidra_unicorn.Prelude.{
  nat_eq, nat_beq_iff, ℕ, ◌≤◌, ◌≡◌, refl, true, ◌&&◌, ◌||◌, none, some, [], ◌∷◌, arith, ltb, length,
  drop, replicate, lookup, sort, place, ◌-◌,
}
use ghidra_unicorn.Engine.{Bytes, page_at, Aligned}
use ghidra_unicorn.Engine.Toy.{OnePage, zero_page, toy, toy_read, toy_write, toy_laws}
use ghidra_unicorn.Timeline.{
  Checkpoint, Timeline, has, touch, read_pages, nbytes, enforce_budget, note_instruction,
  sync_regions, wanted_regions, best_from, restore, note_write, touch, bounds_in, unmap_stale,
  map_missing, taken, checkpoint, nbytes_of, fold_over, sum_lengths, read_list,
}
use ghidra_unicorn.Timeline.Touch.{has-touch}
use ghidra_unicorn.Timeline.Images.{
  Shot, history, IsPages, history-enforce_budget, enforce_budget-le,
}
use ghidra_unicorn.Timeline.Restore.{restore-newest, overlay, newest}
use ghidra_unicorn.Timeline.Exact.{Faithful, latest}
use ghidra_unicorn.Timeline.Rewind.{here, wrote, restore-Run}

abbrev blank : Bytes
blank = replicate 4096 0

abbrev inked : Bytes
inked = replicate 4096 7

abbrev machine : OnePage
machine = record { bytes = blank; register = 5 }

abbrev written : OnePage
written = record { bytes = inked; register = 6 }

abbrev first : Checkpoint ℕ
first = record { icount = 0; context = 5; pages = (0, blank) ∷ []; regions = some (zero_page ∷ []) }

abbrev second : Checkpoint ℕ
second = record { icount = 3; context = 6; pages = (0, inked) ∷ []; regions = none }

abbrev session : Timeline ℕ
session = record {
  interval = 2;
  budget = 4000;
  enabled = true;
  icount = 4;
  base = some first;
  checkpoints = second ∷ [];
  dirty = [];
  dropped = 0;
  next = 5;
}

has-touch_example : has 4096 (touch 4090 10 []) ≡ (ltb 4090 8192 && ltb 4096 4100 || has 4096 [])
has-touch_example = has-touch 4090 10 4096 [] refl

history-enforce_budget_example :
    history toy (enforce_budget toy session).0
    ≡ drop ((enforce_budget toy session).0.dropped - 0) (history toy session)
history-enforce_budget_example = history-enforce_budget toy session

enforce_budget-le_example : nbytes toy (enforce_budget toy session).0.checkpoints ≤ 4000
enforce_budget-le_example = enforce_budget-le toy session (λ p. absurd (cc))

length-blank : length blank ≡ 4096
length-blank = refl

length-inked : length inked ≡ 4096
length-inked = refl

first_pages : IsPages first.pages
unfolding lookup
first_pages = ((refl, tt), ((refl, refl), tt))

second_pages : IsPages second.pages
unfolding lookup
second_pages = ((refl, tt), ((refl, refl), tt))

no_change :
    sync_regions toy session written
      (wanted_regions toy first (best_from toy 3 first (second ∷ [])))
    ≡ written
unfolding sync_regions wanted_regions best_from unmap_stale map_missing bounds_in
no_change = refl

restore-newest_example :
    (cp : Checkpoint ℕ) × (m' : OnePage) × (s : Shot ℕ) × (restore toy session written 3
      ≡ some (cp, m'))
    × (newest 3 (history toy session) ≡ some s)
    × (cp.icount ≡ s.icount)
    × (m'.register ≡ s.context)
    × ((q : ℕ) → Aligned q → page_at toy m' q ≡ overlay (page_at toy written q) (s.memory q))
restore-newest_example =
    restore-newest toy toy_laws session first written 3 refl
      (first_pages, omega arith, second_pages) (omega arith) no_change

abbrev due : Timeline ℕ
due = record session { checkpoints = []; next = 4 }

abbrev overwritten : OnePage
overwritten = record { bytes = inked; register = 5 }

-- After the checkpoint at instruction 4 the page is written over.
abbrev later : Timeline ℕ
later = note_write toy (note_instruction toy due machine).0 0 (length inked)

write_inked : toy_write machine 0 inked ≡ some overwritten
unfolding toy_write
write_inked = refl

due-Faithful : Faithful toy due machine first
unfolding latest
due-Faithful = record {
  recorded = refl;
  ascending = first_pages;
  before = omega arith;
  dirty_aligned = tt;
  current = λ q d al h p. unfold toy_read in unfold lookup in ground (arith, nat_beq_iff q 0);
}

later_base : later.base ≡ some first
unfolding note_write note_instruction checkpoint taken enforce_budget fold_over nbytes nbytes_of
    sum_lengths read_pages read_list sort
later_base = refl

no_change_later :
    sync_regions toy later overwritten
      (wanted_regions toy first (best_from toy 4 first later.checkpoints))
    ≡ overwritten
unfolding note_write note_instruction checkpoint taken enforce_budget fold_over nbytes nbytes_of
    sum_lengths read_pages read_list sort place sync_regions wanted_regions best_from unmap_stale
    map_missing bounds_in
no_change_later = refl

restore-Run_example :
    (cp : Checkpoint ℕ) × (back : OnePage) × (restore toy later overwritten 4 ≡ some (cp, back))
    × (cp.icount ≡ 4)
    × (back.register ≡ 5)
    × ((q : ℕ) (old new : Bytes)
        → Aligned q
        → page_at toy machine q ≡ some old
        → page_at toy overwritten q ≡ some new
        → page_at toy back q ≡ some old)
restore-Run_example =
    restore-Run toy toy_laws machine due first later overwritten first refl (omega arith)
      due-Faithful (wrote 0 inked overwritten here write_inked) later_base (omega arith)
      no_change_later
