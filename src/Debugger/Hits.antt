-- ===== src/Debugger/Hits.antt =====
-- ghidraunicorn/target.py: conditions, hit counts, and undoing them. A breakpoint that the code holds a
-- reference to is the one under its number; `hits` is newest first, so the code's list is read backwards.
pub mod Undone
use ghidra_unicorn.Prelude.{
  nat_eq, ℕ, ◌+◌, ◌-◌, ◌⊎◌, inl, inr, Bool, true, false, not, ◌&&◌, ◌||◌, Option, none, some, List,
  [], ◌∷◌, String, ltb, leb, ◌==◌, if◌then◌else◌, Dict, lookup, insert, sort,
}
use ghidra_unicorn.Debugger.{Host, Session, Breakpoint, Extra, Hit, forget_layers}

module _ {Code : Type 0} where
  -- The breakpoint as the evaluation of its condition leaves it, and the result.
  abbrev pub judged : String ⊎ Bool → Breakpoint Code → Breakpoint Code × Bool
  judged (inl error) bp = (record bp { condition_error = some error }, true)
  judged (inr result) bp = (record bp { condition_error = none }, result)

  -- The counts after a hit: an ignore count consumes it.
  abbrev pub fired : Breakpoint Code → Breakpoint Code
  fired bp = record bp { hit_count = bp.hit_count + 1; ignore_count = bp.ignore_count - 1 }

  abbrev pub unfired : Bool → Breakpoint Code → Breakpoint Code
  unfired ignored bp = record bp {
    hit_count = bp.hit_count - 1;
    ignore_count = if ignored then bp.ignore_count + 1 else bp.ignore_count;
  }

  -- A breakpoint that was deleted is passed over.
  abbrev pub unfire_found :
      Hit → Option (Breakpoint Code) → Dict ℕ (Breakpoint Code) → Dict ℕ (Breakpoint Code)
  unfire_found hit none breakpoints = breakpoints
  unfire_found hit (some bp) breakpoints = insert hit.num (unfired hit.ignored bp) breakpoints

  -- The body of the loop of `_undo_hits`.
  unfoldable pub unfire : Hit → Dict ℕ (Breakpoint Code) → Dict ℕ (Breakpoint Code)
  unfire hit breakpoints = unfire_found hit (lookup hit.num breakpoints) breakpoints

  -- The loop of `_undo_hits`.
  unfoldable pub undo :
      ℕ → List Hit → Dict ℕ (Breakpoint Code) → List Hit × Dict ℕ (Breakpoint Code)
  undo k [] breakpoints = ([], breakpoints)
  undo k (hit ∷ hits) breakpoints =
      let rest = undo k hits (unfire hit breakpoints) in
      if ltb k hit.icount then rest else (hit ∷ hits, breakpoints)

-- The oldest hit is popped where all older ones are.
abbrev pub keep_hit : ℕ → Hit → List Hit → List Hit
keep_hit earliest hit [] = if ltb hit.icount earliest then [] else hit ∷ []
keep_hit earliest hit (older ∷ hits) = hit ∷ older ∷ hits

-- The loop of `_on_history_forgotten`.
unfoldable pub drop_oldest : ℕ → List Hit → List Hit
drop_oldest earliest [] = []
drop_oldest earliest (hit ∷ hits) = keep_hit earliest hit (drop_oldest earliest hits)

-- `any(h.icount == icount and h.num == num for h in hits)`
unfoldable pub hit_in : ℕ → ℕ → List Hit → Bool
hit_in icount num [] = false
hit_in icount num (hit ∷ hits) = hit.icount == icount && hit.num == num || hit_in icount num hits

-- A breakpoint without a compiled condition always holds.
abbrev pub judge :
    (h : Host)
    → Option h.Code
    → h.engine.Machine
    → ℕ
    → Extra
    → Breakpoint h.Code
    → Breakpoint h.Code × Bool
judge h none m icount extra bp = (bp, true)
judge h (some code) m icount extra bp = judged (h.evaluate code m bp.hit_count icount extra) bp

unfoldable pub passes :
    (h : Host) → h.engine.Machine → ℕ → Extra → Breakpoint h.Code → Breakpoint h.Code × Bool
passes h m icount extra bp = judge h bp.code m icount extra bp

module _ {h : Host} where
  -- What `_triggers` does once the condition was looked at.
  abbrev pub count_hit : Breakpoint h.Code → Bool → Session h → Session h × Bool
  count_hit bp false s = (record s { breakpoints = insert bp.num bp s.breakpoints }, false)
  count_hit bp true s = (
    record s {
      breakpoints = insert bp.num (fired bp) s.breakpoints;
      hits =
          record { icount = s.timeline.icount; num = bp.num; ignored = ltb 0 bp.ignore_count }
          ∷ s.hits;
    },
    not (ltb 0 bp.ignore_count),
  )

  unfoldable pub triggers :
      h.engine.Machine → Extra → Breakpoint h.Code → Session h → Session h × Bool
  triggers m extra bp s =
      let (judged_bp, holds) = passes h m s.timeline.icount extra bp in count_hit judged_bp holds s

  unfoldable pub undo_hits : ℕ → Session h → Session h
  undo_hits k s =
      let (hits, breakpoints) = undo k s.hits s.breakpoints in
      record s { hits = hits; breakpoints = breakpoints }

  unfoldable pub on_history_forgotten : ℕ → Session h → Session h
  on_history_forgotten earliest s = record s {
    layers = forget_layers earliest s.layers;
    hits = drop_oldest earliest s.hits;
  }

  unfoldable pub hits_at : ℕ → ℕ → Session h → Bool
  hits_at icount num s = hit_in icount num s.hits

  -- A first hit, unless the history has it.
  abbrev pub hit_unless : Bool → ℕ → ℕ → Breakpoint h.Code → Session h → Session h
  hit_unless true at num bp s = s
  hit_unless false at num bp s = record s {
    breakpoints = insert num (record bp { hit_count = bp.hit_count + 1 }) s.breakpoints;
    hits =
        sort (λ a b. leb b.icount a.icount)
          (record { icount = at; num = num; ignored = false } ∷ s.hits);
  }

  abbrev pub recount_found : ℕ → ℕ → Option (Breakpoint h.Code) → Session h → Session h
  recount_found at num none s = s
  recount_found at num (some bp) s = hit_unless (hits_at at num s) at num bp s

  unfoldable pub recount : ℕ → ℕ → Session h → Session h
  recount at num s = recount_found at num (lookup num s.breakpoints) s
