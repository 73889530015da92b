-- ===== src/Debugger/Reverse/Search.antt =====
-- ghidraunicorn/target.py: running backwards to the last hit.
pub mod Newest
use ghidra_unicorn.Prelude.{
  nat_eq, ℕ, zero, suc, ◌+◌, ◌-◌, Bool, true, false, not, ◌&&◌, ◌||◌, Option, none, some, List, [],
  ◌∷◌, ◌++◌, String, ltb, leb, ◌==◌, if◌then◌else◌, Dict, lookup, insert, sort,
}
use ghidra_unicorn.Timeline.{Checkpoint, earliest, checkpoint_at_or_before}
use ghidra_unicorn.Debugger.{
  Host, Session, Breakpoint, Extra, nothing, Observed, StopEvent, Reason, breakpoint, watchpoint,
  stopped,
}
use ghidra_unicorn.Debugger.Points.{is_execute}
use ghidra_unicorn.Debugger.Hits.{passes, recount}
use ghidra_unicorn.Debugger.Hook.{event}
use ghidra_unicorn.Debugger.Run.{Runner}
use ghidra_unicorn.Debugger.Reverse.{check_bounds, restore_state, replay_forward, go}

-- `(at, bp, extra)`; the extra of an execute breakpoint is `nothing`.
pub record Candidate : Type 0 where
  pub at : ℕ
  pub num : ℕ
  pub extra : Extra

-- The candidates of the trace, from the instruction `at` on; an instruction past `hi` ends the loop.
unfoldable pub from_trace : Dict ℕ ℕ → ℕ → ℕ → List ℕ → List Candidate
from_trace by_address hi at [] = []
from_trace by_address hi at (pc ∷ pcs) =
    let rest = from_trace by_address hi (at + 1) pcs in
    let here : List Candidate = elim (lookup pc by_address) [
      | none ↦ rest
      | some num ↦ record { at = at; num = num; extra = nothing } ∷ rest
    ] in
    if ltb hi at then [] else here

-- A watchpoint is where its access has completed.
unfoldable pub from_observed : List Observed → List Candidate
from_observed [] = []
from_observed (o ∷ seen) =
    record { at = o.at + 1; num = o.num; extra = o.extra } ∷ from_observed seen

-- `out`, sorted by the instruction
unfoldable pub candidates_of : Dict ℕ ℕ → ℕ → ℕ → List ℕ → List Observed → List Candidate
candidates_of by_address lo hi pcs seen =
    sort (λ a b. leb a.at b.at) (from_trace by_address hi lo pcs ++ from_observed seen)

unfoldable pub backwards : List Candidate → List Candidate → List Candidate
backwards [] out = out
backwards (c ∷ l) out = backwards l (c ∷ out)

module _ {Code : Type 0} where
  -- `{b.address: b for b in live if b.kind == EXECUTE}`
  unfoldable pub live_points : Dict ℕ (Breakpoint Code) → Dict ℕ ℕ → Dict ℕ ℕ
  live_points [] out = out
  live_points ((num, bp) ∷ d) out =
      live_points d (if bp.enabled && is_execute bp.kind then insert bp.address num out else out)

  -- Whether `watched` is not empty.
  unfoldable pub any_watched : Dict ℕ (Breakpoint Code) → Bool
  any_watched [] = false
  any_watched ((num, bp) ∷ d) = bp.enabled && not (is_execute bp.kind) || any_watched d

abbrev pub some_points : Dict ℕ ℕ → Bool
some_points [] = false
some_points (_ ∷ _) = true

abbrev pub seen_of : Option (List Observed) → List Observed
seen_of none = []
seen_of (some seen) = seen

module _ {h : Host} (r : Runner h) where
  abbrev pub Place : Type 0
  Place = Session h × h.engine.Machine

  -- The end of `_scan_back`.
  abbrev pub gathered :
      Dict ℕ ℕ
      → ℕ
      → ℕ
      → Option (Session h × h.engine.Machine × List ℕ)
      → Option (List Candidate × Session h × h.engine.Machine)
  gathered by_address lo hi none = none
  gathered by_address lo hi (some (s, m, pcs)) =
      some
        (candidates_of by_address lo hi pcs (seen_of s.observed), record s { observed = none }, m)

  abbrev pub scan_from :
      Dict ℕ ℕ
      → Bool
      → ℕ
      → Option (Checkpoint h.engine.Context × h.engine.Machine × Session h)
      → Option (List Candidate × Session h × h.engine.Machine)
  scan_from by_address watching hi none = none
  scan_from by_address watching hi (some (cp, m, s)) = gathered by_address cp.icount hi (
      replay_forward r (hi + 1 - cp.icount) (some []) m
        (record s { observed = if watching then some [] else none }))

  unfoldable pub scan_back :
      ℕ
      → ℕ
      → Dict ℕ ℕ
      → Bool
      → Session h
      → h.engine.Machine
      → Option (List Candidate × Session h × h.engine.Machine)
  scan_back lo hi by_address watching s m =
      scan_from by_address watching hi (restore_state r lo m s)

  -- What a search finds, with the session and the machine it leaves; `none` inside is no candidate.
  abbrev pub Found : Type 0
  Found = Option (Option Candidate × Session h × h.engine.Machine)

  -- A candidate whose condition was tried.
  abbrev pub tried :
      Candidate
      → ℕ
      → Breakpoint h.Code × Bool
      → Place
      → (Session h → h.engine.Machine → Found)
      → Found
  tried c num (bp, true) (s, m) more =
      some (some c, record s { breakpoints = insert num bp s.breakpoints }, m)
  tried c num (bp, false) (s, m) more =
      more (record s { breakpoints = insert num bp s.breakpoints }) m

  abbrev pub try_at :
      Candidate
      → Option (Breakpoint h.Code)
      → Place
      → (Session h → h.engine.Machine → Found)
      → Found
  try_at c none (s, m) more = more s m
  try_at c (some bp) (s, m) more =
      tried c c.num (passes h m s.timeline.icount c.extra bp) (s, m) more

  -- The candidate with its condition, at which the machine has to be first.
  abbrev pub tested : Candidate → Option Place → (Session h → h.engine.Machine → Found) → Found
  tested c none more = none
  tested c (some (s, m)) more = try_at c (lookup c.num s.breakpoints) (s, m) more

  abbrev pub with_condition :
      Candidate
      → Option String
      → Session h
      → h.engine.Machine
      → (Session h → h.engine.Machine → Found)
      → Found
  with_condition c none s m more = some (some c, s, m)
  with_condition c (some text) s m more = tested c (go r c.at m s) more

  abbrev pub condition_of : Option (Breakpoint h.Code) → Option String
  condition_of none = none
  condition_of (some bp) = bp.condition

  abbrev pub consider :
      Bool
      → Candidate
      → Session h
      → h.engine.Machine
      → (Session h → h.engine.Machine → Found)
      → Found
  consider false c s m more = more s m
  consider true c s m more = with_condition c (condition_of (lookup c.num s.breakpoints)) s m more

  -- The loop of `_first_that_holds`, over the candidates from the newest on.
  unfoldable pub first_that_holds : List Candidate → ℕ → Session h → h.engine.Machine → Found
  first_that_holds [] cur s m = some (none, s, m)
  first_that_holds (c ∷ cs) cur s m =
      consider (ltb c.at cur && leb (earliest h.engine s.timeline) c.at) c s m
        (first_that_holds cs cur)

  abbrev pub held : ℕ → Option (List Candidate × Session h × h.engine.Machine) → Found
  held cur none = none
  held cur (some (candidates, s, m)) = first_that_holds (backwards candidates []) cur s m

  -- The loop goes on where the window held nothing.
  abbrev pub or_earlier : Found → (Session h → h.engine.Machine → Found) → Found
  or_earlier none more = none
  or_earlier (some (some c, s, m)) more = some (some c, s, m)
  or_earlier (some (none, s, m)) more = more s m

  abbrev pub search_window :
      ℕ
      → ℕ
      → Dict ℕ ℕ
      → Bool
      → Option (Checkpoint h.engine.Context)
      → Session h
      → h.engine.Machine
      → (ℕ → Session h → h.engine.Machine → Found)
      → Found
  search_window cur hi by_address watching none s m more = none
  search_window cur hi by_address watching (some cp) s m more =
      or_earlier (held cur (scan_back cp.icount hi by_address watching s m)) (more cp.icount)

  -- The loop of `resume_back`, with `hi + 1` for `hi`: each window ends before the one after it, so the
  -- fuel of the first end is enough.
  unfoldable pub search_from :
      ℕ → ℕ → ℕ → ℕ → Dict ℕ ℕ → Bool → Session h → h.engine.Machine → Found
  search_from zero cur bottom end by_address watching s m = some (none, s, m)
  search_from (suc fuel) cur bottom end by_address watching s m =
      if ltb bottom end
      then search_window cur (end - 1) by_address watching
          (checkpoint_at_or_before h.engine s.timeline (end - 1)) s m
          (λ end' s' m'. search_from fuel cur bottom end' by_address watching s' m')
      else some (none, s, m)

  -- Without a breakpoint that is enabled there is nothing to look for.
  unfoldable pub search : Session h → h.engine.Machine → Found
  search s m =
      let by_address = live_points s.breakpoints [] in
      let watching = any_watched s.breakpoints in
      if some_points by_address || watching
      then search_from s.timeline.icount s.timeline.icount (earliest h.engine s.timeline)
          s.timeline.icount by_address watching s m
      else some (none, s, m)

  abbrev pub hit_event : Option (Breakpoint h.Code) → ℕ → ℕ → StopEvent
  hit_event none pc num = event watchpoint pc (some num)
  hit_event (some bp) pc num =
      event (if is_execute bp.kind then breakpoint else watchpoint) pc (some num)

  abbrev pub at_start : Option Place → Option (Session h × h.engine.Machine × StopEvent)
  at_start none = none
  at_start (some (s, m)) = some (record s { running = false }, m, event stopped (h.pc m) none)

  abbrev pub at_hit : Candidate → Option Place → Option (Session h × h.engine.Machine × StopEvent)
  at_hit c none = none
  at_hit c (some (s, m)) = some (
    record (recount c.at c.num s) { running = false },
    m,
    hit_event (lookup c.num s.breakpoints) (h.pc m) c.num,
  )

  -- Where the search ended, from the oldest instruction that `resume_back` noted before it.
  abbrev pub resumed : ℕ → Found → Option (Session h × h.engine.Machine × StopEvent)
  resumed bottom none = none
  resumed bottom (some (none, s, m)) = at_start (go r bottom m s)
  resumed bottom (some (some c, s, m)) = at_hit c (go r c.at m s)

  abbrev pub resume_if :
      Bool → h.engine.Machine → Session h → Option (Session h × h.engine.Machine × StopEvent)
  resume_if false m s = none
  resume_if true m s =
      resumed (earliest h.engine s.timeline) (search (record s { running = true }) m)

  unfoldable pub resume_back :
      h.engine.Machine → Session h → Option (Session h × h.engine.Machine × StopEvent)
  resume_back m s =
      resume_if (not s.running && ltb 0 s.timeline.icount && check_bounds (s.timeline.icount - 1) s)
        m s
