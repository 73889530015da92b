-- ===== src/Debugger/Hook.antt =====
-- ghidraunicorn/target.py: the hooks that the engine calls while it runs. A hook that calls `emu_stop`
-- leaves `halting` or `stop` set, which says so.
pub mod Counts
pub mod Turns
pub mod Calls
pub mod Silence
use ghidra_unicorn.Prelude.{
  nat_eq, ℕ, ◌+◌, ◌-◌, Bool, true, false, not, ◌&&◌, ◌||◌, Option, none, some, List, [], ◌∷◌, ◌++◌,
  String, ltb, leb, ◌==◌, if◌then◌else◌, Dict, lookup, insert,
}
use ghidra_unicorn.Timeline.{Timeline, note_instruction, note_write, is_some}
use ghidra_unicorn.Debugger.{
  Host, Session, Breakpoint, Extra, nothing, access, changed, StopEvent, Reason, breakpoint,
  watchpoint, exit, Observed, one_less, used_up, at_exit,
}
use ghidra_unicorn.Debugger.Hits.{triggers, on_history_forgotten}

abbrev pub event : Reason → ℕ → Option ℕ → StopEvent
event reason pc hit = record { reason = reason; pc = pc; hit = hit; fault = none }

-- An access that a search looks at.
abbrev pub observe : ℕ → ℕ → Extra → Option (List Observed) → Option (List Observed)
observe at num extra none = none
observe at num extra (some seen) = some (seen ++ record { at = at; num = num; extra = extra } ∷ [])

abbrev pub reread : (h : Host) → h.engine.Machine → Option String → Option ℕ
reread h m none = none
reread h m (some register) = h.reg_read m register

module _ {h : Host} where
  -- `self._stop = ev`, `self._halting = True`, `emu_stop`
  abbrev pub halt_with : StopEvent → Session h → Session h
  halt_with ev s = record s { stop = some ev; halting = true }

  abbrev pub told : Option ℕ → Session h → Session h
  told none s = s
  told (some earliest) s = on_history_forgotten earliest s

  -- The timeline's `note_instruction`, with its call of `on_forget`, and the instruction budget.
  unfoldable pub count : h.engine.Machine → Session h → Session h
  count m s =
      let (timeline, forgot) = note_instruction h.engine s.timeline m in
      let s' : Session h = told forgot s in
      record s' { timeline = timeline; left = one_less s'.left }

  -- A register watch whose register moved: `previous` moves whether or not it stops.
  abbrev pub moved :
      h.engine.Machine
      → ℕ
      → String
      → ℕ
      → ℕ
      → Breakpoint h.Code
      → Session h
      → Session h × Option StopEvent
  moved m address register old value bp s =
      let (s', stops) =
        triggers m (changed old value register) (record bp { previous = some value }) s in
      (s', if stops then some (event watchpoint address (some bp.num)) else none)

  abbrev pub compared :
      h.engine.Machine
      → ℕ
      → String
      → Option ℕ
      → ℕ
      → Breakpoint h.Code
      → Session h
      → Session h × Option StopEvent
  compared m address register none value bp s = (
    record s { breakpoints = insert bp.num (record bp { previous = some value }) s.breakpoints },
    none,
  )
  compared m address register (some old) value bp s =
      if value == old then (s, none) else moved m address register old value bp s

  -- A register that cannot be read is passed over.
  abbrev pub valued :
      h.engine.Machine
      → ℕ
      → String
      → Option ℕ
      → Breakpoint h.Code
      → Session h
      → Session h × Option StopEvent
  valued m address register none bp s = (s, none)
  valued m address register (some value) bp s = compared m address register bp.previous value bp s

  abbrev pub watched :
      h.engine.Machine
      → ℕ
      → Option String
      → Bool
      → Breakpoint h.Code
      → Session h
      → Session h × Option StopEvent
  watched m address none enabled bp s = (s, none)
  watched m address (some register) false bp s = (s, none)
  watched m address (some register) true bp s =
      valued m address register (h.reg_read m register) bp s

  -- One turn of the loop of `_changed_register`.
  unfoldable pub watch_turn :
      h.engine.Machine → ℕ → Option (Breakpoint h.Code) → Session h → Session h × Option StopEvent
  watch_turn m address none s = (s, none)
  watch_turn m address (some bp) s = watched m address bp.register bp.enabled bp s

  -- The loop returns at the first event.
  abbrev pub returned :
      Option StopEvent → Session h → Session h × Option StopEvent → Session h × Option StopEvent
  returned (some ev) s rest = (s, some ev)
  returned none s rest = rest

  -- The loop of `_changed_register`.
  unfoldable pub changed_from :
      h.engine.Machine → ℕ → List ℕ → Session h → Session h × Option StopEvent
  changed_from m address [] s = (s, none)
  changed_from m address (num ∷ nums) s =
      let turn = watch_turn m address (lookup num s.breakpoints) s in
      returned turn.1 turn.0 (changed_from m address nums turn.0)

  unfoldable pub changed_register : h.engine.Machine → ℕ → Session h → Session h × Option StopEvent
  changed_register m address s = changed_from m address s.reg_watches s

  abbrev pub resynced : h.engine.Machine → ℕ → Option (Breakpoint h.Code) → Session h → Session h
  resynced m num none s = s
  resynced m num (some bp) s = record s {
    breakpoints = insert num (record bp { previous = reread h m bp.register }) s.breakpoints;
  }

  unfoldable pub resync_from : h.engine.Machine → List ℕ → Session h → Session h
  resync_from m [] s = s
  resync_from m (num ∷ nums) s = resync_from m nums (resynced m num (lookup num s.breakpoints) s)

  unfoldable pub resync_register_watches : h.engine.Machine → Session h → Session h
  resync_register_watches m s = resync_from m s.reg_watches s

  abbrev pub replay_turn : ℕ → Bool → Session h → Session h
  replay_turn address true s = record s { halting = true }
  replay_turn address false s = record s {
    halting = false;
    left = one_less s.left;
    replay_icount = s.replay_icount + 1;
    trace = elim s.trace [ none ↦ none | some pcs ↦ some (pcs ++ address ∷ []) ];
  }

  -- The part of `_on_code` for a replay.
  unfoldable pub replay_code : ℕ → Session h → Session h
  replay_code address s = replay_turn address (used_up s.left) s

  -- The stop at a breakpoint, where it stops.
  abbrev pub stop_at_point : h.engine.Machine → ℕ → ℕ → Bool → Session h → Session h
  stop_at_point m address num true s = halt_with (event breakpoint address (some num)) s
  stop_at_point m address num false s = count m s

  abbrev pub enabled_point : h.engine.Machine → ℕ → Breakpoint h.Code → Bool → Session h → Session h
  enabled_point m address bp false s = count m s
  enabled_point m address bp true s =
      let (s', stops) = triggers m nothing bp s in stop_at_point m address bp.num stops s'

  abbrev pub at_point : h.engine.Machine → ℕ → Option (Breakpoint h.Code) → Session h → Session h
  at_point m address none s = count m s
  at_point m address (some bp) s = enabled_point m address bp bp.enabled s

  -- `self._bp_by_addr.get(address)`
  unfoldable pub point_at : ℕ → Session h → Option (Breakpoint h.Code)
  point_at address s = elim (lookup address s.by_addr) [
    | none ↦ none
    | some num ↦ lookup num s.breakpoints
  ]

  -- `_on_code` where the run goes on to this instruction: the exits, the budget, the breakpoint.
  abbrev pub arrive : h.engine.Machine → ℕ → Bool → Session h → Session h
  arrive m address true s = halt_with (event exit address none) s
  arrive m address false s =
      if used_up s.left
      then record s { halting = true }
      else at_point m address (point_at address s) s

  -- The first instruction of a run is exempt.
  abbrev pub enter : h.engine.Machine → ℕ → Bool → Session h → Session h
  enter m address true s = count m (record s { first = false })
  enter m address false s = arrive m address (at_exit s.exits s.end address) s

  abbrev pub after_watches : h.engine.Machine → ℕ → Option StopEvent → Session h → Session h
  after_watches m address (some ev) s = halt_with ev s
  after_watches m address none s = enter m address s.first s

  -- The part of `_on_code` that is not for a replay.
  abbrev pub live_code : h.engine.Machine → ℕ → Option StopEvent → Session h → Session h
  live_code m address (some ev) s = halt_with ev (record s { pending = none })
  live_code m address none s =
      let (s', ev) = changed_register m address s in after_watches m address ev s'

  abbrev pub code_hook : h.engine.Machine → ℕ → Bool → Session h → Session h
  code_hook m address true s = replay_code address s
  code_hook m address false s = live_code m address s.pending (record s { halting = false })

  unfoldable pub on_code : h.engine.Machine → ℕ → Session h → Session h
  on_code m address s = code_hook m address s.replaying s

  unfoldable pub on_invalid : String → ℕ → ℕ → Session h → Session h
  on_invalid name address size s = record s { fault = some (name, address, size) }

  unfoldable pub on_write : ℕ → ℕ → Session h → Session h
  on_write address size s = record s { timeline = note_write h.engine s.timeline address size }

  unfoldable pub executing_icount : Session h → ℕ
  executing_icount s = (if s.replaying then s.replay_icount else s.timeline.icount) - 1

  abbrev pub access_stops : ℕ → Bool → Session h → Session h
  access_stops num false s = s
  access_stops num true s = record s { pending = some (event watchpoint 0 (some num)) }

  -- An access outside a replay; a breakpoint that is off, or a stop that is due already, passes it over.
  abbrev pub live_access :
      h.engine.Machine → Extra → Breakpoint h.Code → Bool → Session h → Session h
  live_access m extra bp true s = s
  live_access m extra bp false s =
      let (s', stops) = triggers m extra bp s in access_stops bp.num stops s'

  abbrev pub access_hook :
      h.engine.Machine → Extra → Breakpoint h.Code → Bool → Session h → Session h
  access_hook m extra bp true s = record s {
    observed =
        if bp.enabled then observe (executing_icount s) bp.num extra s.observed else s.observed;
  }
  access_hook m extra bp false s =
      live_access m extra bp
        (not bp.enabled || is_some h.engine s.stop || is_some h.engine s.pending) s

  -- `_on_mem`, of the watchpoint `bp`
  unfoldable pub on_mem : h.engine.Machine → Extra → Breakpoint h.Code → Session h → Session h
  on_mem m extra bp s = access_hook m extra bp s.replaying s

  abbrev pub stop_unless : Bool → StopEvent → Session h → Session h
  stop_unless true ev s = s
  stop_unless false ev s = record s { stop = some ev }

  unfoldable pub request_stop : h.engine.Machine → Reason → Session h → Session h
  request_stop m reason s = stop_unless s.replaying (event reason (h.pc m) none) s

  -- `interrupt`, the one call of another thread
  unfoldable pub interrupt : Session h → Session h
  interrupt s = record s { interrupted = s.interrupted || s.running }
