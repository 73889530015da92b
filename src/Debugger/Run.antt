-- ===== src/Debugger/Run.antt =====
-- ghidraunicorn/target.py: running, stepping and interrupting. The engine's `emu_start` is a parameter, as
-- is the decoder; `none` is the `TargetError` of a target that cannot run.
pub mod Emulated
use ghidra_unicorn.Prelude.{
  nat_eq, ℕ, zero, suc, ◌+◌, ◌-◌, ◌*◌, ◌/◌, max, Bool, true, false, not, ◌&&◌, ◌||◌, Option, none,
  some, List, String, ltb, leb, ◌==◌, if◌then◌else◌, lookup,
}
use ghidra_unicorn.Arch.{Text, ArchSpec, among}
use ghidra_unicorn.Timeline.{Timeline, uncount}
use ghidra_unicorn.Debugger.{
  Host, Session, Breakpoint, StopEvent, Reason, breakpoint, watchpoint, step, interrupt, exit,
  error, stopped, at_exit,
}
use ghidra_unicorn.Debugger.Points.{add_breakpoint, deleted}
use ghidra_unicorn.Debugger.Hook.{event}

-- `emu_start` from a machine and a session, with the address to start at, the one to stop at and the
-- count: the exception if it raised one, the machine it leaves, and the session after its hooks.
-- `decode` gives the size of an instruction, its mnemonic and its operands; the registers are the engine's,
-- by number.
pub record Runner (h : Host) : Type 0 where
  pub emu_start :
      h.engine.Machine → Session h → ℕ → ℕ → ℕ → Option String × h.engine.Machine × Session h
  pub thumb : h.engine.Machine → Bool
  pub decode : h.engine.Machine → ℕ → Option (ℕ × String × String)
  pub text : Text
  pub spec : ArchSpec
  pub reg_read : h.engine.Machine → ℕ → Option ℕ
  pub reg_write : h.engine.Machine → ℕ → ℕ → Option h.engine.Machine

-- `0 <= target - pc <= ARRIVAL_SLACK`
unfoldable pub arrived_at : ℕ → Option ℕ → Bool
arrived_at pc none = false
arrived_at pc (some target) = leb pc target && leb (target - pc) 16

-- `pc == until`
abbrev pub reached : ℕ → Option ℕ → Bool
reached pc none = false
reached pc (some until) = pc == until

-- The address that a run is handed to stop at.
unfoldable pub stop_address : Option ℕ → Option ℕ → ℕ → ℕ
stop_address (some until) end count = until
stop_address none none count = 0
stop_address none (some end) count = if count == 0 then end else 0

-- `until if until is not None else self.end`
abbrev pub or_end : Option ℕ → Option ℕ → Option ℕ
or_end (some until) end = some until
or_end none end = end

-- `StopEvent.terminated`
abbrev pub ends : Reason → Bool
ends exit = true
ends breakpoint = false
ends watchpoint = false
ends step = false
ends interrupt = false
ends error = false
ends stopped = false

abbrev pub is_watchpoint : Reason → Bool
is_watchpoint watchpoint = true
is_watchpoint breakpoint = false
is_watchpoint step = false
is_watchpoint interrupt = false
is_watchpoint exit = false
is_watchpoint error = false
is_watchpoint stopped = false

abbrev pub is_step : Reason → Bool
is_step step = true
is_step breakpoint = false
is_step watchpoint = false
is_step interrupt = false
is_step exit = false
is_step error = false
is_step stopped = false

-- The reason of a run that no hook stopped.
unfoldable pub unstopped : ℕ → Option ℕ → ℕ → List ℕ → Option ℕ → Bool → Reason
unstopped pc until count exits end interrupted =
    if reached pc until
    then step
    else if at_exit exits end pc
    then exit
    else if ltb 0 count
    then step
    else if interrupted
    then interrupt
    else if arrived_at pc (or_end until end)
    then (elim until [ none ↦ exit | some _ ↦ step ])
    else stopped

-- A watchpoint that no code hook came to report.
abbrev pub promoted : Option StopEvent → Option StopEvent → Option StopEvent × Option StopEvent
promoted (some ev) pending = (some ev, pending)
promoted none none = (none, none)
promoted none (some ev) = (some ev, none)

-- The event of a stop that a hook asked for.
abbrev pub stop_event : ℕ → StopEvent → StopEvent
stop_event pc ev =
    if is_watchpoint ev.reason
    then record { reason = ev.reason; pc = pc; hit = ev.hit; fault = none }
    else ev

module _ {h : Host} where
  -- The fields that `_emulate` sets before it starts the engine.
  unfoldable pub prepare : ℕ → Session h → Session h
  prepare count s = record s {
    running = true;
    stop = none;
    pending = none;
    fault = none;
    first = true;
    left = if ltb 0 count then some count else none;
  }

  unfoldable pub promote : Session h → Session h
  promote s =
      let (stop, pending) = promoted s.stop s.pending in record s { stop = stop; pending = pending }

  abbrev pub judge_stop : ℕ → Option ℕ → ℕ → Option StopEvent → Session h → StopEvent
  judge_stop pc until count (some ev) s = stop_event pc ev
  judge_stop pc until count none s =
      event (unstopped pc until count s.exits s.end s.interrupted) pc none

  -- The event, and the session with a faulting instruction uncounted.
  unfoldable pub classify : ℕ → Option ℕ → ℕ → Option String → Session h → Session h × StopEvent
  classify pc until count (some raised) s = (
    record s { timeline = uncount h.engine s.timeline },
    record { reason = error; pc = pc; hit = none; fault = s.fault },
  )
  classify pc until count none s = (s, judge_stop pc until count s.stop s)

  abbrev pub delete_if : Bool → Breakpoint h.Code → Session h → Session h
  delete_if true bp s = deleted bp.num bp s
  delete_if false bp s = s

  abbrev pub retired : Option (Breakpoint h.Code) → Session h → Session h
  retired none s = s
  retired (some bp) s = delete_if bp.temporary bp s

  abbrev pub retire : Option ℕ → Session h → Session h
  retire none s = s
  retire (some num) s = retired (lookup num s.breakpoints) s

  -- What `_emulate` does with the event.
  unfoldable pub conclude : StopEvent → Session h → Session h
  conclude ev s =
      retire ev.hit (record s { interrupted = false; terminated = ends ev.reason || s.terminated })

  -- The loop goes on after a step, and ends at any other event.
  abbrev pub go_on :
      Bool
      → (h.engine.Machine → Session h → Option (Session h × h.engine.Machine × StopEvent))
      → h.engine.Machine
      → Session h
      → StopEvent
      → Option (Session h × h.engine.Machine × StopEvent)
  go_on true more m s ev = more m s
  go_on false more m s ev = some (s, m, ev)

  -- The rest of the loop of `step`, after a turn with its event.
  abbrev pub next_step :
      (h.engine.Machine → Session h → Option (Session h × h.engine.Machine × StopEvent))
      → Option (Session h × h.engine.Machine × StopEvent)
      → Option (Session h × h.engine.Machine × StopEvent)
  next_step more none = none
  next_step more (some (s, m, ev)) = go_on (is_step ev.reason) more m s ev

module _ {h : Host} (r : Runner h) where
  -- In Thumb state the low bit of the address to start at is set.
  unfoldable pub start_pc : h.engine.Machine → ℕ
  start_pc m = if r.thumb m then h.pc m / 2 * 2 + 1 else h.pc m

  -- `_emulate` once the engine is back.
  abbrev pub returned :
      Option ℕ
      → ℕ
      → Option String × h.engine.Machine × Session h
      → Session h × h.engine.Machine × StopEvent
  returned until count (raised, m, s) =
      let (s', ev) =
        classify (h.pc m) until count raised (promote (record s { running = false })) in
      (conclude ev s', m, ev)

  abbrev pub emulate_if :
      Bool
      → ℕ
      → Option ℕ
      → h.engine.Machine
      → Session h
      → Option (Session h × h.engine.Machine × StopEvent)
  emulate_if true count until m s = none
  emulate_if false count until m s = some (
      returned until count
        (r.emu_start m (prepare count s) (start_pc m) (stop_address until s.end count) count))

  unfoldable pub emulate :
      ℕ
      → Option ℕ
      → h.engine.Machine
      → Session h
      → Option (Session h × h.engine.Machine × StopEvent)
  emulate count until m s = emulate_if (s.terminated || s.running) count until m s

  unfoldable pub run :
      h.engine.Machine → Session h → Option (Session h × h.engine.Machine × StopEvent)
  run = emulate 0 none

  -- The loop of `step` with `n + 1` turns.
  unfoldable pub steps :
      ℕ → h.engine.Machine → Session h → Option (Session h × h.engine.Machine × StopEvent)
  steps zero m s = emulate 1 none m s
  steps (suc n) m s = next_step (steps n) (emulate 1 none m s)

  -- `step`, which takes at least one step
  unfoldable pub step_n :
      ℕ → h.engine.Machine → Session h → Option (Session h × h.engine.Machine × StopEvent)
  step_n n = steps (max n 1 - 1)

  unfoldable pub advance :
      ℕ → h.engine.Machine → Session h → Option (Session h × h.engine.Machine × StopEvent)
  advance address m s = emulate 0 none m (add_breakpoint address true s).0

  -- One turn of `step_over`.
  abbrev pub over_call :
      Option (ℕ × String × String)
      → h.engine.Machine
      → Session h
      → Option (Session h × h.engine.Machine × StopEvent)
  over_call none m s = emulate 1 none m s
  over_call (some (size, mnemonic, operands)) m s =
      if among mnemonic r.spec.call_mnemonics
      then advance (h.pc m + size) m s
      else emulate 1 none m s

  unfoldable pub steps_over :
      ℕ → h.engine.Machine → Session h → Option (Session h × h.engine.Machine × StopEvent)
  steps_over zero m s = over_call (r.decode m (h.pc m)) m s
  steps_over (suc n) m s = next_step (steps_over n) (over_call (r.decode m (h.pc m)) m s)

  unfoldable pub step_over_n :
      ℕ → h.engine.Machine → Session h → Option (Session h × h.engine.Machine × StopEvent)
  step_over_n n = steps_over (max n 1 - 1)
