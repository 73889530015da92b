-- ===== src/Debugger/Reverse.antt =====
-- ghidraunicorn/target.py: going back. `none` is an exception; the session that it leaves behind is not
-- modelled.
pub mod Went
pub mod Recorded
pub mod Snapshots
pub mod Back
pub mod Search
use ghidra_unicorn.Prelude.{
  nat_eq, ℕ, zero, suc, ◌+◌, ◌-◌, max, Bool, true, false, not, ◌&&◌, ◌||◌, Option, none, some, List,
  [], ◌∷◌, String, ltb, leb, ◌==◌, if◌then◌else◌,
}
use ghidra_unicorn.Arch.{reg}
use ghidra_unicorn.Timeline.{
  Timeline, Checkpoint, recording, earliest, restore, truncate, advance_to,
}
use ghidra_unicorn.Debugger.{Host, Session, StopEvent, step, truncate_layers}
use ghidra_unicorn.Debugger.Hits.{undo_hits}
use ghidra_unicorn.Debugger.Hook.{event, resync_register_watches}
use ghidra_unicorn.Debugger.Run.{Runner, start_pc}

-- `_check_bounds`: whether it returns.
unfoldable pub check_bounds : {h : Host} → ℕ → Session h → Bool
check_bounds {h = h} k s =
    s.timeline.enabled
    && recording h.engine s.timeline
    && leb (earliest h.engine s.timeline) k
    && leb k s.timeline.icount

unfoldable pub can_reverse : {h : Host} → Session h → Bool
can_reverse {h = h} s =
    recording h.engine s.timeline && ltb (earliest h.engine s.timeline) s.timeline.icount

abbrev pub traced : Option (List ℕ) → List ℕ
traced none = []
traced (some pcs) = pcs

module _ {h : Host} where
  -- `_replay_forward` once the engine is back.
  abbrev pub replayed :
      Option String × h.engine.Machine × Session h → Option (Session h × h.engine.Machine × List ℕ)
  replayed (some raised, m, s) = none
  replayed (none, m, s) = some (record s { replaying = false; trace = none }, m, traced s.trace)

  -- What `_go` does once the machine is at instruction `k`.
  unfoldable pub settle : ℕ → ℕ → h.engine.Machine → Session h → Session h
  settle k was m s = resync_register_watches m (
      undo_hits k (record s {
        timeline = advance_to h.engine s.timeline k;
        stop = none;
        pending = none;
        terminated = not (ltb k was) && s.terminated;
        layers = truncate_layers k s.layers;
      }))

  abbrev pub settled :
      ℕ → ℕ → Option (Session h × h.engine.Machine × List ℕ) → Option (Session h × h.engine.Machine)
  settled k was none = none
  settled k was (some (s, m, pcs)) = some (settle k was m s, m)

module _ {h : Host} (r : Runner h) where
  abbrev pub rewritten : h.engine.Machine → ℕ → Option ℕ → h.engine.Machine
  rewritten m uc none = m
  rewritten m uc (some value) = elim (r.reg_write m uc value) [ none ↦ m | some m' ↦ m' ]

  abbrev pub resync_name : h.engine.Machine → Option String → h.engine.Machine
  resync_name m none = m
  resync_name m (some name) = elim (reg r.text r.spec name) [
    | none ↦ m
    | some status ↦ rewritten m status.uc (r.reg_read m status.uc)
  ]

  -- `_resync_status`: the status register is read and written back.
  unfoldable pub resync_status : h.engine.Machine → h.engine.Machine
  resync_status m = resync_name m r.spec.status

  abbrev pub resynced_from :
      Option (Checkpoint h.engine.Context × h.engine.Machine)
      → Session h
      → Option (Checkpoint h.engine.Context × h.engine.Machine × Session h)
  resynced_from none s = none
  resynced_from (some (cp, m)) s =
      some (cp, resync_status m, record s { replay_icount = cp.icount })

  -- `_restore_state`
  unfoldable pub restore_state :
      ℕ
      → h.engine.Machine
      → Session h
      → Option (Checkpoint h.engine.Context × h.engine.Machine × Session h)
  restore_state k m s = resynced_from (restore h.engine s.timeline m k) s

  unfoldable pub replay_forward :
      ℕ
      → Option (List ℕ)
      → h.engine.Machine
      → Session h
      → Option (Session h × h.engine.Machine × List ℕ)
  replay_forward zero trace m s = some (s, m, traced trace)
  replay_forward (suc n) trace m s = replayed (
      r.emu_start m (record s { replaying = true; trace = trace; left = some (suc n) })
        (start_pc r m) 0 (suc n))

  abbrev pub go_from :
      ℕ
      → ℕ
      → Option (Checkpoint h.engine.Context × h.engine.Machine × Session h)
      → Option (Session h × h.engine.Machine)
  go_from k was none = none
  go_from k was (some (cp, m, s)) = settled k was (
      replay_forward (k - cp.icount) none m
        (record s { timeline = truncate h.engine s.timeline cp.icount }))

  abbrev pub go_if : Bool → ℕ → h.engine.Machine → Session h → Option (Session h × h.engine.Machine)
  go_if false k m s = none
  go_if true k m s = go_from k s.timeline.icount (restore_state k m s)

  -- `_go`
  unfoldable pub go : ℕ → h.engine.Machine → Session h → Option (Session h × h.engine.Machine)
  go k m s = go_if (check_bounds k s) k m s

  -- The end of a reverse operation: the emulator is let go, and the event is told.
  abbrev pub told_step :
      Option (Session h × h.engine.Machine) → Option (Session h × h.engine.Machine × StopEvent)
  told_step none = none
  told_step (some (s, m)) = some (record s { running = false }, m, event step (h.pc m) none)

  -- `_require_reversible`, then `_go` while the emulator is held
  abbrev pub reversed :
      Bool → ℕ → h.engine.Machine → Session h → Option (Session h × h.engine.Machine × StopEvent)
  reversed true k m s = none
  reversed false k m s = told_step (go k m (record s { running = true }))

  unfoldable pub goto_icount :
      ℕ → h.engine.Machine → Session h → Option (Session h × h.engine.Machine × StopEvent)
  goto_icount k m s = reversed s.running k m s

  -- An instruction before 0 is outside every history.
  unfoldable pub step_back :
      ℕ → h.engine.Machine → Session h → Option (Session h × h.engine.Machine × StopEvent)
  step_back n m s =
      if ltb s.timeline.icount (max n 1)
      then none
      else goto_icount (s.timeline.icount - max n 1) m s
