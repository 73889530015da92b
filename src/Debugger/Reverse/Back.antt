-- ===== src/Debugger/Reverse/Back.antt =====
-- ghidraunicorn/target.py: stepping back over whole calls.
pub mod Depth
use ghidra_unicorn.Prelude.{
  nat_eq, ℕ, zero, suc, ◌+◌, ◌-◌, max, Bool, true, false, Option, none, some, List, [], ◌∷◌, String,
  ltb, leb, ◌==◌, if◌then◌else◌, Dict, lookup, insert,
}
use ghidra_unicorn.Arch.{is_call, is_return}
use ghidra_unicorn.Timeline.{Checkpoint, earliest, checkpoint_at_or_before}
use ghidra_unicorn.Debugger.{Host, Session, StopEvent}
use ghidra_unicorn.Debugger.Run.{Runner}
use ghidra_unicorn.Debugger.Reverse.{check_bounds, restore_state, replay_forward, go, told_step}

-- How the call depth changes one instruction further back: -1, 0 or +1.
pub data Delta : Type 0 where
  shallower same deeper : Delta

-- `rel += delta`. A depth that falls to 0 or below ends the search, so it is kept at 0 there.
abbrev pub shift : Delta → ℕ → ℕ
shift shallower rel = rel - 1
shift same rel = rel
shift deeper rel = rel + 1

-- What the search of one window ends in: the instruction, the depth to go on with, or a `KeyError` of a
-- replay that was too short.
pub data Scan : Type 0 where
  found : ℕ → Scan
  going : ℕ → Dict ℕ Delta → Scan
  missing : Scan

unfoldable pub nth : ℕ → List ℕ → Option ℕ
nth n [] = none
nth zero (x ∷ l) = some x
nth (suc n) (x ∷ l) = nth n l

module _ {h : Host} (r : Runner h) where
  unfoldable pub history_pcs :
      ℕ → ℕ → h.engine.Machine → Session h → Option (Session h × h.engine.Machine × List ℕ)
  history_pcs lo count m s = elim (restore_state r lo m s) [
    | none ↦ none
    | some (cp, m', s') ↦ replay_forward r (lo + count - cp.icount) (some []) m' s'
  ]

  abbrev pub delta_of : Option (ℕ × String × String) → Delta
  delta_of none = same
  delta_of (some (size, mnemonic, operands)) =
      if is_call r.text r.spec mnemonic
      then shallower
      else if is_return r.text r.spec mnemonic operands
      then deeper
      else same

  abbrev pub cached : h.engine.Machine → ℕ → Dict ℕ Delta → Option Delta → Delta × Dict ℕ Delta
  cached m pc kinds (some delta) = (delta, kinds)
  cached m pc kinds none = (delta_of (r.decode m pc), insert pc (delta_of (r.decode m pc)) kinds)

  unfoldable pub depth_delta : h.engine.Machine → ℕ → Dict ℕ Delta → Delta × Dict ℕ Delta
  depth_delta m pc kinds = cached m pc kinds (lookup pc kinds)

  -- The end of one turn of the inner loop, at instruction `j`.
  abbrev pub look : ℕ → ℕ → Dict ℕ Delta → (ℕ → Dict ℕ Delta → Scan) → Scan
  look j zero kinds more = found j
  look j (suc rel) kinds more = more (suc rel) kinds

  abbrev pub turn :
      h.engine.Machine → ℕ → Option ℕ → ℕ → Dict ℕ Delta → (ℕ → Dict ℕ Delta → Scan) → Scan
  turn m j none rel kinds more = missing
  turn m j (some pc) rel kinds more =
      let (delta, kinds') = depth_delta m pc kinds in look j (shift delta rel) kinds' more

  -- The inner loop, for the instructions from `lo + count - 1` down to `lo`.
  unfoldable pub scan : h.engine.Machine → ℕ → List ℕ → ℕ → ℕ → Dict ℕ Delta → Scan
  scan m lo pcs zero rel kinds = going rel kinds
  scan m lo pcs (suc count) rel kinds =
      turn m (lo + count) (nth count pcs) rel kinds (scan m lo pcs count)

  abbrev pub Search : Type 0
  Search = Option (ℕ × h.engine.Machine × Session h)

  abbrev pub scanned : h.engine.Machine → Session h → Scan → (ℕ → Dict ℕ Delta → Search) → Search
  scanned m s (found j) more = some (j, m, s)
  scanned m s (going rel kinds) more = more rel kinds
  scanned m s missing more = none

  abbrev pub searched :
      ℕ
      → ℕ
      → ℕ
      → Dict ℕ Delta
      → Option (Session h × h.engine.Machine × List ℕ)
      → (h.engine.Machine → Session h → ℕ → Dict ℕ Delta → Search)
      → Search
  searched lo count rel kinds none more = none
  searched lo count rel kinds (some (s, m, pcs)) more =
      scanned m s (scan m lo pcs count rel kinds) (more m s)

  -- The window that ends before `end`, and the windows before it.
  abbrev pub window :
      ℕ
      → Option (Checkpoint h.engine.Context)
      → ℕ
      → Dict ℕ Delta
      → h.engine.Machine
      → Session h
      → (ℕ → h.engine.Machine → Session h → ℕ → Dict ℕ Delta → Search)
      → Search
  window end none rel kinds m s more = none
  window end (some cp) rel kinds m s more =
      searched cp.icount (end - cp.icount) rel kinds (history_pcs cp.icount (end - cp.icount) m s)
        (more cp.icount)

  -- The outer loop, with `hi + 1` for `hi`. Each window ends before the one after it, so the fuel of
  -- the first end is enough.
  unfoldable pub prev_from : ℕ → ℕ → ℕ → ℕ → Dict ℕ Delta → h.engine.Machine → Session h → Search
  prev_from zero bottom end rel kinds m s = some (bottom, m, s)
  prev_from (suc fuel) bottom end rel kinds m s =
      if ltb bottom end
      then window end (checkpoint_at_or_before h.engine s.timeline (end - 1)) rel kinds m s
          (λ end' m' s' rel' kinds'. prev_from fuel bottom end' rel' kinds' m' s')
      else some (bottom, m, s)

  unfoldable pub prev_over : h.engine.Machine → Session h → Search
  prev_over m s =
      prev_from (s.timeline.icount) (earliest h.engine s.timeline) s.timeline.icount 0 [] m s

  abbrev pub went_over : Search → Option (Session h × h.engine.Machine)
  went_over none = none
  went_over (some (k, m, s)) = go r k m s

  -- One turn of the loop of `step_back_over`.
  abbrev pub over_if : Bool → h.engine.Machine → Session h → Option (Session h × h.engine.Machine)
  over_if false m s = none
  over_if true m s = went_over (prev_over m s)

  -- An instruction before 0 is outside every history.
  abbrev pub can_step_back : Session h → Bool
  can_step_back s =
      if ltb 0 s.timeline.icount then check_bounds (s.timeline.icount - 1) s else false

  abbrev pub then_more :
      (h.engine.Machine → Session h → Option (Session h × h.engine.Machine))
      → Option (Session h × h.engine.Machine)
      → Option (Session h × h.engine.Machine)
  then_more more none = none
  then_more more (some (s, m)) = more m s

  -- The loop of `step_back_over`.
  unfoldable pub over_times :
      ℕ → h.engine.Machine → Session h → Option (Session h × h.engine.Machine)
  over_times zero m s = some (s, m)
  over_times (suc n) m s = then_more (over_times n) (over_if (can_step_back s) m s)

  unfoldable pub step_back_over :
      ℕ → h.engine.Machine → Session h → Option (Session h × h.engine.Machine × StopEvent)
  step_back_over n m s =
      if s.running then none else told_step r (over_times (max n 1) m (record s { running = true }))
