-- ===== src/Debugger/Tests.antt =====
-- The counter, run and taken back.
use ghidra_unicorn.Prelude.{
  nat_eq, ℕ, ◌+◌, ◌≤◌, ◌<◌, ◌≡◌, refl, true, false, none, some, [], ◌∷◌, arith, max, lookup, insert,
  erase, sort, place,
}
use ghidra_unicorn.Timeline.{
  Checkpoint, has, note_instruction, restore, recording, earliest, truncate, advance_to,
  checkpoint_at_or_before, best_from, sync_regions, write_pages, write_deltas, wanted_regions,
  kept_until, last_checkpoint, last_of,
}
use ghidra_unicorn.Timeline.Images.{history as timeline_history}
use ghidra_unicorn.Debugger.{
  Session, Breakpoint, StopEvent, step, breakpoint, execute, nothing, at_exit, truncate_layers,
}
use ghidra_unicorn.Debugger.Points.{
  new_breakpoint, add_breakpoint, insert_execute, delete_breakpoint, deleted, without,
}
use ghidra_unicorn.Debugger.Points.Temporary.{lookup-delete_breakpoint}
use ghidra_unicorn.Debugger.Points.Edits.{adds, Findable, Edit-Findable}
use ghidra_unicorn.Debugger.Hits.{triggers, undo_hits, undo, recount, hits_at, hit_in}
use ghidra_unicorn.Debugger.Hits.Undone.{SameCounts, done, fires, undo_hits-Fires}
use ghidra_unicorn.Debugger.Hook.{
  on_code, count, changed_register, changed_from, replay_code, resync_from, resync_register_watches,
}
use ghidra_unicorn.Debugger.Hook.Turns.{Turn, clock, on_code-Turn}
use ghidra_unicorn.Debugger.Hook.Calls.{begins, code, icount-Calls}
use ghidra_unicorn.Debugger.Hook.Silence.{lasting, Calls-lasting}
use ghidra_unicorn.Debugger.Run.{
  emulate, prepare, promote, classify, conclude, unstopped, stop_address, start_pc, steps, step_n,
}
use ghidra_unicorn.Debugger.Run.Emulated.{Rests, step_n-Rests}
use ghidra_unicorn.Debugger.Reverse.{
  check_bounds, go, restore_state, resync_status, replay_forward, settle,
}
use ghidra_unicorn.Debugger.Reverse.Back.{
  history_pcs, nth, depth_delta, scan, prev_from, prev_over, over_times,
}
use ghidra_unicorn.Debugger.Reverse.Back.Depth.{over_times-le}
use ghidra_unicorn.Debugger.Reverse.Search.{
  from_trace, from_observed, candidates_of, backwards, live_points, any_watched, scan_back,
  first_that_holds, search_from, search, resume_back,
}
use ghidra_unicorn.Debugger.Reverse.Search.Newest.{resume_back-less}
use ghidra_unicorn.Debugger.Counter.{host, runner, runner-HooksOnly, walk, history, session}

fresh-Findable : Findable (session 0)
unfolding lookup
fresh-Findable = record {
  valid = record { numbered = λ n bp p. absurd (cc); indexed = λ a n p. absurd (cc) };
  found = λ n bp p k. absurd (cc);
}

Edit-Findable_example : Findable (add_breakpoint 16 false (session 0)).0
Edit-Findable_example =
    Edit-Findable (session 0) (add_breakpoint 16 false (session 0)).0 (adds 16) fresh-Findable

-- A breakpoint that is passed twice more.
abbrev point : Breakpoint host.Code
point = record (new_breakpoint 1 execute 3 1 false) { ignore_count = 2 }

abbrev pointed : ℕ → Session host
pointed icount = record (session icount) {
  breakpoints = (1, point) ∷ [];
  by_addr = (3, 1) ∷ [];
  next_bp = 2;
}

undo_hits-Fires_example :
    ((undo_hits 2 (triggers 3 nothing point (pointed 3)).0).hits ≡ [])
    × SameCounts
        (undo_hits 2 (triggers 3 nothing point (pointed 3)).0).breakpoints
        (pointed 3).breakpoints
unfolding lookup
undo_hits-Fires_example =
    undo_hits-Fires 2 (pointed 3) (triggers 3 nothing point (pointed 3)).0 tt
      (fires 3 nothing point done refl (omega arith))

on_code-Turn_example : Turn (clock (pointed 3)) (on_code 3 3 (pointed 3))
on_code-Turn_example = on_code-Turn 3 3 (pointed 3) refl

abbrev budgeted : Session host
budgeted = record (session 0) { left = some 1; first = true }

icount-Calls_example : (on_code 1 1 (on_code 0 0 budgeted)).timeline.icount ≤ 0 + 1
icount-Calls_example =
    icount-Calls 1 budgeted (on_code 1 1 (on_code 0 0 budgeted)) refl (omega arith) refl
      (code 1 1 (code 0 0 begins))

abbrev again : Session host
again = record (pointed 5) { replaying = true; left = some 4 }

Calls-lasting_example : lasting (on_code 3 3 again) ≡ lasting again
Calls-lasting_example = Calls-lasting again (on_code 3 3 again) refl (code 3 3 begins)

-- Two steps from the start.
abbrev two_steps : Session host
two_steps = record (session 2) { left = some 0 }

abbrev stepped : StopEvent
stepped = record { reason = step; pc = 2; hit = none; fault = none }

two_stepped : step_n runner 2 0 (session 0) ≡ some (two_steps, 2, stepped)
unfolding step_n steps emulate prepare promote classify conclude unstopped stop_address start_pc
    walk on_code count changed_register changed_from note_instruction at_exit has
two_stepped = refl

step_n-Rests_example : Rests (0 + max 2 1) stepped two_steps
step_n-Rests_example =
    step_n-Rests runner 2 0 2 (session 0) two_steps stepped runner-HooksOnly refl two_stepped

-- Back from instruction 3 to instruction 1, which the replay of one instruction reaches. The counter
-- stood at 100 when the history began.
abbrev from_hundred : ℕ → Session host
from_hundred icount = record (session icount) {
  timeline = record (history icount) {
    base = some (record { icount = 0; context = 100; pages = []; regions = some [] });
  };
}

abbrev at_one : Session host
at_one = record (from_hundred 1) { left = some 0; replay_icount = 1 }

abbrev base_hundred : Checkpoint ℕ
base_hundred = record { icount = 0; context = 100; pages = []; regions = some [] }

abbrev at_two : Session host
at_two = record (session 2) { left = some 0; replay_icount = 2 }

stepped_over : over_times runner 1 3 (session 3) ≡ some (at_two, 2)
unfolding over_times prev_over prev_from history_pcs scan nth depth_delta lookup go check_bounds
    recording earliest restore_state resync_status restore checkpoint_at_or_before best_from
    sync_regions wanted_regions write_pages write_deltas truncate kept_until last_checkpoint last_of
    replay_forward start_pc walk on_code replay_code settle undo_hits undo resync_register_watches
    resync_from advance_to truncate_layers
stepped_over = refl

over_times-le_example : 2 + 1 ≤ 3
over_times-le_example = over_times-le runner 1 3 2 (session 3) at_two runner-HooksOnly stepped_over

-- A breakpoint at address 1 that was set after instruction 1 had run.
abbrev late : ℕ → ℕ → Breakpoint host.Code
late num hits = record (new_breakpoint num execute 1 1 false) { hit_count = hits }

abbrev marked : Session host
marked = record (session 3) { breakpoints = (1, late 1 0) ∷ []; by_addr = (1, 1) ∷ [] }

abbrev at_mark : Session host
at_mark = record (session 1) {
  breakpoints = (1, late 1 1) ∷ [];
  by_addr = (1, 1) ∷ [];
  left = some 0;
  replay_icount = 1;
  hits = record { icount = 1; num = 1; ignored = false } ∷ [];
}

abbrev hit_back : StopEvent
hit_back = record { reason = breakpoint; pc = 1; hit = some 1; fault = none }

ran_back : resume_back runner 3 marked ≡ some (at_mark, 1, hit_back)
unfolding resume_back search search_from live_points any_watched insert lookup scan_back
    candidates_of from_trace from_observed first_that_holds backwards sort place recount hits_at
    hit_in go check_bounds recording earliest restore_state resync_status restore
    checkpoint_at_or_before best_from sync_regions wanted_regions write_pages write_deltas truncate
    kept_until last_checkpoint last_of replay_forward start_pc walk on_code replay_code settle
    undo_hits undo resync_register_watches resync_from advance_to truncate_layers
ran_back = refl

resume_back-less_example : 1 < 3
resume_back-less_example =
    resume_back-less runner 3 1 marked at_mark hit_back runner-HooksOnly ran_back

-- Address 16 has a permanent breakpoint; a run to 16 sets a temporary one there and deletes it.
abbrev kept : Session host
kept = record (session 0) {
  breakpoints = (1, new_breakpoint 1 execute 16 1 false) ∷ [];
  by_addr = [];
  next_bp = 3;
}

advanced :
    delete_breakpoint 2
      (add_breakpoint 16 true (record kept { by_addr = (16, 1) ∷ []; next_bp = 2 })).0
    ≡ some kept
unfolding add_breakpoint insert_execute delete_breakpoint deleted lookup insert erase without
advanced = refl

lookup-delete_breakpoint_example : lookup 16 kept.by_addr ≡ none
lookup-delete_breakpoint_example =
    lookup-delete_breakpoint 16 (record kept { by_addr = (16, 1) ∷ []; next_bp = 2 }) kept advanced
