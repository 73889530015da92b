-- ===== src/Debugger/Reverse/Snapshots.antt =====
-- A reverse operation over a history whose snapshots are of the machines that stood at their instructions.
use ghidra_unicorn.Prelude.{nat_eq, ℕ, ◌≡◌, some}
use ghidra_unicorn.Engine.{Engine, Aligned, page_at}
use ghidra_unicorn.Timeline.{Timeline, Checkpoint, best_from, wanted_regions, sync_regions}
use ghidra_unicorn.Timeline.Images.{Shot, history, Ascending}
use ghidra_unicorn.Timeline.Restore.{overlay, newest}
use ghidra_unicorn.Debugger.{Host}
use ghidra_unicorn.Debugger.Run.{Runner}
use ghidra_unicorn.Debugger.Reverse.Recorded.{History}

-- What the history holds for instruction `k`, at a machine: its checkpoints ascend, the regions are as they
-- were, and the newest snapshot that is not after `k` has the registers and the pages of the machine that
-- stood at its instruction. Machines with the same registers and pages are the same to the program.
pub record Holds {h : Host} {r : Runner h} {step : ℕ → h.engine.Machine → h.engine.Machine}
    (past : History r step) (k : ℕ) (t : Timeline h.engine.Context) (m : h.engine.Machine)
    (base : Checkpoint h.engine.Context) : Type 0 where
  pub base_there : t.base ≡ some base
  pub ascending : Ascending h.engine base t.checkpoints
  pub regions_same :
      sync_regions h.engine t m
        (wanted_regions h.engine base (best_from h.engine k base t.checkpoints))
      ≡ m
  pub context :
      (s : Shot h.engine.Context)
      → newest k (history h.engine t) ≡ some s
      → s.context ≡ h.engine.context_save (past.state s.icount)
  pub pages :
      (s : Shot h.engine.Context) (q : ℕ)
      → newest k (history h.engine t) ≡ some s
      → Aligned q
      → overlay (page_at h.engine m q) (s.memory q) ≡ page_at h.engine (past.state s.icount) q
  pub alike :
      (a b : h.engine.Machine)
      → h.engine.context_save a ≡ h.engine.context_save b
      → ((q : ℕ) → Aligned q → page_at h.engine a q ≡ page_at h.engine b q)
      → past.Same a b
