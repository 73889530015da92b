-- ===== src/Debugger.antt =====
-- ghidraunicorn/target.py, `UnicornTarget`: the state of a session, its breakpoints and its stops.
-- A breakpoint is known by its number: what the code holds as a reference to a `Breakpoint`, the
-- model holds as that number. Hook handles are the engine's; the texts of a stop are left out.
pub mod Points
pub mod Hits
pub mod Hook
pub mod Run
pub mod Reverse
pub mod Counter
pub mod Tests
use ghidra_unicorn.Prelude.{
  nat_eq, ℕ, zero, suc, ◌+◌, ◌-◌, ◌≤◌, Bool, true, false, not, ◌&&◌, ◌||◌, ◌⊎◌, inl, inr, Option,
  none, some, List, [], ◌∷◌, ◌++◌, String, ltb, leb, ◌==◌, if◌then◌else◌, Dict, lookup, insert, max,
}
use ghidra_unicorn.Engine.{Engine}
use ghidra_unicorn.Effects.{EffectLog, truncate as log_truncate, forget_before}
use ghidra_unicorn.Timeline.{Timeline, has}

pub data Kind : Type 0 where
  execute read_watch write_watch access_watch register_watch : Kind

-- What a watchpoint adds to the scope of its condition: the access, or the change of a register.
pub data Extra : Type 0 where
  nothing : Extra
  access : ℕ → ℕ → ℕ → Bool → Extra
  changed : ℕ → ℕ → String → Extra

pub record Breakpoint (Code : Type 0) : Type 0 where
  pub num : ℕ
  pub kind : Kind
  pub address : ℕ
  pub size : ℕ
  pub enabled : Bool
  pub hit_count : ℕ
  pub temporary : Bool
  pub condition : Option String
  pub ignore_count : ℕ
  pub condition_error : Option String
  pub register : Option String
  pub previous : Option ℕ
  pub code : Option Code

pub record Hit : Type 0 where
  pub icount : ℕ
  pub num : ℕ
  pub ignored : Bool

pub data Reason : Type 0 where
  breakpoint watchpoint step interrupt exit error stopped : Reason

pub record StopEvent : Type 0 where
  pub reason : Reason
  pub pc : ℕ
  pub hit : Option ℕ
  pub fault : Option (String × ℕ × ℕ)

-- What the target calls: the engine and its registers, Python's `strip`, `compile` and `eval` (a
-- text is the exception that `eval` raised), and a layer's own state with its restore and its forget.
pub record Host : Type 1 where
  pub engine : Engine
  pub Code : Type 0
  pub strip : String → String
  pub compile : String → Option Code
  pub evaluate : Code → engine.Machine → ℕ → ℕ → Extra → String ⊎ Bool
  pub reg_read : engine.Machine → String → Option ℕ
  pub pc : engine.Machine → ℕ
  pub Own : Type 0
  pub Saved : Type 0
  pub Detail : Type 0
  pub layer_restore : Saved → Own → Own
  pub layer_forget : Option Saved → Own → Own

-- A layer: its state and its effect log.
pub record Layer (h : Host) : Type 0 where
  pub own : h.Own
  pub log : EffectLog h.Saved h.Detail

-- The access that a replay saw at a watchpoint: the instruction, the breakpoint, the access.
pub record Observed : Type 0 where
  pub at : ℕ
  pub num : ℕ
  pub extra : Extra

-- The fields of the target. `hits` is kept newest first. `left` is `none` where the code has a negative
-- count, which never becomes 0.
pub record Session (h : Host) : Type 0 where
  pub end : Option ℕ
  pub exits : List ℕ
  pub breakpoints : Dict ℕ (Breakpoint h.Code)
  pub next_bp : ℕ
  pub by_addr : Dict ℕ ℕ
  pub reg_watches : List ℕ
  pub running : Bool
  pub first : Bool
  pub halting : Bool
  pub stop : Option StopEvent
  pub pending : Option StopEvent
  pub interrupted : Bool
  pub terminated : Bool
  pub fault : Option (String × ℕ × ℕ)
  pub timeline : Timeline h.engine.Context
  pub replaying : Bool
  pub replay_icount : ℕ
  pub left : Option ℕ
  pub trace : Option (List ℕ)
  pub observed : Option (List Observed)
  pub hits : List Hit
  pub layers : List (Layer h)

-- `self._left -= 1`
abbrev pub one_less : Option ℕ → Option ℕ
one_less none = none
one_less (some zero) = none
one_less (some (suc n)) = some n

-- `self._left == 0`
abbrev pub used_up : Option ℕ → Bool
used_up none = false
used_up (some n) = n == 0

-- `address in self.exits or (self.end is not None and address == self.end)`
unfoldable pub at_exit : List ℕ → Option ℕ → ℕ → Bool
at_exit exits none address = has address exits
at_exit exits (some e) address = has address exits || address == e

-- `log.truncate`, with its call of `_restore`
unfoldable pub truncate_layers : {h : Host} → ℕ → List (Layer h) → List (Layer h)
truncate_layers k [] = []
truncate_layers {h = h} k (l ∷ layers) =
    let (log, before) = log_truncate k l.log in
    record {
      own = elim before [ none ↦ l.own | some saved ↦ h.layer_restore saved l.own ];
      log = log;
    }
    ∷ truncate_layers k layers

-- `log.forget_before`, with its call of `_forget`
unfoldable pub forget_layers : {h : Host} → ℕ → List (Layer h) → List (Layer h)
forget_layers earliest [] = []
forget_layers {h = h} earliest (l ∷ layers) =
    let (log, oldest) = forget_before earliest l.log in
    record {
      own = elim oldest [ none ↦ l.own | some saved ↦ h.layer_forget saved l.own ];
      log = log;
    }
    ∷ forget_layers earliest layers
