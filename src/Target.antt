-- ===== src/Target.antt =====
-- What the layers use of `UnicornTarget` (ghidraunicorn/target.py): memory, registers and regions.
-- An operation that may raise returns an `Option`; it raises before it changes anything. A write of a
-- layer is `write(..., external=False)`, which marks the
-- pages; `mem_write` is `uc.mem_write`, which does not.
use ghidra_unicorn.Prelude.{ℕ, String, Option, List}
use ghidra_unicorn.Engine.{Bytes, Region}

pub record Target : Type 1 where
  pub State : Type 0
  pub read : State → ℕ → ℕ → Option Bytes
  pub write : State → ℕ → Bytes → Option State
  pub mem_write : State → ℕ → Bytes → Option State
  pub reg_read : State → String → ℕ
  pub reg_write : State → String → ℕ → Option State
  pub mem_map : State → ℕ → ℕ → ℕ → Option State
  pub mem_unmap : State → ℕ → ℕ → Option State
  pub regions : State → List Region
