-- ===== src/Syscalls/Trap.antt =====
-- A trap keeps the kernel's state valid, when it runs a handler and when it replays.
use ghidra_unicorn.Prelude.{
  nat_eq, string_eq, ℕ, ◌≡◌, refl, sym, subst, Bool, true, false, Option, none, some, List, String,
  Dict, lookup, ◌∙◌, Bool-cases, Option-cases, inl, inr,
}
use ghidra_unicorn.Target.{Target}
use ghidra_unicorn.Abi.{SyscallAbi, Error, negative, mips, ppc}
use ghidra_unicorn.Effects.{EffectLog}
use ghidra_unicorn.Syscalls.{Kernel, Snapshot, SyscallRecord, Machine, World, settle}
use ghidra_unicorn.Syscalls.Arena.{IsValid}
use ghidra_unicorn.Syscalls.Calls.{handlers}
use ghidra_unicorn.Syscalls.Dispatch.{
  apply_result, put, put_flag, put_condition, report, handle, handler_of, execute, dispatch,
}
use ghidra_unicorn.Syscalls.Handlers.{handlers-Keeps}

unknown-IsValid :
    (k : Kernel) (unknown : Dict ℕ ℕ) → IsValid k → IsValid (record k { unknown = unknown })
unknown-IsValid k unknown h = record {
  mmap_low = h.mmap_low;
  mmap_high = h.mmap_high;
  brk_low = h.brk_low;
  brk_high = h.brk_high;
  brk_backed = h.brk_backed;
  descriptors = h.descriptors;
}

module _ {g : Target} where
  settle-same :
      (r : Option (g.State × EffectLog Snapshot SyscallRecord)) (w : World g)
      → (settle r w).1.kernel ≡ w.kernel
  settle-same none w = refl
  settle-same (some (s, log)) w = refl

  put-kernel : (name : String) (value : ℕ) (w : World g) → (put name value w).kernel ≡ w.kernel
  put-kernel name value w = settle-same _ w

  put_flag-kernel :
      (r : Option String) (flag : ℕ) (w : World g) → (put_flag r flag w).kernel ≡ w.kernel
  put_flag-kernel none flag w = refl
  put_flag-kernel (some r) flag w = put-kernel r flag w

  put_condition-kernel :
      (has_reg : String → Bool) (r : Option String) (failed : Bool) (w : World g)
      → (put_condition has_reg r failed w).kernel ≡ w.kernel
  put_condition-kernel has_reg none failed w = refl
  put_condition-kernel has_reg (some r) failed w = elim (Bool-cases (has_reg r)) [
    | inl p ↦ rw p (put-kernel r _ w)
    | inr p ↦ rw p refl
  ]

  report-kernel :
      (error : Error) (abi : SyscallAbi) (m : Machine) (has_reg : String → Bool) (result : ℕ)
      (failed : Bool) (w : World g)
      → (report error abi m has_reg result failed w).kernel ≡ w.kernel
  unfolding report
  report-kernel negative abi m has_reg result failed w = put-kernel abi.ret _ w
  report-kernel mips abi m has_reg result failed w =
      put_flag-kernel abi.error_reg _ (put abi.ret _ w) ∙ put-kernel abi.ret _ w
  report-kernel ppc abi m has_reg result failed w =
      put_condition-kernel has_reg abi.error_cr failed (put abi.ret _ w) ∙ put-kernel abi.ret _ w

  handle-IsValid :
      (m : Machine) (name : Option String) (number : ℕ) (args : List ℕ) (w : World g)
      → IsValid w.kernel
      → IsValid (handle (handler_of name (handlers m)) number args w).1.kernel
  unfolding handle
  handle-IsValid m none number args w v = unknown-IsValid w.kernel _ v
  handle-IsValid m (some name) number args w v =
      elim (Option-cases (lookup name (handlers {g = g} m))) [
        | inl p ↦ rw p (unknown-IsValid w.kernel _ v)
        | inr (handler, p) ↦ rw p (handlers-Keeps m name handler args w p v)
      ]

  execute-IsValid :
      (abi : SyscallAbi) (m : Machine) (has_reg : String → Bool) (sp : String) (label : ℕ → String)
      (icount : ℕ) (w : World g)
      → IsValid w.kernel
      → IsValid (execute abi m has_reg sp label (handlers m) icount w).0.kernel
  unfolding execute apply_result
  execute-IsValid abi m has_reg sp label icount w v =
      subst IsValid (sym (report-kernel abi.error abi m has_reg _ _ _)) (handle-IsValid m _ _ _ _ v)

  -- A trap leaves a valid kernel valid, whether it runs the call that the table names, reports a number
  -- that it does not name, or replays.
  pub dispatch-IsValid :
      (abi : SyscallAbi) (m : Machine) (has_reg : String → Bool) (sp pc : String)
      (label : ℕ → String) (replaying : Bool) (icount : ℕ) (w : World g)
      → IsValid w.kernel
      → IsValid (dispatch abi m has_reg sp pc label (handlers m) replaying icount w).0.kernel
  unfolding dispatch
  dispatch-IsValid abi m has_reg sp pc label true icount w v = v
  dispatch-IsValid abi m has_reg sp pc label false icount w v =
      execute-IsValid abi m has_reg sp label icount _ v
