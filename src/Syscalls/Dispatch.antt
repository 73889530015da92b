-- ===== src/Syscalls/Dispatch.antt =====
-- A trap (`_dispatch`): the arguments, the handler or the replay, and the answer.
use ghidra_unicorn.Prelude.{
  nat_eq, string_eq, ℕ, zero, suc, ◌+◌, ◌-◌, ◌%◌, Bool, true, false, Option, none, some, List, [],
  ◌∷◌, ◌++◌, String, ◌==◌, if◌then◌else◌, length, replicate, Dict, lookup, insert, or_else,
}
use ghidra_unicorn.Target.{Target}
use ghidra_unicorn.Abi.{Error, SyscallAbi, negative, mips, ppc, by_number}
use ghidra_unicorn.Effects.{begin, finish, replay, set_reg, on_current}
use ghidra_unicorn.Syscalls.{
  snapshot, Outcome, ok, syscall_error, uc_error, raised, Machine, mask, mask_neg, World, Action,
  logged,
}
use ghidra_unicorn.Syscalls.Calls.{read_word}

-- `ERRNO`
abbrev pub errno_table : Dict String ℕ
errno_table =
    ("EPERM", 1)
    ∷ ("ENOENT", 2)
    ∷ ("EBADF", 9)
    ∷ ("ENOMEM", 12)
    ∷ ("EACCES", 13)
    ∷ ("EFAULT", 14)
    ∷ ("ENODEV", 19)
    ∷ ("EINVAL", 22)
    ∷ ("EMFILE", 24)
    ∷ ("ESPIPE", 29)
    ∷ ("ENOSYS", 38)
    ∷ []

-- `errno`; `none` is its `KeyError`.
unfoldable pub errno : SyscallAbi → String → Option ℕ
errno abi name = or_else (lookup name abi.errnos) (lookup name errno_table)

-- `rec` after a handler: its result, whether it failed, and the name of its error. Every name that a
-- handler of the table raises has a number.
abbrev pub failure : SyscallAbi → String → ℕ × Bool × String
failure abi name = (elim (errno abi name) [ none ↦ 0 | some n ↦ n ], true, name)

unfoldable pub answer : SyscallAbi → Outcome ℕ → ℕ × Bool × String
answer abi (ok n) = (n, false, "")
answer abi (syscall_error name) = failure abi name
answer abi uc_error = failure abi "EFAULT"
answer abi raised = failure abi "EINVAL"

-- The arguments on the stack, of which `n` are left to read.
unfoldable pub stack_words : {g : Target} → Machine → ℕ → ℕ → World g → List ℕ
stack_words m zero address w = []
stack_words m (suc n) address w =
    elim (read_word m address w).0 [ ok x ↦ x | syscall_error _ ↦ 0 | uc_error ↦ 0 | raised ↦ 0 ]
    ∷ stack_words m n (address + m.ptr_size) w

-- The registers of the arguments.
unfoldable pub registers : (g : Target) → List String → g.State → List ℕ
registers g [] s = []
registers g (r ∷ names) s = g.reg_read s r ∷ registers g names s

-- The program counter, moved past the trap.
unfoldable pub skip : (g : Target) → SyscallAbi → String → g.State → g.State
skip g abi pc s =
    if abi.advance == 0
    then s
    else elim (g.reg_write s pc (g.reg_read s pc + abi.advance)) [ none ↦ s | some s' ↦ s' ]

-- `self.unknown[number] = self.unknown.get(number, 0) + 1`
unfoldable pub count_unknown : ℕ → Dict ℕ ℕ → Dict ℕ ℕ
count_unknown number unknown =
    insert number (elim (lookup number unknown) [ none ↦ 1 | some n ↦ n + 1 ]) unknown

-- `name or f'syscall_{number}'`; `label` formats the number.
abbrev pub name_of : (ℕ → String) → ℕ → Option String → String
name_of label number none = label number
name_of label number (some s) = s

module _ {g : Target} where
  -- `_read_args`; `sp` is the stack pointer's name.
  unfoldable pub read_args : SyscallAbi → Machine → String → World g → List ℕ
  read_args abi m sp w =
      let args = registers g abi.args w.state ++ elim abi.stack_args [
        | none ↦ []
        | some offset ↦ stack_words m 2 (g.reg_read w.state sp + offset) w
      ] in
      args ++ replicate (6 - length args) 0

  -- `log.set_reg`, of a register that the architecture has
  abbrev pub put : String → ℕ → World g → World g
  put name value w = (logged (set_reg g name value) w).1

  -- The error flag in a register of its own, if there is one.
  abbrev pub put_flag : Option String → ℕ → World g → World g
  put_flag none flag w = w
  put_flag (some r) flag w = put r flag w

  -- The error flag in the low bit of a condition register, if the machine has one.
  abbrev pub put_condition : (String → Bool) → Option String → Bool → World g → World g
  put_condition has_reg none failed w = w
  put_condition has_reg (some r) failed w =
      let cr = g.reg_read w.state r in
      let set = put r (if failed then cr - cr % 2 + 1 else cr - cr % 2) w in
      if has_reg r then set else w

  -- The branches of `_apply_result`.
  unfoldable pub report :
      Error → SyscallAbi → Machine → (String → Bool) → ℕ → Bool → World g → World g
  report negative abi m has_reg result failed w =
      put abi.ret (if failed then mask_neg m result else mask m result) w
  report mips abi m has_reg result failed w =
      put_flag abi.error_reg (if failed then 1 else 0) (put abi.ret (mask m result) w)
  report ppc abi m has_reg result failed w =
      put_condition has_reg abi.error_cr failed (put abi.ret (mask m result) w)

  -- `_apply_result`; `has_reg` is `spec.has_reg`.
  unfoldable pub apply_result :
      SyscallAbi → Machine → (String → Bool) → ℕ → Bool → World g → World g
  apply_result abi m has_reg result failed w = report abi.error abi m has_reg result failed w

  -- The `try` of `_dispatch`: the handler of the name, or `ENOSYS`.
  unfoldable pub handle : Option (List ℕ → Action g ℕ) → ℕ → List ℕ → Action g ℕ
  handle none number args w = (
    syscall_error "ENOSYS",
    record w { kernel = record w.kernel { unknown = count_unknown number w.kernel.unknown } },
  )
  handle (some handler) number args w = handler args w

  abbrev pub handler_of :
      Option String → Dict String (List ℕ → Action g ℕ) → Option (List ℕ → Action g ℕ)
  handler_of none handlers = none
  handler_of (some name) handlers = lookup name handlers

  abbrev stop_of : World g → Option (String × String)
  stop_of w = elim w.log.current [ none ↦ none | some effect ↦ effect.stop ]

  -- A call that is not a replay, at instruction `icount`: the world, and the stop that it requests.
  unfoldable pub execute :
      SyscallAbi
      → Machine
      → (String → Bool)
      → String
      → (ℕ → String)
      → Dict String (List ℕ → Action g ℕ)
      → ℕ
      → World g
      → World g × Option (String × String)
  execute abi m has_reg sp label handlers icount w =
      let number = g.reg_read w.state abi.number in
      let name = lookup number (by_number abi) in
      let args = read_args abi m sp w in
      let text = name_of label number name in
      let begun = record w { log = begin icount text (some (snapshot w.kernel)) w.log } in
      let (outcome, done) = handle (handler_of name handlers) number args begun in
      let (result, failed, result_name) = answer abi outcome in
      let described = record done {
        log =
            on_current
              (λ effect. record effect {
                detail = some (record {
                  icount = icount;
                  name = text;
                  number = number;
                  args = args;
                  result = result;
                  failed = failed;
                  result_name = result_name;
                });
              })
              done.log;
      } in
      let answered = apply_result abi m has_reg result failed described in
      (record answered { log = finish answered.log }, stop_of answered)

  -- `_dispatch` at instruction `icount`; `replaying` is the target's.
  unfoldable pub dispatch :
      SyscallAbi
      → Machine
      → (String → Bool)
      → String
      → String
      → (ℕ → String)
      → Dict String (List ℕ → Action g ℕ)
      → Bool
      → ℕ
      → World g
      → World g × Option (String × String)
  dispatch abi m has_reg sp pc label handlers replaying icount w =
      let moved = record w { state = skip g abi pc w.state } in
      let called = execute abi m has_reg sp label handlers icount moved in
      if replaying
      then (record moved { state = (replay g icount w.log moved.state).0 }, none)
      else called
