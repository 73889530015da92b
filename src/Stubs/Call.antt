-- ===== src/Stubs/Call.antt =====
-- ghidraunicorn/stubs.py: a call that reaches a stub. `none` is an exception that `_on_code` does not
-- catch.
use ghidra_unicorn.Prelude.{
  nat_eq, string_eq, ℕ, zero, suc, ◌+◌, ◌-◌, ◌*◌, ◌/◌, ◌%◌, ◌^◌, Bool, true, false, Option, none,
  some, List, [], ◌∷◌, String, if◌then◌else◌, length, Dict, lookup, insert,
}
use ghidra_unicorn.Engine.{Bytes}
use ghidra_unicorn.Target.{Target}
use ghidra_unicorn.Abi.{CallAbi, Returns, via_link, via_stack}
use ghidra_unicorn.Effects.{EffectLog, begin, finish, on_current, set_reg, replay}
use ghidra_unicorn.Heap.{Snapshot, snapshot}
use ghidra_unicorn.Syscalls.{from_little, from_big}
use ghidra_unicorn.Stubs.{World, Result, ok, failed, Answer, void, minus_one, word, fail}
use ghidra_unicorn.Stubs.Functions.{Implementation, implementations}

-- What the layer reads of the target's `spec`, the convention, and the text of `exit`.
pub record Convention : Type 0 where
  pub abi : CallAbi
  pub bits : ℕ
  pub big_endian : Bool
  pub sp : String
  pub pc : String
  pub exit_text : ℕ → String

abbrev pub ptr_size : Convention → ℕ
ptr_size c = c.bits / 8

-- `int.from_bytes(…, spec.endian)`
abbrev pub number : Convention → Bytes → ℕ
number c bytes = if c.big_endian then from_big 0 bytes else from_little bytes

unfoldable pub nth_name : ℕ → List String → Option String
nth_name n [] = none
nth_name zero (x ∷ l) = some x
nth_name (suc n) (x ∷ l) = nth_name n l

-- `value & ((1 << bits) - 1)`
abbrev pub masked : Convention → Answer → Option ℕ
masked c void = none
masked c minus_one = some (2 ^ c.bits - 1)
masked c (word value) = some (value % 2 ^ c.bits)

abbrev pub or_zero : Option ℕ → ℕ
or_zero none = 0
or_zero (some value) = value

abbrev pub link_register : Option String → String
link_register none = ""
link_register (some name) = name

abbrev pub counted : String → Dict String ℕ → Dict String ℕ
counted name calls = insert name (or_zero (lookup name calls) + 1) calls

-- `effect.detail = name`
abbrev pub detailed : String → EffectLog Snapshot String → EffectLog Snapshot String
detailed name = on_current (λ effect. record effect { detail = some name })

abbrev pub Logged : Target → Type 0
Logged g = g.State × EffectLog Snapshot String

module _ (g : Target) (c : Convention) where
  -- `read_word`
  abbrev pub read_word : ℕ → g.State → Option ℕ
  read_word address s = elim (g.read s address (ptr_size c)) [
    | none ↦ none
    | some bytes ↦ some (number c bytes)
  ]

  abbrev pub arg_from : ℕ → Option String → g.State → ℕ
  arg_from index (some register) s = g.reg_read s register
  arg_from index none s = or_zero (
      read_word (g.reg_read s c.sp + (c.abi.stack_slot + (index - length c.abi.args)) * ptr_size c)
        s)

  unfoldable pub arg : ℕ → g.State → ℕ
  arg index s = arg_from index (nth_name index c.abi.args) s

  -- The return address, with the stack popped where it was on the stack.
  abbrev pub popped : ℕ → Option ℕ → Logged g → Option (ℕ × Logged g)
  popped sp none l = none
  popped sp (some ret) l = elim (set_reg g c.sp (sp + ptr_size c) l) [
    | none ↦ none
    | some l' ↦ some (ret, l')
  ]

  abbrev pub return_address : Returns → Logged g → Option (ℕ × Logged g)
  return_address via_link (s, log) =
      some (g.reg_read s (link_register c.abi.link) + c.abi.link_offset, (s, log))
  return_address via_stack (s, log) =
      popped (g.reg_read s c.sp) (read_word (g.reg_read s c.sp) s) (s, log)

  abbrev pub put_result : Option ℕ → Logged g → Option (Logged g)
  put_result none l = some l
  put_result (some value) l = set_reg g c.abi.ret value l

  abbrev pub jump : ℕ → Option (Logged g) → Option (Logged g)
  jump ret none = none
  jump ret (some l) = set_reg g c.pc ret l

  -- `_return`
  abbrev pub returned : Answer → Option (ℕ × Logged g) → Option (Logged g)
  returned answer none = none
  returned answer (some (ret, l)) = jump ret (put_result (masked c answer) l)

  unfoldable pub return_to : Answer → Logged g → Option (Logged g)
  return_to answer l = returned answer (return_address c.abi.returns l)

  -- A call that failed returns 0.
  abbrev pub answered : Result Answer × World g → Answer × World g
  answered (ok answer, w) = (answer, w)
  answered (failed, w) = (word 0, w)

  abbrev pub finished : World g → Option (Logged g) → Option (World g)
  finished w none = none
  finished w (some (s, log)) = some (record w { state = s; log = finish log })

  -- The body of `recording`: the implementation, then the return to the caller.
  abbrev pub body : Implementation g → World g → Option (World g)
  body implementation w =
      let (answer, w') =
        answered (implementation (arg 0 w.state) (arg 1 w.state) (arg 2 w.state) w) in
      finished w' (return_to answer (w'.state, w'.log))

  -- A name without an implementation is caught like any other exception.
  abbrev pub known : Option (Implementation g) → Implementation g
  known none = λ x y z. fail
  known (some implementation) = implementation

  abbrev pub perform : ℕ → String → Option (Implementation g) → World g → Option (World g)
  perform icount name implementation w = body (known implementation) (record w {
    calls = counted name w.calls;
    log = detailed name (begin icount name (some (snapshot w.heap)) w.log);
  })

  abbrev pub call_bound : ℕ → Option String → World g → Option (World g)
  call_bound icount none w = some w
  call_bound icount (some name) w =
      perform icount name (lookup name (implementations c.exit_text)) w

  -- `_on_code`, up to its `request_stop`: whether the target replays, and whether it is halting.
  unfoldable pub on_code : Bool → Bool → ℕ → ℕ → World g → Option (World g)
  on_code true halting icount address w =
      some (record w { state = (replay g icount w.log w.state).0 })
  on_code false true icount address w = some w
  on_code false false icount address w = call_bound icount (lookup address w.bound) w
