-- ===== src/Debugger/Points.antt =====
-- ghidraunicorn/target.py: setting, changing and deleting breakpoints.
-- `none` is the exception of the call (`KeyError` or `TargetError`), which leaves the session as it was.
pub mod Found
pub mod Edits
pub mod Temporary
use ghidra_unicorn.Prelude.{
  nat_eq, string_eq, ℕ, ◌+◌, Bool, true, false, not, ◌&&◌, Option, none, some, List, [], ◌∷◌, ◌++◌,
  String, ◌==◌, if◌then◌else◌, Dict, lookup, insert, erase, max,
}
use ghidra_unicorn.Debugger.{
  Host, Session, Breakpoint, Kind, execute, read_watch, write_watch, access_watch, register_watch,
}

abbrev pub is_execute : Kind → Bool
is_execute execute = true
is_execute read_watch = false
is_execute write_watch = false
is_execute access_watch = false
is_execute register_watch = false

-- `kind in (READ, WRITE, ACCESS)`
abbrev pub is_memory : Kind → Bool
is_memory execute = false
is_memory read_watch = true
is_memory write_watch = true
is_memory access_watch = true
is_memory register_watch = false

module _ {Code : Type 0} where
  -- `Breakpoint(num, kind, address, size)`, with its defaults
  abbrev pub new_breakpoint : ℕ → Kind → ℕ → ℕ → Bool → Breakpoint Code
  new_breakpoint num kind address size temporary = record {
    num = num;
    kind = kind;
    address = address;
    size = size;
    enabled = true;
    hit_count = 0;
    temporary = temporary;
    condition = none;
    ignore_count = 0;
    condition_error = none;
    register = none;
    previous = none;
    code = none;
  }

  -- The breakpoint that the loop of `add_breakpoint` returns, if it does.
  unfoldable pub find_execute : ℕ → Dict ℕ (Breakpoint Code) → Option ℕ
  find_execute address [] = none
  find_execute address ((num, bp) ∷ breakpoints) =
      if is_execute bp.kind && bp.address == address
      then some bp.num
      else find_execute address breakpoints

-- `list.remove`
unfoldable pub without : ℕ → List ℕ → List ℕ
without x [] = []
without x (y ∷ l) = if y == x then l else y ∷ without x l

-- `(expression or '').strip() or None`
abbrev pub stripped : (String → String) → Option String → Option String
stripped strip none = none
stripped strip (some text) = if strip text == "" then none else some (strip text)

-- `self._bp_by_addr.get(address) is bp`
abbrev pub holds : ℕ → Option ℕ → Bool
holds num none = false
holds num (some n) = n == num

module _ {Code : Type 0} where
  abbrev pub with_condition : Option String → Option Code → Breakpoint Code → Breakpoint Code
  with_condition condition code bp = record bp {
    condition = condition;
    code = code;
    condition_error = none;
  }

  -- The compiled condition: `none` outside is the `SyntaxError`.
  abbrev pub compiled : (String → Option Code) → Option String → Option (Option Code)
  compiled compile none = some none
  compiled compile (some text) = elim (compile text) [ none ↦ none | some code ↦ some (some code) ]

  -- `_bp_by_addr` without the breakpoint, where it is the one at its address.
  abbrev pub unindexed : ℕ → Breakpoint Code → Dict ℕ ℕ → Dict ℕ ℕ
  unindexed num bp by_addr =
      if is_execute bp.kind && holds num (lookup bp.address by_addr)
      then erase bp.address by_addr
      else by_addr

module _ {h : Host} where
  -- `_next_bp`, `breakpoints` and `_bp_by_addr` with a new execute breakpoint
  unfoldable pub insert_execute : ℕ → Bool → Session h → Session h
  insert_execute address temporary s = record s {
    next_bp = s.next_bp + 1;
    breakpoints =
        insert s.next_bp (new_breakpoint s.next_bp execute address 1 temporary) s.breakpoints;
    by_addr = insert address s.next_bp s.by_addr;
  }

  unfoldable pub add_breakpoint : ℕ → Bool → Session h → Session h × ℕ
  add_breakpoint address temporary s =
      if temporary
      then (insert_execute address temporary s, s.next_bp)
      else elim (find_execute address s.breakpoints) [
        | some num ↦ (s, num)
        | none ↦ (insert_execute address temporary s, s.next_bp)
      ]

  unfoldable pub add_watchpoint : ℕ → ℕ → Kind → Session h → Option (Session h × ℕ)
  add_watchpoint address size kind s =
      if is_memory kind
      then some (
        record s {
          next_bp = s.next_bp + 1;
          breakpoints =
              insert s.next_bp (new_breakpoint s.next_bp kind address (max size 1) false)
                s.breakpoints;
        },
        s.next_bp,
      )
      else none

  unfoldable pub add_register_watch : String → h.engine.Machine → Session h → Option (Session h × ℕ)
  add_register_watch register m s = elim (h.reg_read m register) [
    | none ↦ none
    | some value ↦ some (
      record s {
        next_bp = s.next_bp + 1;
        breakpoints =
            insert s.next_bp
              (record (new_breakpoint s.next_bp register_watch 0 1 false) {
                register = some register;
                previous = some value;
              })
              s.breakpoints;
        reg_watches = s.reg_watches ++ s.next_bp ∷ [];
      },
      s.next_bp,
    )
  ]

  -- A change of the breakpoint with a number.
  abbrev pub change : ℕ → (Breakpoint h.Code → Breakpoint h.Code) → Session h → Option (Session h)
  change num f s = elim (lookup num s.breakpoints) [
    | none ↦ none
    | some bp ↦ some (record s { breakpoints = insert num (f bp) s.breakpoints })
  ]

  unfoldable pub enable_breakpoint : ℕ → Bool → Session h → Option (Session h)
  enable_breakpoint num enabled = change num (λ bp. record bp { enabled = enabled })

  -- A count below zero is taken as 0.
  unfoldable pub set_ignore_count : ℕ → ℕ → Session h → Option (Session h)
  set_ignore_count num count = change num (λ bp. record bp { ignore_count = count })

  -- The breakpoint with a condition and its compiled form, if it compiled.
  abbrev pub set_compiled :
      ℕ → Option String → Option (Option h.Code) → Session h → Option (Session h)
  set_compiled num condition none s = none
  set_compiled num condition (some code) s = change num (with_condition condition code) s

  unfoldable pub set_condition : ℕ → Option String → Session h → Option (Session h)
  set_condition num expression s =
      set_compiled num (stripped h.strip expression)
        (compiled h.compile (stripped h.strip expression)) s

  unfoldable pub deleted : ℕ → Breakpoint h.Code → Session h → Session h
  deleted num bp s = record s {
    breakpoints = erase num s.breakpoints;
    by_addr = unindexed num bp s.by_addr;
    reg_watches = without num s.reg_watches;
  }

  unfoldable pub delete_breakpoint : ℕ → Session h → Option (Session h)
  delete_breakpoint num s = elim (lookup num s.breakpoints) [
    | none ↦ none
    | some bp ↦ some (deleted num bp s)
  ]
