-- ===== src/Abi.antt =====
-- ghidraunicorn/abi.py: how a program asks for a system call, and calls a function, on each architecture.
pub mod Numbers
pub mod Conventions
pub mod CallTable
use ghidra_unicorn.Prelude.{
  nat_eq, string_eq, ℕ, Bool, true, false, Option, none, some, List, [], ◌∷◌, String, Dict, lookup,
  insert,
}

-- The `error` of a `SyscallAbi`: `NEGATIVE`, `MIPS` and `PPC`.
pub data Error : Type 0 where
  negative mips ppc : Error

pub record SyscallAbi : Type 0 where
  pub number : String
  pub args : List String
  pub ret : String
  pub numbers : Dict String ℕ
  pub intnos : List ℕ
  pub insn : Bool
  pub error : Error
  pub error_reg : Option String
  pub error_cr : Option String
  pub errnos : Dict String ℕ
  pub stack_args : Option ℕ
  pub advance : ℕ

-- The comprehension of `by_number`, from what it has of the entries before.
unfoldable pub by_number_from : Dict ℕ String → Dict String ℕ → Dict ℕ String
by_number_from table [] = table
by_number_from table ((name, number) ∷ numbers) = by_number_from (insert number name table) numbers

abbrev pub by_number : SyscallAbi → Dict ℕ String
by_number abi = by_number_from [] abi.numbers

-- How a stubbed function returns: by the link register, or by the stack.
pub data Returns : Type 0 where
  via_link via_stack : Returns

pub record CallAbi : Type 0 where
  pub args : List String
  pub ret : String
  pub returns : Returns
  pub link : Option String
  pub link_offset : ℕ
  pub stack_slot : ℕ
  pub ret_hi : Option String
