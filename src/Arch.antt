-- ===== src/Arch.antt =====
-- ghidraunicorn/arch.py: registers, flags and fields, and what a mnemonic does. `value & ((1 << w) - 1)` is
-- `value % 2 ^ w`, `value >> b` is `value / 2 ^ b`, and an `|` of disjoint parts is their sum.
pub mod Bits
pub mod Registers
pub mod Tests
use ghidra_unicorn.Prelude.{
  nat_eq, string_eq, ℕ, ◌+◌, ◌-◌, ◌*◌, ◌/◌, ◌%◌, ◌^◌, Bool, true, false, ◌&&◌, ◌||◌, Option, none,
  some, List, [], ◌∷◌, map, String, ltb, ◌==◌, if◌then◌else◌, Dict, lookup, insert,
}

-- What the tables use of Python's strings: `lower`, `in`, and `split` at the first space or dot, `none`
-- where there is none.
pub record Text : Type 0 where
  pub lower : String → String
  pub has : String → String → Bool
  pub split_space : String → Option (String × String)
  pub split_dot : String → Option (String × String)

pub record Reg : Type 0 where
  pub name : String
  pub uc : ℕ
  pub size : ℕ

pub record Flag : Type 0 where
  pub name : String
  pub source : String
  pub bit : ℕ
  pub width : ℕ

pub record Field : Type 0 where
  pub name : String
  pub bit : ℕ
  pub width : ℕ
  pub names : Dict ℕ String

-- The fields of `ArchSpec` that the operations here read.
pub record ArchSpec : Type 0 where
  pub bits : ℕ
  pub regs : List Reg
  pub pc : String
  pub sp : String
  pub call_mnemonics : List String
  pub return_mnemonics : List String
  pub thumb_field : Option String
  pub flags : List Flag
  pub status : Option String
  pub fields : List Field

-- `(value >> bit) & ((1 << width) - 1)`
unfoldable pub get_bits : ℕ → ℕ → ℕ → ℕ
get_bits bit width value = value / 2 ^ bit % 2 ^ width

-- `(value & ~mask) | (v << bit)`; `none` is the `ValueError` of a value that does not fit.
unfoldable pub set_bits : ℕ → ℕ → ℕ → ℕ → Option ℕ
unfolding get_bits
set_bits bit width value v =
    if ltb v (2 ^ width)
    then some (value - get_bits bit width value * 2 ^ bit + v * 2 ^ bit)
    else none

abbrev pub get_flag : Flag → ℕ → ℕ
get_flag f = get_bits f.bit f.width

abbrev pub set_flag_bits : Flag → ℕ → ℕ → Option ℕ
set_flag_bits f = set_bits f.bit f.width

abbrev pub get_field : Field → ℕ → ℕ
get_field f = get_bits f.bit f.width

abbrev pub set_field : Field → ℕ → ℕ → Option ℕ
set_field f = set_bits f.bit f.width

abbrev pub ptr_size : ArchSpec → ℕ
ptr_size spec = spec.bits / 8

-- `mnemonic in mnemonics`
unfoldable pub among : String → List String → Bool
among x [] = false
among x (y ∷ l) = y == x || among x l

module _ (text : Text) where
  open text use {lower, has, split_space}

  unfoldable pub reg_in : String → List Reg → Option Reg
  reg_in lname [] = none
  reg_in lname (r ∷ regs) = if lower r.name == lname then some r else reg_in lname regs

  -- `none` is the `KeyError`.
  unfoldable pub reg : ArchSpec → String → Option Reg
  reg spec name = reg_in (lower name) spec.regs

  unfoldable pub any_reg : String → List Reg → Bool
  any_reg lname [] = false
  any_reg lname (r ∷ regs) = lower r.name == lname || any_reg lname regs

  unfoldable pub has_reg : ArchSpec → String → Bool
  has_reg spec name = any_reg (lower name) spec.regs

  unfoldable pub flag_in : String → List Flag → Option Flag
  flag_in lname [] = none
  flag_in lname (f ∷ flags) = if lower f.name == lname then some f else flag_in lname flags

  unfoldable pub flag : ArchSpec → String → Option Flag
  flag spec name = flag_in (lower name) spec.flags

  unfoldable pub field_in : String → List Field → Option Field
  field_in lname [] = none
  field_in lname (f ∷ fields) = if lower f.name == lname then some f else field_in lname fields

  unfoldable pub field : ArchSpec → String → Option Field
  field spec name = field_in (lower name) spec.fields

  unfoldable pub is_call : ArchSpec → String → Bool
  is_call spec mnemonic = among (lower mnemonic) spec.call_mnemonics

  -- One entry of `return_mnemonics`; with a space in it, it is looked for in the operands too.
  abbrev pub entry_matches : String → String → String → Option (String × String) → Bool
  entry_matches mnemonic operands entry none = mnemonic == entry
  entry_matches mnemonic operands entry (some (want_mnem, want_ops)) =
      mnemonic == want_mnem && has want_ops operands

  unfoldable pub return_in : String → String → List String → Bool
  return_in mnemonic operands [] = false
  return_in mnemonic operands (entry ∷ entries) =
      entry_matches mnemonic operands entry (split_space entry)
      || return_in mnemonic operands entries

  unfoldable pub is_return : ArchSpec → String → String → Bool
  is_return spec mnemonic operands =
      return_in (lower mnemonic) (lower operands) spec.return_mnemonics

  -- `none` is an unknown flag or a value that does not fit.
  unfoldable pub set_flag : ArchSpec → ℕ → String → ℕ → Option ℕ
  set_flag spec value name on = elim (flag spec name) [
    | none ↦ none
    | some f ↦ set_flag_bits f value on
  ]

unfoldable pub flags_from : ℕ → List Flag → Dict String ℕ → Dict String ℕ
flags_from value [] out = out
flags_from value (f ∷ flags) out = flags_from value flags (insert f.name (get_flag f value) out)

unfoldable pub decode_flags : ArchSpec → ℕ → Dict String ℕ
decode_flags spec value = flags_from value spec.flags []
