-- ===== src/Arch/Registers.antt =====
-- ghidraunicorn/target.py: registers, flags and status fields by name.
-- `none` is the exception (`KeyError`, `ValueError` or `UcError`).
pub mod Written
use ghidra_unicorn.Prelude.{
  nat_eq, string_eq, ℕ, ◌+◌, ◌-◌, ◌*◌, ◌/◌, Bool, true, false, not, ◌&&◌, Option, none, some, List,
  [], ◌∷◌, String, ◌==◌, if◌then◌else◌, Dict, insert,
}
use ghidra_unicorn.Arch.{
  Text, Reg, Flag, Field, ArchSpec, reg, flag, field, get_field, set_field, get_flag, set_flag_bits,
  decode_flags,
}

-- The engine's registers, by their number.
pub record Chip : Type 1 where
  pub State : Type 0
  pub read : State → ℕ → Option ℕ
  pub write : State → ℕ → ℕ → Option State

-- What a name stands for.
pub data Name : Type 0 where
  unknown : Name
  in_field : Reg → Field → Name
  in_flag : Reg → Flag → Name
  whole : Reg → Name

-- `reg.lower() != status.lower()`
abbrev pub is_status : Text → Option String → String → Bool
is_status text none name = false
is_status text (some status) name = text.lower name == text.lower status

abbrev pub field_name : Text → ArchSpec → Option Reg → Option Field → Name
field_name text spec (some r) (some f) = in_field r f
field_name text spec none (some f) = unknown
field_name text spec o none = unknown

abbrev pub whole_name : Option Reg → Name
whole_name none = unknown
whole_name (some r) = whole r

abbrev pub flag_name : Text → ArchSpec → String → Option Flag → Name
flag_name text spec name none = whole_name (reg text spec name)
flag_name text spec name (some f) = elim (reg text spec f.source) [
  | none ↦ unknown
  | some r ↦ in_flag r f
]

abbrev pub dotted : Text → ArchSpec → String → Option (String × String) → Name
dotted text spec name none = flag_name text spec name (flag text spec name)
dotted text spec name (some (owner, fname)) =
    if is_status text spec.status owner
    then field_name text spec (reg text spec owner) (field text spec fname)
    else unknown

-- `_field`, then `spec.flag`, then `spec.reg`
unfoldable pub resolve : Text → ArchSpec → String → Name
resolve text spec name = dotted text spec name (text.split_dot name)

abbrev pub mapped : (ℕ → ℕ) → Option ℕ → Option ℕ
mapped f none = none
mapped f (some value) = some (f value)

module _ (chip : Chip) where
  open chip use {State}

  abbrev pub read_name : State → Name → Option ℕ
  read_name s unknown = none
  read_name s (in_field r f) = mapped (get_field f) (chip.read s r.uc)
  read_name s (in_flag r f) = mapped (get_flag f) (chip.read s r.uc)
  read_name s (whole r) = chip.read s r.uc

  unfoldable pub reg_read : Text → ArchSpec → State → String → Option ℕ
  reg_read text spec s name = read_name s (resolve text spec name)

  abbrev pub write_new : State → Reg → Option ℕ → Option State
  write_new s r none = none
  write_new s r (some value) = chip.write s r.uc value

  -- The register with a part of it set.
  abbrev pub write_part : State → Reg → (ℕ → Option ℕ) → Option ℕ → Option State
  write_part s r set none = none
  write_part s r set (some current) = write_new s r (set current)

  abbrev pub write_name : State → Name → ℕ → Option State
  write_name s unknown value = none
  write_name s (in_field r f) value =
      write_part s r (λ current. set_field f current value) (chip.read s r.uc)
  write_name s (in_flag r f) value =
      write_part s r (λ current. set_flag_bits f current value) (chip.read s r.uc)
  write_name s (whole r) value = chip.write s r.uc value

  abbrev pub is_set : Option ℕ → Bool
  is_set none = false
  is_set (some value) = not (value == 0)

  -- The name of the T flag, as the text that `thumb` reads.
  abbrev pub thumb_of : Text → ArchSpec → State → Option String → Option String → Bool
  thumb_of text spec s none status = false
  thumb_of text spec s (some fname) none = false
  thumb_of text spec s (some fname) (some status) =
      is_set (read_name s (field_name text spec (reg text spec status) (field text spec fname)))

  -- `bool(self.reg_read(f'{status}.{field}'))`, false where that fails
  unfoldable pub thumb : Text → ArchSpec → State → Bool
  thumb text spec s = thumb_of text spec s spec.thumb_field spec.status

  -- `value | 1`
  abbrev pub odd : ℕ → ℕ
  odd value = value / 2 * 2 + 1

  abbrev pub write_pc : Text → ArchSpec → State → ℕ → Option State
  write_pc text spec s value = elim (reg text spec spec.pc) [
    | none ↦ none
    | some r ↦ chip.write s r.uc (odd value)
  ]

  -- A write to the program counter in Thumb state, which must not leave it.
  abbrev pub keep_in_thumb : Bool → Text → ArchSpec → ℕ → Option State → Option State
  keep_in_thumb kept text spec value none = none
  keep_in_thumb false text spec value (some s) = some s
  keep_in_thumb true text spec value (some s) =
      if thumb text spec s then some s else write_pc text spec s value

  -- `thumb` is false where there is no `thumb_field`.
  abbrev pub keeps_thumb : Text → ArchSpec → State → String → Bool
  keeps_thumb text spec s name = text.lower name == text.lower spec.pc && thumb text spec s

  -- `reg_write`, up to the note that it gives to the timeline
  unfoldable pub reg_write : Text → ArchSpec → State → String → ℕ → Option State
  reg_write text spec s name value =
      keep_in_thumb (keeps_thumb text spec s name) text spec value
        (write_name s (resolve text spec name) value)

  -- `flags`: nothing without a status register
  abbrev pub flags_of : Text → ArchSpec → State → Option String → Option (Dict String ℕ)
  flags_of text spec s none = some []
  flags_of text spec s (some status) = elim (reg text spec status) [
    | none ↦ none
    | some r ↦ elim (chip.read s r.uc) [ none ↦ none | some value ↦ some (decode_flags spec value) ]
  ]

  unfoldable pub flags : Text → ArchSpec → State → Option (Dict String ℕ)
  flags text spec s = flags_of text spec s spec.status

  -- `regs`: a register that cannot be read is left out.
  unfoldable pub regs_from : State → List Reg → Dict String ℕ → Dict String ℕ
  regs_from s [] out = out
  regs_from s (r ∷ rs) out = regs_from s rs (elim (chip.read s r.uc) as (λ _. Dict String ℕ) [
    | none ↦ out
    | some value ↦ insert r.name value out
  ])
