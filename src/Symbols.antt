-- ===== src/Symbols.antt =====
-- ghidraunicorn/symbols.py: names of addresses. A description is the name with the offset, not yet a text.
-- Python's order of strings and `lower` are parameters.
pub mod Sorted
pub mod Nearest
pub mod Enclosing
pub mod Described
pub mod Tests
use ghidra_unicorn.Prelude.{
  string_eq, nat_eq, ℕ, zero, suc, ◌+◌, ◌-◌, max, Bool, true, false, not, ◌&&◌, ◌||◌, Option, none,
  some, List, [], ◌∷◌, ◌++◌, String, ltb, leb, ◌==◌, if◌then◌else◌, Dict, lookup, insert, sort,
}

pub record Symbol : Type 0 where
  pub name : String
  pub address : ℕ
  pub size : ℕ
  pub kind : String

-- `address + max(size, 1)`
abbrev pub end_of : Symbol → ℕ
end_of s = s.address + max s.size 1

unfoldable pub contains : Symbol → ℕ → Bool
contains s address = leb s.address address && ltb address (end_of s)

-- `_sorted` and `_sized`; the lists of addresses are theirs.
pub record SymbolTable : Type 0 where
  pub image_base : ℕ
  pub by_name : Dict String Symbol
  pub sorted : List Symbol
  pub sized : List Symbol

abbrev pub is_function : Symbol → Bool
is_function s = s.kind == "function"

-- `(address, kind != 'function', name)`, compared
unfoldable pub symbol_le : (String → String → Bool) → Symbol → Symbol → Bool
symbol_le name_le a b =
    if a.address == b.address
    then (if is_function a
        then (if is_function b then name_le a.name b.name else true)
        else (if is_function b then false else name_le a.name b.name))
    else ltb a.address b.address

unfoldable pub with_size : List Symbol → List Symbol
with_size [] = []
with_size (s ∷ l) = let rest = with_size l in if ltb 0 s.size then s ∷ rest else rest

-- `setdefault`
abbrev pub set_default : Symbol → Dict String Symbol → Option Symbol → Dict String Symbol
set_default s by_name none = insert s.name s by_name
set_default s by_name (some _) = by_name

unfoldable pub add_names : List Symbol → Dict String Symbol → Dict String Symbol
add_names [] by_name = by_name
add_names (s ∷ l) by_name = add_names l (set_default s by_name (lookup s.name by_name))

-- `sort` of what was there and what is added
unfoldable pub extend : (String → String → Bool) → List Symbol → SymbolTable → SymbolTable
extend name_le symbols t =
    let sorted = sort (symbol_le name_le) (t.sorted ++ symbols) in
    record t { by_name = add_names symbols t.by_name; sorted = sorted; sized = with_size sorted }

abbrev pub new : (String → String → Bool) → List Symbol → ℕ → SymbolTable
new name_le symbols image_base =
    extend name_le symbols
      (record { image_base = image_base; by_name = []; sorted = []; sized = [] })

unfoldable pub by_lower : (String → String) → String → List Symbol → Option Symbol
by_lower lower wanted [] = none
by_lower lower wanted (s ∷ l) = if lower s.name == wanted then some s else by_lower lower wanted l

abbrev pub or_lower : (String → String) → String → List Symbol → Option Symbol → Option Symbol
or_lower lower name sorted (some s) = some s
or_lower lower name sorted none = by_lower lower (lower name) sorted

-- `SymbolTable.lookup`
unfoldable pub lookup_symbol : (String → String) → String → SymbolTable → Option Symbol
lookup_symbol lower name t = or_lower lower name t.sorted (lookup name t.by_name)

abbrev pub address_of : (String → String) → String → SymbolTable → Option ℕ
address_of lower name t = elim (lookup_symbol lower name t) [
  | none ↦ none
  | some s ↦ some s.address
]

unfoldable pub nth : ℕ → List Symbol → Option Symbol
nth n [] = none
nth zero (x ∷ l) = some x
nth (suc n) (x ∷ l) = nth n l

-- `bisect_right` of the addresses: how many are at or before `address`, in a list that ascends.
unfoldable pub bisect_right : ℕ → List Symbol → ℕ
bisect_right address [] = 0
bisect_right address (s ∷ l) =
    let rest = bisect_right address l in if leb s.address address then suc rest else 0

-- `self._addrs[i] == addr`
abbrev pub stands_at : ℕ → Option Symbol → Bool
stands_at addr none = false
stands_at addr (some s) = s.address == addr

-- The loop that backs up to the first symbol at an address.
unfoldable pub back_up : ℕ → List Symbol → ℕ → ℕ
back_up addr sorted zero = zero
back_up addr sorted (suc i) =
    let first = back_up addr sorted i in if stands_at addr (nth i sorted) then first else suc i

abbrev pub with_offset : ℕ → Option Symbol → Option (Symbol × ℕ)
with_offset address none = none
with_offset address (some s) = some (s, address - s.address)

abbrev pub first_at : ℕ → List Symbol → ℕ → Option Symbol → Option (Symbol × ℕ)
first_at address sorted i none = none
first_at address sorted i (some s) = with_offset address (nth (back_up s.address sorted i) sorted)

abbrev pub nearest_of : ℕ → List Symbol → ℕ → Option (Symbol × ℕ)
nearest_of address sorted zero = none
nearest_of address sorted (suc i) = first_at address sorted i (nth i sorted)

unfoldable pub nearest : ℕ → SymbolTable → Option (Symbol × ℕ)
nearest address t = nearest_of address t.sorted (bisect_right address t.sorted)

-- One turn of the loop of `enclosing`.
abbrev pub enclosing_turn : ℕ → Option Symbol → Option (Symbol × ℕ) → Option (Symbol × ℕ)
enclosing_turn address none rest = none
enclosing_turn address (some s) rest =
    if contains s address
    then some (s, address - s.address)
    else if ltb 0x100000 (address - s.address)
    then none
    else rest

unfoldable pub enclosing_from : ℕ → List Symbol → ℕ → Option (Symbol × ℕ)
enclosing_from address sized zero = none
enclosing_from address sized (suc i) =
    enclosing_turn address (nth i sized) (enclosing_from address sized i)

unfoldable pub enclosing : ℕ → SymbolTable → Option (Symbol × ℕ)
enclosing address t = enclosing_from address t.sized (bisect_right address t.sized)

abbrev pub is_none : Option (Symbol × ℕ) → Bool
is_none none = true
is_none (some _) = false

-- One turn of the loop of `describe`, for a label outside every function.
abbrev pub label_turn :
    ℕ → ℕ → SymbolTable → Option Symbol → Option (String × ℕ) → Option (String × ℕ)
label_turn address max_offset t none rest = none
label_turn address max_offset t (some s) rest =
    if ltb max_offset (address - s.address) || ltb 0 s.size
    then none
    else if is_none (enclosing s.address t)
    then some (s.name, address - s.address)
    else rest

unfoldable pub label_from : ℕ → ℕ → SymbolTable → ℕ → Option (String × ℕ)
label_from address max_offset t zero = none
label_from address max_offset t (suc i) =
    label_turn address max_offset t (nth i t.sorted) (label_from address max_offset t i)

abbrev pub described : ℕ → ℕ → SymbolTable → Option (Symbol × ℕ) → Option (String × ℕ)
described address max_offset t (some (s, offset)) = some (s.name, offset)
described address max_offset t none =
    label_from address max_offset t (bisect_right address t.sorted)

unfoldable pub describe : ℕ → ℕ → SymbolTable → Option (String × ℕ)
describe address max_offset t = described address max_offset t (enclosing address t)
