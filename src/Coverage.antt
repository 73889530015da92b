-- ===== src/Coverage.antt =====
-- ghidraunicorn/coverage.py: the blocks that ran, attributed to modules and written as drcov tables.
-- A set of tuples is a list without order in its meaning; the bytes of the file are not modelled.
pub mod Attribution
pub mod Written
pub mod Tests
use ghidra_unicorn.Prelude.{
  nat_eq, ℕ, zero, suc, ◌+◌, ◌-◌, ◌%◌, ◌^◌, Bool, true, false, ◌&&◌, ◌||◌, Option, none, some, List,
  [], ◌∷◌, ◌++◌, String, ltb, leb, ◌==◌, if◌then◌else◌, length, sort,
}
use ghidra_unicorn.Engine.{Region}

pub record Module : Type 0 where
  pub id : ℕ
  pub base : ℕ
  pub end : ℕ
  pub path : String

pub record DrcovWriter : Type 0 where
  pub modules : List Module
  pub blocks : List (ℕ × ℕ × ℕ)

-- `add_module` without an id of the caller's; `none` is its `ValueError`.
unfoldable pub add_module : String → ℕ → ℕ → DrcovWriter → Option (ℕ × DrcovWriter)
add_module path base end w =
    let id = length w.modules in
    if leb end base
    then none
    else some (
      id,
      record w {
        modules = w.modules ++ record { id = id; base = base; end = end; path = path } ∷ [];
      },
    )

unfoldable pub has_block : ℕ × ℕ × ℕ → List (ℕ × ℕ × ℕ) → Bool
has_block block [] = false
has_block (m, start, size) ((m', start', size') ∷ blocks) =
    m == m' && start == start' && size == size' || has_block (m, start, size) blocks

unfoldable pub add_block : ℕ → ℕ → ℕ → DrcovWriter → DrcovWriter
add_block m start size w =
    let block : ℕ × ℕ × ℕ = (m, start % 2 ^ 32, size % 2 ^ 16) in
    record w { blocks = if has_block block w.blocks then w.blocks else block ∷ w.blocks }

-- The declared modules, as `_normalise` leaves them.
unfoldable pub declared_at : List (String × ℕ × ℕ) → ℕ → Option (ℕ × ℕ)
declared_at [] address = none
declared_at ((name, base, end) ∷ modules) address =
    let rest = declared_at modules address in
    if leb base address && ltb address end then some (base, end) else rest

unfoldable pub region_at : List Region → ℕ → Option (ℕ × ℕ)
region_at [] address = none
region_at (r ∷ regions) address =
    let rest = region_at regions address in
    if leb r.start address && leb address r.last then some (r.start, r.last + 1) else rest

-- `_module_for`, with the regions of the target
unfoldable pub module_for : List (String × ℕ × ℕ) → Bool → List Region → ℕ → Option (ℕ × ℕ)
module_for modules fallback_regions regions address = elim (declared_at modules address) [
  | some span ↦ some span
  | none ↦ if fallback_regions then region_at regions address else none
]

-- What `to_writer` has built: the writer, the ids of the spans, the blocks dropped.
pub record Building : Type 0 where
  pub writer : DrcovWriter
  pub ids : List (ℕ × ℕ × ℕ)
  pub dropped : ℕ

-- `ids.get(span)`: the newest entry counts.
unfoldable pub id_of : ℕ → ℕ → List (ℕ × ℕ × ℕ) → Option ℕ
id_of base end [] = none
id_of base end ((b, e, id) ∷ ids) =
    let rest = id_of base end ids in if b == base && e == end then some id else rest

abbrev pub with_id : ℕ → ℕ → Building → Option (ℕ × DrcovWriter) → Option (ℕ × Building)
with_id base end b none = none
with_id base end b (some (id, w)) =
    some (id, record b { writer = w; ids = (base, end, id) ∷ b.ids })

-- `ids[(base, end)] = w.add_module(path, base, end)`, with the id
unfoldable pub declare : String → ℕ → ℕ → Building → Option (ℕ × Building)
declare path base end b = with_id base end b (add_module path base end b.writer)

unfoldable pub declare_all : List (String × ℕ × ℕ) → Building → Option Building
declare_all [] b = some b
declare_all ((name, base, end) ∷ modules) b = elim (declare name base end b) [
  | none ↦ none
  | some (id, b') ↦ declare_all modules b'
]

abbrev pub known_or_declared : (ℕ → String) → ℕ → ℕ → Building → Option ℕ → Option (ℕ × Building)
known_or_declared region_name base end b (some id) = some (id, b)
known_or_declared region_name base end b none = declare (region_name base) base end b

abbrev pub block_in : ℕ → ℕ → ℕ → Option (ℕ × Building) → Option Building
block_in address size base none = none
block_in address size base (some (id, b)) =
    some (record b { writer = add_block id (address - base) size b.writer })

-- One turn of the loop of `to_writer`.
unfoldable pub add_to_span : (ℕ → String) → ℕ → ℕ → Building → Option (ℕ × ℕ) → Option Building
add_to_span region_name address size b none = some (record b { dropped = b.dropped + 1 })
add_to_span region_name address size b (some (base, end)) =
    block_in address size base (known_or_declared region_name base end b (id_of base end b.ids))

unfoldable pub add_blocks :
    (ℕ → String) → (ℕ → Option (ℕ × ℕ)) → List (ℕ × ℕ) → Building → Option Building
add_blocks region_name span_of [] b = some b
add_blocks region_name span_of ((address, size) ∷ raw) b =
    elim (add_to_span region_name address size b (span_of address)) [
      | none ↦ none
      | some b' ↦ add_blocks region_name span_of raw b'
    ]

-- The order of Python's pairs.
abbrev pub block_le : ℕ × ℕ → ℕ × ℕ → Bool
block_le (address, size) (address', size') =
    if address == address' then leb size size' else ltb address address'

-- `none` is the `ValueError` of a module that is empty. `region_name` formats `region_{base:#x}`.
unfoldable pub to_writer :
    (ℕ → String) → List (String × ℕ × ℕ) → Bool → List Region → List (ℕ × ℕ) → Option Building
to_writer region_name modules fallback_regions regions raw =
    let start : Building = record {
      writer = record { modules = []; blocks = [] };
      ids = [];
      dropped = 0;
    } in
    elim (declare_all modules start) [
      | none ↦ none
      | some b ↦
          add_blocks region_name (module_for modules fallback_regions regions) (sort block_le raw) b
    ]
