-- ===== src/Provenance.antt =====
-- ghidraunicorn/provenance.py: which bytes of an input buffer were read, and by which instruction.
-- The hook is called for addresses of the buffer, so that an offset is a natural number.
pub mod Ranges
pub mod Reads
pub mod Tests
use ghidra_unicorn.Prelude.{
  nat_eq, ℕ, zero, suc, ◌+◌, ◌-◌, max, Bool, true, false, ◌&&◌, Option, none, some, List, [], ◌∷◌,
  ◌++◌, String, ltb, leb, ◌==◌, if◌then◌else◌, Dict, lookup, insert, sort, not,
}
use ghidra_unicorn.Timeline.{has, add}

pub record Access : Type 0 where
  pub offset : ℕ
  pub size : ℕ
  pub pc : ℕ
  pub address : ℕ

-- `range(start, start + n)`
unfoldable pub count_from : ℕ → ℕ → List ℕ
count_from zero start = []
count_from (suc n) start = start ∷ count_from n (start + 1)

-- `offsets`
abbrev pub offsets : Access → List ℕ
offsets a = count_from (max a.size 1) a.offset

-- `set(l)`, added to a set
unfoldable pub add_all : List ℕ → List ℕ → List ℕ
add_all [] set = set
add_all (x ∷ l) set = add_all l (add x set)

-- A run grows by the next offset; otherwise the offset starts a run.
unfoldable pub extend : List (ℕ × ℕ) → ℕ → List (ℕ × ℕ)
extend [] off = (off, off) ∷ []
extend ((a, b) ∷ out) off =
    let rest = extend out off in
    elim out [
      | [] ↦ if off == b + 1 then (a, off) ∷ [] else (a, b) ∷ (off, off) ∷ []
      | _ ∷ _ ↦ (a, b) ∷ rest
    ]

unfoldable pub runs : List (ℕ × ℕ) → List ℕ → List (ℕ × ℕ)
runs out [] = out
runs out (off ∷ offs) = runs (extend out off) offs

unfoldable pub ranges : List ℕ → List (ℕ × ℕ)
ranges offs = runs [] (sort leb (add_all offs []))

pub record InputProvenance : Type 0 where
  pub base : ℕ
  pub length : ℕ
  pub accesses : List Access
  pub recording : Bool

-- `__init__`; `none` is its `ValueError`.
unfoldable pub new : ℕ → ℕ → Option InputProvenance
new base zero = none
new base (suc n) = some (record { base = base; length = suc n; accesses = []; recording = false })

abbrev pub start : InputProvenance → InputProvenance
start p = record p { recording = true }

abbrev pub stop : InputProvenance → InputProvenance
stop p = record p { recording = false }

abbrev pub reset : InputProvenance → InputProvenance
reset p = record p { accesses = [] }

-- `_on_read`; `pc` is the register's value.
unfoldable pub on_read : ℕ → ℕ → ℕ → InputProvenance → InputProvenance
on_read pc address size p = record p {
  accesses =
      p.accesses
      ++ record { offset = address - p.base; size = size; pc = pc; address = address } ∷ [];
}

-- `set.update(o for o in l if 0 <= o < length)`
unfoldable pub add_within : ℕ → List ℕ → List ℕ → List ℕ
add_within length [] set = set
add_within length (o ∷ l) set = add_within length l (if ltb o length then add o set else set)

unfoldable pub read_from : ℕ → List Access → List ℕ → List ℕ
read_from length [] set = set
read_from length (a ∷ accesses) set = read_from length accesses (add_within length (offsets a) set)

unfoldable pub offsets_read : InputProvenance → List ℕ
offsets_read p = read_from p.length p.accesses []

-- `out.setdefault(pc, set())`, for reading
abbrev pub at_pc : ℕ → Dict ℕ (List ℕ) → List ℕ
at_pc pc out = elim (lookup pc out) [ none ↦ [] | some set ↦ set ]

unfoldable pub by_pc_from : ℕ → List Access → Dict ℕ (List ℕ) → Dict ℕ (List ℕ)
by_pc_from length [] out = out
by_pc_from length (a ∷ accesses) out =
    by_pc_from length accesses (insert a.pc (add_within length (offsets a) (at_pc a.pc out)) out)

unfoldable pub by_pc : InputProvenance → Dict ℕ (List ℕ)
by_pc p = by_pc_from p.length p.accesses []

unfoldable pub reads_at : InputProvenance → ℕ → List ℕ
reads_at p pc = at_pc pc (by_pc p)

unfoldable pub read_ranges : InputProvenance → List (ℕ × ℕ)
read_ranges p = ranges (offsets_read p)

-- The difference of two sets.
unfoldable pub minus : List ℕ → List ℕ → List ℕ
minus [] set = []
minus (x ∷ l) set = let rest = minus l set in if has x set then rest else x ∷ rest

unfoldable pub unread_ranges : InputProvenance → List (ℕ × ℕ)
unread_ranges p = ranges (minus (count_from p.length 0) (offsets_read p))

unfoldable pub first_from : ℕ → List Access → Option Access
first_from o [] = none
first_from o (a ∷ accesses) =
    let rest = first_from o accesses in
    if leb a.offset o && ltb o (a.offset + max a.size 1) then some a else rest

unfoldable pub first_read : InputProvenance → ℕ → Option Access
first_read p o = first_from o p.accesses
