-- ===== src/Heap.antt =====
-- ghidraunicorn/stubs.py, `class Heap` and `Block`: the allocator under the library stubs.
-- A method that may raise `StubError` returns an `Option`; it raises before it changes anything. The
-- journal is kept newest entry first, so `pop()` takes its head and `del _journal[:keep]` its end.
pub mod Layout
pub mod Fit
pub mod Allocate
pub mod Rewind
pub mod Order
pub mod Tests
use ghidra_unicorn.Prelude.{
  nat_eq, ℕ, zero, suc, ◌+◌, ◌-◌, ◌*◌, ◌/◌, max, ◌≡◌, Bool, true, false, not, ◌&&◌, ◌||◌, Option,
  none, some, List, [], ◌∷◌, ltb, leb, if◌then◌else◌, length, take, Dict, lookup, insert, erase,
}

abbrev pub page : ℕ
page = 4096

abbrev pub align : ℕ
align = 16

-- `(n + k - 1) & ~(k - 1)`, for `k` a power of two
abbrev pub round_up : ℕ → ℕ → ℕ
round_up n k = (n + k - 1) / k * k

pub record Block : Type 0 where
  pub address : ℕ
  pub size : ℕ
  pub capacity : ℕ

-- The tuples of the journal: `('alloc', address, size, capacity, reused)` and `('free', …)`.
pub data Entry : Type 0 where
  alloc : ℕ → ℕ → ℕ → Bool → Entry
  free : ℕ → ℕ → ℕ → Entry

pub record Heap : Type 0 where
  pub base : ℕ
  pub size : ℕ
  pub top : ℕ
  pub mapped : ℕ
  pub blocks : Dict ℕ Block
  pub freed : Dict ℕ Block
  pub journal : List Entry
  pub dropped : ℕ

-- `Heap(base, size)`
abbrev pub new : ℕ → ℕ → Heap
new base size = record {
  base = base;
  size = size;
  top = base;
  mapped = base;
  blocks = [];
  freed = [];
  journal = [];
  dropped = 0;
}

abbrev pub mark : Heap → ℕ
mark h = h.dropped + length h.journal

pub record Snapshot : Type 0 where
  pub top : ℕ
  pub mapped : ℕ
  pub mark : ℕ

unfoldable pub snapshot : Heap → Snapshot
snapshot h = record { top = h.top; mapped = h.mapped; mark = mark h }

-- `_undo`
unfoldable pub undo : Entry → Heap → Heap
undo (alloc address size capacity reused) h =
    if reused
    then record h {
      blocks = erase address h.blocks;
      freed =
          insert address (record { address = address; size = size; capacity = capacity }) h.freed;
    }
    else record h { blocks = erase address h.blocks }
undo (free address size capacity) h = record h {
  freed = erase address h.freed;
  blocks = insert address (record { address = address; size = size; capacity = capacity }) h.blocks;
}

-- The loop of `restore`, over the journal that is left.
unfoldable pub unwind : ℕ → List Entry → Heap → Heap
unwind to [] h = record h { journal = [] }
unwind to (entry ∷ older) h =
    let rest = unwind to older (undo entry h) in
    if ltb to (h.dropped + length (entry ∷ older))
    then rest
    else record h { journal = entry ∷ older }

unfoldable pub restore : Snapshot → Heap → Heap
restore s h = record (unwind s.mark h.journal h) { top = s.top; mapped = s.mapped }

-- `keep` of `forget`: how many of the oldest entries go
unfoldable pub excess : Option Snapshot → Heap → ℕ
excess none h = mark h - h.dropped
excess (some s) h = s.mark - h.dropped

unfoldable pub forget : Option Snapshot → Heap → Heap
unfolding excess
forget s h =
    let keep = excess s h in
    if ltb 0 keep
    then record h { journal = take (length h.journal - keep) h.journal; dropped = h.dropped + keep }
    else h

-- `block.capacity >= want and (best is None or block.capacity < best.capacity)`
unfoldable pub better : ℕ → Option Block → Block → Bool
better want none block = leb want block.capacity
better want (some best) block = leb want block.capacity && ltb block.capacity best.capacity

unfoldable pub fit_from : ℕ → Option Block → Dict ℕ Block → Option Block
fit_from want best [] = best
fit_from want best ((_, block) ∷ rest) =
    fit_from want (if better want best block then some block else best) rest

-- `_fit`
unfoldable pub fit : Heap → ℕ → Option Block
unfolding fit_from better
fit h want = fit_from want none h.freed

-- The two ways `allocate` ends without raising: a block off the free list, or one at the top.
unfoldable pub reuse : Heap → ℕ → Block → Heap × Block × ℕ
reuse h size found =
    let block : Block = record found { size = size } in
    (
      record h {
        freed = erase found.address h.freed;
        blocks = insert found.address block h.blocks;
        journal = alloc found.address found.size found.capacity true ∷ h.journal;
      },
      block,
      h.mapped,
    )

-- What is cut off the top, and the heap that is left.
abbrev pub new_block : Heap → ℕ → ℕ → Block
new_block h size want = record { address = h.top; size = size; capacity = want }

unfoldable pub carved : Heap → ℕ → ℕ → Heap
carved h size want = record h {
  top = h.top + want;
  blocks = insert h.top (new_block h size want) h.blocks;
  journal = alloc h.top size want false ∷ h.journal;
}

unfoldable pub carve : Heap → ℕ → ℕ → Option (Heap × Block × ℕ)
carve h size want =
    if ltb (h.base + h.size) (h.top + want)
    then none
    else some (carved h size want, new_block h size want, round_up (h.top + want) page)

-- `max((size + ALIGN - 1) & ~(ALIGN - 1), ALIGN)`
abbrev pub wanted : ℕ → ℕ
wanted size = max (round_up size align) align

-- The new heap, the block, and how far the arena must now be mapped.
unfoldable pub allocate : Heap → ℕ → Option (Heap × Block × ℕ)
allocate h size = elim (fit h (wanted size)) [
  | some found ↦ some (reuse h size found)
  | none ↦ carve h size (wanted size)
]

unfoldable pub released : Heap → ℕ → Block → Heap
released h address block = record h {
  blocks = erase address h.blocks;
  freed = insert address block h.freed;
  journal = free address block.size block.capacity ∷ h.journal;
}

unfoldable pub release : Heap → ℕ → Option (Heap × Block)
release h address = elim (lookup address h.blocks) [
  | none ↦ none
  | some block ↦ some (released h address block, block)
]
