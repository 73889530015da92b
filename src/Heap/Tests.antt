-- ===== src/Heap/Tests.antt =====
-- A small arena: two blocks of one capacity, both freed.
use ghidra_unicorn.Prelude.{
  nat_eq, ℕ, ◌≤◌, ◌≡◌, ◌≢◌, refl, none, some, [], ◌∷◌, arith, lookup, insert, In,
}
use ghidra_unicorn.Heap.{
  Block, Heap, new, allocate, release, restore, snapshot, fit, fit_from, better, reuse, wanted,
  carve, carved, released,
}
use ghidra_unicorn.Heap.Layout.{IsValid, new-IsValid}
use ghidra_unicorn.Heap.Allocate.{Allocated, allocate-Allocated, release-IsValid}
use ghidra_unicorn.Heap.Rewind.{SameTables, start, allocated as then_allocated, freed, restore-Uses}
use ghidra_unicorn.Heap.Fit.{fit_best}
use ghidra_unicorn.Heap.Order.{restore_reorders}

abbrev arena : Heap
arena = new 4096 4096

arena-IsValid : IsValid arena
arena-IsValid = new-IsValid 4096 4096 refl

abbrev one : Block
one = record { address = 4096; size = 10; capacity = 16 }

abbrev after_one : Heap
after_one = (carved arena 10 16)

one_allocated : allocate arena 10 ≡ some (after_one, one, 8192)
unfolding allocate carve fit fit_from
one_allocated = refl

allocate-Allocated_example : Allocated 10 arena one after_one
allocate-Allocated_example =
    allocate-Allocated arena 10 after_one one 8192 arena-IsValid one_allocated

abbrev none_left : Heap
none_left = released after_one 4096 one

one_released : release after_one 4096 ≡ some (none_left, one)
unfolding release carved lookup insert
one_released = refl

release-IsValid_example :
    IsValid none_left
    × (lookup 4096 none_left.blocks ≡ none)
    × (lookup 4096 none_left.freed ≡ some one)
    × ((a : ℕ) → a ≢ 4096 → lookup a none_left.blocks ≡ lookup a after_one.blocks)
release-IsValid_example =
    release-IsValid after_one 4096 none_left one
      (allocate-Allocated arena 10 after_one one 8192 arena-IsValid one_allocated).valid
      one_released

restore-Uses_example :
    SameTables (restore (snapshot arena) none_left) arena
    × ((restore (snapshot arena) none_left).top ≡ 4096)
    × ((restore (snapshot arena) none_left).mapped ≡ arena.mapped)
restore-Uses_example =
    restore-Uses arena none_left arena-IsValid
      (freed 4096 (then_allocated 10 start one_allocated) one_released)

abbrev two : Block
two = record { address = 4112; size = 12; capacity = 16 }

-- Both blocks freed, the first freed first.
abbrev both : Heap
both = record arena { top = 4128; freed = (4096, one) ∷ (4112, two) ∷ [] }

fits_one : fit both 16 ≡ some one
unfolding fit fit_from better
fits_one = refl

fit_best_example :
    ((a : ℕ) × In (a, one) both.freed)
    × (16 ≤ one.capacity)
    × ((a : ℕ) (x : Block) → In (a, x) both.freed → 16 ≤ x.capacity → one.capacity ≤ x.capacity)
fit_best_example = fit_best both 16 one fits_one

fits_none : fit both 32 ≡ none
unfolding fit fit_from better
fits_none = refl

restore_reorders_example :
    (fit both (wanted 10) ≡ some one)
    × (fit (restore (snapshot both) (reuse both 10 one).0) (wanted 10) ≡ some two)
restore_reorders_example =
    restore_reorders both 10 one two refl (λ p. omega (arith, p)) refl (omega arith)
