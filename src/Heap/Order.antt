-- ===== src/Heap/Order.antt =====
-- What `restore` does not bring back: the order of the free list, on which `_fit` breaks ties.
use ghidra_unicorn.Prelude.{
  nat_eq, ℕ, ◌+◌, ◌≤◌, ◌≡◌, ◌≢◌, ◌∙◌, ap, refl, none, List, length, some, [], ◌∷◌, arith, true,
  insert, erase, Dict,
}
use ghidra_unicorn.Heap.{
  Block, Entry, alloc, Heap, snapshot, undo, unwind, restore, better, fit_from, fit, reuse, mark,
  wanted,
}
use ghidra_unicorn.Heap.Rewind.{unwind_pop, unwind_stop}

-- Of two blocks of one capacity the first is taken.
fit_first :
    (want a b : ℕ) (x y : Block)
    → want ≤ x.capacity
    → x.capacity ≡ y.capacity
    → fit_from want none ((a, x) ∷ (b, y) ∷ []) ≡ some x
unfolding fit_from better
fit_first want a b x y w c = ground arith

freed_unwind_none :
    (to : ℕ) (j : List Entry) (h : Heap)
    → h.dropped + length j ≤ to
    → (unwind to j h).freed ≡ h.freed
freed_unwind_none to [] h l = unfold unwind in refl
freed_unwind_none to (e ∷ j) h l = rw (unwind_stop to e j h l) refl

freed-restore-reuse :
    (h : Heap) (size : ℕ) (x : Block)
    → (restore (snapshot h) (reuse h size x).0).freed ≡ insert x.address x (erase x.address h.freed)
freed-restore-reuse h size x =
    let g = (reuse h size x).0 in
    let e = alloc x.address x.size x.capacity true in
    unfold restore snapshot reuse in
    ap (λ (k : Heap). k.freed) (unwind_pop (mark h) e h.journal g (omega arith))
    ∙ freed_unwind_none (mark h) h.journal (undo e g) (unfold undo in omega arith)
    ∙ (unfold undo in refl)

swapped :
    (x y : Block)
    → x.address ≢ y.address
    → insert x.address x (erase x.address ((x.address, x) ∷ (y.address, y) ∷ []))
      ≡ (y.address, y) ∷ (x.address, x) ∷ []
unfolding insert erase
swapped x y ne = ground arith

-- Two freed blocks of one capacity: a request that fits takes the first. After that request is undone
-- the same request takes the second.
pub restore_reorders :
    (h : Heap) (size : ℕ) (x y : Block)
    → h.freed ≡ (x.address, x) ∷ (y.address, y) ∷ []
    → x.address ≢ y.address
    → x.capacity ≡ y.capacity
    → wanted size ≤ x.capacity
    → (fit h (wanted size) ≡ some x)
      × (fit (restore (snapshot h) (reuse h size x).0) (wanted size) ≡ some y)
unfolding fit
restore_reorders h size x y e ne c w =
    let f = freed-restore-reuse h size x in
    (
      ap (fit_from (wanted size) none) e ∙ fit_first (wanted size) x.address y.address x y w c,
      ap (fit_from (wanted size) none) (
            f
            ∙ ap (λ (d : Dict ℕ Block). insert x.address x (erase x.address d)) e
            ∙ swapped x y ne)
          ∙ fit_first (wanted size) y.address x.address y x (omega arith) (omega arith),
    )
