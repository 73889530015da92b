-- ===== src/Heap/Rewind.antt =====
-- Going back: `restore` undoes what the journal holds, and `forget` drops only what no snapshot needs.
use ghidra_unicorn.Prelude.{
  nat_eq, ℕ, zero, suc, ◌+◌, ◌-◌, ◌≤◌, ◌<◌, ◌≡◌, refl, sym, ◌∙◌, true, false, inl, inr, none, some,
  List, [], ◌∷◌, arith, lookup, lookup-insert, lookup-erase, Bool-cases, tests, ltb, length, take,
  lt→ltb, length-take, ap,
}
use native.Mathlib.Decide.{dec_lt}
use ghidra_unicorn.Heap.{
  allocate, release, wanted, fit, Block, Entry, alloc, free, Heap, Snapshot, mark, snapshot, undo,
  unwind, restore, forget, carved, reuse, released,
}
use ghidra_unicorn.Heap.Layout.{IsValid, at_live, IsValid-rest, not_live, top_not_live}
use ghidra_unicorn.Heap.Allocate.{
  allocate-Allocated, allocate-eq-some, lookup-fit, release-eq-some, release-IsValid,
}

-- Two heaps with the same blocks at every address, live and freed.
pub record SameTables (h g : Heap) : Type 0 where
  pub live : (a : ℕ) → lookup a h.blocks ≡ lookup a g.blocks
  pub freed : (a : ℕ) → lookup a h.freed ≡ lookup a g.freed

SameTables-refl : (h : Heap) → SameTables h h
SameTables-refl h = record { live = λ a. refl; freed = λ a. refl }

SameTables-trans : {h g k : Heap} → SameTables h g → SameTables g k → SameTables h k
SameTables-trans p q = record {
  live = λ a. p.live a ∙ q.live a;
  freed = λ a. p.freed a ∙ q.freed a;
}

undo-SameTables : {h g : Heap} (e : Entry) → SameTables h g → SameTables (undo e h) (undo e g)
unfolding undo
undo-SameTables {h} {g} (alloc a s c true) p = record {
  live = λ b. simp lookup-erase (ground (arith, p.live b));
  freed = λ b. simp lookup-insert (ground (arith, p.freed b));
}
undo-SameTables {h} {g} (alloc a s c false) p = record {
  live = λ b. simp lookup-erase (ground (arith, p.live b));
  freed = λ b. p.freed b;
}
undo-SameTables {h} {g} (free a s c) p = record {
  live = λ b. simp lookup-insert (ground (arith, p.live b));
  freed = λ b. simp lookup-erase (ground (arith, p.freed b));
}

-- An operation is undone by the entry that it wrote.
undo-reuse :
    (h : Heap) (size : ℕ) (found : Block)
    → IsValid h
    → lookup found.address h.freed ≡ some found
    → SameTables
        (undo (alloc found.address found.size found.capacity true) (reuse h size found).0)
        h
unfolding undo reuse
undo-reuse h size found v e = record {
  live = λ b.
      simp (lookup-erase, lookup-insert)
        (let gone = not_live h v found.address found e in ground arith);
  freed = λ b. simp (lookup-erase, lookup-insert) (ground arith);
}

undo-carved :
    (h : Heap) (size want : ℕ)
    → lookup h.top h.blocks ≡ none
    → SameTables (undo (alloc h.top size want false) (carved h size want)) h
unfolding undo carved
undo-carved h size want e = record {
  live = λ b. simp (lookup-erase, lookup-insert) (ground arith);
  freed = λ b. refl;
}

undo-released :
    (h : Heap) (a : ℕ) (block : Block)
    → IsValid h
    → lookup a h.blocks ≡ some block
    → SameTables (undo (free a block.size block.capacity) (released h a block)) h
unfolding undo released
undo-released h a block v e = record {
  live = λ b.
      simp (lookup-erase, lookup-insert)
        (let own = (v.fits a block (at_live h v a block e)).own in ground arith);
  freed = λ b. simp (lookup-erase, lookup-insert) (let out = v.exclusive a block e in ground arith);
}

dropped-undo : (e : Entry) (h : Heap) → (undo e h).dropped ≡ h.dropped
unfolding undo
dropped-undo (alloc a s c true) h = refl
dropped-undo (alloc a s c false) h = refl
dropped-undo (free a s c) h = refl

undo-dropped :
    (e : Entry) (h : Heap) (kept : ℕ)
    → undo e (record h { dropped = kept }) ≡ record (undo e h) { dropped = kept }
unfolding undo
undo-dropped (alloc a s c true) h kept = refl
undo-dropped (alloc a s c false) h kept = refl
undo-dropped (free a s c) h kept = refl

module _ (to : ℕ) (e : Entry) (j : List Entry) (h : Heap) where
  pub unwind_pop : to < h.dropped + suc (length j) → unwind to (e ∷ j) h ≡ unwind to j (undo e h)
  unfolding unwind
  unwind_pop l = rw (lt→ltb _ _ l)

  pub unwind_stop :
      h.dropped + suc (length j) ≤ to → unwind to (e ∷ j) h ≡ record h { journal = e ∷ j }
  unfolding unwind
  unwind_stop l = ground arith

unwind-SameTables :
    (to : ℕ) (j : List Entry) (h g : Heap)
    → SameTables h g
    → h.dropped ≡ g.dropped
    → SameTables (unwind to j h) (unwind to j g)
unwind-SameTables to [] h g p d = unfold unwind in record { live = p.live; freed = p.freed }
unwind-SameTables to (e ∷ j) h g p d = elim (dec_lt to (h.dropped + suc (length j))) [
  | yes q ↦
      rw (unwind_pop to e j h q, unwind_pop to e j g (omega arith))
        (unwind-SameTables to j (undo e h) (undo e g) (undo-SameTables e p)
          (dropped-undo e h ∙ d ∙ sym (dropped-undo e g)))
  | no q ↦
      rw (unwind_stop to e j h (omega arith), unwind_stop to e j g (omega arith))
        (record { live = p.live; freed = p.freed })
]

-- Leaving out the oldest entries, where none of them is to be undone, changes nothing.
unwind-take :
    (to n : ℕ) (j : List Entry) (h : Heap) (kept : ℕ)
    → n ≤ length j
    → kept ≡ h.dropped + (length j - n)
    → kept ≤ to
    → SameTables (unwind to (take n j) (record h { dropped = kept })) (unwind to j h)
unwind-take to zero [] h kept l e m =
    unfold unwind in record { live = λ a. refl; freed = λ a. refl }
unwind-take to (suc n) [] h kept l e m = absurd (omega arith)
unwind-take to zero (x ∷ j) h kept l e m =
    rw (unwind_stop to x j h (omega arith))
      (unfold unwind in record { live = λ a. refl; freed = λ a. refl })
unwind-take to (suc n) (x ∷ j) h kept l e m =
    let same : kept + suc (length (take n j)) ≡ h.dropped + suc (length j) =
      omega (arith, length-take n j) in
    elim (dec_lt to (h.dropped + suc (length j))) [
      | yes q ↦
          rw
            (
              unwind_pop to x (take n j) (record h { dropped = kept }) (omega arith),
              unwind_pop to x j h q,
              undo-dropped x h kept,
            )
            (unwind-take to n j (undo x h) kept (omega arith) (omega (arith, dropped-undo x h)) m)
      | no q ↦
          rw
            (
              unwind_stop to x (take n j) (record h { dropped = kept }) (omega arith),
              unwind_stop to x j h (omega arith),
            )
            (record { live = λ a. refl; freed = λ a. refl })
    ]

-- What the heap goes through after `h`, through the operations of the stub layer: allocations, frees,
-- the arena growing (`heap.mapped = need`), and forgetting up to a snapshot no later than `h`.
pub data Uses (h : Heap) : Heap → Type 0 where
  start : Uses h h
  allocated :
      {g : Heap} (size : ℕ) {g' : Heap} {block : Block} {need : ℕ}
      → Uses h g
      → allocate g size ≡ some (g', block, need)
      → Uses h g'
  freed :
      {g : Heap} (address : ℕ) {g' : Heap} {block : Block}
      → Uses h g
      → release g address ≡ some (g', block)
      → Uses h g'
  grown : {g : Heap} (need : ℕ) → Uses h g → Uses h (record g { mapped = need })
  forgot : {g : Heap} (s : Snapshot) → Uses h g → s.mark ≤ mark h → Uses h (forget (some s) g)

-- What every heap reached keeps: it is valid, and unwinding to the mark of `h` gives `h`.
record Rewinds (h g : Heap) : Type 0 where
  valid : IsValid g
  later : mark h ≤ mark g
  kept : g.dropped ≤ mark h
  back : SameTables (unwind (mark h) g.journal g) h

-- A step that adds an entry undone by `undo` keeps it.
Rewinds-step :
    {h g : Heap} (g' : Heap) (e : Entry)
    → Rewinds h g
    → IsValid g'
    → g'.journal ≡ e ∷ g.journal
    → g'.dropped ≡ g.dropped
    → SameTables (undo e g') g
    → Rewinds h g'
Rewinds-step {h} {g} g' e r v j d u = record {
  valid = v;
  later = let l = r.later in let len = ap (length {A = Entry}) j in omega arith;
  kept = let k = r.kept in omega arith;
  back =
      let l = r.later in
      SameTables-trans
        (simp (j, unwind_pop (mark h) e g.journal g' (omega arith))
          (unwind-SameTables (mark h) g.journal (undo e g') g u (dropped-undo e g' ∙ d)))
        r.back;
}

unwind_none :
    (to : ℕ) (j : List Entry) (h : Heap) → h.dropped + length j ≤ to → SameTables (unwind to j h) h
unwind_none to [] h l = unfold unwind in record { live = λ a. refl; freed = λ a. refl }
unwind_none to (e ∷ j) h l =
    rw (unwind_stop to e j h l) (record { live = λ a. refl; freed = λ a. refl })

module _ {h g : Heap} (r : Rewinds h g) where
  reuse-Rewinds :
      (size : ℕ) (found : Block)
      → fit g (wanted size) ≡ some found
      → IsValid (reuse g size found).0
      → Rewinds h (reuse g size found).0
  reuse-Rewinds size found f w =
      let (on_list, _) = lookup-fit g (wanted size) found r.valid f in
      Rewinds-step (reuse g size found).0 (alloc found.address found.size found.capacity true) r w
        (unfold reuse in refl) (unfold reuse in refl) (undo-reuse g size found r.valid on_list)

  carved-Rewinds :
      (size : ℕ) → IsValid (carved g size (wanted size)) → Rewinds h (carved g size (wanted size))
  carved-Rewinds size w =
      Rewinds-step (carved g size (wanted size)) (alloc g.top size (wanted size) false) r w
        (unfold carved in refl) (unfold carved in refl)
        (undo-carved g size (wanted size) (top_not_live g r.valid))

  released-Rewinds :
      (a : ℕ) (block : Block)
      → lookup a g.blocks ≡ some block
      → IsValid (released g a block)
      → Rewinds h (released g a block)
  released-Rewinds a block e w =
      Rewinds-step (released g a block) (free a block.size block.capacity) r w
        (unfold released in refl) (unfold released in refl) (undo-released g a block r.valid e)

  forget-Rewinds : (s : Snapshot) → s.mark ≤ mark h → Rewinds h (forget (some s) g)
  unfolding forget
  forget-Rewinds s l = elim (Bool-cases (ltb 0 (s.mark - g.dropped))) [
    | inl p ↦
        let keep = s.mark - g.dropped in
        let n = length g.journal - keep in
        let later = r.later in
        let kept = r.kept in
        rw p (record {
          valid = IsValid-rest g r.valid g.mapped (take n g.journal) (g.dropped + keep);
          later = omega (tests, length-take n g.journal);
          kept = omega tests;
          back =
              SameTables-trans
                (SameTables-trans
                  (unwind-SameTables (mark h) (take n g.journal) _
                    (record g { dropped = g.dropped + keep })
                    (record { live = λ a. refl; freed = λ a. refl }) refl)
                  (unwind-take (mark h) n g.journal g (g.dropped + keep) (omega arith) (omega tests)
                    (omega tests)))
                r.back;
        })
    | inr p ↦ rw p r
  ]

Uses-Rewinds : {h g : Heap} → IsValid h → Uses h g → Rewinds h g
Uses-Rewinds {h} v start = record {
  valid = v;
  later = omega arith;
  kept = omega arith;
  back = unwind_none (mark h) h.journal h (omega arith);
}
Uses-Rewinds v (allocated {g = g} size {g' = g'} {block = b} {need = n} u e) =
    let r = Uses-Rewinds v u in
    let w = (allocate-Allocated g size g' b n r.valid e).valid in
    elim (allocate-eq-some g size e) [
      | inl (found, f, eh, eb) ↦ rw eh (reuse-Rewinds r size found f (rw eh at w))
      | inr (room, eh, eb) ↦ rw eh (carved-Rewinds r size (rw eh at w))
    ]
Uses-Rewinds v (freed {g = g} address {g' = g'} {block = b} u e) =
    let r = Uses-Rewinds v u in
    let w = (release-IsValid g address g' b r.valid e).0 in
    let (live, eh) = release-eq-some g address e in
    rw eh (released-Rewinds r address b live (rw eh at w))
Uses-Rewinds v (grown {g = g} need u) =
    let r = Uses-Rewinds v u in
    record {
      valid = IsValid-rest g r.valid need g.journal g.dropped;
      later = r.later;
      kept = r.kept;
      back =
          SameTables-trans
            (unwind-SameTables _ g.journal (record g { mapped = need }) g
              (record { live = λ a. refl; freed = λ a. refl }) refl)
            r.back;
    }
Uses-Rewinds v (forgot s u l) = forget-Rewinds (Uses-Rewinds v u) s l

-- Whatever was allocated, freed and forgotten after a snapshot of a valid heap, restoring it brings
-- back every live and every freed block, at its address with its sizes, and the two ends of the arena.
pub restore-Uses :
    (h g : Heap)
    → IsValid h
    → Uses h g
    → SameTables (restore (snapshot h) g) h
      × ((restore (snapshot h) g).top ≡ h.top)
      × ((restore (snapshot h) g).mapped ≡ h.mapped)
unfolding restore snapshot
restore-Uses h g v u =
    let b = (Uses-Rewinds v u).back in (record { live = b.live; freed = b.freed }, refl, refl)
