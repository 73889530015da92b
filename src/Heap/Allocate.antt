-- ===== src/Heap/Allocate.antt =====
-- `allocate` and `release` of the heap, in terms of the layout.
use ghidra_unicorn.Prelude.{
  nat_eq, ℕ, ◌+◌, ◌%◌, ◌≤◌, ◌≡◌, ◌≢◌, ◌⊎◌, refl, inl, inr, none, some, arith, lookup, Option-cases,
  lookup-insert, lookup-erase, lookup_of_In,
}
use ghidra_unicorn.Heap.{
  Block, Heap, align, new_block, carved, carve, reuse, released, release, allocate, wanted, fit,
}
use ghidra_unicorn.Heap.Fit.{fit_best}
use ghidra_unicorn.Heap.Layout.{
  IsValid, at_freed, at_live, not_live, reuse-IsValid, carved-IsValid, released-IsValid, wanted_lem,
}

-- What an allocation gives.
pub record Allocated (size : ℕ) (h : Heap) (block : Block) (h' : Heap) : Type 0 where
  pub valid : IsValid h'
  pub asked : block.size ≡ size
  pub roomy : size ≤ block.capacity
  pub aligned : block.address % align ≡ 0
  pub was_not_live : lookup block.address h.blocks ≡ none
  pub is_live : lookup block.address h'.blocks ≡ some block
  pub others : (a : ℕ) → a ≢ block.address → lookup a h'.blocks ≡ lookup a h.blocks

-- The two ways an allocation returns.
pub allocate-eq-some :
    (h : Heap) (size : ℕ) {h' : Heap} {block : Block} {need : ℕ}
    → allocate h size ≡ some (h', block, need)
    → ((found : Block) × (fit h (wanted size) ≡ some found)
        × (h' ≡ (reuse h size found).0)
        × (block ≡ record found { size = size }))
      ⊎ ((h.top + wanted size ≤ h.base + h.size)
          × (h' ≡ carved h size (wanted size))
          × (block ≡ new_block h size (wanted size)))
unfolding allocate reuse carve
allocate-eq-some h size e = elim (Option-cases (fit h (wanted size))) [
  | inl p ↦ inr (ground arith, ground arith, ground arith)
  | inr (found, p) ↦ inl (found, p, ground arith, ground arith)
]

pub release-eq-some :
    (h : Heap) (address : ℕ) {h' : Heap} {block : Block}
    → release h address ≡ some (h', block)
    → (lookup address h.blocks ≡ some block) × (h' ≡ released h address block)
unfolding release released
release-eq-some h address e = (ground arith, ground arith)

module _ (h : Heap) (v : IsValid h) (size : ℕ) where
  reuse-Allocated :
      (found : Block)
      → lookup found.address h.freed ≡ some found
      → size ≤ found.capacity
      → Allocated size h (record found { size = size }) (reuse h size found).0
  reuse-Allocated found freed enough =
      let f = v.fits found.address found (at_freed h v found.address found freed) in
      record {
        valid = reuse-IsValid h v size found freed enough;
        asked = refl;
        roomy = enough;
        aligned = f.aligned;
        was_not_live = not_live h v found.address found freed;
        is_live =
            unfold reuse in
            ground (
              arith,
              lookup-insert found.address found.address (record found { size = size }) h.blocks,
            );
        others = λ a ne.
            unfold reuse in
            ground (arith, lookup-insert found.address a (record found { size = size }) h.blocks);
      }

  carved-Allocated :
      (want : ℕ)
      → size ≤ want
      → align ≤ want
      → want % align ≡ 0
      → h.top + want ≤ h.base + h.size
      → Allocated size h (new_block h size want) (carved h size want)
  carved-Allocated want enough room aligned fitting = record {
    valid = carved-IsValid h v size want enough room aligned fitting;
    asked = refl;
    roomy = enough;
    aligned = v.top_aligned;
    was_not_live = elim (Option-cases (lookup h.top h.blocks)) [
      | inl p ↦ p
      | inr (b, p) ↦ absurd (let f = v.fits h.top b (at_live h v h.top b p) in omega arith)
    ];
    is_live =
        unfold carved in ground (arith, lookup-insert h.top h.top (new_block h size want) h.blocks);
    others = λ a ne.
        unfold carved in ground (arith, lookup-insert h.top a (new_block h size want) h.blocks);
  }

-- The block that `_fit` finds stands on the free list under its own address.
pub lookup-fit :
    (h : Heap) (want : ℕ) (found : Block)
    → IsValid h
    → fit h want ≡ some found
    → (lookup found.address h.freed ≡ some found) × (want ≤ found.capacity)
lookup-fit h want found v p =
    let ((a, i), large, _) = fit_best h want found p in
    let freed = lookup_of_In a found h.freed v.unique_freed i in
    let own = (v.fits a found (at_freed h v a found freed)).own in (simp own freed, large)

-- From a valid heap, an allocation that returns gives an aligned block of the size asked for that was
-- not live, makes it live, leaves every other live block alone, and keeps the layout.
pub allocate-Allocated :
    (h : Heap) (size : ℕ) (h' : Heap) (block : Block) (need : ℕ)
    → IsValid h
    → allocate h size ≡ some (h', block, need)
    → Allocated size h block h'
allocate-Allocated h size h' block need v e = elim (allocate-eq-some h size e) [
  | inl (found, p, eh, eb) ↦
      let (freed, large) = lookup-fit h (wanted size) found v p in
      let (enough, _, _) = wanted_lem size in
      rw (eh, eb) (reuse-Allocated h v size found freed (omega arith))
  | inr (room, eh, eb) ↦
      let (enough, least, aligned) = wanted_lem size in
      rw (eh, eb) (carved-Allocated h v size (wanted size) enough least aligned room)
]

-- From a valid heap, `free` of a live block takes it off the live blocks, leaves the others alone and
-- keeps the layout.
pub release-IsValid :
    (h : Heap) (address : ℕ) (h' : Heap) (block : Block)
    → IsValid h
    → release h address ≡ some (h', block)
    → IsValid h'
      × (lookup address h'.blocks ≡ none)
      × (lookup address h'.freed ≡ some block)
      × ((a : ℕ) → a ≢ address → lookup a h'.blocks ≡ lookup a h.blocks)
release-IsValid h address h' block v e =
    let (live, eh) = release-eq-some h address e in
    rw eh (
      released-IsValid h v address block live,
      unfold released in ground (arith, lookup-erase address address h.blocks),
      unfold released in ground (arith, lookup-insert address address block h.freed),
      λ a ne. unfold released in ground (arith, lookup-erase address a h.blocks),
    )
