-- ===== src/Heap/Layout.antt =====
-- The layout of the heap: blocks, live or freed, stand under their own address, inside the part of the
-- arena that was handed out, aligned, and apart from one another.
use ghidra_unicorn.Prelude.{
  List, nat_eq, sym, ◌∙◌, ℕ, ◌+◌, ◌%◌, ◌≤◌, ◌<◌, ◌≡◌, inl, inr, refl, Option-cases, if◌then◌else◌,
  ◌==◌, Option, none, some, arith, lookup, or_else, lookup-insert, lookup-erase, Unique,
  insert-Unique, erase-Unique,
}
use ghidra_unicorn.Heap.{Entry, new_block, carved, released, Block, Heap, align, new, reuse, wanted}

-- The block at an address, live or freed.
unfoldable pub at : Heap → ℕ → Option Block
at h a = or_else (lookup a h.blocks) (lookup a h.freed)

-- One block: under its own address, in the part handed out, large enough, aligned.
pub record Fits (h : Heap) (a : ℕ) (b : Block) : Type 0 where
  pub own : b.address ≡ a
  pub above : h.base ≤ a
  pub below : a + b.capacity ≤ h.top
  pub large : b.size ≤ b.capacity
  pub some_room : align ≤ b.capacity
  pub aligned : a % align ≡ 0
  pub aligned_end : b.capacity % align ≡ 0

pub record IsValid (h : Heap) : Type 0 where
  pub base_aligned : h.base % align ≡ 0
  pub top_aligned : h.top % align ≡ 0
  pub base_le : h.base ≤ h.top
  pub top_le : h.top ≤ h.base + h.size
  pub unique : Unique h.blocks
  pub unique_freed : Unique h.freed
  pub exclusive : (a : ℕ) (b : Block) → lookup a h.blocks ≡ some b → lookup a h.freed ≡ none
  pub fits : (a : ℕ) (b : Block) → at h a ≡ some b → Fits h a b
  pub apart :
      (a c : ℕ) (b d : Block) → at h a ≡ some b → at h c ≡ some d → a < c → a + b.capacity ≤ c

pub new-IsValid : (base size : ℕ) → base % align ≡ 0 → IsValid (new base size)
unfolding lookup at
new-IsValid base size h = record {
  base_aligned = h;
  top_aligned = h;
  base_le = omega arith;
  top_le = omega arith;
  unique = tt;
  unique_freed = tt;
  exclusive = λ a b e. refl;
  fits = λ a b e. absurd (cc);
  apart = λ a c b d e f l. absurd (cc);
}

module _ (h : Heap) (v : IsValid h) where
  pub at_freed : (a : ℕ) (b : Block) → lookup a h.freed ≡ some b → at h a ≡ some b
  unfolding at
  at_freed a b e = elim (Option-cases (lookup a h.blocks)) [
    | inl p ↦ ground arith
    | inr (c, p) ↦ ground (arith, v.exclusive a c p)
  ]

  pub at_live : (a : ℕ) (b : Block) → lookup a h.blocks ≡ some b → at h a ≡ some b
  unfolding at
  at_live a b e = rw e

  pub top_not_live : lookup h.top h.blocks ≡ none
  top_not_live = elim (Option-cases (lookup h.top h.blocks)) [
    | inl p ↦ p
    | inr (b, p) ↦
        absurd (let f = v.fits h.top b (at_live h.top b p) in let r = f.some_room in omega arith)
  ]

  -- A free block is not live.
  pub not_live : (a : ℕ) (b : Block) → lookup a h.freed ≡ some b → lookup a h.blocks ≡ none
  not_live a b e = elim (Option-cases (lookup a h.blocks)) [
    | inl p ↦ p
    | inr (c, p) ↦ absurd (cc (v.exclusive a c p))
  ]

  -- The layout does not depend on what is mapped, nor on the journal.
  pub IsValid-rest :
      (m : ℕ) (j : List Entry) (d : ℕ) → IsValid (record h { mapped = m; journal = j; dropped = d })
  unfolding at
  IsValid-rest m j d = record {
    base_aligned = v.base_aligned;
    top_aligned = v.top_aligned;
    base_le = v.base_le;
    top_le = v.top_le;
    unique = v.unique;
    unique_freed = v.unique_freed;
    exclusive = v.exclusive;
    fits = λ a b e.
        let f = v.fits a b e in
        record {
          own = f.own;
          above = f.above;
          below = f.below;
          large = f.large;
          some_room = f.some_room;
          aligned = f.aligned;
          aligned_end = f.aligned_end;
        };
    apart = v.apart;
  }

  -- A free block moves to the live ones, with a new size.
  module _ (size : ℕ) (found : Block) (freed : lookup found.address h.freed ≡ some found)
      (enough : size ≤ found.capacity) where
    at-reuse :
        (a : ℕ)
        → at (reuse h size found).0 a
          ≡ (if found.address == a then some (record found { size = size }) else at h a)
    unfolding reuse at
    at-reuse a = ground (
      arith,
      lookup-insert found.address a (record found { size = size }) h.blocks,
      lookup-erase found.address a h.freed,
    )

    at-found : at h found.address ≡ some found
    at-found = at_freed found.address found freed

    pub reuse-IsValid : IsValid (reuse h size found).0
    unfolding reuse
    reuse-IsValid = record {
      base_aligned = v.base_aligned;
      top_aligned = v.top_aligned;
      base_le = v.base_le;
      top_le = v.top_le;
      unique = insert-Unique found.address _ h.blocks v.unique;
      unique_freed = erase-Unique found.address h.freed v.unique_freed;
      exclusive = λ a b e. ground (
        arith,
        lookup-insert found.address a (record found { size = size }) h.blocks,
        lookup-erase found.address a h.freed,
        v.exclusive a b,
      );
      fits = λ a b e.
          let f = v.fits found.address found at-found in ground (arith, at-reuse a, v.fits a b);
      apart = λ a c b d e f l. ground (
        arith,
        at-reuse a,
        at-reuse c,
        at-found,
        v.apart a c b d,
        v.apart found.address c found d,
        v.apart a found.address b found,
      );
    }

-- The rounding of a request.
pub wanted_lem :
    (size : ℕ) → (size ≤ wanted size) × (align ≤ wanted size) × (wanted size % align ≡ 0)
wanted_lem size = (omega arith, omega arith, omega arith)

-- A new block is cut off at the top.
module _ (h : Heap) (v : IsValid h) (size want : ℕ) (enough : size ≤ want)
    (some_room : align ≤ want) (aligned : want % align ≡ 0) where
  pub at_top : at h h.top ≡ none
  at_top = elim (Option-cases (at h h.top)) [
    | inl p ↦ p
    | inr (b, p) ↦ absurd (let f = v.fits h.top b p in omega arith)
  ]

  at-carved :
      (a : ℕ)
      → at (carved h size want) a ≡ (if h.top == a then some (new_block h size want) else at h a)
  unfolding carved at
  at-carved a = ground (arith, lookup-insert h.top a (new_block h size want) h.blocks)

  top_not_freed : lookup h.top h.freed ≡ none
  top_not_freed = elim (Option-cases (lookup h.top h.freed)) [
    | inl p ↦ p
    | inr (b, p) ↦ absurd (let f = v.fits h.top b (at_freed h v h.top b p) in omega arith)
  ]

  pub carved-IsValid : h.top + want ≤ h.base + h.size → IsValid (carved h size want)
  unfolding carved
  carved-IsValid fitting = record {
    base_aligned = v.base_aligned;
    top_aligned = let t = v.top_aligned in omega arith;
    base_le = let t = v.base_le in omega arith;
    top_le = fitting;
    unique = insert-Unique h.top _ h.blocks v.unique;
    unique_freed = v.unique_freed;
    exclusive = λ a b e. ground (
      arith,
      lookup-insert h.top a (new_block h size want) h.blocks,
      v.exclusive a b,
      top_not_freed,
    );
    fits = λ a b e.
        let lower = v.base_le in let t = v.top_aligned in ground (arith, at-carved a, v.fits a b);
    apart = λ a c b d e f l.
        ground (arith, at-carved a, at-carved c, v.apart a c b d, v.fits a b, v.fits c d);
  }

-- A live block goes on the free list.
module _ (h : Heap) (v : IsValid h) (address : ℕ) (block : Block)
    (live : lookup address h.blocks ≡ some block) where
  at-released : (a : ℕ) → at (released h address block) a ≡ at h a
  unfolding released at
  at-released a = ground (
    arith,
    lookup-insert address a block h.freed,
    lookup-erase address a h.blocks,
    v.exclusive address block,
  )

  pub released-IsValid : IsValid (released h address block)
  unfolding released
  released-IsValid = record {
    base_aligned = v.base_aligned;
    top_aligned = v.top_aligned;
    base_le = v.base_le;
    top_le = v.top_le;
    unique = erase-Unique address h.blocks v.unique;
    unique_freed = insert-Unique address block h.freed v.unique_freed;
    exclusive = λ a b e. ground (
      arith,
      lookup-insert address a block h.freed,
      lookup-erase address a h.blocks,
      v.exclusive a b,
    );
    fits = λ a b e.
        let f = v.fits a b (sym (at-released a) ∙ e) in
        record {
          own = f.own;
          above = f.above;
          below = f.below;
          large = f.large;
          some_room = f.some_room;
          aligned = f.aligned;
          aligned_end = f.aligned_end;
        };
    apart = λ a c b d e f l. v.apart a c b d (sym (at-released a) ∙ e) (sym (at-released c) ∙ f) l;
  }
