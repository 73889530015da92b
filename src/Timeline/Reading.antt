-- ===== src/Timeline/Reading.antt =====
-- What a checkpoint reads: the dirty pages, or for the base every mapped page.
use ghidra_unicorn.Prelude.{
  nat_eq, ℕ, zero, suc, ◌+◌, ◌*◌, ◌≤◌, ◌<◌, ◌≡◌, refl, ◌∙◌, Bool, true, ◌||◌, Option, none, some,
  List, [], ◌∷◌, arith, ltb, leb, ◌==◌, if◌then◌else◌, Dict, lookup, or_else, All, In, In-sort, sym,
  ap, insert-Unique, lookup-insert, Bool-cases, Option-cases, inl, inr, ◌⊎◌, place, sort,
}
use ghidra_unicorn.Engine.{Bytes, page, page_at, Aligned, Region, Engine, EngineLaws}
use ghidra_unicorn.Timeline.{
  page_of, has, page_range, region_le, read_one, read_list, read_pages, pages_of_region,
  read_regions, read_all,
}
use ghidra_unicorn.Timeline.Images.{IsPages, insert-IsPages}

has-place : (x q : ℕ) (l : List ℕ) → has q (place leb x l) ≡ (x == q || has q l)
unfolding place has
has-place x q [] = refl
has-place x q (y ∷ l) = ground (arith, has-place x q l)

pub has-sort : (q : ℕ) (l : List ℕ) → has q (sort leb l) ≡ has q l
unfolding sort has
has-sort q [] = refl
has-sort q (x ∷ l) = ground (arith, has-place x q (sort leb l), has-sort q l)

All-place : (x : ℕ) (l : List ℕ) → Aligned x → All Aligned l → All Aligned (place leb x l)
unfolding place
All-place x [] h hs = (h, tt)
All-place x (y ∷ l) h hs = elim (Bool-cases (leb x y)) [
  | inl p ↦ rw p (h, hs)
  | inr p ↦ rw p (hs.0, All-place x l h hs.1)
]

All-sort : (l : List ℕ) → All Aligned l → All Aligned (sort leb l)
unfolding sort
All-sort [] h = tt
All-sort (x ∷ l) h = All-place x (sort leb l) h.0 (All-sort l h.1)

has-page_range :
    (fuel start stop q : ℕ)
    → Aligned start
    → Aligned q
    → start ≤ q
    → q < stop
    → q < start + fuel * page
    → has q (page_range fuel start stop) ≡ true
unfolding page_range has
has-page_range zero start stop q al aq l u f = absurd (omega arith)
has-page_range (suc fuel) start stop q al aq l u f = elim (Bool-cases (start == q)) [
  | inl p ↦ ground arith
  | inr p ↦
      let next =
        has-page_range fuel (start + page) stop q (omega arith) aq (ground arith) u (omega arith) in
      ground arith
]

All-page_range : (fuel start stop : ℕ) → Aligned start → All Aligned (page_range fuel start stop)
unfolding page_range
All-page_range zero start stop h = tt
All-page_range (suc fuel) start stop h = elim (Bool-cases (ltb start stop)) [
  | inl p ↦ rw p (h, All-page_range fuel (start + page) stop (omega arith))
  | inr p ↦ rw p tt
]

if_or_else :
    (b : Bool) (o : Option Bytes) → (if b then or_else o none else none) ≡ (if b then o else none)
if_or_else b o = ground arith

or_else_twice :
    (a b : Bool) (o d : Option Bytes)
    → (if b then or_else o (if a then or_else o d else d) else if a then or_else o d else d)
      ≡ (if a || b then or_else o d else d)
or_else_twice a b o d = ground arith

module _ (e : Engine) where
  open e use {Machine}

  lookup-read_one :
      (m : Machine) (a q : ℕ) (pages : Dict ℕ Bytes)
      → lookup q (read_one e m a pages)
        ≡ (if a == q then or_else (page_at e m q) (lookup q pages) else lookup q pages)
  unfolding read_one
  lookup-read_one m a q pages = elim (Option-cases (page_at e m a)) [
    | inl p ↦
        rw (p, read_one)
          (elim (Bool-cases (a == q)) [
            | inl s ↦ let t : a ≡ q = ground arith in rw s (rw (← t) (rw p))
            | inr s ↦ rw s
          ])
    | inr (d, p) ↦
        rw (p, read_one)
          (rw lookup-insert (elim (Bool-cases (a == q)) [
            | inl s ↦ let t : a ≡ q = ground arith in rw s (rw (← t) (rw p))
            | inr s ↦ rw s
          ]))
  ]

  lookup-read_list :
      (m : Machine) (l : List ℕ) (pages : Dict ℕ Bytes) (q : ℕ)
      → lookup q (read_list e m l pages)
        ≡ (if has q l then or_else (page_at e m q) (lookup q pages) else lookup q pages)
  unfolding read_list has
  lookup-read_list m [] pages q = refl
  lookup-read_list m (a ∷ l) pages q =
      lookup-read_list m l (read_one e m a pages) q
      ∙ rw lookup-read_one (or_else_twice (a == q) (has q l) (page_at e m q) (lookup q pages))

  -- A dirty page that is mapped is in the delta, with what it holds; no other page is.
  pub lookup-read_pages :
      (m : Machine) (dirty : List ℕ) (q : ℕ)
      → lookup q (read_pages e m dirty) ≡ (if has q dirty then page_at e m q else none)
  unfolding read_pages lookup
  lookup-read_pages m dirty q =
      lookup-read_list m (sort leb dirty) [] q
      ∙ rw has-sort (if_or_else (has q dirty) (page_at e m q))

module _ (e : Engine) (laws : EngineLaws e) where
  open e use {Machine}

  read_one-IsPages :
      (m : Machine) (a : ℕ) (pages : Dict ℕ Bytes)
      → Aligned a
      → IsPages pages
      → IsPages (read_one e m a pages)
  unfolding read_one
  read_one-IsPages m a pages al h = elim (Option-cases (page_at e m a)) [
    | inl p ↦ rw (p, read_one) h
    | inr (d, p) ↦
        rw (p, read_one)
          (
            insert-Unique a d pages h.0,
            insert-IsPages a d pages al (laws.read_length m a page d p) h.1,
          )
  ]

  read_list-IsPages :
      (m : Machine) (l : List ℕ) (pages : Dict ℕ Bytes)
      → All Aligned l
      → IsPages pages
      → IsPages (read_list e m l pages)
  unfolding read_list
  read_list-IsPages m [] pages al h = h
  read_list-IsPages m (a ∷ l) pages al h =
      read_list-IsPages m l (read_one e m a pages) al.1 (read_one-IsPages m a pages al.0 h)

  pub read_pages-IsPages :
      (m : Machine) (dirty : List ℕ) → All Aligned dirty → IsPages (read_pages e m dirty)
  unfolding read_pages
  read_pages-IsPages m dirty al =
      read_list-IsPages m (sort leb dirty) [] (All-sort dirty al) (tt, tt)

  read_regions-IsPages :
      (m : Machine) (rs : List Region) (pages : Dict ℕ Bytes)
      → IsPages pages
      → IsPages (read_regions e m rs pages)
  unfolding read_regions
  read_regions-IsPages m [] pages h = h
  read_regions-IsPages m (r ∷ rs) pages h =
      read_regions-IsPages m rs (read_list e m (pages_of_region r) pages) (
        read_list-IsPages m (pages_of_region r) pages
          (All-page_range (r.last + 2) (page_of r.start) (r.last + 1) (omega arith)) h)

  pub read_all-IsPages : (m : Machine) → IsPages (read_all e m)
  unfolding read_all
  read_all-IsPages m = read_regions-IsPages m (sort region_le (e.regions m)) [] (tt, tt)

  kept_or_read :
      (m : Machine) (l : List ℕ) (pages : Dict ℕ Bytes) (q : ℕ) (d : Bytes)
      → page_at e m q ≡ some d
      → (has q l ≡ true) ⊎ (lookup q pages ≡ some d)
      → lookup q (read_list e m l pages) ≡ some d
  kept_or_read m l pages q d p h =
      lookup-read_list e m l pages q
      ∙ rw p (elim (Bool-cases (has q l)) [
        | inl b ↦ rw b
        | inr b ↦ rw b (elim h [ inl c ↦ absurd (cc) | inr c ↦ c ])
      ])

  -- A mapped page of one of the regions is read, and what is read stays.
  lookup-read_regions :
      (m : Machine) (rs : List Region) (pages : Dict ℕ Bytes) (q : ℕ) (d : Bytes)
      → page_at e m q ≡ some d
      → ((r : Region) × In r rs × (has q (pages_of_region r) ≡ true)) ⊎ (lookup q pages ≡ some d)
      → lookup q (read_regions e m rs pages) ≡ some d
  unfolding read_regions
  lookup-read_regions m [] pages q d p (inl (r, i, h)) = elim i [ ]
  lookup-read_regions m [] pages q d p (inr h) = h
  lookup-read_regions m (s ∷ rs) pages q d p (inr h) =
      lookup-read_regions m rs (read_list e m (pages_of_region s) pages) q d p
        (inr (kept_or_read m (pages_of_region s) pages q d p (inr h)))
  lookup-read_regions m (s ∷ rs) pages q d p (inl (r, inr i, h)) =
      lookup-read_regions m rs (read_list e m (pages_of_region s) pages) q d p (inl (r, i, h))
  lookup-read_regions m (s ∷ rs) pages q d p (inl (r, inl i, h)) =
      lookup-read_regions m rs (read_list e m (pages_of_region s) pages) q d p (
        inr (
          kept_or_read m (pages_of_region s) pages q d p
            (inl (ap (λ (x : Region). has q (pages_of_region x)) (sym i) ∙ h))))

  -- The base holds every mapped page, with what it holds.
  pub lookup-read_all :
      (m : Machine) (q : ℕ) (d : Bytes)
      → Aligned q
      → page_at e m q ≡ some d
      → lookup q (read_all e m) ≡ some d
  unfolding read_all
  lookup-read_all m q d aq p =
      let (r, i, lo, hi) = laws.mapped_in_region m q d aq p in
      let al = laws.region_aligned m r i in
      lookup-read_regions m (sort region_le (e.regions m)) [] q d p (
        inl (
          r,
          In-sort region_le r (e.regions m) i,
          has-page_range (r.last + 2) (page_of r.start) (r.last + 1) q (omega arith) aq
              (omega arith) (omega arith) (omega arith),
        ))
