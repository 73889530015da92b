-- ===== src/Timeline/Touch.antt =====
-- The pages that `note_write` marks.
use ghidra_unicorn.Prelude.{
  nat_eq, ℕ, zero, suc, ◌+◌, ◌-◌, ◌*◌, ◌≤◌, ◌≡◌, max, Bool, ◌&&◌, ◌||◌, List, arith, ltb, leb, ◌==◌,
  Bool-cases, inl, inr, All, leb→le, ◌∙◌,
}
use ghidra_unicorn.Engine.{page, Aligned}
use ghidra_unicorn.Timeline.{page_of, has, add, add_pages, touch}

pub has-add : (x y : ℕ) (l : List ℕ) → has y (add x l) ≡ (x == y || has y l)
unfolding add has
has-add x y l = ground arith

-- A page is in the set if it was, or if it is one of `p`, `p + PAGE`, … up to `last`.
abbrev in_span : ℕ → ℕ → ℕ → Bool
in_span q p last = leb p q && leb q last

span_step_tests :
    (p q last : ℕ) (b : Bool)
    → Aligned p
    → Aligned q
    → p ≤ last
    → (in_span q (p + page) last || (p == q || b)) ≡ (in_span q p last || b)
span_step_tests p q last b ap aq l = ground arith

span_step :
    (p q last : ℕ) (dirty : List ℕ)
    → Aligned p
    → Aligned q
    → p ≤ last
    → (in_span q (p + page) last || has q (add p dirty)) ≡ (in_span q p last || has q dirty)
span_step p q last dirty ap aq l = rw has-add (span_step_tests p q last (has q dirty) ap aq l)

has-add_pages :
    (fuel p last q : ℕ) (dirty : List ℕ)
    → Aligned p
    → Aligned q
    → Aligned last
    → last + page ≤ p + fuel * page
    → has q (add_pages fuel p last dirty) ≡ (in_span q p last || has q dirty)
unfolding add_pages
has-add_pages zero p last q dirty ap aq al room = ground arith
has-add_pages (suc fuel) p last q dirty ap aq al room = elim (Bool-cases (leb p last)) [
  | inl more ↦
      let step =
        has-add_pages fuel (p + page) last q (add p dirty) (omega arith) aq al (omega arith) in
      rw more (step ∙ span_step p q last dirty ap aq (leb→le p last more))
  | inr done ↦ rw done (ground arith)
]

-- After `note_write` a page is dirty exactly if it was, or if it meets the bytes written. (A write of
-- no bytes counts as one byte.)
pub has-touch :
    (address size q : ℕ) (dirty : List ℕ)
    → Aligned q
    → has q (touch address size dirty)
      ≡ (ltb address (q + page) && ltb q (address + max size 1) || has q dirty)
unfolding touch
has-touch address size q dirty aq =
    has-add_pages (size + 2) (page_of address) (page_of (address + max size 1 - 1)) q dirty
      (omega arith) aq (omega arith) (omega arith)
    ∙ ground arith

add_pages-Aligned :
    (fuel p last : ℕ) (dirty : List ℕ)
    → Aligned p
    → All Aligned dirty
    → All Aligned (add_pages fuel p last dirty)
unfolding add_pages add
add_pages-Aligned zero p last dirty ap h = h
add_pages-Aligned (suc fuel) p last dirty ap h = elim (Bool-cases (leb p last)) [
  | inl more ↦ rw more (
      add_pages-Aligned fuel (p + page) last (add p dirty) (omega arith)
        (elim (Bool-cases (has p dirty)) [ inl i ↦ rw i h | inr i ↦ rw i (ap, h) ]))
  | inr done ↦ rw done h
]

pub touch-Aligned :
    (address size : ℕ) (dirty : List ℕ) → All Aligned dirty → All Aligned (touch address size dirty)
unfolding touch
touch-Aligned address size dirty h =
    add_pages-Aligned (size + 2) (page_of address) (page_of (address + max size 1 - 1)) dirty
      (omega arith) h
