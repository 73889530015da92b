-- ===== src/Provenance/Reads.antt =====
-- The reads that are recorded, by offset and by instruction.
use ghidra_unicorn.Prelude.{
  nat_eq, nat_beq_iff, ℕ, ◌≡◌, refl, ◌∙◌, ap, max, Bool, true, false, ◌&&◌, ◌||◌, Option, none,
  some, List, [], ◌∷◌, arith, ltb, ◌==◌, if◌then◌else◌, Dict, lookup, insert, lookup-insert,
  Bool-cases, inl, inr,
}
use ghidra_unicorn.Timeline.{has, add}
use ghidra_unicorn.Timeline.Touch.{has-add}
use ghidra_unicorn.Provenance.{
  Access, offsets, add_within, read_from, InputProvenance, offsets_read, at_pc, by_pc_from, by_pc,
  reads_at, first_from, first_read,
}
use ghidra_unicorn.Provenance.Ranges.{has-count_from}

abbrev pub touched : Option Access → Bool
touched none = false
touched (some a) = true

has-add_within :
    (o length : ℕ) (l set : List ℕ)
    → has o (add_within length l set) ≡ (ltb o length && has o l || has o set)
unfolding add_within has
has-add_within o length [] set = ground arith
has-add_within o length (x ∷ l) set = elim (Bool-cases (ltb x length)) [
  | inl p ↦
      rw p (ground (arith, has-add_within o length l (add x set), has-add x o set, nat_beq_iff x o))
  | inr p ↦ rw p (ground (arith, has-add_within o length l set, nat_beq_iff x o))
]

has-read_from :
    (o length : ℕ) (accesses : List Access) (set : List ℕ)
    → has o (read_from length accesses set)
      ≡ (ltb o length && touched (first_from o accesses) || has o set)
unfolding read_from first_from
has-read_from o length [] set = ground arith
has-read_from o length (a ∷ accesses) set =
    has-read_from o length accesses (add_within length (offsets a) set)
    ∙ ground
        (arith, has-add_within o length (offsets a) set, has-count_from o (max a.size 1) a.offset)

-- An offset counts as read exactly if it is in the buffer and `first_read` finds an access that touched it.
pub has-offsets_read :
    (o : ℕ) (p : InputProvenance)
    → has o (offsets_read p) ≡ (ltb o p.length && touched (first_read p o))
unfolding offsets_read first_read
has-offsets_read o p = has-read_from o p.length p.accesses [] ∙ (unfold has in ground arith)

-- The accesses of the instruction at `pc`.
abbrev pub only : ℕ → List Access → List Access
only pc [] = []
only pc (a ∷ accesses) = if a.pc == pc then a ∷ only pc accesses else only pc accesses

at_pc-insert :
    (k pc : ℕ) (set : List ℕ) (out : Dict ℕ (List ℕ))
    → at_pc pc (insert k set out) ≡ (if k == pc then set else at_pc pc out)
at_pc-insert k pc set out = ground (arith, lookup-insert k pc set out)

read_from-only :
    (length pc : ℕ) (a : Access) (accesses : List Access) (out : Dict ℕ (List ℕ))
    → read_from length
        (only pc accesses)
        (if a.pc == pc then add_within length (offsets a) (at_pc a.pc out) else at_pc pc out)
      ≡ read_from length (only pc (a ∷ accesses)) (at_pc pc out)
unfolding read_from
read_from-only length pc a accesses out = elim (Bool-cases (a.pc == pc)) [
  | inl p ↦
      let q : a.pc ≡ pc = ground (arith, nat_beq_iff a.pc pc) in
      rw p (
        ap (λ i. read_from length (only pc accesses) (add_within length (offsets a) (at_pc i out)))
          q)
  | inr p ↦ rw p refl
]

at_pc-by_pc_from :
    (length pc : ℕ) (accesses : List Access) (out : Dict ℕ (List ℕ))
    → at_pc pc (by_pc_from length accesses out) ≡ read_from length (only pc accesses) (at_pc pc out)
unfolding by_pc_from
at_pc-by_pc_from length pc [] out = unfold read_from in refl
at_pc-by_pc_from length pc (a ∷ accesses) out =
    let set = add_within length (offsets a) (at_pc a.pc out) in
    at_pc-by_pc_from length pc accesses (insert a.pc set out)
    ∙ ap (read_from length (only pc accesses)) (at_pc-insert a.pc pc set out)
    ∙ read_from-only length pc a accesses out

-- What was read at an instruction is what a recording of its accesses alone would have read.
pub reads_at-only :
    (p : InputProvenance) (pc : ℕ)
    → reads_at p pc ≡ offsets_read (record p { accesses = only pc p.accesses })
unfolding reads_at offsets_read by_pc
reads_at-only p pc = at_pc-by_pc_from p.length pc p.accesses [] ∙ (unfold lookup in refl)
