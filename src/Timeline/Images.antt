-- ===== src/Timeline/Images.antt =====
-- The history as a list of whole snapshots. A `Timeline` holds one of them, the base, and what changed
-- from each to the next; here each checkpoint is read as the full memory that it stands for.
use ghidra_unicorn.Prelude.{
  nat_eq, ℕ, ◌+◌, ◌-◌, ◌≤◌, ◌<◌, ◌≡◌, ◌≢◌, refl, false, Option, none, some, List, [], ◌∷◌, arith,
  ltb, ◌==◌, if◌then◌else◌, length, drop, Dict, lookup, insert, update, Unique, All, insert-Unique,
  Bool-cases, inl, inr, Option-cases, lt→ltb,
}
use ghidra_unicorn.Engine.{Bytes, page, Aligned, Engine}
use ghidra_unicorn.Timeline.{
  Checkpoint, Timeline, nbytes_of, nbytes, folded, fold_over, enforce_budget,
}

-- A whole snapshot.
pub record Shot (C : Type 0) : Type 0 where
  pub icount : ℕ
  pub context : C
  pub memory : ℕ → Option Bytes

-- Pages as the checkpoints hold them: one entry to a page, whole pages at page addresses.
abbrev pub IsPages : Dict ℕ Bytes → Type 0
IsPages pages = Unique pages × All (λ (p : ℕ × Bytes). Aligned p.0 × (length p.1 ≡ page)) pages

pub insert-IsPages :
    (a : ℕ) (d : Bytes) (pages : Dict ℕ Bytes)
    → Aligned a
    → length d ≡ page
    → All (λ (p : ℕ × Bytes). Aligned p.0 × (length p.1 ≡ page)) pages
    → All (λ (p : ℕ × Bytes). Aligned p.0 × (length p.1 ≡ page)) (insert a d pages)
unfolding insert
insert-IsPages a d [] al l h = ((al, l), tt)
insert-IsPages a d ((b, x) ∷ pages) al l h = elim (Bool-cases (b == a)) [
  | inl p ↦ rw p ((h.0.0, l), h.1)
  | inr p ↦ rw p (h.0, insert-IsPages a d pages al l h.1)
]

pub update-IsPages : (p u : Dict ℕ Bytes) → IsPages p → IsPages u → IsPages (update p u)
unfolding update
update-IsPages p [] hp hu = hp
update-IsPages p ((a, d) ∷ u) hp hu =
    update-IsPages (insert a d p) u
      (insert-Unique a d p hp.0, insert-IsPages a d p hu.1.0.0 hu.1.0.1 hp.1) (hu.0.1, hu.1.1)

module _ (e : Engine) where
  open e use {Context}

  abbrev pub shot_of : Checkpoint Context → Shot Context
  shot_of cp = record { icount = cp.icount; context = cp.context; memory = λ q. lookup q cp.pages }

  -- Every snapshot that the base and the deltas hold, oldest first.
  abbrev pub shots : Checkpoint Context → List (Checkpoint Context) → List (Shot Context)
  shots base [] = shot_of base ∷ []
  shots base (cp ∷ cps) = shot_of base ∷ shots (folded e base cp) cps

  abbrev pub history : Timeline Context → List (Shot Context)
  history t = elim t.base [ none ↦ [] | some base ↦ shots base t.checkpoints ]

  -- Every checkpoint holds whole pages, and their instructions ascend.
  abbrev pub Ascending : Checkpoint Context → List (Checkpoint Context) → Type 0
  Ascending base [] = IsPages base.pages
  Ascending base (cp ∷ cps) = IsPages base.pages × (base.icount ≤ cp.icount) × Ascending cp cps

  -- Only the pages of the base matter, and its instruction.
  pub Ascending-pages :
      (base : Checkpoint Context) (cps : List (Checkpoint Context))
      → Ascending base cps
      → IsPages base.pages
  Ascending-pages base [] h = h
  Ascending-pages base (cp ∷ cps) h = h.0

  pub Ascending-folded :
      (base cp : Checkpoint Context) (cps : List (Checkpoint Context))
      → Ascending base (cp ∷ cps)
      → Ascending (folded e base cp) cps
  unfolding folded
  Ascending-folded base cp [] h = update-IsPages base.pages cp.pages h.0 h.2
  Ascending-folded base cp (c ∷ cps) h =
      (update-IsPages base.pages cp.pages h.0 h.2.0, h.2.1, h.2.2)

  fold_over-shots :
      (budget total : ℕ) (base : Checkpoint Context) (cps : List (Checkpoint Context))
      → let (b, rest, n) = fold_over e budget total base cps in
        shots b rest ≡ drop n (shots base cps)
  unfolding fold_over
  fold_over-shots budget total base [] = refl
  fold_over-shots budget total base (cp ∷ cps) = elim (Bool-cases (ltb budget total)) [
    | inl p ↦ rw p (fold_over-shots budget (total - nbytes_of e cp) (folded e base cp) cps)
    | inr p ↦ rw p refl
  ]

  fold_over-nbytes :
      (budget total : ℕ) (base : Checkpoint Context) (cps : List (Checkpoint Context))
      → total ≡ nbytes e cps
      → nbytes e (fold_over e budget total base cps).1 ≤ budget
  unfolding fold_over nbytes
  fold_over-nbytes budget total base [] h = omega arith
  fold_over-nbytes budget total base (cp ∷ cps) h = elim (Bool-cases (ltb budget total)) [
    | inl p ↦
        rw p (fold_over-nbytes budget (total - nbytes_of e cp) (folded e base cp) cps (omega arith))
    | inr p ↦ rw p (ground arith)
  ]

  -- Enforcing the budget forgets snapshots from the oldest on, as many as it counts, and changes none
  -- of the others.
  pub history-enforce_budget :
      (t : Timeline Context)
      → history (enforce_budget e t).0
        ≡ drop ((enforce_budget e t).0.dropped - t.dropped) (history t)
  unfolding enforce_budget
  history-enforce_budget t = elim (Option-cases t.base) [
    | inl p ↦
        rw (p, enforce_budget, history)
          (let z : t.dropped - t.dropped ≡ 0 = omega arith in rw (z, p) refl)
    | inr (base, p) ↦
        let n = (fold_over e t.budget (nbytes e t.checkpoints) base t.checkpoints).2 in
        let z : t.dropped + n - t.dropped ≡ n = omega arith in
        rw (p, enforce_budget, history)
          (rw (z, p, enforce_budget)
            (fold_over-shots t.budget (nbytes e t.checkpoints) base t.checkpoints))
  ]

  -- With a base, what enforcing the budget leaves fits the budget.
  pub enforce_budget-le :
      (t : Timeline Context)
      → t.base ≢ none
      → nbytes e (enforce_budget e t).0.checkpoints ≤ t.budget
  unfolding enforce_budget
  enforce_budget-le t h = elim (Option-cases t.base) [
    | inl p ↦ absurd (h p)
    | inr (base, p) ↦
        rw (p, enforce_budget)
          (fold_over-nbytes t.budget (nbytes e t.checkpoints) base t.checkpoints refl)
  ]

  -- Folding the base into the first delta is what the first snapshot is lost by, so the bounds of the
  -- history move with it.
  pub fold_over-Ascending :
      (budget total : ℕ) (base : Checkpoint Context) (cps : List (Checkpoint Context))
      → Ascending base cps
      → Ascending (fold_over e budget total base cps).0 (fold_over e budget total base cps).1
  unfolding fold_over
  fold_over-Ascending budget total base [] h = h
  fold_over-Ascending budget total base (cp ∷ cps) h = elim (Bool-cases (ltb budget total)) [
    | inl p ↦ rw p (
        fold_over-Ascending budget (total - nbytes_of e cp) (folded e base cp) cps
          (Ascending-folded base cp cps h))
    | inr p ↦ rw p h
  ]

  -- The snapshot that the deltas up to `k` lead to.
  unfoldable pub upto : ℕ → Checkpoint Context → List (Checkpoint Context) → Checkpoint Context
  upto k base [] = base
  upto k base (cp ∷ cps) =
      let rest = upto k (folded e base cp) cps in if ltb k cp.icount then base else rest

  pub icount-folded : (base cp : Checkpoint Context) → (folded e base cp).icount ≡ cp.icount
  unfolding folded
  icount-folded base cp = refl

  pub upto_stop :
      (k : ℕ) (base cp : Checkpoint Context) (cps : List (Checkpoint Context))
      → k < cp.icount
      → upto k base (cp ∷ cps) ≡ base
  unfolding upto
  upto_stop k base cp cps l = rw (lt→ltb k cp.icount l) refl

  pub upto_step :
      (k : ℕ) (base cp : Checkpoint Context) (cps : List (Checkpoint Context))
      → cp.icount ≤ k
      → upto k base (cp ∷ cps) ≡ upto k (folded e base cp) cps
  unfolding upto
  upto_step k base cp cps l = let s : ltb k cp.icount ≡ false = ground arith in rw s refl
