-- ===== src/Timeline/Restore.antt =====
-- `restore` puts the machine into the newest snapshot that is not after the instruction asked for.
use ghidra_unicorn.Prelude.{
  nat_eq, ℕ, ◌≤◌, ◌<◌, ◌≡◌, refl, ◌∙◌, ap, false, Option, none, some, List, [], ◌∷◌, arith, ltb,
  ◌==◌, if◌then◌else◌, length, Dict, lookup, update, or_else, Unique, lookup-update, Bool-cases,
  Option-cases, inl, inr, ltb→lt, lt→ltb,
}
use native.Mathlib.Decide.{dec_lt}
use ghidra_unicorn.Engine.{Bytes, page, page_at, Aligned, Engine, EngineLaws}
use ghidra_unicorn.Timeline.{
  attempt, Checkpoint, Timeline, folded, best_from, checkpoint_at_or_before, write_pages,
  write_deltas, wanted_regions, sync_regions, restore,
}
use ghidra_unicorn.Timeline.Images.{
  Shot, IsPages, shot_of, shots, history, Ascending, Ascending-folded, Ascending-pages, upto,
  upto_stop, upto_step, icount-folded,
}

-- What a page holds after a snapshot is written over it: an unmapped page stays unmapped.
abbrev pub overlay : Option Bytes → Option Bytes → Option Bytes
overlay none new = none
overlay (some old) new = or_else new (some old)

-- The newest snapshot that is not after `k`, where the first is not.
abbrev pub newest : {C : Type 0} → ℕ → List (Shot C) → Option (Shot C)
newest k [] = none
newest k (s ∷ ss) = if ltb k s.icount then none else or_else (newest k ss) (some s)

module _ (e : Engine) (laws : EngineLaws e) where
  open e use {Machine, Context, mem_write}

  page-write_one :
      (m : Machine) (a q : ℕ) (d : Bytes)
      → Aligned a
      → length d ≡ page
      → Aligned q
      → page_at e (attempt m (mem_write m a d)) q
        ≡ (if a == q then overlay (page_at e m q) (some d) else page_at e m q)
  page-write_one m a q d al ld aq = elim (Option-cases (page_at e m a)) [
    | inl p ↦ rw (laws.write_unmapped m a d al ld p) (elim (Bool-cases (a == q)) [
      | inl s ↦ let t : a ≡ q = ground arith in rw s (rw (← t) (rw p))
      | inr s ↦ rw s refl
    ])
    | inr (old, p) ↦
        let (m', w, r) = laws.write_page m a old d al ld p in
        rw w (elim (Bool-cases (a == q)) [
          | inl s ↦ let t : a ≡ q = ground arith in rw s (rw (← t) (rw p r))
          | inr s ↦ rw s (
              laws.write_apart m a q d m' w aq (elim (Bool-cases (ltb a q)) [
                | inl l ↦ inr (ground arith)
                | inr l ↦ inl (ground arith)
              ]))
        ])
  ]

  overlay_step :
      (a q : ℕ) (d : Bytes) (pages : Dict ℕ Bytes) (old : Option Bytes)
      → lookup a pages ≡ none
      → overlay (if a == q then overlay old (some d) else old) (lookup q pages)
        ≡ overlay old (if a == q then some d else lookup q pages)
  overlay_step a q d pages old n = ground arith

  pub page-write_pages :
      (m : Machine) (pages : Dict ℕ Bytes) (q : ℕ)
      → IsPages pages
      → Aligned q
      → page_at e (write_pages e m pages) q ≡ overlay (page_at e m q) (lookup q pages)
  unfolding write_pages lookup
  page-write_pages m [] q h aq = ground arith
  page-write_pages m ((a, d) ∷ pages) q h aq =
      page-write_pages (attempt m (mem_write m a d)) pages q (h.0.1, h.1.1) aq
      ∙ rw (page-write_one m a q d h.1.0.0 h.1.0.1 aq)
          (overlay_step a q d pages (page_at e m q) h.0.0)

  -- The deltas, written in turn over memory that shows the base, show the snapshot that they lead to.
  overlay-update :
      (old : Option Bytes) (base u : Dict ℕ Bytes) (q : ℕ)
      → Unique u
      → overlay (overlay old (lookup q base)) (lookup q u) ≡ overlay old (lookup q (update base u))
  overlay-update old base u q h = rw (lookup-update q base u h) (ground arith)

  page-write_deltas :
      (k : ℕ) (m m' : Machine) (base : Checkpoint Context) (cps : List (Checkpoint Context)) (q : ℕ)
      → Ascending e base cps
      → Aligned q
      → page_at e m' q ≡ overlay (page_at e m q) (lookup q base.pages)
      → page_at e (write_deltas e k m' cps) q
        ≡ overlay (page_at e m q) (lookup q (upto e k base cps).pages)
  unfolding write_deltas upto
  page-write_deltas k m m' base [] q h aq p = p
  page-write_deltas k m m' base (cp ∷ cps) q h aq p = elim (Bool-cases (ltb k cp.icount)) [
    | inl s ↦ rw s p
    | inr s ↦ rw s (
        page-write_deltas k m (write_pages e m' cp.pages) (folded e base cp) cps q
          (Ascending-folded e base cp cps h) aq
          (page-write_pages m' cp.pages q (Ascending-pages e cp cps h.2) aq
            ∙ ap (λ (o : Option Bytes). overlay o (lookup q cp.pages)) p
            ∙ (unfold folded in
                overlay-update (page_at e m q) base.pages cp.pages q
                  (Ascending-pages e cp cps h.2).0)))
  ]

  newest_later :
      (k : ℕ) (base : Checkpoint Context) (cps : List (Checkpoint Context))
      → k < base.icount
      → newest k (shots e base cps) ≡ none
  newest_later k base [] l = rw (lt→ltb k base.icount l)
  newest_later k base (cp ∷ cps) l = rw (lt→ltb k base.icount l)

  -- `upto` is the newest snapshot that is not after `k`.
  newest-shots :
      (k : ℕ) (base : Checkpoint Context) (cps : List (Checkpoint Context))
      → base.icount ≤ k
      → newest k (shots e base cps) ≡ some (shot_of e (upto e k base cps))
  unfolding upto
  newest-shots k base [] l = ground arith
  newest-shots k base (cp ∷ cps) l =
      let not_before : ltb k base.icount ≡ false = ground arith in
      elim (Bool-cases (ltb k cp.icount)) [
        | inl s ↦
            rw
              (
                not_before,
                s,
                newest_later k (folded e base cp) cps (unfold folded in ltb→lt k cp.icount s),
              )
              refl
        | inr s ↦
            rw
              (not_before, s, newest-shots k (folded e base cp) cps (unfold folded in ground arith))
              refl
      ]

  -- The checkpoint chosen is at the instruction of that snapshot, with its context.
  best_from-upto :
      (k : ℕ) (base best : Checkpoint Context) (cps : List (Checkpoint Context))
      → best.icount ≡ base.icount
      → best.context ≡ base.context
      → ((best_from e k best cps).icount ≡ (upto e k base cps).icount)
        × ((best_from e k best cps).context ≡ (upto e k base cps).context)
  unfolding best_from upto
  best_from-upto k base best [] i c = (i, c)
  best_from-upto k base best (cp ∷ cps) i c = elim (Bool-cases (ltb k cp.icount)) [
    | inl s ↦ rw s (i, c)
    | inr s ↦
        rw s (
          best_from-upto k (folded e base cp) cp cps (unfold folded in refl)
            (unfold folded in refl))
  ]

  upto-bounds :
      (k : ℕ) (base : Checkpoint Context) (cps : List (Checkpoint Context))
      → Ascending e base cps
      → base.icount ≤ k
      → (base.icount ≤ (upto e k base cps).icount) × ((upto e k base cps).icount ≤ k)
  unfolding upto
  upto-bounds k base [] h l = (omega arith, l)
  upto-bounds k base (cp ∷ cps) h l = elim (Bool-cases (ltb k cp.icount)) [
    | inl s ↦ rw s (omega arith, l)
    | inr s ↦
        let (lo, hi) =
          upto-bounds k (folded e base cp) cps (Ascending-folded e base cp cps h)
            (unfold folded in ground arith) in
        rw s (omega (arith, lo, icount-folded e base cp, h.1), hi)
  ]

  -- Up to the instruction of that snapshot, and up to `k`, are the same.
  upto-upto :
      (k : ℕ) (base : Checkpoint Context) (cps : List (Checkpoint Context))
      → Ascending e base cps
      → base.icount ≤ k
      → upto e (upto e k base cps).icount base cps ≡ upto e k base cps
  upto-upto k base [] h l = unfold upto in refl
  upto-upto k base (cp ∷ cps) h l = elim (dec_lt k cp.icount) [
    | yes s ↦ rw (upto_stop e k base cp cps s) (upto_stop e base.icount base cp cps (omega arith))
    | no s ↦
        let up = Ascending-folded e base cp cps h in
        let le : (folded e base cp).icount ≤ k = omega (arith, icount-folded e base cp) in
        let (lo, hi) = upto-bounds k (folded e base cp) cps up le in
        rw (upto_step e k base cp cps (omega arith)) (
          upto_step e (upto e k (folded e base cp) cps).icount base cp cps
            (omega (arith, icount-folded e base cp))
          ∙ upto-upto k (folded e base cp) cps up le)
  ]

  -- The machine that `restore` leaves, from a synced one.
  replayed : Timeline Context → Checkpoint Context → Checkpoint Context → Machine → Machine
  replayed t base cp m =
      e.context_restore (write_deltas e cp.icount (write_pages e m base.pages) t.checkpoints)
        cp.context

  module _ (t : Timeline Context) (base : Checkpoint Context) (m : Machine) (k : ℕ)
      (recorded : t.base ≡ some base) (reached : base.icount ≤ k) where
    chosen : Checkpoint Context
    chosen = best_from e k base t.checkpoints

    at_or_before-eq : checkpoint_at_or_before e t k ≡ some chosen
    unfolding checkpoint_at_or_before chosen
    at_or_before-eq = ground arith

    restore-eq :
        restore e t m k
        ≡ some (chosen, replayed t base chosen (sync_regions e t m (wanted_regions e base chosen)))
    unfolding restore replayed
    restore-eq = ground (arith, at_or_before-eq)

    page-replayed :
        (q : ℕ)
        → Ascending e base t.checkpoints
        → Aligned q
        → page_at e (replayed t base chosen m) q
          ≡ overlay (page_at e m q) (lookup q (upto e k base t.checkpoints).pages)
    unfolding replayed chosen
    page-replayed q up aq =
        let (i, c) = best_from-upto k base base t.checkpoints refl refl in
        laws.restore_page _ _ q
        ∙ rw i (
            page-write_deltas _ m (write_pages e m base.pages) base t.checkpoints q up aq
              (page-write_pages m base.pages q (Ascending-pages e base t.checkpoints up) aq)
            ∙ ap (λ (c : Checkpoint Context). overlay (page_at e m q) (lookup q c.pages))
                (upto-upto k base t.checkpoints up reached))

  -- `restore` brings back the snapshot that the deltas up to `k` lead to. The machine's regions are as
  -- they were: `sync_regions` has nothing to do.
  pub restore-upto :
      (t : Timeline Context) (base : Checkpoint Context) (m : Machine) (k : ℕ)
      → t.base ≡ some base
      → Ascending e base t.checkpoints
      → base.icount ≤ k
      → sync_regions e t m (wanted_regions e base (best_from e k base t.checkpoints)) ≡ m
      → (cp : Checkpoint Context) × (m' : Machine) × (restore e t m k ≡ some (cp, m'))
        × (cp.icount ≡ (upto e k base t.checkpoints).icount)
        × (e.context_save m' ≡ (upto e k base t.checkpoints).context)
        × ((q : ℕ)
            → Aligned q
            → page_at e m' q
              ≡ overlay (page_at e m q) (lookup q (upto e k base t.checkpoints).pages))
  restore-upto t base m k b up l same =
      let cp = chosen t base m k b l in
      let same' : sync_regions e t m (wanted_regions e base cp) ≡ m = unfold chosen in same in
      let (i, c) = best_from-upto k base base t.checkpoints refl refl in
      (
        cp,
        replayed t base cp m,
        restore-eq t base m k b l ∙ ap (λ (x : Machine). some (cp, replayed t base cp x)) same',
        unfold chosen in i,
        unfold chosen replayed in (laws.restore_context _ _ ∙ c),
        λ q aq. page-replayed t base m k b l q up aq,
      )

  -- What `restore` brings back is the newest whole snapshot of the history that is not after `k`: its
  -- instruction, its registers, and each of its pages where the machine has the page mapped. The
  -- history reaches back to `k`, and the regions are as they were.
  pub restore-newest :
      (t : Timeline Context) (base : Checkpoint Context) (m : Machine) (k : ℕ)
      → t.base ≡ some base
      → Ascending e base t.checkpoints
      → base.icount ≤ k
      → sync_regions e t m (wanted_regions e base (best_from e k base t.checkpoints)) ≡ m
      → (cp : Checkpoint Context) × (m' : Machine) × (s : Shot Context) × (restore e t m k
          ≡ some (cp, m'))
        × (newest k (history e t) ≡ some s)
        × (cp.icount ≡ s.icount)
        × (e.context_save m' ≡ s.context)
        × ((q : ℕ) → Aligned q → page_at e m' q ≡ overlay (page_at e m q) (s.memory q))
  restore-newest t base m k b up l same =
      let (cp, m', r, i, c, p) = restore-upto t base m k b up l same in
      (
        cp,
        m',
        shot_of e (upto e k base t.checkpoints),
        r,
        rw (b, history) (newest-shots k base t.checkpoints l),
        i,
        c,
        p,
      )
