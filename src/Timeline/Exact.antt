-- ===== src/Timeline/Exact.antt =====
-- Recording and going back, together: what `restore` needs to be exact, and that recording keeps it.
use ghidra_unicorn.Prelude.{
  nat_eq, ℕ, ◌-◌, ◌≤◌, ◌≡◌, refl, sym, ◌∙◌, ap, false, some, List, [], ◌∷◌, ◌++◌, arith, ltb,
  lookup, All, lookup-update, Bool-cases, inl, inr, sort,
}
use ghidra_unicorn.Engine.{Bytes, page_at, Aligned, Engine, EngineLaws}
use ghidra_unicorn.Timeline.{
  Checkpoint, Timeline, folded, fold_over, nbytes, nbytes_of, enforce_budget, taken, has,
  read_pages, region_le,
}
use ghidra_unicorn.Timeline.Images.{icount-folded, fold_over-Ascending, IsPages, Ascending}
use ghidra_unicorn.Timeline.Reading.{lookup-read_pages, read_pages-IsPages}

module _ (e : Engine) where
  open e use {Machine, Context, context_save}

  -- The newest snapshot of all.
  unfoldable pub latest : Checkpoint Context → List (Checkpoint Context) → Checkpoint Context
  latest base [] = base
  latest base (cp ∷ cps) = latest (folded e base cp) cps

  pub latest-append :
      (base c : Checkpoint Context) (cps : List (Checkpoint Context))
      → latest base (cps ++ c ∷ []) ≡ folded e (latest base cps) c
  unfolding latest
  latest-append base c [] = refl
  latest-append base c (cp ∷ cps) = latest-append (folded e base cp) c cps

  latest-fold_over :
      (budget total : ℕ) (base : Checkpoint Context) (cps : List (Checkpoint Context))
      → latest (fold_over e budget total base cps).0 (fold_over e budget total base cps).1
        ≡ latest base cps
  unfolding latest fold_over
  latest-fold_over budget total base [] = refl
  latest-fold_over budget total base (cp ∷ cps) = elim (Bool-cases (ltb budget total)) [
    | inl p ↦ rw p (latest-fold_over budget (total - nbytes_of e cp) (folded e base cp) cps)
    | inr p ↦ rw p refl
  ]

  latest-icount :
      (x y : Checkpoint Context) (cps : List (Checkpoint Context))
      → x.icount ≡ y.icount
      → (latest x cps).icount ≡ (latest y cps).icount
  unfolding latest
  latest-icount x y [] p = p
  latest-icount x y (cp ∷ cps) p =
      latest-icount (folded e x cp) (folded e y cp) cps
        (icount-folded e x cp ∙ sym (icount-folded e y cp))

  latest-cons :
      (base cp : Checkpoint Context) (cps : List (Checkpoint Context))
      → (latest base (cp ∷ cps)).icount ≡ (latest (folded e base cp) cps).icount
  unfolding latest
  latest-cons base cp cps = refl

  Ascending-append :
      (base c : Checkpoint Context) (cps : List (Checkpoint Context))
      → Ascending e base cps
      → (latest base cps).icount ≤ c.icount
      → IsPages c.pages
      → Ascending e base (cps ++ c ∷ [])
  Ascending-append base c [] h l p = (h, unfold latest in l, p)
  Ascending-append base c (cp ∷ cps) h l p = (
    h.0,
    h.1,
    Ascending-append cp c cps h.2
        (omega (
          arith,
          latest-cons base cp cps,
          latest-icount cp (folded e base cp) cps (sym (icount-folded e base cp)),
          l,
        ))
        p,
  )

  -- The checkpoint that `taken` adds to a base.
  unfoldable pub delta : Timeline Context → Machine → Checkpoint Context
  delta t m = record {
    icount = t.icount;
    context = context_save m;
    pages = read_pages e m t.dirty;
    regions = some (sort region_le (e.regions m));
  }

  pub taken-some :
      (t : Timeline Context) (m : Machine) (b : Checkpoint Context)
      → t.base ≡ some b
      → ((taken e t m).base ≡ some b)
        × ((taken e t m).checkpoints ≡ t.checkpoints ++ delta t m ∷ [])
        × ((taken e t m).dirty ≡ [])
        × ((taken e t m).icount ≡ t.icount)
        × ((taken e t m).enabled ≡ t.enabled)
  unfolding taken delta
  taken-some t m b p = (ground arith, ground arith, ground arith, ground arith, ground arith)

  unfoldable pub kept :
      Timeline Context → Checkpoint Context → Checkpoint Context × List (Checkpoint Context) × ℕ
  kept t b = fold_over e t.budget (nbytes e t.checkpoints) b t.checkpoints

  latest-kept :
      (t : Timeline Context) (b : Checkpoint Context)
      → latest (kept t b).0 (kept t b).1 ≡ latest b t.checkpoints
  unfolding kept
  latest-kept t b = latest-fold_over t.budget (nbytes e t.checkpoints) b t.checkpoints

  pub enforce_some :
      (t : Timeline Context) (b : Checkpoint Context)
      → t.base ≡ some b
      → ((enforce_budget e t).0.base ≡ some (kept t b).0)
        × ((enforce_budget e t).0.checkpoints ≡ (kept t b).1)
        × ((enforce_budget e t).0.dirty ≡ t.dirty)
        × ((enforce_budget e t).0.icount ≡ t.icount)
        × ((enforce_budget e t).0.enabled ≡ t.enabled)
  unfolding enforce_budget kept
  enforce_some t b p = (ground arith, ground arith, ground arith, ground arith, ground arith)

  -- The base and the deltas show what the machine holds in every mapped page that is not dirty.
  pub record Faithful (t : Timeline Context) (m : Machine) (b : Checkpoint Context) : Type 0 where
    pub recorded : t.base ≡ some b
    pub ascending : Ascending e b t.checkpoints
    pub before : (latest b t.checkpoints).icount ≤ t.icount
    pub dirty_aligned : All Aligned t.dirty
    pub current :
        (q : ℕ) (d : Bytes)
        → Aligned q
        → has q t.dirty ≡ false
        → page_at e m q ≡ some d
        → lookup q (latest b t.checkpoints).pages ≡ some d

  module _ (laws : EngineLaws e) where
    pub pages-latest-delta :
        (t : Timeline Context) (m : Machine) (b : Checkpoint Context) (q : ℕ) (d : Bytes)
        → Faithful t m b
        → Aligned q
        → page_at e m q ≡ some d
        → lookup q (folded e (latest b t.checkpoints) (delta t m)).pages ≡ some d
    unfolding folded delta
    pages-latest-delta t m b q d f aq p =
        let pages = read_pages-IsPages e laws m t.dirty f.dirty_aligned in
        lookup-update q (latest b t.checkpoints).pages (read_pages e m t.dirty) pages.0
        ∙ rw lookup-read_pages (elim (Bool-cases (has q t.dirty)) [
          | inl h ↦ rw (h, p) refl
          | inr h ↦ rw h (f.current q d aq h p)
        ])

    pub taken-Faithful :
        (t : Timeline Context) (m : Machine) (b : Checkpoint Context)
        → Faithful t m b
        → Faithful (taken e t m) m b
    taken-Faithful t m b f =
        let (pb, pc, pd, pi, pe) = taken-some t m b f.recorded in
        let pl = ap (latest b) pc ∙ latest-append b (delta t m) t.checkpoints in
        record {
          recorded = pb;
          ascending = rw pc (
              Ascending-append b (delta t m) t.checkpoints f.ascending (unfold delta in f.before)
                (unfold delta in read_pages-IsPages e laws m t.dirty f.dirty_aligned));
          before = rw (pl, pi, icount-folded) (unfold delta in omega arith);
          dirty_aligned = rw pd tt;
          current = λ q d aq h p. rw pl (pages-latest-delta t m b q d f aq p);
        }

    pub enforce-Faithful :
        (t : Timeline Context) (m : Machine) (b : Checkpoint Context)
        → Faithful t m b
        → Faithful (enforce_budget e t).0 m (kept t b).0
    enforce-Faithful t m b f =
        let (pb, pc, pd, pi, pe) = enforce_some t b f.recorded in
        let pl = ap (latest (kept t b).0) pc ∙ latest-kept t b in
        record {
          recorded = pb;
          ascending = rw pc (
              unfold kept in
              fold_over-Ascending e t.budget (nbytes e t.checkpoints) b t.checkpoints f.ascending);
          before = rw (pl, pi) f.before;
          dirty_aligned = rw pd f.dirty_aligned;
          current = λ q d aq h p. rw pl (f.current q d aq (rw pd at h) p);
        }
