-- ===== src/Timeline/Rewind.antt =====
-- The promise of the history: going back to an instruction at which a checkpoint was taken gives the
-- memory and the registers of that instruction, whatever ran and was written since.
use ghidra_unicorn.Prelude.{
  nat_eq, ℕ, ◌+◌, ◌-◌, ◌≤◌, ◌<◌, ◌≡◌, refl, sym, ◌∙◌, ap, subst, true, false, ◌&&◌, some, List, [],
  ◌∷◌, ◌++◌, arith, ltb, leb, length, lookup, Bool-cases, inl, inr, ◌⊎◌,
}
use ghidra_unicorn.Engine.{Bytes, page, page_at, Aligned, Engine, EngineLaws}
use ghidra_unicorn.Timeline.{
  Checkpoint, Timeline, folded, fold_over, nbytes, nbytes_of, enforce_budget, taken, checkpoint,
  has, touch, note_instruction, note_write, note_external_write, restore, best_from, wanted_regions,
  sync_regions,
}
use ghidra_unicorn.Timeline.Images.{Ascending, Ascending-folded, upto, upto_step, icount-folded}
use ghidra_unicorn.Timeline.Touch.{has-touch, touch-Aligned}
use ghidra_unicorn.Timeline.Restore.{restore-upto}
use ghidra_unicorn.Timeline.Exact.{
  latest, delta, kept, taken-some, enforce_some, Faithful, taken-Faithful, enforce-Faithful,
  pages-latest-delta, latest-append,
}

module _ (e : Engine) where
  open e use {Machine, Context, context_save, mem_write}

  -- What can happen to a machine and its history: an instruction begins; it changes registers alone,
  -- or writes memory; the debugger writes memory.
  pub data Run (t : Timeline Context) (m : Machine) : Timeline Context → Machine → Type 0 where
    here : Run t m t m
    ran :
        {t' : Timeline Context} {m' : Machine}
        → Run t m t' m'
        → Run t m (note_instruction e t' m').0 m'
    computed :
        {t' : Timeline Context} {m' : Machine} (m'' : Machine)
        → Run t m t' m'
        → ((q : ℕ) → Aligned q → page_at e m'' q ≡ page_at e m' q)
        → Run t m t' m''
    wrote :
        {t' : Timeline Context} {m' : Machine} (a : ℕ) (d : Bytes) (m'' : Machine)
        → Run t m t' m'
        → mem_write m' a d ≡ some m''
        → Run t m (note_write e t' a (length d)) m''
    edited :
        {t' : Timeline Context} {m' : Machine} (a : ℕ) (d : Bytes) (m'' : Machine)
        → Run t m t' m'
        → mem_write m' a d ≡ some m''
        → Run t m (note_external_write e t' m'' a (length d)).0 m''

  -- The snapshot of instruction `k` is still held, unless the history no longer reaches it.
  record Holds (k : ℕ) (m : Machine) (t : Timeline Context) (b : Checkpoint Context) : Type 0 where
    snapshot :
        b.icount ≤ k
        → ((upto e k b t.checkpoints).icount ≡ k)
          × ((upto e k b t.checkpoints).context ≡ context_save m)
          × ((q : ℕ) (d : Bytes)
              → Aligned q
              → page_at e m q ≡ some d
              → lookup q (upto e k b t.checkpoints).pages ≡ some d)

  upto-append :
      (k : ℕ) (b c : Checkpoint Context) (cps : List (Checkpoint Context))
      → k < c.icount
      → upto e k b (cps ++ c ∷ []) ≡ upto e k b cps
  unfolding upto
  upto-append k b c [] l = ground arith
  upto-append k b c (cp ∷ cps) l = elim (Bool-cases (ltb k cp.icount)) [
    | inl p ↦ rw p refl
    | inr p ↦ rw p (upto-append k (folded e b cp) c cps l)
  ]

  icount-fold_over :
      (budget total : ℕ) (base : Checkpoint Context) (cps : List (Checkpoint Context))
      → Ascending e base cps
      → base.icount ≤ (fold_over e budget total base cps).0.icount
  unfolding fold_over
  icount-fold_over budget total base [] h = omega arith
  icount-fold_over budget total base (cp ∷ cps) h = elim (Bool-cases (ltb budget total)) [
    | inl p ↦ rw p (
        omega (
          arith,
          icount-fold_over budget (total - nbytes_of e cp) (folded e base cp) cps
              (Ascending-folded e base cp cps h),
          icount-folded e base cp,
          h.1,
        ))
    | inr p ↦ rw p (omega arith)
  ]

  fold_pop :
      (budget total : ℕ) (base cp : Checkpoint Context) (cps : List (Checkpoint Context))
      → ltb budget total ≡ true
      → let F = fold_over e budget (total - nbytes_of e cp) (folded e base cp) cps in
        ((fold_over e budget total base (cp ∷ cps)).0 ≡ F.0)
        × ((fold_over e budget total base (cp ∷ cps)).1 ≡ F.1)
  unfolding fold_over
  fold_pop budget total base cp cps p = rw p (refl, refl)

  fold_stop :
      (budget total : ℕ) (base cp : Checkpoint Context) (cps : List (Checkpoint Context))
      → ltb budget total ≡ false
      → ((fold_over e budget total base (cp ∷ cps)).0 ≡ base)
        × ((fold_over e budget total base (cp ∷ cps)).1 ≡ cp ∷ cps)
  unfolding fold_over
  fold_stop budget total base cp cps p = rw p (refl, refl)

  upto-fold_over :
      (k budget total : ℕ) (base : Checkpoint Context) (cps : List (Checkpoint Context))
      → Ascending e base cps
      → (fold_over e budget total base cps).0.icount ≤ k
      → upto e k (fold_over e budget total base cps).0 (fold_over e budget total base cps).1
        ≡ upto e k base cps
  upto-fold_over k budget total base [] h l = unfold fold_over in refl
  upto-fold_over k budget total base (cp ∷ cps) h l = elim (Bool-cases (ltb budget total)) [
    | inl p ↦
        let (p0, p1) = fold_pop budget total base cp cps p in
        let up = Ascending-folded e base cp cps h in
        let grows = icount-fold_over budget (total - nbytes_of e cp) (folded e base cp) cps up in
        let reached = ap (λ (x : Checkpoint Context). x.icount) p0 in
        rw (p0, p1, upto_step e k base cp cps (omega (arith, icount-folded e base cp)))
          (upto-fold_over k budget (total - nbytes_of e cp) (folded e base cp) cps up (omega arith))
    | inr p ↦ let (p0, p1) = fold_stop budget total base cp cps p in rw (p0, p1) refl
  ]

  taken-Holds :
      (k : ℕ) (m m' : Machine) (t : Timeline Context) (b : Checkpoint Context)
      → t.base ≡ some b
      → k < t.icount
      → Holds k m t b
      → Holds k m (taken e t m') b
  taken-Holds k m m' t b p l h =
      let (pb, pc, pd, pi, pe) = taken-some e t m' b p in
      let same : upto e k b (taken e t m').checkpoints ≡ upto e k b t.checkpoints =
        ap (upto e k b) pc ∙ upto-append k b (delta e t m') t.checkpoints (unfold delta in l) in
      record { snapshot = λ r. rw same (h.snapshot r) }

  enforce-Holds :
      (k : ℕ) (m : Machine) (t : Timeline Context) (b : Checkpoint Context)
      → t.base ≡ some b
      → Ascending e b t.checkpoints
      → Holds k m t b
      → Holds k m (enforce_budget e t).0 (kept e t b).0
  enforce-Holds k m t b p up h =
      let (pb, pc, pd, pi, pe) = enforce_some e t b p in
      record {
        snapshot = λ r.
            let same : upto e k (kept e t b).0 (kept e t b).1 ≡ upto e k b t.checkpoints =
              unfold kept in
              upto-fold_over k t.budget (nbytes e t.checkpoints) b t.checkpoints up r in
            let grows : b.icount ≤ (kept e t b).0.icount =
              unfold kept in
              icount-fold_over t.budget (nbytes e t.checkpoints) b t.checkpoints up in
            rw (pc, same) (h.snapshot (omega arith));
      }

-- A page that a write leaves clean was clean, and none of its bytes are written.
clean_parts :
    (a n q : ℕ) (dirty : List ℕ)
    → Aligned q
    → has q (touch a n dirty) ≡ false
    → ((q + page ≤ a) ⊎ (a + n ≤ q)) × (has q dirty ≡ false)
clean_parts a n q dirty aq clean =
    let t = sym (has-touch a n q dirty aq) ∙ clean in
    (
      elim (Bool-cases (ltb a (q + page))) [
        | inl p ↦ inr (ground arith)
        | inr p ↦ inl (ground arith)
      ],
      ground arith,
    )

module _ (e : Engine) (laws : EngineLaws e) where
  open e use {Machine, Context, context_save, mem_write}

  -- What a run keeps, from the checkpoint of instruction `k` on.
  record Keeps (k : ℕ) (m : Machine) (t' : Timeline Context) (m' : Machine) : Type 0 where
    b : Checkpoint Context
    enabled : t'.enabled ≡ true
    later : k < t'.icount
    faithful : Faithful e t' m' b
    holds : Holds e k m t' b

  checkpoint-Keeps :
      (k : ℕ) (m m' : Machine) (t : Timeline Context)
      → Keeps k m t m'
      → Keeps k m (checkpoint e t m').0 m'
  unfolding checkpoint
  checkpoint-Keeps k m m' t s =
      let f = taken-Faithful e laws t m' s.b s.faithful in
      let on = taken-some e t m' s.b s.faithful.recorded in
      let on' = enforce_some e (taken e t m') s.b f.recorded in
      record {
        b = (kept e (taken e t m') s.b).0;
        enabled = on'.4 ∙ on.4 ∙ s.enabled;
        later =
            let l = s.later in
            let (_, _, _, i, _) = on in let (_, _, _, i', _) = on' in omega arith;
        faithful = enforce-Faithful e laws (taken e t m') m' s.b f;
        holds =
            enforce-Holds e k m (taken e t m') s.b f.recorded f.ascending
              (taken-Holds e k m m' t s.b s.faithful.recorded s.later s.holds);
      }

  count-Keeps :
      (k n : ℕ) (m m' : Machine) (t : Timeline Context)
      → Keeps k m t m'
      → t.icount ≤ n
      → Keeps k m (record t { icount = n }) m'
  count-Keeps k n m m' t s l = record {
    b = s.b;
    enabled = s.enabled;
    later = let a = s.later in omega arith;
    faithful =
        let f = s.faithful in
        record {
          recorded = f.recorded;
          ascending = f.ascending;
          before = let a = f.before in omega arith;
          dirty_aligned = f.dirty_aligned;
          current = f.current;
        };
    holds = let h = s.holds in record { snapshot = h.snapshot };
  }

  note_instruction-Keeps :
      (k : ℕ) (m m' : Machine) (t : Timeline Context)
      → Keeps k m t m'
      → Keeps k m (note_instruction e t m').0 m'
  unfolding note_instruction
  note_instruction-Keeps k m m' t s = elim (Bool-cases (t.enabled && leb t.next t.icount)) [
    | inl p ↦
        rw p
          (count-Keeps k _ m m' (checkpoint e t m').0 (checkpoint-Keeps k m m' t s) (omega arith))
    | inr p ↦ rw p (count-Keeps k _ m m' t s (omega arith))
  ]

  note_write-eq :
      (t : Timeline Context) (a n : ℕ)
      → t.enabled ≡ true
      → note_write e t a n ≡ record t { dirty = touch a n t.dirty }
  unfolding note_write
  note_write-eq t a n p = ground arith

  dirtied-Keeps :
      (k a : ℕ) (d : Bytes) (m m' m'' : Machine) (t : Timeline Context)
      → Keeps k m t m'
      → mem_write m' a d ≡ some m''
      → Keeps k m (record t { dirty = touch a (length d) t.dirty }) m''
  dirtied-Keeps k a d m m' m'' t s w = record {
    b = s.b;
    enabled = s.enabled;
    later = s.later;
    faithful =
        let f = s.faithful in
        record {
          recorded = f.recorded;
          ascending = f.ascending;
          before = f.before;
          dirty_aligned = touch-Aligned a (length d) t.dirty f.dirty_aligned;
          current = λ q x aq clean p.
              let clear = clean_parts a (length d) q t.dirty aq clean in
              f.current q x aq clear.1 (sym (laws.write_apart m' a q d m'' w aq clear.0) ∙ p);
        };
    holds = let h = s.holds in record { snapshot = h.snapshot };
  }

  note_write-Keeps :
      (k a : ℕ) (d : Bytes) (m m' m'' : Machine) (t : Timeline Context)
      → Keeps k m t m'
      → mem_write m' a d ≡ some m''
      → Keeps k m (note_write e t a (length d)) m''
  note_write-Keeps k a d m m' m'' t s w =
      rw (note_write-eq t a (length d) s.enabled) (dirtied-Keeps k a d m m' m'' t s w)

  note_external_write-Keeps :
      (k a : ℕ) (d : Bytes) (m m' m'' : Machine) (t : Timeline Context)
      → Keeps k m t m'
      → mem_write m' a d ≡ some m''
      → Keeps k m (note_external_write e t m'' a (length d)).0 m''
  unfolding note_external_write
  note_external_write-Keeps k a d m m' m'' t s w =
      let next =
        checkpoint-Keeps k m m'' (note_write e t a (length d))
          (note_write-Keeps k a d m m' m'' t s w) in
      simp (s.enabled, s.faithful.recorded) next

  computed-Keeps :
      (k : ℕ) (m m' m'' : Machine) (t : Timeline Context)
      → Keeps k m t m'
      → ((q : ℕ) → Aligned q → page_at e m'' q ≡ page_at e m' q)
      → Keeps k m t m''
  computed-Keeps k m m' m'' t s same = record {
    b = s.b;
    enabled = s.enabled;
    later = s.later;
    faithful =
        let f = s.faithful in
        record {
          recorded = f.recorded;
          ascending = f.ascending;
          before = f.before;
          dirty_aligned = f.dirty_aligned;
          current = λ q d aq clean p. f.current q d aq clean (sym (same q aq) ∙ p);
        };
    holds = s.holds;
  }

  Run-Keeps :
      {k : ℕ} {m n : Machine} {t t' : Timeline Context} {m' : Machine}
      → Keeps k m t n
      → Run e t n t' m'
      → Keeps k m t' m'
  Run-Keeps s here = s
  Run-Keeps s (ran {t' = t'} {m' = m'} r) = note_instruction-Keeps _ _ m' t' (Run-Keeps s r)
  Run-Keeps s (computed {t' = t'} {m' = m'} m'' r same) =
      computed-Keeps _ _ m' m'' t' (Run-Keeps s r) same
  Run-Keeps s (wrote {t' = t'} {m' = m'} a d m'' r w) =
      note_write-Keeps _ a d _ m' m'' t' (Run-Keeps s r) w
  Run-Keeps s (edited {t' = t'} {m' = m'} a d m'' r w) =
      note_external_write-Keeps _ a d _ m' m'' t' (Run-Keeps s r) w

  upto-latest :
      (k : ℕ) (b : Checkpoint Context) (cps : List (Checkpoint Context))
      → Ascending e b cps
      → (latest e b cps).icount ≤ k
      → (b.icount ≤ k) × (upto e k b cps ≡ latest e b cps)
  unfolding upto latest
  upto-latest k b [] h l = (l, refl)
  upto-latest k b (cp ∷ cps) h l =
      let (r, p) = upto-latest k (folded e b cp) cps (Ascending-folded e b cp cps h) l in
      let c = icount-folded e b cp in
      let stays : ltb k cp.icount ≡ false = ground arith in (omega (arith, h.1), rw stays p)

  delta-icount : (m : Machine) (t : Timeline Context) → (delta e t m).icount ≡ t.icount
  unfolding delta
  delta-icount m t = refl

  context-delta :
      (m : Machine) (t : Timeline Context) (b : Checkpoint Context)
      → (folded e b (delta e t m)).context ≡ context_save m
  unfolding delta folded
  context-delta m t b = refl

  -- The checkpoint just taken is the snapshot of its instruction.
  taken-Snapshot :
      (m : Machine) (t : Timeline Context) (b : Checkpoint Context)
      → Faithful e t m b
      → Holds e t.icount m (taken e t m) b
  taken-Snapshot m t b f =
      let f' = taken-Faithful e laws t m b f in
      let (pb, pc, pd, pi, pe) = taken-some e t m b f.recorded in
      let (_, p) =
        upto-latest t.icount b (taken e t m).checkpoints f'.ascending
          (let l = f'.before in omega arith) in
      let q = p ∙ ap (latest e b) pc ∙ latest-append e b (delta e t m) t.checkpoints in
      record {
        snapshot = λ r. (
          ap (λ (c : Checkpoint Context). c.icount) q
              ∙ icount-folded e (latest e b t.checkpoints) (delta e t m)
              ∙ delta-icount m t,
          ap (λ (c : Checkpoint Context). c.context) q
              ∙ context-delta m t (latest e b t.checkpoints),
          λ a d al x.
              ap (λ (c : Checkpoint Context). lookup a c.pages) q
              ∙ pages-latest-delta e laws t m b a d f al x,
        );
      }

  -- An instruction at which a checkpoint is due begins.
  note_instruction-eq :
      (t : Timeline Context) (m : Machine)
      → t.enabled ≡ true
      → t.next ≤ t.icount
      → (note_instruction e t m).0 ≡ record (enforce_budget e (taken e t m)).0 {
        icount = (enforce_budget e (taken e t m)).0.icount + 1;
      }
  unfolding note_instruction checkpoint
  note_instruction-eq t m on due = ground arith

  begin-Keeps :
      (m : Machine) (t : Timeline Context) (b : Checkpoint Context)
      → t.enabled ≡ true
      → t.next ≤ t.icount
      → Faithful e t m b
      → Keeps t.icount m (note_instruction e t m).0 m
  begin-Keeps m t b on due f =
      let f' = taken-Faithful e laws t m b f in
      let (_, _, _, i, en) = taken-some e t m b f.recorded in
      let (_, _, _, i', en') = enforce_some e (taken e t m) b f'.recorded in
      let g = enforce-Faithful e laws (taken e t m) m b f' in
      let h =
        enforce-Holds e t.icount m (taken e t m) b f'.recorded f'.ascending
          (taken-Snapshot m t b f) in
      rw (note_instruction-eq t m on due) (record {
        b = (kept e (taken e t m) b).0;
        enabled = en' ∙ en ∙ on;
        later = omega arith;
        faithful = record {
          recorded = g.recorded;
          ascending = g.ascending;
          before = let l = g.before in omega arith;
          dirty_aligned = g.dirty_aligned;
          current = g.current;
        };
        holds = record { snapshot = h.snapshot };
      })

  -- A checkpoint was due at instruction `k`, and the history faithful. Whatever ran and was written
  -- since, by the program or through the debugger, as long as the history reaches back to `k` and the
  -- regions are those of then: `restore` comes to instruction `k`, with the registers it had, and every
  -- page that was mapped then, and is now, holds what it held.
  pub restore-Run :
      (m : Machine) (t : Timeline Context) (b : Checkpoint Context) (t' : Timeline Context)
      (m' : Machine) (b' : Checkpoint Context)
      → t.enabled ≡ true
      → t.next ≤ t.icount
      → Faithful e t m b
      → Run e (note_instruction e t m).0 m t' m'
      → t'.base ≡ some b'
      → b'.icount ≤ t.icount
      → sync_regions e t' m' (wanted_regions e b' (best_from e t.icount b' t'.checkpoints)) ≡ m'
      → (cp : Checkpoint Context) × (back : Machine) × (restore e t' m' t.icount ≡ some (cp, back))
        × (cp.icount ≡ t.icount)
        × (context_save back ≡ context_save m)
        × ((q : ℕ) (old new : Bytes)
            → Aligned q
            → page_at e m q ≡ some old
            → page_at e m' q ≡ some new
            → page_at e back q ≡ some old)
  restore-Run m t b t' m' b' on due f r p l same =
      let s = Run-Keeps (begin-Keeps m t b on due f) r in
      let same_base : s.b ≡ b' = cc (sym s.faithful.recorded ∙ p) in
      let up = subst (λ x. Ascending e x t'.checkpoints) same_base s.faithful.ascending in
      let held = (subst (λ x. Holds e t.icount m t' x) same_base s.holds).snapshot l in
      let (cp, back, done, i, c, pages) = restore-upto e laws t' b' m' t.icount p up l same in
      (
        cp,
        back,
        done,
        i ∙ held.0,
        c ∙ held.1,
        λ q old new aq o n. pages q aq ∙ rw (n, held.2 q old aq o) refl,
      )
