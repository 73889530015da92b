-- ===== src/Debugger/Hits/Undone.antt =====
-- Undoing the hits puts the counts back.
use ghidra_unicorn.Prelude.{
  nat_eq, nat_beq_iff, ℕ, ◌+◌, ◌-◌, ◌≤◌, ◌<◌, ◌≡◌, refl, sym, ◌∙◌, ap, subst, ◌⊎◌, inl, inr, Bool,
  true, false, Option, none, some, List, [], ◌∷◌, String, ltb, ◌==◌, if◌then◌else◌, Dict, lookup,
  insert, lookup-insert, arith, All, Bool-cases, lt→ltb,
}
use ghidra_unicorn.Debugger.{Host, Session, Breakpoint, Extra, Hit}
use ghidra_unicorn.Timeline.{Timeline}
use ghidra_unicorn.Debugger.Hits.{
  judge, judged, fired, unfired, unfire, unfire_found, undo, passes, count_hit, triggers, undo_hits,
}

-- The hit count and the ignore count of an entry.
abbrev pub tally : {Code : Type 0} → Option (Breakpoint Code) → Option (ℕ × ℕ)
tally none = none
tally (some bp) = some (bp.hit_count, bp.ignore_count)

abbrev untally : Bool → Option (ℕ × ℕ) → Option (ℕ × ℕ)
untally ignored none = none
untally ignored (some (hits, left)) = some (hits - 1, if ignored then left + 1 else left)

-- The same numbers with the same counts.
pub record SameCounts {Code : Type 0} (d d' : Dict ℕ (Breakpoint Code)) : Type 0 where
  pub counts : (n : ℕ) → tally (lookup n d) ≡ tally (lookup n d')

module _ {Code : Type 0} where
  tally-insert :
      (n m : ℕ) (bp : Breakpoint Code) (d : Dict ℕ (Breakpoint Code))
      → tally (lookup m (insert n bp d)) ≡ (if n == m then tally (some bp) else tally (lookup m d))
  tally-insert n m bp d = elim (Bool-cases (n == m)) [
    | inl q ↦ rw (lookup-insert n m bp d) (rw q refl)
    | inr q ↦ rw (lookup-insert n m bp d) (rw q refl)
  ]

  tally-unfire_found :
      (hit : Hit) (o : Option (Breakpoint Code)) (m : ℕ) (d : Dict ℕ (Breakpoint Code))
      → lookup hit.num d ≡ o
      → tally (lookup m (unfire_found hit o d))
        ≡ (if hit.num == m then untally hit.ignored (tally (lookup m d)) else tally (lookup m d))
  tally-unfire_found hit none m d q = elim (Bool-cases (hit.num == m)) [
    | inl e ↦
        let same : hit.num ≡ m = ground (arith, nat_beq_iff hit.num m) in
        rw e (
          subst (λ x. tally (lookup x d) ≡ untally hit.ignored (tally (lookup x d))) same
            (rw q refl))
    | inr e ↦ rw e refl
  ]
  tally-unfire_found hit (some bp) m d q =
      rw (tally-insert hit.num m (unfired hit.ignored bp) d) (elim (Bool-cases (hit.num == m)) [
        | inl e ↦
            let same : hit.num ≡ m = ground (arith, nat_beq_iff hit.num m) in
            rw e (
              subst
                (λ x.
                  tally (some (unfired hit.ignored bp)) ≡ untally hit.ignored (tally (lookup x d)))
                same (rw q refl))
        | inr e ↦ rw e refl
      ])

  tally-unfire :
      (hit : Hit) (m : ℕ) (d : Dict ℕ (Breakpoint Code))
      → tally (lookup m (unfire hit d))
        ≡ (if hit.num == m then untally hit.ignored (tally (lookup m d)) else tally (lookup m d))
  unfolding unfire
  tally-unfire hit m d = tally-unfire_found hit (lookup hit.num d) m d refl

  unfire-SameCounts :
      (hit : Hit) (d d' : Dict ℕ (Breakpoint Code))
      → SameCounts d d'
      → SameCounts (unfire hit d) (unfire hit d')
  unfire-SameCounts hit d d' c = record {
    counts = λ n. rw (tally-unfire hit n d) (rw (tally-unfire hit n d') (rw (c.counts n) refl));
  }

  pub undo-SameCounts :
      (k : ℕ) (hits : List Hit) (d d' : Dict ℕ (Breakpoint Code))
      → SameCounts d d'
      → ((undo k hits d).0 ≡ (undo k hits d').0) × SameCounts (undo k hits d).1 (undo k hits d').1
  unfolding undo
  undo-SameCounts k [] d d' c = (refl, c)
  undo-SameCounts k (hit ∷ hits) d d' c = elim (Bool-cases (ltb k hit.icount)) [
    | inl q ↦
        rw q (undo-SameCounts k hits (unfire hit d) (unfire hit d') (unfire-SameCounts hit d d' c))
    | inr q ↦ rw q (refl, c)
  ]

  pub trans-SameCounts :
      {d d' d'' : Dict ℕ (Breakpoint Code)} → SameCounts d d' → SameCounts d' d'' → SameCounts d d''
  trans-SameCounts a b = record { counts = λ n. a.counts n ∙ b.counts n }

  unfire-fired :
      (icount : ℕ) (bp : Breakpoint Code) (d : Dict ℕ (Breakpoint Code))
      → tally (lookup bp.num d) ≡ tally (some bp)
      → SameCounts
          (unfire
            (record { icount = icount; num = bp.num; ignored = ltb 0 bp.ignore_count })
            (insert bp.num (fired bp) d))
          d
  unfire-fired icount bp d p = record {
    counts = λ n.
        rw
          (tally-unfire (record { icount = icount; num = bp.num; ignored = ltb 0 bp.ignore_count })
            n (insert bp.num (fired bp) d))
          (rw (tally-insert bp.num n (fired bp) d) (elim (Bool-cases (bp.num == n)) [
            | inl e ↦
                let same : bp.num ≡ n = ground (arith, nat_beq_iff bp.num n) in
                rw e (
                  subst
                    (λ x.
                      untally (ltb 0 bp.ignore_count) (tally (some (fired bp)))
                      ≡ tally (lookup x d))
                    same (rw p (ground arith)))
            | inr e ↦ rw e refl
          ]));
  }

  pub insert-SameCounts :
      (n : ℕ) (bp : Breakpoint Code) (d : Dict ℕ (Breakpoint Code))
      → tally (lookup n d) ≡ tally (some bp)
      → SameCounts (insert n bp d) d
  insert-SameCounts n bp d p = record {
    counts = λ m. rw (tally-insert n m bp d) (elim (Bool-cases (n == m)) [
      | inl e ↦
          let same : n ≡ m = ground (arith, nat_beq_iff n m) in
          rw e (subst (λ x. tally (some bp) ≡ tally (lookup x d)) same (sym p))
      | inr e ↦ rw e refl
    ]);
  }

-- A run: breakpoints fire, at instructions after `k`, and the timeline moves in between.
pub data Fires {h : Host} (k : ℕ) : Session h → Session h → Type 0 where
  done : {s : Session h} → Fires k s s
  moves :
      {s s' : Session h} (t : Timeline h.engine.Context)
      → Fires k s s'
      → Fires k s (record s' { timeline = t })
  fires :
      {s s' : Session h} (m : h.engine.Machine) (extra : Extra) (bp : Breakpoint h.Code)
      → Fires k s s'
      → lookup bp.num s'.breakpoints ≡ some bp
      → k < s'.timeline.icount
      → Fires k s (triggers m extra bp s').0

judged-counts :
    {Code : Type 0} (r : String ⊎ Bool) (bp : Breakpoint Code)
    → ((judged r bp).0.num ≡ bp.num) × (tally (some (judged r bp).0) ≡ tally (some bp))
judged-counts (inl error) bp = (refl, refl)
judged-counts (inr result) bp = (refl, refl)

judge-counts :
    (h : Host) (o : Option h.Code) (m : h.engine.Machine) (icount : ℕ) (extra : Extra)
    (bp : Breakpoint h.Code)
    → ((judge h o m icount extra bp).0.num ≡ bp.num)
      × (tally (some (judge h o m icount extra bp).0) ≡ tally (some bp))
judge-counts h none m icount extra bp = (refl, refl)
judge-counts h (some code) m icount extra bp =
    judged-counts (h.evaluate code m bp.hit_count icount extra) bp

module _ {h : Host} where
  -- Undoing one hit.
  count_hit-undo :
      (k : ℕ) (bp : Breakpoint h.Code) (ok : Bool) (s : Session h)
      → tally (lookup bp.num s.breakpoints) ≡ tally (some bp)
      → k < s.timeline.icount
      → let u = undo k (count_hit bp ok s).0.hits (count_hit bp ok s).0.breakpoints in
        let v = undo k s.hits s.breakpoints in (u.0 ≡ v.0) × SameCounts u.1 v.1
  unfolding undo
  count_hit-undo k bp false s p l =
      undo-SameCounts k s.hits _ _ (insert-SameCounts bp.num bp s.breakpoints p)
  count_hit-undo k bp true s p l =
      rw (lt→ltb k s.timeline.icount l)
        (undo-SameCounts k s.hits _ _ (unfire-fired s.timeline.icount bp s.breakpoints p))

  triggers-undo :
      (k : ℕ) (m : h.engine.Machine) (extra : Extra) (bp : Breakpoint h.Code) (s : Session h)
      → lookup bp.num s.breakpoints ≡ some bp
      → k < s.timeline.icount
      → ((undo_hits k (triggers m extra bp s).0).hits ≡ (undo_hits k s).hits)
        × SameCounts (undo_hits k (triggers m extra bp s).0).breakpoints (undo_hits k s).breakpoints
  unfolding triggers undo_hits passes
  triggers-undo k m extra bp s p l =
      let j = judge h bp.code m s.timeline.icount extra bp in
      let (num, same) = judge-counts h bp.code m s.timeline.icount extra bp in
      count_hit-undo k j.0 j.1 s
        (ap (λ n. tally (lookup n s.breakpoints)) num ∙ ap tally p ∙ sym same) l

  Fires-undo :
      (k : ℕ) (s s' : Session h)
      → Fires k s s'
      → ((undo_hits k s').hits ≡ (undo_hits k s).hits)
        × SameCounts (undo_hits k s').breakpoints (undo_hits k s).breakpoints
  unfolding undo_hits
  Fires-undo k s s' done = (refl, record { counts = λ n. refl })
  Fires-undo k s s' (moves t run) = Fires-undo k s _ run
  Fires-undo k s s' (fires m extra bp run p l) =
      let (hits, counts) = triggers-undo k m extra bp _ p l in
      let (hits', counts') = Fires-undo k s _ run in (hits ∙ hits', trans-SameCounts counts counts')

undo_before :
    {Code : Type 0} (k : ℕ) (hits : List Hit) (d : Dict ℕ (Breakpoint Code))
    → All (λ hit. hit.icount ≤ k) hits
    → undo k hits d ≡ (hits, d)
unfolding undo
undo_before k [] d a = refl
undo_before k (hit ∷ hits) d a = ground (arith, a.0)

-- Breakpoints may fire any number of times after instruction `k`: when no hit before was recorded past
-- `k`, undoing down to `k` leaves the hits as they were and every breakpoint with its old counts.
pub undo_hits-Fires :
    {h : Host} (k : ℕ) (s s' : Session h)
    → All (λ hit. hit.icount ≤ k) s.hits
    → Fires k s s'
    → ((undo_hits k s').hits ≡ s.hits) × SameCounts (undo_hits k s').breakpoints s.breakpoints
unfolding undo_hits
undo_hits-Fires k s s' before run =
    let (hits, counts) = Fires-undo k s s' run in
    let own = undo_before k s.hits s.breakpoints before in
    (
      hits ∙ ap (λ u. u.0) own,
      record { counts = λ n. counts.counts n ∙ ap (λ u. tally (lookup n u.1)) own },
    )
