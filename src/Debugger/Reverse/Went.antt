-- ===== src/Debugger/Reverse/Went.antt =====
-- Where a reverse operation leaves the session.
use ghidra_unicorn.Prelude.{
  nat_eq, ℕ, zero, suc, ◌≤◌, ◌≡◌, refl, ◌∙◌, ap, subst, Bool, true, false, not, ◌&&◌, Option, none,
  some, List, [], ◌∷◌, String, ltb, lookup, some_inj, leb→le, arith,
}
use ghidra_unicorn.Timeline.{Checkpoint, earliest, restore, truncate, advance_to}
use ghidra_unicorn.Debugger.{Host, Session, Breakpoint, truncate_layers}
use ghidra_unicorn.Debugger.Hits.{undo, undo_hits}
use ghidra_unicorn.Debugger.Hits.Undone.{SameCounts, trans-SameCounts, insert-SameCounts, tally}
use ghidra_unicorn.Debugger.Hook.{resynced, resync_from, resync_register_watches, reread}
use ghidra_unicorn.Debugger.Hook.Calls.{Calls}
use ghidra_unicorn.Debugger.Hook.Silence.{Calls-lasting}
use ghidra_unicorn.Debugger.Run.{Runner, start_pc}
use ghidra_unicorn.Debugger.Run.Emulated.{HooksOnly}
use ghidra_unicorn.Debugger.Reverse.{
  check_bounds, replayed, settle, settled, resynced_from, restore_state, replay_forward, go_from,
  go_if, go,
}

-- The session at instruction `k`, from the session that went back.
pub record WentTo {h : Host} (k : ℕ) (s s' : Session h) : Type 0 where
  pub icount : s'.timeline.icount ≡ k
  pub base : s'.timeline.base ≡ s.timeline.base
  pub stop : s'.stop ≡ none
  pub pending : s'.pending ≡ none
  pub over : s'.terminated ≡ (not (ltb k s.timeline.icount) && s.terminated)
  pub layers : s'.layers ≡ truncate_layers k s.layers
  pub hits : s'.hits ≡ (undo_hits k s).hits
  pub counts : SameCounts s'.breakpoints (undo_hits k s).breakpoints

-- What a replay keeps, of what the rest of the operation looks at.
record Replayed {h : Host} (s s' : Session h) : Type 0 where
  base : s'.timeline.base ≡ s.timeline.base
  over : s'.terminated ≡ s.terminated
  layers : s'.layers ≡ s.layers
  hits : s'.hits ≡ s.hits
  breakpoints : s'.breakpoints ≡ s.breakpoints

-- Only the register that a watch saw last differs.
record Reread {h : Host} (s s' : Session h) : Type 0 where
  eq : s' ≡ record s { breakpoints = s'.breakpoints }
  counts : SameCounts s'.breakpoints s.breakpoints

third : (a b c d : Bool) → (a && b && c && d) ≡ true → c ≡ true
third a b c d p = ground arith

-- What `_check_bounds` lets through is not before the history.
pub earliest-check_bounds :
    {h : Host} (k : ℕ) (s : Session h) → check_bounds k s ≡ true → earliest h.engine s.timeline ≤ k
unfolding check_bounds
earliest-check_bounds {h = h} k s p =
    leb→le (earliest h.engine s.timeline) k (third s.timeline.enabled _ _ _ p)

module _ {h : Host} where
  resynced-Reread :
      (m : h.engine.Machine) (num : ℕ) (o : Option (Breakpoint h.Code)) (s : Session h)
      → lookup num s.breakpoints ≡ o
      → Reread s (resynced m num o s)
  resynced-Reread m num none s p = record { eq = refl; counts = record { counts = λ n. refl } }
  resynced-Reread m num (some bp) s p = record {
    eq = refl;
    counts =
        insert-SameCounts num (record bp { previous = reread h m bp.register }) s.breakpoints
          (ap tally p);
  }

  resync_from-Reread :
      (m : h.engine.Machine) (nums : List ℕ) (s : Session h) → Reread s (resync_from m nums s)
  unfolding resync_from
  resync_from-Reread m [] s = record { eq = refl; counts = record { counts = λ n. refl } }
  resync_from-Reread m (num ∷ nums) s =
      let one = resynced-Reread m num (lookup num s.breakpoints) s refl in
      let first = resynced m num (lookup num s.breakpoints) s in
      let rest = resync_from-Reread m nums first in
      record {
        eq =
            rest.eq
            ∙ ap {A = Session h}
                (λ x. record x { breakpoints = (resync_from m nums first).breakpoints }) one.eq;
        counts = trans-SameCounts rest.counts one.counts;
      }

  settle-WentTo :
      (k : ℕ) (m : h.engine.Machine) (s s' : Session h)
      → Replayed s s'
      → WentTo k s (settle k s.timeline.icount m s')
  unfolding settle resync_register_watches undo_hits advance_to
  settle-WentTo k m s s' same =
      let middle = undo_hits k (record s' {
        timeline = advance_to h.engine s'.timeline k;
        stop = none;
        pending = none;
        terminated = not (ltb k s.timeline.icount) && s'.terminated;
        layers = truncate_layers k s'.layers;
      }) in
      let last = resync_from-Reread m middle.reg_watches middle in
      record {
        icount = ap {A = Session h} (λ x. x.timeline.icount) last.eq;
        base = ap {A = Session h} (λ x. x.timeline.base) last.eq ∙ same.base;
        stop = ap {A = Session h} (λ x. x.stop) last.eq;
        pending = ap {A = Session h} (λ x. x.pending) last.eq;
        over =
            ap {A = Session h} (λ x. x.terminated) last.eq
            ∙ ap (λ t. not (ltb k s.timeline.icount) && t) same.over;
        layers = ap {A = Session h} (λ x. x.layers) last.eq ∙ ap (truncate_layers k) same.layers;
        hits =
            ap {A = Session h} (λ x. x.hits) last.eq
            ∙ (λ i. (undo k (same.hits i) (same.breakpoints i)).0);
        counts =
            subst (λ d. SameCounts (resync_from m middle.reg_watches middle).breakpoints d)
              (λ i. (undo k (same.hits i) (same.breakpoints i)).1) last.counts;
      }

  replayed-Replayed :
      (s started : Session h) (out : Option String × h.engine.Machine × Session h) (s' : Session h)
      (m' : h.engine.Machine) (pcs : List ℕ)
      → Replayed s started
      → started.replaying ≡ true
      → Calls started out.2
      → replayed out ≡ some (s', m', pcs)
      → Replayed s s'
  replayed-Replayed s started (some raised, m, done) s' m' pcs w on run p = absurd (cc)
  replayed-Replayed s started (none, m, done) s' m' pcs w on run p =
      let same = Calls-lasting started done on run in
      subst (λ x. Replayed s x.0) (some_inj p)
        (record {
          base = ap {A = Session h} (λ x. x.timeline.base) same ∙ w.base;
          over = ap {A = Session h} (λ x. x.terminated) same ∙ w.over;
          layers = ap {A = Session h} (λ x. x.layers) same ∙ w.layers;
          hits = ap {A = Session h} (λ x. x.hits) same ∙ w.hits;
          breakpoints = ap {A = Session h} (λ x. x.breakpoints) same ∙ w.breakpoints;
        })

  settled-WentTo :
      (k : ℕ) (s : Session h) (o : Option (Session h × h.engine.Machine × List ℕ)) (s' : Session h)
      (m' : h.engine.Machine)
      → ((s1 : Session h) (m1 : h.engine.Machine) (pcs : List ℕ)
          → o ≡ some (s1, m1, pcs)
          → Replayed s s1)
      → settled k s.timeline.icount o ≡ some (s', m')
      → WentTo k s s'
  settled-WentTo k s none s' m' same p = absurd (cc)
  settled-WentTo k s (some (s1, m1, pcs)) s' m' same p =
      subst (λ x. WentTo k s x.0) (some_inj p) (settle-WentTo k m1 s s1 (same s1 m1 pcs refl))

module _ {h : Host} (r : Runner h) (only : HooksOnly r) where
  replay_forward-Replayed :
      (n : ℕ) (m m' : h.engine.Machine) (s s1 s' : Session h) (pcs : List ℕ)
      → Replayed s s1
      → replay_forward r n none m s1 ≡ some (s', m', pcs)
      → Replayed s s'
  unfolding replay_forward
  replay_forward-Replayed zero m m' s s1 s' pcs w p = subst (λ x. Replayed s x.0) (some_inj p) w
  replay_forward-Replayed (suc n) m m' s s1 s' pcs w p =
      let started : Session h = record s1 { replaying = true; trace = none; left = some (suc n) } in
      replayed-Replayed s started (r.emu_start m started (start_pc r m) 0 (suc n)) s' m' pcs
        (record {
          base = w.base;
          over = w.over;
          layers = w.layers;
          hits = w.hits;
          breakpoints = w.breakpoints;
        })
        refl (only.calls m started (start_pc r m) 0 (suc n)) p

  go_from-WentTo :
      (k : ℕ) (s : Session h) (o : Option (Checkpoint h.engine.Context × h.engine.Machine))
      (s' : Session h) (m' : h.engine.Machine)
      → go_from r k s.timeline.icount (resynced_from r o s) ≡ some (s', m')
      → WentTo k s s'
  unfolding truncate
  go_from-WentTo k s none s' m' p = absurd (cc)
  go_from-WentTo k s (some (cp, m)) s' m' p =
      settled-WentTo k s _ s' m'
        (λ s1 m1 pcs.
          replay_forward-Replayed _ _ m1 s _ s1 pcs
            (record { base = refl; over = refl; layers = refl; hits = refl; breakpoints = refl }))
        p

  go_if-WentTo :
      (ok : Bool) (k : ℕ) (m m' : h.engine.Machine) (s s' : Session h)
      → go_if r ok k m s ≡ some (s', m')
      → (ok ≡ true) × WentTo k s s'
  unfolding restore_state
  go_if-WentTo false k m m' s s' p = absurd (cc)
  go_if-WentTo true k m m' s s' p =
      (refl, go_from-WentTo k s (restore h.engine s.timeline m k) s' m' p)

-- However the engine calls the hooks in the replay, going back to `k` is possible only within the
-- recorded history and leaves the session at instruction `k`: nothing is pending, hits and counts are
-- undone down to `k`, the layers are cut at `k`, and the program has ended only if it had before and `k`
-- is the instruction it stood at.
pub go-WentTo :
    {h : Host} (r : Runner h) (k : ℕ) (m m' : h.engine.Machine) (s s' : Session h)
    → HooksOnly r
    → go r k m s ≡ some (s', m')
    → (check_bounds k s ≡ true) × WentTo k s s'
unfolding go
go-WentTo r k m m' s s' only p = go_if-WentTo r only (check_bounds k s) k m m' s s' p
