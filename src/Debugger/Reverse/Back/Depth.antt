-- ===== src/Debugger/Reverse/Back/Depth.antt =====
-- Stepping back over calls makes progress.
use ghidra_unicorn.Prelude.{
  nat_eq, ℕ, zero, suc, ◌+◌, ◌-◌, ◌≤◌, ◌<◌, ◌≡◌, refl, ap, inl, inr, Bool, true, false, Option,
  none, some, List, [], ◌∷◌, ltb, Dict, Bool-cases, Option-cases, some_inj, ltb→lt, arith,
  if◌then◌else◌,
}
use ghidra_unicorn.Engine.{Engine}
use ghidra_unicorn.Timeline.{Timeline, Checkpoint, earliest, best_from, checkpoint_at_or_before}
use ghidra_unicorn.Debugger.{Host, Session}
use ghidra_unicorn.Debugger.Run.{Runner}
use ghidra_unicorn.Debugger.Run.Emulated.{HooksOnly}
use ghidra_unicorn.Debugger.Reverse.{check_bounds}
use ghidra_unicorn.Debugger.Reverse.Went.{go-WentTo, earliest-check_bounds}
use ghidra_unicorn.Debugger.Reverse.Back.{
  Delta, shift, Scan, found, going, missing, nth, depth_delta, look, turn, scan, scanned, searched,
  window, prev_from, prev_over, went_over, over_if, can_step_back, over_times, then_more, Search,
}

-- An instruction that a scan found lies below a bound.
abbrev Below : ℕ → Scan → Type 0
Below n (found j) = j < n
Below n (going rel kinds) = Unit
Below n missing = Unit

module _ {h : Host} (r : Runner h) where
  look-Below :
      (n j rel : ℕ) (kinds : Dict ℕ Delta) (more : ℕ → Dict ℕ Delta → Scan)
      → j < n
      → ((rel' : ℕ) (kinds' : Dict ℕ Delta) → Below n (more rel' kinds'))
      → Below n (look r j rel kinds more)
  look-Below n j zero kinds more l rest = l
  look-Below n j (suc rel) kinds more l rest = rest (suc rel) kinds

  turn-Below :
      (n : ℕ) (m : h.engine.Machine) (j : ℕ) (o : Option ℕ) (rel : ℕ) (kinds : Dict ℕ Delta)
      (more : ℕ → Dict ℕ Delta → Scan)
      → j < n
      → ((rel' : ℕ) (kinds' : Dict ℕ Delta) → Below n (more rel' kinds'))
      → Below n (turn r m j o rel kinds more)
  turn-Below n m j none rel kinds more l rest = tt
  turn-Below n m j (some pc) rel kinds more l rest =
      look-Below n j (shift (depth_delta r m pc kinds).0 rel) (depth_delta r m pc kinds).1 more l
        rest

  scan-Below :
      (n : ℕ) (m : h.engine.Machine) (lo : ℕ) (pcs : List ℕ) (count rel : ℕ) (kinds : Dict ℕ Delta)
      → lo + count ≤ n
      → Below n (scan r m lo pcs count rel kinds)
  unfolding scan
  scan-Below n m lo pcs zero rel kinds l = tt
  scan-Below n m lo pcs (suc count) rel kinds l =
      turn-Below n m (lo + count) (nth count pcs) rel kinds (scan r m lo pcs count)
        (omega (arith, l))
        (λ rel' kinds'. scan-Below n m lo pcs count rel' kinds' (omega (arith, l)))

-- What a search returns lies below a bound.
abbrev Ends : {h : Host} (r : Runner h) (n : ℕ) (o : Search r) → Type 0
Ends r n none = Unit
Ends r n (some (j, m, s)) = j < n

not_true : false ≡ true → ⊥
not_true p = cc

-- With something behind it, the oldest instruction of the history is before the current one.
oldest_before :
    {h : Host} (s : Session h)
    → (if ltb 0 s.timeline.icount then check_bounds (s.timeline.icount - 1) s else false) ≡ true
    → earliest h.engine s.timeline < s.timeline.icount
oldest_before s p = elim (Bool-cases (ltb 0 s.timeline.icount)) [
  | inl q ↦ omega (
    arith,
    ltb→lt 0 s.timeline.icount q,
    earliest-check_bounds (s.timeline.icount - 1) s (rw q at p),
  )
  | inr q ↦ absurd (not_true (rw q at p))
]

-- A checkpoint that a search uses is not after the instruction it looks for.
abbrev AtMost : {C : Type 0} → ℕ → Option (Checkpoint C) → Type 0
AtMost k none = Unit
AtMost k (some cp) = cp.icount ≤ k

module _ (e : Engine) where
  best_from-le :
      (k : ℕ) (best : Checkpoint e.Context) (cps : List (Checkpoint e.Context))
      → best.icount ≤ k
      → (best_from e k best cps).icount ≤ k
  unfolding best_from
  best_from-le k best [] l = l
  best_from-le k best (cp ∷ cps) l = elim (Bool-cases (ltb k cp.icount)) [
    | inl q ↦ rw q l
    | inr q ↦ rw q (best_from-le k cp cps (ground arith))
  ]

  checkpoint-AtMost : (k : ℕ) (t : Timeline e.Context) → AtMost k (checkpoint_at_or_before e t k)
  unfolding checkpoint_at_or_before
  checkpoint-AtMost k t = elim (Option-cases t.base) [
    | inl p ↦ rw p tt
    | inr (base, p) ↦ rw p (elim (Bool-cases (ltb k base.icount)) [
      | inl q ↦ rw q tt
      | inr q ↦ rw q (best_from-le k base t.checkpoints (ground arith))
    ])
  ]

module _ {h : Host} (r : Runner h) where
  scanned-Ends :
      (n : ℕ) (m : h.engine.Machine) (s : Session h) (found_in : Scan)
      (more : ℕ → Dict ℕ Delta → Search r)
      → Below n found_in
      → ((rel : ℕ) (kinds : Dict ℕ Delta) → Ends r n (more rel kinds))
      → Ends r n (scanned r m s found_in more)
  scanned-Ends n m s (found j) more l rest = l
  scanned-Ends n m s (going rel kinds) more l rest = rest rel kinds
  scanned-Ends n m s missing more l rest = tt

  searched-Ends :
      (n lo count rel : ℕ) (kinds : Dict ℕ Delta)
      (o : Option (Session h × h.engine.Machine × List ℕ))
      (more : h.engine.Machine → Session h → ℕ → Dict ℕ Delta → Search r)
      → lo + count ≤ n
      → ((m : h.engine.Machine) (s : Session h) (rel' : ℕ) (kinds' : Dict ℕ Delta)
          → Ends r n (more m s rel' kinds'))
      → Ends r n (searched r lo count rel kinds o more)
  searched-Ends n lo count rel kinds none more l rest = tt
  searched-Ends n lo count rel kinds (some (s, m, pcs)) more l rest =
      scanned-Ends n m s (scan r m lo pcs count rel kinds) (more m s)
        (scan-Below r n m lo pcs count rel kinds l) (rest m s)

  window-Ends :
      (n end : ℕ) (o : Option (Checkpoint h.engine.Context)) (rel : ℕ) (kinds : Dict ℕ Delta)
      (m : h.engine.Machine) (s : Session h)
      (more : ℕ → h.engine.Machine → Session h → ℕ → Dict ℕ Delta → Search r)
      → end ≤ n
      → 0 < end
      → AtMost (end - 1) o
      → ((end' : ℕ) (m' : h.engine.Machine) (s' : Session h) (rel' : ℕ) (kinds' : Dict ℕ Delta)
          → end' ≤ n
          → Ends r n (more end' m' s' rel' kinds'))
      → Ends r n (window r end o rel kinds m s more)
  window-Ends n end none rel kinds m s more l pos at rest = tt
  window-Ends n end (some cp) rel kinds m s more l pos at rest =
      searched-Ends n cp.icount (end - cp.icount) rel kinds _ (more cp.icount) (omega (arith, at))
        (λ m' s' rel' kinds'. rest cp.icount m' s' rel' kinds' (omega (arith, at)))

  prev_from-Ends :
      (n fuel bottom end rel : ℕ) (kinds : Dict ℕ Delta) (m : h.engine.Machine) (s : Session h)
      → bottom < n
      → end ≤ n
      → Ends r n (prev_from r fuel bottom end rel kinds m s)
  unfolding prev_from
  prev_from-Ends n zero bottom end rel kinds m s low l = low
  prev_from-Ends n (suc fuel) bottom end rel kinds m s low l = elim (Bool-cases (ltb bottom end)) [
    | inl q ↦ rw q (
        let under = ltb→lt bottom end q in
        window-Ends n end (checkpoint_at_or_before h.engine s.timeline (end - 1)) rel kinds m s _ l
          (omega (arith, under)) (checkpoint-AtMost h.engine (end - 1) s.timeline)
          (λ end' m' s' rel' kinds' l'. prev_from-Ends n fuel bottom end' rel' kinds' m' s' low l'))
    | inr q ↦ rw q low
  ]

  -- One turn of the loop ends before where it began.
  went_over-less :
      (n : ℕ) (o : Search r) (s' : Session h) (m' : h.engine.Machine)
      → HooksOnly r
      → Ends r n o
      → went_over r o ≡ some (s', m')
      → s'.timeline.icount < n
  went_over-less n none s' m' only l p = absurd (cc)
  went_over-less n (some (k, m, s)) s' m' only l p =
      omega (arith, l, (go-WentTo r k m m' s s' only p).1.icount)

  over_if-less :
      (ok : Bool) (m m' : h.engine.Machine) (s s' : Session h)
      → HooksOnly r
      → can_step_back r s ≡ ok
      → over_if r ok m s ≡ some (s', m')
      → s'.timeline.icount < s.timeline.icount
  unfolding prev_over
  over_if-less false m m' s s' only q p = absurd (cc)
  over_if-less true m m' s s' only q p =
      went_over-less s.timeline.icount (prev_over r m s) s' m' only
        (prev_from-Ends s.timeline.icount s.timeline.icount (earliest h.engine s.timeline)
          s.timeline.icount 0 [] m s (oldest_before s q) (omega arith))
        p

  turns-less :
      (n : ℕ) (o : Option (Session h × h.engine.Machine)) (start : ℕ) (s' : Session h)
      (m' : h.engine.Machine)
      → ((s1 : Session h) (m1 : h.engine.Machine) → o ≡ some (s1, m1) → s1.timeline.icount < start)
      → ((s1 : Session h) (m1 : h.engine.Machine)
          → over_times r n m1 s1 ≡ some (s', m')
          → s'.timeline.icount + n ≤ s1.timeline.icount)
      → then_more r (over_times r n) o ≡ some (s', m')
      → s'.timeline.icount + suc n ≤ start
  turns-less n none start s' m' turn_less rest p = absurd (cc)
  turns-less n (some (s1, m1)) start s' m' turn_less rest p =
      omega (arith, turn_less s1 m1 refl, rest s1 m1 p)

-- However the engine calls the hooks, stepping back over `n` instructions that succeeds goes back by at
-- least `n` of them.
pub over_times-le :
    {h : Host} (r : Runner h) (n : ℕ) (m m' : h.engine.Machine) (s s' : Session h)
    → HooksOnly r
    → over_times r n m s ≡ some (s', m')
    → s'.timeline.icount + n ≤ s.timeline.icount
unfolding over_times
over_times-le {h = h} r zero m m' s s' only p =
    omega (arith, ap {A = Session h × h.engine.Machine} (λ x. x.0.timeline.icount) (some_inj p))
over_times-le r (suc n) m m' s s' only p =
    turns-less r n (over_if r (can_step_back r s) m s) s.timeline.icount s' m'
      (λ s1 m1 q. over_if-less r (can_step_back r s) m m1 s s1 only refl q)
      (λ s1 m1 q. over_times-le r n m1 m' s1 s' only q) p
