-- ===== src/Debugger/Reverse/Search/Newest.antt =====
-- Running backwards goes back.
use ghidra_unicorn.Prelude.{
  nat_eq, ℕ, zero, suc, ◌-◌, ◌<◌, ◌≡◌, refl, subst, inl, inr, Bool, true, false, not, ◌&&◌, ◌||◌,
  Option, none, some, List, [], ◌∷◌, String, ltb, Dict, lookup, Bool-cases, some_inj, ltb→lt, arith,
  if◌then◌else◌,
}
use ghidra_unicorn.Timeline.{Checkpoint, earliest}
use ghidra_unicorn.Debugger.{Host, Session, Breakpoint, StopEvent}
use ghidra_unicorn.Debugger.Hits.{passes, hits_at, hit_unless, recount_found, recount}
use ghidra_unicorn.Debugger.Run.{Runner}
use ghidra_unicorn.Debugger.Run.Emulated.{HooksOnly}
use ghidra_unicorn.Debugger.Reverse.{check_bounds, go}
use ghidra_unicorn.Debugger.Reverse.Went.{go-WentTo, earliest-check_bounds}
use ghidra_unicorn.Debugger.Reverse.Search.{
  Candidate, tried, try_at, tested, with_condition, condition_of, consider, first_that_holds, held,
  or_earlier, search_window, search_from, search, some_points, live_points, any_watched, at_start,
  at_hit, resumed, resume_if, resume_back, Found, Place, backwards, scan_back,
}

-- What a search found lies before an instruction.
abbrev Before : {h : Host} (r : Runner h) (n : ℕ) (o : Found r) → Type 0
Before r n none = Unit
Before r n (some (none, s, m)) = Unit
Before r n (some (some c, s, m)) = c.at < n

module _ {h : Host} (r : Runner h) (n : ℕ) where
  tried-Before :
      (c : Candidate) (num : ℕ) (o : Breakpoint h.Code × Bool) (here : Place r)
      (more : Session h → h.engine.Machine → Found r)
      → c.at < n
      → ((s : Session h) (m : h.engine.Machine) → Before r n (more s m))
      → Before r n (tried r c num o here more)
  tried-Before c num (bp, true) (s, m) more l rest = l
  tried-Before c num (bp, false) (s, m) more l rest = rest _ m

  try_at-Before :
      (c : Candidate) (o : Option (Breakpoint h.Code)) (here : Place r)
      (more : Session h → h.engine.Machine → Found r)
      → c.at < n
      → ((s : Session h) (m : h.engine.Machine) → Before r n (more s m))
      → Before r n (try_at r c o here more)
  try_at-Before c none (s, m) more l rest = rest s m
  try_at-Before c (some bp) (s, m) more l rest =
      tried-Before c c.num (passes h m s.timeline.icount c.extra bp) (s, m) more l rest

  tested-Before :
      (c : Candidate) (o : Option (Place r)) (more : Session h → h.engine.Machine → Found r)
      → c.at < n
      → ((s : Session h) (m : h.engine.Machine) → Before r n (more s m))
      → Before r n (tested r c o more)
  tested-Before c none more l rest = tt
  tested-Before c (some (s, m)) more l rest =
      try_at-Before c (lookup c.num s.breakpoints) (s, m) more l rest

  with_condition-Before :
      (c : Candidate) (o : Option String) (s : Session h) (m : h.engine.Machine)
      (more : Session h → h.engine.Machine → Found r)
      → c.at < n
      → ((s : Session h) (m : h.engine.Machine) → Before r n (more s m))
      → Before r n (with_condition r c o s m more)
  with_condition-Before c none s m more l rest = l
  with_condition-Before c (some text) s m more l rest = tested-Before c (go r c.at m s) more l rest

  consider-Before :
      (t : Bool) (c : Candidate) (s : Session h) (m : h.engine.Machine)
      (more : Session h → h.engine.Machine → Found r)
      → (t ≡ true → c.at < n)
      → ((s : Session h) (m : h.engine.Machine) → Before r n (more s m))
      → Before r n (consider r t c s m more)
  consider-Before false c s m more l rest = rest s m
  consider-Before true c s m more l rest =
      with_condition-Before c (condition_of r (lookup c.num s.breakpoints)) s m more (l refl) rest

and_left : (a b : Bool) → (a && b) ≡ true → a ≡ true
and_left a b p = ground arith

module _ {h : Host} (r : Runner h) where
  first_that_holds-Before :
      (cs : List Candidate) (cur : ℕ) (s : Session h) (m : h.engine.Machine)
      → Before r cur (first_that_holds r cs cur s m)
  unfolding first_that_holds
  first_that_holds-Before [] cur s m = tt
  first_that_holds-Before (c ∷ cs) cur s m =
      consider-Before r cur _ c s m (first_that_holds r cs cur)
        (λ t. ltb→lt c.at cur (and_left (ltb c.at cur) _ t)) (first_that_holds-Before cs cur)

  held-Before :
      (cur : ℕ) (o : Option (List Candidate × Session h × h.engine.Machine))
      → Before r cur (held r cur o)
  held-Before cur none = tt
  held-Before cur (some (cs, s, m)) = first_that_holds-Before (backwards cs []) cur s m

  or_earlier-Before :
      (n : ℕ) (o : Found r) (more : Session h → h.engine.Machine → Found r)
      → Before r n o
      → ((s : Session h) (m : h.engine.Machine) → Before r n (more s m))
      → Before r n (or_earlier r o more)
  or_earlier-Before n none more l rest = tt
  or_earlier-Before n (some (none, s, m)) more l rest = rest s m
  or_earlier-Before n (some (some c, s, m)) more l rest = l

  search_window-Before :
      (cur hi : ℕ) (points : Dict ℕ ℕ) (watching : Bool) (o : Option (Checkpoint h.engine.Context))
      (s : Session h) (m : h.engine.Machine) (more : ℕ → Session h → h.engine.Machine → Found r)
      → ((end : ℕ) (s' : Session h) (m' : h.engine.Machine) → Before r cur (more end s' m'))
      → Before r cur (search_window r cur hi points watching o s m more)
  search_window-Before cur hi points watching none s m more rest = tt
  search_window-Before cur hi points watching (some cp) s m more rest =
      or_earlier-Before cur _ (more cp.icount)
        (held-Before cur (scan_back r cp.icount hi points watching s m)) (rest cp.icount)

  search_from-Before :
      (fuel cur bottom end : ℕ) (points : Dict ℕ ℕ) (watching : Bool) (s : Session h)
      (m : h.engine.Machine)
      → Before r cur (search_from r fuel cur bottom end points watching s m)
  unfolding search_from
  search_from-Before zero cur bottom end points watching s m = tt
  search_from-Before (suc fuel) cur bottom end points watching s m =
      elim (Bool-cases (ltb bottom end)) [
        | inl q ↦ rw q (
            search_window-Before cur (end - 1) points watching _ s m _
              (λ end' s' m'. search_from-Before fuel cur bottom end' points watching s' m'))
        | inr q ↦ rw q tt
      ]

  either_Before :
      (n : ℕ) (t : Bool) (a b : Found r)
      → Before r n a
      → Before r n b
      → Before r n (if t then a else b)
  either_Before n true a b p q = p
  either_Before n false a b p q = q

  search-Before : (s : Session h) (m : h.engine.Machine) → Before r s.timeline.icount (search r s m)
  unfolding search
  search-Before s m =
      either_Before s.timeline.icount
        (some_points (live_points s.breakpoints []) || any_watched s.breakpoints) _ _
        (search_from-Before s.timeline.icount s.timeline.icount (earliest h.engine s.timeline)
          s.timeline.icount (live_points s.breakpoints []) (any_watched s.breakpoints) s m)
        tt

  hit_unless-icount :
      (t : Bool) (at num : ℕ) (bp : Breakpoint h.Code) (s : Session h)
      → (hit_unless t at num bp s).timeline.icount ≡ s.timeline.icount
  hit_unless-icount true at num bp s = refl
  hit_unless-icount false at num bp s = refl

  recount_found-icount :
      (at num : ℕ) (o : Option (Breakpoint h.Code)) (s : Session h)
      → (recount_found at num o s).timeline.icount ≡ s.timeline.icount
  recount_found-icount at num none s = refl
  recount_found-icount at num (some bp) s = hit_unless-icount (hits_at at num s) at num bp s

  recount-icount :
      (at num : ℕ) (s : Session h) → (recount at num s).timeline.icount ≡ s.timeline.icount
  unfolding recount
  recount-icount at num s = recount_found-icount at num (lookup num s.breakpoints) s

  at_start-less :
      (n k : ℕ) (o : Option (Place r)) (s' : Session h) (m' : h.engine.Machine) (ev : StopEvent)
      → k < n
      → ((s1 : Session h) (m1 : h.engine.Machine) → o ≡ some (s1, m1) → s1.timeline.icount ≡ k)
      → at_start r o ≡ some (s', m', ev)
      → s'.timeline.icount < n
  at_start-less n k none s' m' ev l went p = absurd (cc)
  at_start-less n k (some (s, m)) s' m' ev l went p =
      subst (λ x. x.0.timeline.icount < n) (some_inj p) (omega (arith, went s m refl, l))

  at_hit-less :
      (n : ℕ) (c : Candidate) (o : Option (Place r)) (s' : Session h) (m' : h.engine.Machine)
      (ev : StopEvent)
      → c.at < n
      → ((s1 : Session h) (m1 : h.engine.Machine) → o ≡ some (s1, m1) → s1.timeline.icount ≡ c.at)
      → at_hit r c o ≡ some (s', m', ev)
      → s'.timeline.icount < n
  at_hit-less n c none s' m' ev l went p = absurd (cc)
  at_hit-less n c (some (s, m)) s' m' ev l went p =
      subst (λ x. x.0.timeline.icount < n) (some_inj p)
        (omega (arith, recount-icount c.at c.num s, went s m refl, l))

  resumed-less :
      (n bottom : ℕ) (o : Found r) (s' : Session h) (m' : h.engine.Machine) (ev : StopEvent)
      → HooksOnly r
      → bottom < n
      → Before r n o
      → resumed r bottom o ≡ some (s', m', ev)
      → s'.timeline.icount < n
  resumed-less n bottom none s' m' ev only low l p = absurd (cc)
  resumed-less n bottom (some (none, s, m)) s' m' ev only low l p =
      at_start-less n bottom (go r bottom m s) s' m' ev low
        (λ s1 m1 q. (go-WentTo r bottom m m1 s s1 only q).1.icount) p
  resumed-less n bottom (some (some c, s, m)) s' m' ev only low l p =
      at_hit-less n c (go r c.at m s) s' m' ev l
        (λ s1 m1 q. (go-WentTo r c.at m m1 s s1 only q).1.icount) p

  resume_if-less :
      (t : Bool) (m m' : h.engine.Machine) (s s' : Session h) (ev : StopEvent)
      → HooksOnly r
      → (t ≡ true → earliest h.engine s.timeline < s.timeline.icount)
      → resume_if r t m s ≡ some (s', m', ev)
      → s'.timeline.icount < s.timeline.icount
  resume_if-less false m m' s s' ev only low p = absurd (cc)
  resume_if-less true m m' s s' ev only low p =
      resumed-less s.timeline.icount (earliest h.engine s.timeline)
        (search r (record s { running = true }) m) s' m' ev only (low refl)
        (search-Before (record s { running = true }) m) p

all_three : (a b c : Bool) → (a && b && c) ≡ true → (b ≡ true) × (c ≡ true)
all_three a b c p = ground arith

oldest_before :
    {h : Host} (s : Session h)
    → (not s.running && ltb 0 s.timeline.icount && check_bounds (s.timeline.icount - 1) s) ≡ true
    → earliest h.engine s.timeline < s.timeline.icount
oldest_before s p =
    let parts = all_three (not s.running) (ltb 0 s.timeline.icount) _ p in
    omega (
      arith,
      ltb→lt 0 s.timeline.icount parts.0,
      earliest-check_bounds (s.timeline.icount - 1) s parts.1,
    )

-- However the engine calls the hooks, running backwards leaves the session at an earlier instruction,
-- whether it found a hit or reached the start of the history.
pub resume_back-less :
    {h : Host} (r : Runner h) (m m' : h.engine.Machine) (s s' : Session h) (ev : StopEvent)
    → HooksOnly r
    → resume_back r m s ≡ some (s', m', ev)
    → s'.timeline.icount < s.timeline.icount
unfolding resume_back
resume_back-less r m m' s s' ev only p = resume_if-less r _ m m' s s' ev only (oldest_before s) p
