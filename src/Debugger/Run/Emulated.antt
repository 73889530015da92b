-- ===== src/Debugger/Run/Emulated.antt =====
-- What a run leaves, however the engine calls the hooks.
use ghidra_unicorn.Prelude.{
  nat_eq, ℕ, zero, suc, ◌+◌, ◌-◌, ◌≤◌, ◌<◌, ◌≡◌, max, refl, subst, inl, inr, Bool, true, false,
  ◌||◌, Option, none, some, String, ltb, lookup, arith, Bool-cases, lt→ltb, some_inj,
}
use ghidra_unicorn.Engine.{Engine}
use ghidra_unicorn.Timeline.{Timeline, uncount}
use ghidra_unicorn.Debugger.{Host, Session, Breakpoint, StopEvent}
use ghidra_unicorn.Debugger.Points.{deleted}
use ghidra_unicorn.Debugger.Hook.Calls.{Calls, Calls-Within}
use ghidra_unicorn.Debugger.Run.{
  Runner, ends, is_step, prepare, promote, classify, conclude, retired, retire, delete_if, start_pc,
  stop_address, emulate_if, emulate, go_on, next_step, steps, step_n,
}

-- What Unicorn documents of a run: the hooks, of the target and of its layers, are all that it calls.
pub record HooksOnly {h : Host} (r : Runner h) : Type 0 where
  pub calls :
      (m : h.engine.Machine) (s : Session h) (start stop_at count : ℕ)
      → Calls s (r.emu_start m s start stop_at count).2

-- A session at rest after a run that ended in an event, with at most `total` instructions counted.
pub record Rests {h : Host} (total : ℕ) (ev : StopEvent) (s : Session h) : Type 0 where
  pub idle : s.running ≡ false
  pub answered : s.interrupted ≡ false
  pub live : s.replaying ≡ false
  pub over : s.terminated ≡ ends ev.reason
  pub within : s.timeline.icount ≤ total

uncount-le : (e : Engine) (t : Timeline e.Context) → (uncount e t).icount ≤ t.icount
unfolding uncount
uncount-le e t = elim (Bool-cases (ltb 0 t.icount)) [
  | inl q ↦ rw q (omega arith)
  | inr q ↦ rw q (omega arith)
]

or_false : (b : Bool) → (b || false) ≡ b
or_false true = refl
or_false false = refl

module _ {h : Host} where
  delete_if-Rests :
      (total : ℕ) (ev : StopEvent) (temporary : Bool) (bp : Breakpoint h.Code) (s : Session h)
      → Rests total ev s
      → Rests total ev (delete_if temporary bp s)
  unfolding deleted
  delete_if-Rests total ev true bp s w = record {
    idle = w.idle;
    answered = w.answered;
    live = w.live;
    over = w.over;
    within = w.within;
  }
  delete_if-Rests total ev false bp s w = w

  retired-Rests :
      (total : ℕ) (ev : StopEvent) (o : Option (Breakpoint h.Code)) (s : Session h)
      → Rests total ev s
      → Rests total ev (retired o s)
  retired-Rests total ev none s w = w
  retired-Rests total ev (some bp) s w = delete_if-Rests total ev bp.temporary bp s w

  retire-Rests :
      (total : ℕ) (ev : StopEvent) (o : Option ℕ) (s : Session h)
      → Rests total ev s
      → Rests total ev (retire o s)
  retire-Rests total ev none s w = w
  retire-Rests total ev (some num) s w = retired-Rests total ev (lookup num s.breakpoints) s w

  conclude-Rests :
      (total : ℕ) (ev : StopEvent) (s : Session h)
      → s.running ≡ false
      → s.replaying ≡ false
      → s.terminated ≡ false
      → s.timeline.icount ≤ total
      → Rests total ev (conclude ev s)
  unfolding conclude
  conclude-Rests total ev s idle live over within =
      retire-Rests total ev ev.hit
        (record s { interrupted = false; terminated = ends ev.reason || s.terminated })
        (record {
          idle = idle;
          answered = refl;
          live = live;
          over = rw over (or_false (ends ev.reason));
          within = within;
        })

  classify-Rests :
      (total pc : ℕ) (until : Option ℕ) (count : ℕ) (raised : Option String) (s : Session h)
      → s.running ≡ false
      → s.replaying ≡ false
      → s.terminated ≡ false
      → s.timeline.icount ≤ total
      → let done = classify pc until count raised s in Rests total done.1 (conclude done.1 done.0)
  unfolding classify
  classify-Rests total pc until count none s idle live over within =
      conclude-Rests total _ s idle live over within
  classify-Rests total pc until count (some raised) s idle live over within =
      conclude-Rests total _ (record s { timeline = uncount h.engine s.timeline }) idle live over
        (omega (arith, uncount-le h.engine s.timeline, within))

wider :
    {h : Host} {low high : ℕ} {ev : StopEvent} {s : Session h}
    → low ≤ high
    → Rests low ev s
    → Rests high ev s
wider l w = record {
  idle = w.idle;
  answered = w.answered;
  live = w.live;
  over = w.over;
  within = omega (arith, w.within, l);
}

module _ {h : Host} where
  go_on-Rests :
      (goes : Bool)
      (more : h.engine.Machine → Session h → Option (Session h × h.engine.Machine × StopEvent))
      (n start : ℕ) (m1 m' : h.engine.Machine) (s1 s' : Session h) (ev1 ev : StopEvent)
      → Rests (start + 1) ev1 s1
      → ((m2 : h.engine.Machine) (s2 : Session h)
          → s2.replaying ≡ false
          → more m2 s2 ≡ some (s', m', ev)
          → Rests (s2.timeline.icount + suc n) ev s')
      → go_on goes more m1 s1 ev1 ≡ some (s', m', ev)
      → Rests (start + suc (suc n)) ev s'
  go_on-Rests true more n start m1 m' s1 s' ev1 ev w rest p =
      wider (omega (arith, w.within)) (rest m1 s1 w.live p)
  go_on-Rests false more n start m1 m' s1 s' ev1 ev w rest p =
      wider (omega arith) (subst (λ x. Rests (start + 1) x.2 x.0) (some_inj p) w)

  next_step-Rests :
      (more : h.engine.Machine → Session h → Option (Session h × h.engine.Machine × StopEvent))
      (n start : ℕ) (o : Option (Session h × h.engine.Machine × StopEvent)) (m' : h.engine.Machine)
      (s' : Session h) (ev : StopEvent)
      → ((m1 : h.engine.Machine) (s1 : Session h) (ev1 : StopEvent)
          → o ≡ some (s1, m1, ev1)
          → Rests (start + 1) ev1 s1)
      → ((m2 : h.engine.Machine) (s2 : Session h)
          → s2.replaying ≡ false
          → more m2 s2 ≡ some (s', m', ev)
          → Rests (s2.timeline.icount + suc n) ev s')
      → next_step more o ≡ some (s', m', ev)
      → Rests (start + suc (suc n)) ev s'
  next_step-Rests more n start none m' s' ev turn rest p = absurd (cc)
  next_step-Rests more n start (some (s1, m1, ev1)) m' s' ev turn rest p =
      go_on-Rests (is_step ev1.reason) more n start m1 m' s1 s' ev1 ev (turn m1 s1 ev1 refl) rest p

none_not_some : {A : Type 0} {a : A} → none ≡ some a → ⊥
none_not_some p = cc

not_busy :
    {h : Host} (r : Runner h) (busy : Bool) (count : ℕ) (until : Option ℕ) (m : h.engine.Machine)
    (s : Session h) (out : Session h × h.engine.Machine × StopEvent)
    → emulate_if r busy count until m s ≡ some out
    → busy ≡ false
not_busy r true count until m s out p = absurd (none_not_some p)
not_busy r false count until m s out p = refl

neither : (a b : Bool) → (a || b) ≡ false → (a ≡ false) × (b ≡ false)
neither a b p = ground arith

module _ {h : Host} (r : Runner h) (only : HooksOnly r) where
  emulate_if-Rests :
      (busy : Bool) (count : ℕ) (until : Option ℕ) (m m' : h.engine.Machine) (s s' : Session h)
      (ev : StopEvent)
      → 0 < count
      → s.replaying ≡ false
      → s.terminated ≡ false
      → emulate_if r busy count until m s ≡ some (s', m', ev)
      → Rests (s.timeline.icount + count) ev s'
  unfolding prepare promote
  emulate_if-Rests true count until m m' s s' ev l live over p = absurd (cc)
  emulate_if-Rests false count until m m' s s' ev l live over p =
      let started = prepare count s in
      let ran = r.emu_start m started (start_pc r m) (stop_address until s.end count) count in
      let w =
        Calls-Within (count + s.timeline.icount) false started ran.2
          (record {
            left = count;
            budget = rw (lt→ltb 0 count l) refl;
            sum = refl;
            starts = λ q. l;
            live = live;
            ongoing = over;
          })
          (only.calls m started (start_pc r m) (stop_address until s.end count) count) in
      let bound : ran.2.timeline.icount ≤ s.timeline.icount + count = omega (arith, w.sum) in
      let done =
        classify-Rests (s.timeline.icount + count) (h.pc ran.1) until count ran.0
          (promote (record ran.2 { running = false })) refl w.live w.ongoing bound in
      subst (λ x. Rests (s.timeline.icount + count) x.2 x.0) (some_inj p) done

  emulate-Rests :
      (count : ℕ) (until : Option ℕ) (m m' : h.engine.Machine) (s s' : Session h) (ev : StopEvent)
      → 0 < count
      → s.replaying ≡ false
      → emulate r count until m s ≡ some (s', m', ev)
      → Rests (s.timeline.icount + count) ev s'
  unfolding emulate
  emulate-Rests count until m m' s s' ev l live p =
      let free =
        neither s.terminated s.running
          (not_busy r (s.terminated || s.running) count until m s (s', m', ev) p) in
      emulate_if-Rests (s.terminated || s.running) count until m m' s s' ev l live free.0 p

  steps-Rests :
      (n : ℕ) (m m' : h.engine.Machine) (s s' : Session h) (ev : StopEvent)
      → s.replaying ≡ false
      → steps r n m s ≡ some (s', m', ev)
      → Rests (s.timeline.icount + suc n) ev s'
  unfolding steps
  steps-Rests zero m m' s s' ev live p = emulate-Rests 1 none m m' s s' ev (omega arith) live p
  steps-Rests (suc n) m m' s s' ev live p =
      next_step-Rests (steps r n) n (s.timeline.icount) (emulate r 1 none m s) m' s' ev
        (λ m1 s1 ev1 q. emulate-Rests 1 none m m1 s s1 ev1 (omega arith) live q)
        (λ m1 s1 live1 q. steps-Rests n m1 m' s1 s' ev live1 q) p

-- However the engine calls the hooks, a session that stepped `n` times is at rest, has ended where the
-- last event says so, and has counted at most `max n 1` instructions more.
pub step_n-Rests :
    {h : Host} (r : Runner h) (n : ℕ) (m m' : h.engine.Machine) (s s' : Session h) (ev : StopEvent)
    → HooksOnly r
    → s.replaying ≡ false
    → step_n r n m s ≡ some (s', m', ev)
    → Rests (s.timeline.icount + max n 1) ev s'
unfolding step_n
step_n-Rests r n m m' s s' ev only live p =
    wider (omega arith) (steps-Rests r only (max n 1 - 1) m m' s s' ev live p)
