-- ===== src/Debugger/Hook/Silence.antt =====
-- A replay is silent.
use ghidra_unicorn.Prelude.{
  ℕ, ◌≡◌, refl, sym, ◌∙◌, ap, Bool, true, false, none, List, [], if◌then◌else◌,
}
use ghidra_unicorn.Timeline.{Timeline, note_write, touch}
use ghidra_unicorn.Debugger.{Host, Session, Breakpoint, Extra, StopEvent, used_up}
use ghidra_unicorn.Debugger.Hook.{
  event, code_hook, replay_turn, replay_code, on_code, on_invalid, on_write, access_hook, on_mem,
  stop_unless, request_stop, interrupt,
}
use ghidra_unicorn.Debugger.Hook.Calls.{
  Calls, begins, code, mem, invalid, writes, requests, interrupts, records,
}

-- The session without what a replay keeps for itself, the record of a fault or of an interrupt, and the
-- pages written since the last checkpoint.
abbrev pub lasting : {h : Host} → Session h → Session h
lasting s = record s {
  halting = false;
  left = none;
  replay_icount = 0;
  trace = none;
  observed = none;
  fault = none;
  interrupted = false;
  timeline = record s.timeline { dirty = [] };
}

module _ {h : Host} where
  replay_turn-lasting :
      (address : ℕ) (used : Bool) (s : Session h) → lasting (replay_turn address used s) ≡ lasting s
  replay_turn-lasting address true s = refl
  replay_turn-lasting address false s = refl

  code_hook-lasting :
      (m : h.engine.Machine) (address : ℕ) (replaying : Bool) (s : Session h)
      → replaying ≡ true
      → lasting (code_hook m address replaying s) ≡ lasting s
  unfolding replay_code
  code_hook-lasting m address true s p = replay_turn-lasting address (used_up s.left) s
  code_hook-lasting m address false s p = absurd (cc)

  access_hook-lasting :
      (m : h.engine.Machine) (extra : Extra) (bp : Breakpoint h.Code) (replaying : Bool)
      (s : Session h)
      → replaying ≡ true
      → lasting (access_hook m extra bp replaying s) ≡ lasting s
  access_hook-lasting m extra bp true s p = refl
  access_hook-lasting m extra bp false s p = absurd (cc)

  stop_unless-lasting :
      (replaying : Bool) (ev : StopEvent) (s : Session h)
      → replaying ≡ true
      → lasting (stop_unless replaying ev s) ≡ lasting s
  stop_unless-lasting true ev s p = refl
  stop_unless-lasting false ev s p = absurd (cc)

  with_dirty :
      (t : Timeline h.engine.Context) (dirty : List ℕ) (enabled : Bool) (s : Session h)
      → s.timeline ≡ t
      → lasting (record s { timeline = if enabled then record t { dirty = dirty } else t })
        ≡ lasting s
  with_dirty t dirty true s p = λ i. lasting (record s { timeline = sym p i })
  with_dirty t dirty false s p = λ i. lasting (record s { timeline = sym p i })

  on_write-lasting :
      (address size : ℕ) (s : Session h) → lasting (on_write address size s) ≡ lasting s
  unfolding on_write note_write
  on_write-lasting address size s =
      with_dirty s.timeline (touch address size s.timeline.dirty) s.timeline.enabled s refl

-- A replay changes none of the breakpoints, their counts and the hits, the stop, the count of
-- instructions, the checkpoints, the layers or the switches, whatever the engine calls and when.
pub Calls-lasting :
    {h : Host} (s s' : Session h) → s.replaying ≡ true → Calls s s' → lasting s' ≡ lasting s
unfolding on_code on_mem on_invalid request_stop interrupt
Calls-lasting s s' p begins = refl
Calls-lasting {h = h} s s' p (code {s' = z} m address run) =
    let before = Calls-lasting s z p run in
    code_hook-lasting m address z.replaying z (ap {A = Session h} (λ x. x.replaying) before ∙ p)
    ∙ before
Calls-lasting {h = h} s s' p (mem {s' = z} m extra bp run) =
    let before = Calls-lasting s z p run in
    access_hook-lasting m extra bp z.replaying z (ap {A = Session h} (λ x. x.replaying) before ∙ p)
    ∙ before
Calls-lasting s s' p (invalid name address size run) = Calls-lasting s _ p run
Calls-lasting s s' p (writes {s' = z} address size run) =
    on_write-lasting address size z ∙ Calls-lasting s z p run
Calls-lasting {h = h} s s' p (requests {s' = z} m reason run) =
    let before = Calls-lasting s z p run in
    stop_unless-lasting z.replaying (event reason (h.pc m) none) z
      (ap {A = Session h} (λ x. x.replaying) before ∙ p)
    ∙ before
Calls-lasting s s' p (interrupts run) = Calls-lasting s _ p run
Calls-lasting {h = h} s s' p (records {s' = z} layers live run) =
    let before = ap {A = Session h} (λ x. x.replaying) (Calls-lasting s z p run) ∙ p in absurd (cc)
