-- ===== src/Debugger/Hook/Turns.antt =====
-- What one call of the code hook does to the clock of a run.
use ghidra_unicorn.Prelude.{
  nat_eq, ℕ, ◌+◌, ◌≡◌, refl, ◌∙◌, ap, subst, ◌⊎◌, inl, inr, Bool, true, false, Option, none, some,
  arith, Bool-cases,
}
use ghidra_unicorn.Timeline.{note_instruction}
use ghidra_unicorn.Debugger.{
  Host, Session, Breakpoint, nothing, StopEvent, one_less, used_up, at_exit,
}
use ghidra_unicorn.Debugger.Hits.{triggers, on_history_forgotten}
use ghidra_unicorn.Debugger.Hook.{
  told, count, changed_from, changed_register, stop_at_point, enabled_point, at_point, point_at,
  arrive, enter, after_watches, live_code, code_hook, on_code,
}
use ghidra_unicorn.Debugger.Hook.Counts.{
  Counting, triggers-Counting, changed_from-Counting, note_instruction-icount,
}

-- The clock of a run: the instructions counted, the budget, and whether the first is still to come;
-- and whether it is a replay, and whether the program has ended.
abbrev pub clock : {h : Host} → Session h → ℕ × Option ℕ × Bool × Bool × Bool
clock s = (s.timeline.icount, s.left, s.first, s.replaying, s.terminated)

-- One instruction: it was counted, out of a budget that was not used up unless it is the first, or the
-- hook halted the run before it and the clock stands.
pub data Turn {h : Host} (c : ℕ × Option ℕ × Bool × Bool × Bool) (s : Session h) : Type 0 where
  counted :
      s.halting ≡ false
      → clock s ≡ (c.0 + 1, one_less c.1, false, c.3, c.4)
      → (c.2 ≡ true) ⊎ (used_up c.1 ≡ false)
      → Turn c s
  halted : s.halting ≡ true → clock s ≡ c → Turn c s

module _ {h : Host} where
  -- What is told of a forgotten history keeps the clock and the switches.
  told-clock :
      (o : Option ℕ) (s : Session h)
      → ((told o s).halting ≡ s.halting)
        × ((told o s).left ≡ s.left)
        × ((told o s).first ≡ s.first)
        × ((told o s).replaying ≡ s.replaying)
        × ((told o s).terminated ≡ s.terminated)
  unfolding on_history_forgotten
  told-clock none s = (refl, refl, refl, refl, refl)
  told-clock (some earliest) s = (refl, refl, refl, refl, refl)

  count-Turn :
      (m : h.engine.Machine) (first : Bool) (s : Session h)
      → s.halting ≡ false
      → s.first ≡ false
      → (first ≡ true) ⊎ (used_up s.left ≡ false)
      → Turn (s.timeline.icount, s.left, first, s.replaying, s.terminated) (count m s)
  unfolding count
  count-Turn m first s p f ok =
      let noted = note_instruction h.engine s.timeline m in
      let keeps = told-clock noted.1 s in
      counted (keeps.0 ∙ p)
        (λ i. (
          note_instruction-icount h.engine s.timeline m i,
          one_less (keeps.1 i),
          (keeps.2 ∙ f) i,
          keeps.3 i,
          keeps.4 i,
        ))
        ok

  -- Counting what fired leaves the clock.
  Counting-Turn :
      (s s' : Session h) (first : Bool) (z : Session h)
      → Counting s s'
      → Turn (s'.timeline.icount, s'.left, first, s'.replaying, s'.terminated) z
      → Turn (s.timeline.icount, s.left, first, s.replaying, s.terminated) z
  Counting-Turn s s' first z c =
      subst (λ k. Turn k z)
        (ap {A = Session h} (λ x. (x.timeline.icount, x.left, first, x.replaying, x.terminated))
          c.eq)

  stop_at_point-Turn :
      (m : h.engine.Machine) (address num : ℕ) (stops : Bool) (s : Session h)
      → s.halting ≡ false
      → s.first ≡ false
      → used_up s.left ≡ false
      → Turn
          (s.timeline.icount, s.left, false, s.replaying, s.terminated)
          (stop_at_point m address num stops s)
  stop_at_point-Turn m address num true s p f ok =
      halted refl (λ i. (s.timeline.icount, s.left, f i, s.replaying, s.terminated))
  stop_at_point-Turn m address num false s p f ok = count-Turn m false s p f (inr ok)

  enabled_point-Turn :
      (m : h.engine.Machine) (address : ℕ) (bp : Breakpoint h.Code) (enabled : Bool) (s : Session h)
      → s.halting ≡ false
      → s.first ≡ false
      → used_up s.left ≡ false
      → Turn
          (s.timeline.icount, s.left, false, s.replaying, s.terminated)
          (enabled_point m address bp enabled s)
  enabled_point-Turn m address bp false s p f ok = count-Turn m false s p f (inr ok)
  enabled_point-Turn m address bp true s p f ok =
      let fires = triggers m nothing bp s in
      let c = triggers-Counting m nothing bp s in
      Counting-Turn s fires.0 false _ c (
        stop_at_point-Turn m address bp.num fires.1 fires.0
          (ap {A = Session h} (λ x. x.halting) c.eq ∙ p)
          (ap {A = Session h} (λ x. x.first) c.eq ∙ f)
          (ap {A = Session h} (λ x. used_up x.left) c.eq ∙ ok))

  at_point-Turn :
      (m : h.engine.Machine) (address : ℕ) (o : Option (Breakpoint h.Code)) (s : Session h)
      → s.halting ≡ false
      → s.first ≡ false
      → used_up s.left ≡ false
      → Turn (s.timeline.icount, s.left, false, s.replaying, s.terminated) (at_point m address o s)
  at_point-Turn m address none s p f ok = count-Turn m false s p f (inr ok)
  at_point-Turn m address (some bp) s p f ok = enabled_point-Turn m address bp bp.enabled s p f ok

  arrive-Turn :
      (m : h.engine.Machine) (address : ℕ) (out : Bool) (s : Session h)
      → s.halting ≡ false
      → s.first ≡ false
      → Turn (s.timeline.icount, s.left, false, s.replaying, s.terminated) (arrive m address out s)
  arrive-Turn m address true s p f =
      halted refl (λ i. (s.timeline.icount, s.left, f i, s.replaying, s.terminated))
  arrive-Turn m address false s p f = elim (Bool-cases (used_up s.left)) [
    | inl q ↦ rw q (halted refl (λ i. (s.timeline.icount, s.left, f i, s.replaying, s.terminated)))
    | inr q ↦ rw q (at_point-Turn m address (point_at address s) s p f q)
  ]

  enter-Turn :
      (m : h.engine.Machine) (address : ℕ) (first : Bool) (s : Session h)
      → s.halting ≡ false
      → s.first ≡ first
      → Turn (s.timeline.icount, s.left, first, s.replaying, s.terminated) (enter m address first s)
  enter-Turn m address true s p f = count-Turn m true (record s { first = false }) p refl (inl refl)
  enter-Turn m address false s p f = arrive-Turn m address (at_exit s.exits s.end address) s p f

  after_watches-Turn :
      (m : h.engine.Machine) (address : ℕ) (o : Option StopEvent) (s : Session h)
      → s.halting ≡ false
      → Turn (clock s) (after_watches m address o s)
  after_watches-Turn m address (some ev) s p = halted refl refl
  after_watches-Turn m address none s p = enter-Turn m address s.first s p refl

  live_code-Turn :
      (m : h.engine.Machine) (address : ℕ) (o : Option StopEvent) (s : Session h)
      → s.halting ≡ false
      → Turn (clock s) (live_code m address o s)
  unfolding changed_register
  live_code-Turn m address (some ev) s p = halted refl refl
  live_code-Turn m address none s p =
      let c = changed_from-Counting m address s.reg_watches s in
      let after = changed_from m address s.reg_watches s in
      subst (λ k. Turn k (after_watches m address after.1 after.0)) (ap {A = Session h} clock c.eq)
        (after_watches-Turn m address after.1 after.0
          (ap {A = Session h} (λ x. x.halting) c.eq ∙ p))

code_hook-Turn :
    {h : Host} (m : h.engine.Machine) (address : ℕ) (replaying : Bool) (s : Session h)
    → replaying ≡ false
    → Turn (clock s) (code_hook m address replaying s)
code_hook-Turn m address true s live = absurd (ground arith)
code_hook-Turn m address false s live =
    live_code-Turn m address s.pending (record s { halting = false }) refl

-- Outside a replay the code hook counts the instruction, out of a budget that is not used up unless the
-- instruction is the run's first, or it halts the run and leaves the count and the budget as they were.
pub on_code-Turn :
    {h : Host} (m : h.engine.Machine) (address : ℕ) (s : Session h)
    → s.replaying ≡ false
    → Turn (clock s) (on_code m address s)
unfolding on_code
on_code-Turn m address s live = code_hook-Turn m address s.replaying s live
