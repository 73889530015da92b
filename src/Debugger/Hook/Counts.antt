-- ===== src/Debugger/Hook/Counts.antt =====
-- Which fields a hit and the register watches change, and what a count does to the timeline.
use ghidra_unicorn.Prelude.{
  nat_eq, ℕ, ◌+◌, ◌≡◌, refl, ◌∙◌, ap, inl, inr, Bool, true, false, ◌&&◌, Option, none, some, List,
  [], ◌∷◌, String, leb, ◌==◌, lookup, Bool-cases, Option-cases,
}
use ghidra_unicorn.Engine.{Engine}
use ghidra_unicorn.Timeline.{
  Timeline, note_instruction, note_write, taken, checkpoint, enforce_budget,
}
use ghidra_unicorn.Debugger.{Host, Session, Breakpoint, Extra, StopEvent}
use ghidra_unicorn.Debugger.Hits.{triggers, count_hit}
use ghidra_unicorn.Debugger.Hook.{valued, returned, compared, watched, watch_turn, changed_from}

module _ (e : Engine) where
  enforce_budget-icount : (t : Timeline e.Context) → (enforce_budget e t).0.icount ≡ t.icount
  unfolding enforce_budget
  enforce_budget-icount t = elim (Option-cases t.base) [
    | inl q ↦ rw q refl
    | inr (b, q) ↦ rw q refl
  ]

  taken-icount : (t : Timeline e.Context) (m : e.Machine) → (taken e t m).icount ≡ t.icount
  unfolding taken
  taken-icount t m = elim (Option-cases t.base) [ inl q ↦ rw q refl | inr (b, q) ↦ rw q refl ]

  pub note_instruction-icount :
      (t : Timeline e.Context) (m : e.Machine) → (note_instruction e t m).0.icount ≡ t.icount + 1
  unfolding note_instruction checkpoint
  note_instruction-icount t m = elim (Bool-cases (t.enabled && leb t.next t.icount)) [
    | inl q ↦ rw q (ap (λ n. n + 1) (enforce_budget-icount (taken e t m) ∙ taken-icount t m))
    | inr q ↦ rw q refl
  ]

  pub note_write-icount :
      (t : Timeline e.Context) (address size : ℕ) → (note_write e t address size).icount ≡ t.icount
  unfolding note_write
  note_write-icount t address size = elim (Bool-cases t.enabled) [
    | inl q ↦ rw q refl
    | inr q ↦ rw q refl
  ]

-- Only the breakpoints and the hits differ.
pub record Counting {h : Host} (s s' : Session h) : Type 0 where
  pub eq : s' ≡ record s { breakpoints = s'.breakpoints; hits = s'.hits }

module _ {h : Host} where
  pub Counting-trans : {s s' s'' : Session h} → Counting s s' → Counting s' s'' → Counting s s''
  Counting-trans {s = s} {s' = s'} {s'' = s''} a b = record {
    eq =
        b.eq
        ∙ ap {A = Session h} (λ x. record x { breakpoints = s''.breakpoints; hits = s''.hits })
            a.eq;
  }

  count_hit-Counting :
      (bp : Breakpoint h.Code) (ok : Bool) (s : Session h) → Counting s (count_hit bp ok s).0
  count_hit-Counting bp true s = record { eq = refl }
  count_hit-Counting bp false s = record { eq = refl }

  pub triggers-Counting :
      (m : h.engine.Machine) (extra : Extra) (bp : Breakpoint h.Code) (s : Session h)
      → Counting s (triggers m extra bp s).0
  unfolding triggers
  triggers-Counting m extra bp s = count_hit-Counting _ _ s

  compared-Counting :
      (m : h.engine.Machine) (address : ℕ) (register : String) (o : Option ℕ) (value : ℕ)
      (bp : Breakpoint h.Code) (s : Session h)
      → Counting s (compared m address register o value bp s).0
  compared-Counting m address register none value bp s = record { eq = refl }
  compared-Counting m address register (some old) value bp s = elim (Bool-cases (value == old)) [
    | inl q ↦ rw q (record { eq = refl })
    | inr q ↦ rw q (triggers-Counting m _ _ s)
  ]

  valued-Counting :
      (m : h.engine.Machine) (address : ℕ) (register : String) (o : Option ℕ)
      (bp : Breakpoint h.Code) (s : Session h)
      → Counting s (valued m address register o bp s).0
  valued-Counting m address register none bp s = record { eq = refl }
  valued-Counting m address register (some value) bp s =
      compared-Counting m address register bp.previous value bp s

  watched-Counting :
      (m : h.engine.Machine) (address : ℕ) (register : Option String) (enabled : Bool)
      (bp : Breakpoint h.Code) (s : Session h)
      → Counting s (watched m address register enabled bp s).0
  watched-Counting m address none enabled bp s = record { eq = refl }
  watched-Counting m address (some register) false bp s = record { eq = refl }
  watched-Counting m address (some register) true bp s =
      valued-Counting m address register (h.reg_read m register) bp s

  watch_turn-Counting :
      (m : h.engine.Machine) (address : ℕ) (o : Option (Breakpoint h.Code)) (s : Session h)
      → Counting s (watch_turn m address o s).0
  unfolding watch_turn
  watch_turn-Counting m address none s = record { eq = refl }
  watch_turn-Counting m address (some bp) s = watched-Counting m address bp.register bp.enabled bp s

  returned-Counting :
      (o : Option StopEvent) (s s' : Session h) (rest : Session h × Option StopEvent)
      → Counting s s'
      → Counting s rest.0
      → Counting s (returned o s' rest).0
  returned-Counting none s s' rest a b = b
  returned-Counting (some ev) s s' rest a b = a

  pub changed_from-Counting :
      (m : h.engine.Machine) (address : ℕ) (nums : List ℕ) (s : Session h)
      → Counting s (changed_from m address nums s).0
  unfolding changed_from
  changed_from-Counting m address [] s = record { eq = refl }
  changed_from-Counting m address (num ∷ nums) s =
      let turn = watch_turn m address (lookup num s.breakpoints) s in
      let first = watch_turn-Counting m address (lookup num s.breakpoints) s in
      returned-Counting turn.1 s turn.0 (changed_from m address nums turn.0) first
        (Counting-trans first (changed_from-Counting m address nums turn.0))
