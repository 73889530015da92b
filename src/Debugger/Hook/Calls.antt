-- ===== src/Debugger/Hook/Calls.antt =====
-- A run as the target sees it: the calls that the engine makes of the hooks, in any order, and
-- those of another thread and of the layers.
use ghidra_unicorn.Prelude.{
  nat_eq, ℕ, zero, suc, ◌+◌, ◌-◌, ◌≤◌, ◌<◌, ◌≡◌, refl, sym, ◌∙◌, ap, subst, ◌⊎◌, inl, inr, Bool,
  true, false, Option, some, List, String, arith,
}
use ghidra_unicorn.Debugger.{
  Host, Session, Layer, Breakpoint, Extra, StopEvent, Reason, one_less, used_up,
}
use ghidra_unicorn.Debugger.Hits.{triggers}
use ghidra_unicorn.Debugger.Hook.{
  on_code, on_invalid, on_write, access_stops, live_access, access_hook, on_mem, stop_unless,
  request_stop, interrupt,
}
use ghidra_unicorn.Debugger.Hook.Counts.{triggers-Counting, note_write-icount}
use ghidra_unicorn.Debugger.Hook.Turns.{clock, Turn, counted, halted, on_code-Turn}

-- The hook calls of a run, from its first session to its last.
pub data Calls {h : Host} : Session h → Session h → Type 0 where
  begins : {s : Session h} → Calls s s
  code :
      {s s' : Session h} (m : h.engine.Machine) (address : ℕ)
      → Calls s s'
      → Calls s (on_code m address s')
  mem :
      {s s' : Session h} (m : h.engine.Machine) (extra : Extra) (bp : Breakpoint h.Code)
      → Calls s s'
      → Calls s (on_mem m extra bp s')
  invalid :
      {s s' : Session h} (name : String) (address size : ℕ)
      → Calls s s'
      → Calls s (on_invalid name address size s')
  writes : {s s' : Session h} (address size : ℕ) → Calls s s' → Calls s (on_write address size s')
  requests :
      {s s' : Session h} (m : h.engine.Machine) (reason : Reason)
      → Calls s s'
      → Calls s (request_stop m reason s')
  interrupts : {s s' : Session h} → Calls s s' → Calls s (interrupt s')
  -- A layer's own hook, which outside a replay records an effect and changes the layer's state.
  records :
      {s s' : Session h} (layers : List (Layer h))
      → s'.replaying ≡ false
      → Calls s s'
      → Calls s (record s' { layers = layers })

module _ {h : Host} where
  access_stops-clock :
      (num : ℕ) (stops : Bool) (s : Session h) → clock (access_stops num stops s) ≡ clock s
  access_stops-clock num true s = refl
  access_stops-clock num false s = refl

  live_access-clock :
      (m : h.engine.Machine) (extra : Extra) (bp : Breakpoint h.Code) (over : Bool) (s : Session h)
      → clock (live_access m extra bp over s) ≡ clock s
  live_access-clock m extra bp true s = refl
  live_access-clock m extra bp false s =
      access_stops-clock bp.num (triggers m extra bp s).1 (triggers m extra bp s).0
      ∙ ap {A = Session h} clock (triggers-Counting m extra bp s).eq

  access_hook-clock :
      (m : h.engine.Machine) (extra : Extra) (bp : Breakpoint h.Code) (replaying : Bool)
      (s : Session h)
      → clock (access_hook m extra bp replaying s) ≡ clock s
  access_hook-clock m extra bp true s = refl
  access_hook-clock m extra bp false s = live_access-clock m extra bp _ s

  on_write-clock : (address size : ℕ) (s : Session h) → clock (on_write address size s) ≡ clock s
  unfolding on_write
  on_write-clock address size s = λ i. (
    note_write-icount h.engine s.timeline address size i,
    s.left,
    s.first,
    s.replaying,
    s.terminated,
  )

  stop_unless-clock :
      (replaying : Bool) (ev : StopEvent) (s : Session h)
      → clock (stop_unless replaying ev s) ≡ clock s
  stop_unless-clock true ev s = refl
  stop_unless-clock false ev s = refl

-- A clock of a run that is no replay and was given a budget: what is left and what was counted add up,
-- and whether the program has ended stays as it was.
pub record Within (total : ℕ) (over : Bool) (c : ℕ × Option ℕ × Bool × Bool × Bool) : Type 0 where
  pub left : ℕ
  pub budget : c.1 ≡ some left
  pub sum : left + c.0 ≡ total
  pub starts : c.2 ≡ true → 0 < left
  pub live : c.3 ≡ false
  pub ongoing : c.4 ≡ over

has_left : (n : ℕ) → used_up (some n) ≡ false → 0 < n
has_left n p = ground arith

one_less-some : (n : ℕ) → 0 < n → one_less (some n) ≡ some (n - 1)
one_less-some zero p = absurd (omega (arith, p))
one_less-some (suc n) p = ap some (omega arith)

spend :
    (total : ℕ) (over : Bool) (c d : ℕ × Option ℕ × Bool × Bool × Bool)
    → Within total over c
    → d ≡ (c.0 + 1, one_less c.1, false, c.3, c.4)
    → (c.2 ≡ true) ⊎ (used_up c.1 ≡ false)
    → Within total over d
spend total over c d w p ok =
    let positive : 0 < w.left = elim ok [
      | inl first ↦ w.starts first
      | inr q ↦ has_left w.left (subst (λ o. used_up o ≡ false) w.budget q)
    ] in
    subst (Within total over) (sym p) (record {
      left = w.left - 1;
      budget = ap one_less w.budget ∙ one_less-some w.left positive;
      sum = omega (arith, w.sum, positive);
      starts = λ q. absurd (cc);
      live = w.live;
      ongoing = w.ongoing;
    })

module _ {h : Host} where
  Turn-Within :
      (total : ℕ) (over : Bool) (c : ℕ × Option ℕ × Bool × Bool × Bool) (s : Session h)
      → Within total over c
      → Turn c s
      → Within total over (clock s)
  Turn-Within total over c s w (counted go p ok) = spend total over c (clock s) w p ok
  Turn-Within total over c s w (halted stops p) = subst (Within total over) (sym p) w

  pub Calls-Within :
      (total : ℕ) (over : Bool) (s s' : Session h)
      → Within total over (clock s)
      → Calls s s'
      → Within total over (clock s')
  unfolding on_mem on_invalid request_stop interrupt
  Calls-Within total over s s' w begins = w
  Calls-Within total over s s' w (code m address run) =
      let before = Calls-Within total over s _ w run in
      Turn-Within total over _ _ before (on_code-Turn m address _ before.live)
  Calls-Within total over s s' w (mem m extra bp run) =
      subst (Within total over) (sym (access_hook-clock m extra bp _ _))
        (Calls-Within total over s _ w run)
  Calls-Within total over s s' w (invalid name address size run) = Calls-Within total over s _ w run
  Calls-Within total over s s' w (writes address size run) =
      subst (Within total over) (sym (on_write-clock address size _))
        (Calls-Within total over s _ w run)
  Calls-Within total over s s' w (requests m reason run) =
      subst (Within total over) (sym (stop_unless-clock _ _ _)) (Calls-Within total over s _ w run)
  Calls-Within total over s s' w (interrupts run) = Calls-Within total over s _ w run
  Calls-Within total over s s' w (records layers live run) = Calls-Within total over s _ w run

-- A run with a budget of `n` instructions counts at most `n`, whatever the engine calls and when.
pub icount-Calls :
    {h : Host} (n : ℕ) (s s' : Session h)
    → s.left ≡ some n
    → 0 < n
    → s.replaying ≡ false
    → Calls s s'
    → s'.timeline.icount ≤ s.timeline.icount + n
icount-Calls n s s' budget some_left live run =
    let w =
      Calls-Within (n + s.timeline.icount) s.terminated s s'
        (record {
          left = n;
          budget = budget;
          sum = refl;
          starts = λ q. some_left;
          live = live;
          ongoing = refl;
        })
        run in
    omega (arith, w.sum)
