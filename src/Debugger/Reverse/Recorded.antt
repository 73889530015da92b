-- ===== src/Debugger/Reverse/Recorded.antt =====
-- The machine that a reverse operation leaves: the one that stood at the instruction when it was recorded.
use ghidra_unicorn.Prelude.{
  nat_eq, ℕ, zero, suc, ◌+◌, ◌-◌, ◌≤◌, ◌<◌, ◌≡◌, ◌≢◌, refl, sym, ◌∙◌, subst, inl, inr, Bool, true,
  false, Option, none, some, List, [], ◌∷◌, String, ltb, some_inj, arith, Bool-cases, Option-cases,
  if◌then◌else◌,
}
use ghidra_unicorn.Engine.{Engine}
use ghidra_unicorn.Timeline.{Timeline, Checkpoint, best_from, checkpoint_at_or_before, restore}
use ghidra_unicorn.Debugger.{Host, Session, Layer}
use ghidra_unicorn.Debugger.Run.{Runner, start_pc}
use ghidra_unicorn.Debugger.Run.Emulated.{HooksOnly}
use ghidra_unicorn.Debugger.Reverse.{
  check_bounds, replayed, settled, resync_status, resynced_from, restore_state, replay_forward,
  go_from, go_if, go,
}
use ghidra_unicorn.Debugger.Reverse.Went.{WentTo, go-WentTo}

no_result : {A : Type 0} {a : A} → none ≡ some a → ⊥
no_result p = cc

-- `restore` gives a checkpoint at or before the instruction asked for.
module _ (e : Engine) where
  best_from-le :
      (k : ℕ) (best : Checkpoint e.Context) (cps : List (Checkpoint e.Context))
      → best.icount ≤ k
      → (best_from e k best cps).icount ≤ k
  unfolding best_from
  best_from-le k best [] le = le
  best_from-le k best (cp ∷ cps) le = elim (Bool-cases (ltb k cp.icount)) [
    | inl q ↦ rw q le
    | inr q ↦ rw q (best_from-le k cp cps (ground (arith, q)))
  ]

  at_or_before-le :
      (k : ℕ) (b : Checkpoint e.Context) (late : Bool) (cps : List (Checkpoint e.Context))
      (cp : Checkpoint e.Context)
      → ltb k b.icount ≡ late
      → (if late then none else some (best_from e k b cps)) ≡ some cp
      → cp.icount ≤ k
  at_or_before-le k b true cps cp q p = absurd (cc)
  at_or_before-le k b false cps cp q p =
      subst (λ x. x.icount ≤ k) (some_inj p) (best_from-le k b cps (ground (arith, q)))

  found-le :
      (k : ℕ) (t : Timeline e.Context) (o : Option (Checkpoint e.Context))
      (cp : Checkpoint e.Context)
      → t.base ≡ o
      → checkpoint_at_or_before e t k ≡ some cp
      → cp.icount ≤ k
  unfolding checkpoint_at_or_before
  found-le k t none cp b p = let q : none ≡ some cp = rw b at p in absurd (cc)
  found-le k t (some base) cp b p =
      at_or_before-le k base (ltb k base.icount) t.checkpoints cp refl (rw b at p)

  restore-le :
      (k : ℕ) (t : Timeline e.Context) (m back : e.Machine) (cp : Checkpoint e.Context)
      → restore e t m k ≡ some (cp, back)
      → cp.icount ≤ k
  unfolding restore
  restore-le k t m back cp p = elim (Option-cases t.base) [
    | inl q ↦ absurd (no_result (rw (q, restore) at p))
    | inr (base, q) ↦
        elim (Option-cases (checkpoint_at_or_before e (record t { base = some base }) k)) [
          | inl o ↦ absurd (no_result (rw (o, restore) at rw q at p))
          | inr (found, o) ↦
              let same = some_inj (rw (o, restore) at rw q at p) in
              subst (λ x. x.0.icount ≤ k) same
                (found-le k (record t { base = some base }) (some base) found refl o)
        ]
  ]

-- Instructions of a history, from one of a number on.
unfoldable pub steps : {M : Type 0} → (ℕ → M → M) → ℕ → ℕ → M → M
steps step i zero m = m
steps step i (suc n) m = steps step (suc i) n (step i m)

-- What Unicorn documents of `emu_start` with a count, for a replay: from the machine's own program counter
-- it runs that many instructions, each with the effects that the layers recorded for it, or it raises. It
-- stops earlier only at the address to stop at, which a replay gives as 0. `step i` is the instruction with
-- the number `i` of the history that the layers hold.
pub record Replays {h : Host} (r : Runner h) (step : ℕ → h.engine.Machine → h.engine.Machine)
    (layers : List (Layer h)) : Type 0 where
  pub runs :
      (m m' : h.engine.Machine) (s s' : Session h) (n : ℕ)
      → s.replaying ≡ true
      → s.left ≡ some (suc n)
      → s.layers ≡ layers
      → ((j : ℕ) → j < suc n → h.pc (steps step s.replay_icount j m) ≢ 0)
      → r.emu_start m s (start_pc r m) 0 (suc n) ≡ (none, m', s')
      → m' ≡ steps step s.replay_icount (suc n) m

-- What was recorded: the machine that stood at each instruction. Machines that are the same to the program,
-- in registers and memory, stay so through an instruction, and stand at one program counter. Writing the
-- status register back changes neither.
pub record History {h : Host} (r : Runner h) (step : ℕ → h.engine.Machine → h.engine.Machine)
    : Type 1 where
  pub Same : h.engine.Machine → h.engine.Machine → Type 0
  pub state : ℕ → h.engine.Machine
  pub recorded : (i : ℕ) → state (suc i) ≡ step i (state i)
  pub same_step : (i : ℕ) (a b : h.engine.Machine) → Same a b → Same (step i a) (step i b)
  pub same_pc : (a b : h.engine.Machine) → Same a b → h.pc a ≡ h.pc b
  pub same_status : (a b : h.engine.Machine) → Same a b → Same (resync_status r a) b

module _ {h : Host} (r : Runner h) (step : ℕ → h.engine.Machine → h.engine.Machine)
    (past : History r step) where
  -- Running on from a recorded machine follows the history.
  steps-Same :
      (i n : ℕ) (m : h.engine.Machine)
      → past.Same m (past.state i)
      → past.Same (steps step i n m) (past.state (i + n))
  unfolding steps
  steps-Same i zero m w = subst (λ j. past.Same m (past.state j)) (omega arith) w
  steps-Same i (suc n) m w =
      let next =
        subst (past.Same (step i m)) (sym (past.recorded i))
          (past.same_step i m (past.state i) w) in
      subst (λ j. past.Same (steps step (suc i) n (step i m)) (past.state j)) (omega arith)
        (steps-Same (suc i) n (step i m) next)

  module _ (k : ℕ) (away : (i : ℕ) → i < k → h.pc (past.state i) ≢ 0) where
    replayed-Same :
        (layers : List (Layer h)) (i n : ℕ) (m m' : h.engine.Machine) (s s' : Session h)
        (pcs : List ℕ) (out : Option String × h.engine.Machine × Session h)
        → Replays r step layers
        → s.replaying ≡ true
        → s.left ≡ some (suc n)
        → s.layers ≡ layers
        → s.replay_icount ≡ i
        → i + suc n ≡ k
        → past.Same m (past.state i)
        → r.emu_start m s (start_pc r m) 0 (suc n) ≡ out
        → replayed out ≡ some (s', m', pcs)
        → past.Same m' (past.state k)
    replayed-Same layers i n m m' s s' pcs (some raised, m1, done) law on left same at sum w q p =
        absurd (cc)
    replayed-Same layers i n m m' s s' pcs (none, m1, done) law on left same at sum w q p =
        let start = subst (λ j. past.Same m (past.state j)) (sym at) w in
        let clear : (j : ℕ) → j < suc n → h.pc (steps step s.replay_icount j m) ≢ 0 =
          λ j lt zero_pc. away (s.replay_icount + j) (omega (arith, at, sum, lt)) (
            sym (
              past.same_pc (steps step s.replay_icount j m) (past.state (s.replay_icount + j))
                (steps-Same s.replay_icount j m start))
            ∙ zero_pc) in
        let ran = law.runs m m1 s done n on left same clear q in
        let there = steps-Same s.replay_icount (suc n) m start in
        let end_same : s.replay_icount + suc n ≡ k = omega (arith, at, sum) in
        subst (λ x. past.Same x.1 (past.state k)) (some_inj p)
          (subst (λ x. past.Same x (past.state k)) (sym ran)
            (subst (λ j. past.Same (steps step s.replay_icount (suc n) m) (past.state j)) end_same
              there))

    replay_forward-Same :
        (n : ℕ) (m m' : h.engine.Machine) (s s' : Session h) (pcs : List ℕ)
        → Replays r step s.layers
        → s.replay_icount + n ≡ k
        → past.Same m (past.state s.replay_icount)
        → replay_forward r n none m s ≡ some (s', m', pcs)
        → past.Same m' (past.state k)
    unfolding replay_forward
    replay_forward-Same zero m m' s s' pcs law sum w p =
        subst (λ x. past.Same x.1 (past.state k)) (some_inj p)
          (subst (λ j. past.Same m (past.state j)) (omega (arith, sum)) w)
    replay_forward-Same (suc n) m m' s s' pcs law sum w p =
        replayed-Same s.layers s.replay_icount n m m'
          (record s { replaying = true; trace = none; left = some (suc n) }) s' pcs _ law refl refl
          refl refl sum w refl p

    settled-Same :
        (was : ℕ) (o : Option (Session h × h.engine.Machine × List ℕ)) (s' : Session h)
        (m' : h.engine.Machine)
        → ((s1 : Session h) (m1 : h.engine.Machine) (pcs : List ℕ)
            → o ≡ some (s1, m1, pcs)
            → past.Same m1 (past.state k))
        → settled k was o ≡ some (s', m')
        → past.Same m' (past.state k)
    settled-Same was none s' m' same p = absurd (cc)
    settled-Same was (some (s1, m1, pcs)) s' m' same p =
        subst (λ x. past.Same x.1 (past.state k)) (some_inj p) (same s1 m1 pcs refl)

    go_from-Same :
        (s s' : Session h) (m m' : h.engine.Machine)
        (o : Option (Checkpoint h.engine.Context × h.engine.Machine))
        → Replays r step s.layers
        → restore h.engine s.timeline m k ≡ o
        → ((cp : Checkpoint h.engine.Context) (back : h.engine.Machine)
            → o ≡ some (cp, back)
            → (cp.icount ≤ k) × past.Same back (past.state cp.icount))
        → go_from r k s.timeline.icount (resynced_from r o s) ≡ some (s', m')
        → past.Same m' (past.state k)
    go_from-Same s s' m m' none law at restored p = absurd (cc)
    go_from-Same s s' m m' (some (cp, back)) law at restored p =
        let (le, w) = restored cp back refl in
        settled-Same s.timeline.icount _ s' m'
          (λ s1 m1 pcs.
            replay_forward-Same (k - cp.icount) (resync_status r back) m1 _ s1 pcs law
              (omega (arith, le)) (past.same_status back (past.state cp.icount) w))
          p

    go_if-Same :
        (ok : Bool) (m m' : h.engine.Machine) (s s' : Session h)
        → Replays r step s.layers
        → ((cp : Checkpoint h.engine.Context) (back : h.engine.Machine)
            → restore h.engine s.timeline m k ≡ some (cp, back)
            → past.Same back (past.state cp.icount))
        → go_if r ok k m s ≡ some (s', m')
        → past.Same m' (past.state k)
    unfolding restore_state
    go_if-Same false m m' s s' law restored p = absurd (cc)
    go_if-Same true m m' s s' law restored p =
        go_from-Same s s' m m' (restore h.engine s.timeline m k) law refl
          (λ cp back q. (restore-le h.engine k s.timeline m back cp q, restored cp back q)) p

-- Going back leaves the machine that stood at the instruction, where `restore` brings back, of any
-- checkpoint, the machine that stood at its instruction.
pub go-Same :
    {h : Host} (r : Runner h) (step : ℕ → h.engine.Machine → h.engine.Machine)
    (past : History r step) (k : ℕ) (m m' : h.engine.Machine) (s s' : Session h)
    → HooksOnly r
    → Replays r step s.layers
    → ((i : ℕ) → i < k → h.pc (past.state i) ≢ 0)
    → ((cp : Checkpoint h.engine.Context) (back : h.engine.Machine)
        → restore h.engine s.timeline m k ≡ some (cp, back)
        → past.Same back (past.state cp.icount))
    → go r k m s ≡ some (s', m')
    → (check_bounds k s ≡ true) × WentTo k s s' × past.Same m' (past.state k)
unfolding go
go-Same r step past k m m' s s' only law away restored p =
    let (within, went) = go-WentTo r k m m' s s' only p in
    (within, went, go_if-Same r step past k away (check_bounds k s) m m' s s' law restored p)
