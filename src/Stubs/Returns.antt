-- ===== src/Stubs/Returns.antt =====
-- A call of a stub comes back to its caller.
use ghidra_unicorn.Prelude.{
  nat_eq, string_eq, ℕ, ◌+◌, ◌≡◌, refl, sym, ◌∙◌, ap, subst, Bool, true, false, Option, none, some,
  String, lookup, some_inj,
}
use ghidra_unicorn.Engine.{Bytes}
use ghidra_unicorn.Target.{Target}
use ghidra_unicorn.Abi.{Returns, via_link, via_stack}
use ghidra_unicorn.Effects.{EffectLog, finish, on_current, note_reg, set_reg, replay}
use ghidra_unicorn.Heap.Layout.{IsValid}
use ghidra_unicorn.Heap.{Snapshot}
use ghidra_unicorn.Stubs.{World, Result, ok, failed, Answer}
use ghidra_unicorn.Stubs.Functions.{Implementation, implementations}
use ghidra_unicorn.Stubs.Keeps.{Keeps, MemoryOnly, untouched, wrote, mapped, fail-Keeps}
use ghidra_unicorn.Stubs.Table.{implementations-Keeps}
use ghidra_unicorn.Stubs.Call.{
  Convention, Logged, masked, return_address, put_result, jump, returned, return_to, answered,
  finished, body, known, call_bound, on_code, arg, link_register,
}

-- The program counter and the register of the result can be written.
pub record Writable (g : Target) (c : Convention) : Type 0 where
  pub result :
      (s : g.State) (value : ℕ) → (s' : g.State) × (g.reg_write s c.abi.ret value ≡ some s')
  pub counter : (s : g.State) (value : ℕ) → (s' : g.State) × (g.reg_write s c.pc value ≡ some s')

-- What Unicorn documents of memory: writing and mapping it leaves the registers as they are.
pub record RegistersApart (g : Target) : Type 0 where
  pub writes :
      (s s' : g.State) (address : ℕ) (bytes : Bytes) (name : String)
      → g.write s address bytes ≡ some s'
      → g.reg_read s' name ≡ g.reg_read s name
  pub maps :
      (s s' : g.State) (start size perms : ℕ) (name : String)
      → g.mem_map s start size perms ≡ some s'
      → g.reg_read s' name ≡ g.reg_read s name

reg_read-MemoryOnly :
    {g : Target} (apart : RegistersApart g) (name : String) {s s' : g.State}
    → MemoryOnly g s s'
    → g.reg_read s' name ≡ g.reg_read s name
reg_read-MemoryOnly apart name untouched = refl
reg_read-MemoryOnly apart name (wrote {s' = m} {s'' = n} address bytes rest p) =
    apart.writes m n address bytes name p ∙ reg_read-MemoryOnly apart name rest
reg_read-MemoryOnly apart name (mapped {s' = m} {s'' = n} start size perms rest p) =
    apart.maps m n start size perms name p ∙ reg_read-MemoryOnly apart name rest

-- What there is, of an operation that may fail.
abbrev Some : {A : Type 0} → Option A → Type 0
Some {A = A} o = (a : A) × (o ≡ some a)

module _ (g : Target) (c : Convention) where
  -- The last that was done to the machine was to write an address to the program counter.
  pub record Jumped (ret : ℕ) (s : g.State) : Type 0 where
    pub before : g.State
    pub written : g.reg_write before c.pc ret ≡ some s

  -- Where a caller that used the link register goes on.
  abbrev pub caller : g.State → ℕ
  caller s = g.reg_read s (link_register c.abi.link) + c.abi.link_offset

  -- What a call leaves: nothing is done where no name is bound. Otherwise the machine has jumped to the
  -- caller, and the heap is in order.
  abbrev pub CallReturns : ℕ → Option String → World g → Option (World g) → Type 0
  CallReturns icount none w out = out ≡ some w
  CallReturns icount (some name) w out =
      (w' : World g) × (out ≡ some w') × IsValid w'.heap × Jumped (caller w.state) w'.state

  -- A replay and a target that halts run no stub.
  abbrev pub Comes : Bool → Bool → ℕ → ℕ → World g → Option (World g) → Type 0
  Comes true halting icount address w out = (w' : World g) × (out ≡ some w') × (w'.heap ≡ w.heap)
  Comes false true icount address w out = out ≡ some w
  Comes false false icount address w out = CallReturns icount (lookup address w.bound) w out

module _ {g : Target} (c : Convention) (wr : Writable g c) (apart : RegistersApart g) where
  -- A register is written: the machine and the log after it.
  set_reg-written :
      (name : String) (value : ℕ) (s s' : g.State) (log : EffectLog Snapshot String)
      → g.reg_write s name value ≡ some s'
      → set_reg g name value (s, log) ≡ some (s', on_current (note_reg name value) log)
  unfolding set_reg
  set_reg-written name value s s' log p =
      ap
        (λ o. elim o as (λ _. Option (Logged g)) [
          | none ↦ none
          | some x ↦ some (x, on_current (note_reg name value) log)
        ])
        p

  put_result-Some : (o : Option ℕ) (l : Logged g) → Some (put_result g c o l)
  put_result-Some none l = (l, refl)
  put_result-Some (some value) (s, log) =
      let (s', p) = wr.result s value in
      ((s', on_current (note_reg c.abi.ret value) log), set_reg-written c.abi.ret value s s' log p)

  -- A return that jumped.
  abbrev Back : ℕ → Option (Logged g) → Type 0
  Back ret o = (l : Logged g) × (o ≡ some l) × Jumped g c ret l.0

  jump-Back : (ret : ℕ) (o : Option (Logged g)) → Some o → Back ret (jump g c ret o)
  jump-Back ret none (l, p) = absurd (cc)
  jump-Back ret (some (s, log)) h =
      let (s', p) = wr.counter s ret in
      (
        (s', on_current (note_reg c.pc ret) log),
        set_reg-written c.pc ret s s' log p,
        record { before = s; written = p },
      )

  returned-Back :
      (answer : Answer) (how : Returns) (l : Logged g)
      → how ≡ via_link
      → Back (caller g c l.0) (returned g c answer (return_address g c how l))
  returned-Back answer via_link (s, log) p =
      jump-Back _ _ (put_result-Some (masked c answer) (s, log))
  returned-Back answer via_stack l p = absurd (cc)

  finished-Back :
      (ret : ℕ) (w : World g) (o : Option (Logged g))
      → IsValid w.heap
      → Back ret o
      → (w' : World g) × (finished g c w o ≡ some w') × IsValid w'.heap × Jumped g c ret w'.state
  finished-Back ret w none v (l, p, j) = absurd (cc)
  finished-Back ret w (some (s, log)) v (l, p, j) = (
    record w { state = s; log = finish log },
    refl,
    v,
    subst (λ x. Jumped g c ret x.0) (sym (some_inj p)) j,
  )

  answered-heap : (r : Result Answer) (w : World g) → (answered g c (r, w)).1.heap ≡ w.heap
  answered-heap (ok answer) w = refl
  answered-heap failed w = refl

  answered-state : (r : Result Answer) (w : World g) → (answered g c (r, w)).1.state ≡ w.state
  answered-state (ok answer) w = refl
  answered-state failed w = refl

  body-Back :
      (implementation : Implementation g) (w : World g)
      → c.abi.returns ≡ via_link
      → ((x y z : ℕ) → Keeps (implementation x y z))
      → IsValid w.heap
      → (w' : World g) × (body g c implementation w ≡ some w')
        × IsValid w'.heap
        × Jumped g c (caller g c w.state) w'.state
  unfolding return_to
  body-Back implementation w how keeps v =
      let out = implementation (arg g c 0 w.state) (arg g c 1 w.state) (arg g c 2 w.state) w in
      let after = answered g c out in
      let link_kept : caller g c after.1.state ≡ caller g c w.state =
        ap (λ s. caller g c s) (answered-state out.0 out.1)
        ∙ ap (λ n. n + c.abi.link_offset)
            (reg_read-MemoryOnly apart (link_register c.abi.link) ((keeps _ _ _).memory w)) in
      finished-Back (caller g c w.state) after.1
        (return_to g c after.0 (after.1.state, after.1.log))
        (subst IsValid (sym (answered-heap out.0 out.1)) ((keeps _ _ _).keeps w v))
        (subst (λ ret. Back ret (return_to g c after.0 (after.1.state, after.1.log))) link_kept
          (returned-Back after.0 c.abi.returns (after.1.state, after.1.log) how))

  known-Keeps :
      (o : Option (Implementation g))
      → ((implementation : Implementation g)
          → o ≡ some implementation
          → (x y z : ℕ) → Keeps (implementation x y z))
      → (x y z : ℕ) → Keeps (known g c o x y z)
  known-Keeps none keeps x y z = fail-Keeps
  known-Keeps (some implementation) keeps x y z = keeps implementation refl x y z

  call_bound-CallReturns :
      (icount : ℕ) (o : Option String) (w : World g)
      → c.abi.returns ≡ via_link
      → IsValid w.heap
      → CallReturns g c icount o w (call_bound g c icount o w)
  call_bound-CallReturns icount none w how v = refl
  call_bound-CallReturns icount (some name) w how v =
      body-Back (known g c (lookup name (implementations c.exit_text))) _ how
        (known-Keeps _
          (λ implementation p x y z. implementations-Keeps c.exit_text name implementation x y z p))
        v

-- With a link register, a call of a stub always comes back to its caller, whatever its arguments and
-- whether its implementation fails: the last that is done to the machine is to write the return address,
-- what the link register held at the call and the offset of the convention, to the program counter, and
-- the heap is in order. A replay leaves the heap as it was; a target that halts, and an address without
-- a stub, are left as they were. The program counter and the register of the result can be written, and
-- what is done to memory leaves the registers as they are.
pub on_code-Comes :
    {g : Target} (c : Convention) (replaying halting : Bool) (icount address : ℕ) (w : World g)
    → Writable g c
    → RegistersApart g
    → c.abi.returns ≡ via_link
    → IsValid w.heap
    → Comes g c replaying halting icount address w (on_code g c replaying halting icount address w)
unfolding on_code
on_code-Comes {g = g} c true halting icount address w wr apart how v =
    (record w { state = (replay g icount w.log w.state).0 }, refl, refl)
on_code-Comes c false true icount address w wr apart how v = refl
on_code-Comes c false false icount address w wr apart how v =
    call_bound-CallReturns c wr apart icount (lookup address w.bound) w how v
