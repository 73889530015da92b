-- ===== src/Debugger/Points/Edits.antt =====
-- The edits of the breakpoints keep the table in order and the execute breakpoints findable.
use ghidra_unicorn.Prelude.{
  nat_eq, nat_beq_iff, ℕ, ◌+◌, ◌<◌, ◌≡◌, ◌≢◌, refl, sym, ◌∙◌, ap, inl, inr, Bool, true, false, ◌&&◌,
  Option, none, some, List, String, arith, ◌==◌, if◌then◌else◌, Dict, lookup, max, insert, erase,
  lookup-insert, lookup-erase, Bool-cases, Option-cases, some_inj, through, subst,
}
use ghidra_unicorn.Debugger.{Host, Session, Breakpoint, Kind}
use ghidra_unicorn.Debugger.Points.{
  is_execute, is_memory, new_breakpoint, find_execute, add_breakpoint, add_watchpoint,
  add_register_watch, change, enable_breakpoint, set_ignore_count, set_condition, with_condition,
  set_compiled, holds, deleted, delete_breakpoint, unindexed,
}
use ghidra_unicorn.Debugger.Points.Found.{
  IsValid, Found, insert_execute-IsValid, insert_execute-Found, watch-IsValid, watch-Found,
  inserted,
}

-- What the table says of an erased key.
erased :
    {A : Type 0} (n m : ℕ) (b : A) (d : Dict ℕ A)
    → lookup m (erase n d) ≡ some b
    → (n ≢ m) × (lookup m d ≡ some b)
erased n m b d p = ground (arith, nat_beq_iff n m, lookup-erase n m d)

unindexed_inv :
    {Code : Type 0} (num : ℕ) (bp : Breakpoint Code) (by_addr : Dict ℕ ℕ) (a n : ℕ)
    → lookup a (unindexed num bp by_addr) ≡ some n
    → lookup a by_addr ≡ some n
unindexed_inv num bp by_addr a n p =
    elim (Bool-cases (is_execute bp.kind && holds num (lookup bp.address by_addr))) [
      | inl q ↦ (erased bp.address a n by_addr (rw q at p)).1
      | inr q ↦ rw q at p
    ]

not_held : (num : ℕ) (o : Option ℕ) → holds num o ≡ false → o ≢ some num
not_held num none q p = absurd (cc)
not_held num (some n) q p = ground (arith, nat_beq_iff n num)

held : (num : ℕ) (o : Option ℕ) → holds num o ≡ true → o ≡ some num
held num none q = ground arith
held num (some n) q = ground (arith, nat_beq_iff n num)

unindexed_own :
    {Code : Type 0} (num : ℕ) (bp : Breakpoint Code) (by_addr : Dict ℕ ℕ)
    → is_execute bp.kind ≡ true
    → lookup bp.address (unindexed num bp by_addr) ≢ some num
unindexed_own num bp by_addr k p = elim (Bool-cases (holds num (lookup bp.address by_addr))) [
  | inl q ↦ (erased bp.address bp.address num by_addr (rw k at rw q at p)).0 refl
  | inr q ↦
      not_held num (lookup bp.address by_addr) q (unindexed_inv num bp by_addr bp.address num p)
]

unindexed_other :
    {Code : Type 0} (num n : ℕ) (bp : Breakpoint Code) (by_addr : Dict ℕ ℕ) (a : ℕ)
    → num ≢ n
    → lookup a by_addr ≡ some n
    → lookup a (unindexed num bp by_addr) ≡ some n
unindexed_other num n bp by_addr a apart p =
    elim (Bool-cases (is_execute bp.kind && holds num (lookup bp.address by_addr))) [
      | inl q ↦ rw q (
          let mine = held num (lookup bp.address by_addr) (ground arith) in
          elim (Bool-cases (bp.address == a)) [
            | inl e ↦ absurd (
                apart (
                  some_inj (
                    sym mine
                    ∙ ap (λ x. lookup x by_addr) (ground (arith, nat_beq_iff bp.address a))
                    ∙ p)))
            | inr e ↦ ground (arith, lookup-erase bp.address a by_addr)
          ])
      | inr q ↦ rw q p
    ]

-- A change that leaves a breakpoint's number, kind and address as they are.
record Keeps {Code : Type 0} (f : Breakpoint Code → Breakpoint Code) : Type 0 where
  num : (b : Breakpoint Code) → (f b).num ≡ b.num
  kind : (b : Breakpoint Code) → (f b).kind ≡ b.kind
  address : (b : Breakpoint Code) → (f b).address ≡ b.address

module _ {h : Host} where
  deleted-IsValid :
      (num : ℕ) (bp : Breakpoint h.Code) (s : Session h)
      → lookup num s.breakpoints ≡ some bp
      → IsValid s
      → IsValid (deleted num bp s)
  unfolding deleted
  deleted-IsValid num bp s there v = record {
    numbered = λ n b p. v.numbered n b (erased num n b s.breakpoints p).1;
    indexed = λ a n p.
        let (b, at, kind, here) = v.indexed a n (unindexed_inv num bp s.by_addr a n p) in
        let apart : num ≢ n = λ e.
          let same : bp ≡ b = some_inj (sym there ∙ ap (λ m. lookup m s.breakpoints) e ∙ at) in
          unindexed_own num bp s.by_addr (subst (λ x. is_execute x.kind ≡ true) (sym same) kind) (
            subst (λ m. lookup bp.address (unindexed num bp s.by_addr) ≡ some m) (sym e)
              (subst (λ x. lookup x (unindexed num bp s.by_addr) ≡ some n)
                (sym here ∙ ap (λ x. x.address) (sym same)) p)) in
        (b, ground (arith, nat_beq_iff num n, lookup-erase num n s.breakpoints), kind, here);
  }

  deleted-Found :
      (num : ℕ) (bp : Breakpoint h.Code) (s : Session h) → Found s → Found (deleted num bp s)
  unfolding deleted
  deleted-Found num bp s f n b p k =
      let (apart, before) = erased num n b s.breakpoints p in
      unindexed_other num n bp s.by_addr b.address apart (f n b before k)

  changed-IsValid :
      (num : ℕ) (f : Breakpoint h.Code → Breakpoint h.Code) (bp : Breakpoint h.Code) (s : Session h)
      → Keeps f
      → lookup num s.breakpoints ≡ some bp
      → IsValid s
      → IsValid (record s { breakpoints = insert num (f bp) s.breakpoints })
  changed-IsValid num f bp s keeps there v = record {
    numbered = λ n b p. elim (inserted num n (f bp) b s.breakpoints p) [
      | inl (q, e) ↦
          subst (λ x. (x.num ≡ n) × (n < s.next_bp)) e
            (let old = v.numbered num bp there in
              (keeps.num bp ∙ old.0 ∙ q, subst (λ m. m < s.next_bp) q old.1))
      | inr (q, old) ↦ v.numbered n b old
    ];
    indexed = λ a n p.
        let (b, at, kind, here) = v.indexed a n p in
        elim (Bool-cases (num == n)) [
          | inl q ↦
              let e : num ≡ n = ground (arith, nat_beq_iff num n) in
              let same : b ≡ bp =
                some_inj (sym at ∙ ap (λ m. lookup m s.breakpoints) (sym e) ∙ there) in
              (
                f bp,
                ground (arith, lookup-insert num n (f bp) s.breakpoints),
                ap is_execute (keeps.kind bp) ∙ ap (λ x. is_execute x.kind) (sym same) ∙ kind,
                keeps.address bp ∙ ap (λ x. x.address) (sym same) ∙ here,
              )
          | inr q ↦ (
            b,
            ground (arith, nat_beq_iff num n, lookup-insert num n (f bp) s.breakpoints),
            kind,
            here,
          )
        ];
  }

  changed-Found :
      (num : ℕ) (f : Breakpoint h.Code → Breakpoint h.Code) (bp : Breakpoint h.Code) (s : Session h)
      → Keeps f
      → lookup num s.breakpoints ≡ some bp
      → Found s
      → Found (record s { breakpoints = insert num (f bp) s.breakpoints })
  changed-Found num f bp s keeps there found n b p k =
      elim (inserted num n (f bp) b s.breakpoints p) [
        | inl (q, e) ↦
            let old =
              found num bp there
                (sym (ap is_execute (keeps.kind bp)) ∙ ap (λ x. is_execute x.kind) e ∙ k) in
            ap (λ x. lookup x s.by_addr) (sym (ap (λ x. x.address) e) ∙ keeps.address bp)
            ∙ old
            ∙ ap some q
        | inr (q, old) ↦ found n b old k
      ]

-- One call that edits the breakpoints. A temporary breakpoint is added where no other is at its address:
-- Temporary is about the other case.
pub data Edit {h : Host} : Session h → Session h → Type 0 where
  adds : {s : Session h} (address : ℕ) → Edit s (add_breakpoint address false s).0
  adds_temporary :
      {s : Session h} (address : ℕ)
      → find_execute address s.breakpoints ≡ none
      → Edit s (add_breakpoint address true s).0
  watches :
      {s s' : Session h} (address size : ℕ) (kind : Kind) (num : ℕ)
      → add_watchpoint address size kind s ≡ some (s', num)
      → Edit s s'
  register_watches :
      {s s' : Session h} (register : String) (m : h.engine.Machine) (num : ℕ)
      → add_register_watch register m s ≡ some (s', num)
      → Edit s s'
  enables :
      {s s' : Session h} (num : ℕ) (on : Bool) → enable_breakpoint num on s ≡ some s' → Edit s s'
  ignores : {s s' : Session h} (num count : ℕ) → set_ignore_count num count s ≡ some s' → Edit s s'
  conditions :
      {s s' : Session h} (num : ℕ) (expression : Option String)
      → set_condition num expression s ≡ some s'
      → Edit s s'
  deletes : {s s' : Session h} (num : ℕ) → delete_breakpoint num s ≡ some s' → Edit s s'

-- The table is in order and every execute breakpoint is the one found at its address.
pub record Findable {h : Host} (s : Session h) : Type 0 where
  pub valid : IsValid s
  pub found : Found s

-- What an operation that fails on a test says where it returned.
checked :
    {A : Type 0} (t : Bool) (o : Option A) (a : A)
    → (if t then o else none) ≡ some a
    → (t ≡ true) × (o ≡ some a)
checked true o a p = (refl, p)
checked false o a p = absurd (cc)

memory_kind : (kind : Kind) → is_memory kind ≡ true → is_execute kind ≡ false
memory_kind kind p = ground arith

module _ {h : Host} where
  changed-Findable :
      (num : ℕ) (f : Breakpoint h.Code → Breakpoint h.Code) (s s' : Session h)
      → Keeps f
      → change num f s ≡ some s'
      → Findable s
      → Findable s'
  changed-Findable num f s s' keeps p w =
      let (bp, q, e) =
        through (lookup num s.breakpoints)
          (λ bp. record s { breakpoints = insert num (f bp) s.breakpoints }) s' p in
      subst Findable e (record {
        valid = changed-IsValid num f bp s keeps q w.valid;
        found = changed-Found num f bp s keeps q w.found;
      })

  conditioned-Findable :
      (num : ℕ) (condition : Option String) (o : Option (Option h.Code)) (s s' : Session h)
      → set_compiled num condition o s ≡ some s'
      → Findable s
      → Findable s'
  conditioned-Findable num condition none s s' p w = absurd (cc)
  conditioned-Findable num condition (some code) s s' p w =
      changed-Findable num (with_condition condition code) s s'
        (record { num = λ b. refl; kind = λ b. refl; address = λ b. refl }) p w

  added-Findable : (a : ℕ) (s : Session h) → Findable s → Findable (add_breakpoint a false s).0
  unfolding add_breakpoint
  added-Findable a s w = elim (Option-cases (find_execute a s.breakpoints)) [
    | inl q ↦ rw q (record {
      valid = insert_execute-IsValid a false s w.valid;
      found = insert_execute-Found a false s q w.found;
    })
    | inr (num, q) ↦ rw q w
  ]

  added_temporary-Findable :
      (a : ℕ) (s : Session h)
      → find_execute a s.breakpoints ≡ none
      → Findable s
      → Findable (add_breakpoint a true s).0
  unfolding add_breakpoint
  added_temporary-Findable a s q w = record {
    valid = insert_execute-IsValid a true s w.valid;
    found = insert_execute-Found a true s q w.found;
  }

  watched-Findable :
      (new : Breakpoint h.Code) (ws : List ℕ) (s : Session h)
      → new.num ≡ s.next_bp
      → is_execute new.kind ≡ false
      → Findable s
      → Findable (record s {
        next_bp = s.next_bp + 1;
        breakpoints = insert s.next_bp new s.breakpoints;
        reg_watches = ws;
      })
  watched-Findable new ws s num kind w = record {
    valid = watch-IsValid new ws s num w.valid;
    found = watch-Found new ws s kind w.found;
  }

-- An edit keeps the table in order, and every execute breakpoint found at its address. It is any call
-- that adds, changes or deletes a breakpoint, but for a temporary breakpoint that is added at the address
-- of another.
pub Edit-Findable : {h : Host} (s s' : Session h) → Edit s s' → Findable s → Findable s'
unfolding add_watchpoint add_register_watch enable_breakpoint set_ignore_count set_condition
    delete_breakpoint
Edit-Findable s s' (adds a) w = added-Findable a s w
Edit-Findable s s' (adds_temporary a q) w = added_temporary-Findable a s q w
Edit-Findable s s' (watches a size kind num p) w =
    let (execute_no, p') = checked (is_memory kind) _ _ p in
    subst Findable (ap (λ x. x.0) (some_inj p')) (
      watched-Findable (new_breakpoint s.next_bp kind a (max size 1) false) s.reg_watches s refl
        (memory_kind kind execute_no) w)
Edit-Findable {h = h} s s' (register_watches register m num p) w =
    let (value, q, e) = through (h.reg_read m register) _ _ p in
    subst Findable (ap (λ x. x.0) e) (watched-Findable _ _ s refl refl w)
Edit-Findable s s' (enables num on p) w =
    changed-Findable num _ s s' (record { num = λ b. refl; kind = λ b. refl; address = λ b. refl })
      p w
Edit-Findable s s' (ignores num count p) w =
    changed-Findable num _ s s' (record { num = λ b. refl; kind = λ b. refl; address = λ b. refl })
      p w
Edit-Findable s s' (conditions num expression p) w = conditioned-Findable num _ _ s s' p w
Edit-Findable s s' (deletes num p) w =
    let (bp, q, e) = through (lookup num s.breakpoints) _ s' p in
    subst Findable e (record {
      valid = deleted-IsValid num bp s q w.valid;
      found = deleted-Found num bp s w.found;
    })
