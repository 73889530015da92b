-- ===== src/Debugger/Points/Found.antt =====
-- Whether an execute breakpoint of the table is found when its address is reached.
use ghidra_unicorn.Prelude.{
  nat_eq, nat_beq_iff, ℕ, ◌+◌, ◌<◌, ◌≡◌, ◌≢◌, ◌⊎◌, refl, ap, inl, inr, Bool, true, false, none,
  some, List, [], ◌∷◌, arith, ◌==◌, Dict, lookup, insert, lookup-insert, In, In-lookup, Bool-cases,
  subst,
}
use ghidra_unicorn.Debugger.{Host, Session, Breakpoint, execute}
use ghidra_unicorn.Debugger.Points.{is_execute, new_breakpoint, find_execute, insert_execute}

-- Every number is the breakpoint's own and has been given out, and an address of the index names an
-- execute breakpoint there.
pub record IsValid {h : Host} (s : Session h) : Type 0 where
  pub numbered :
      (n : ℕ) (bp : Breakpoint h.Code)
      → lookup n s.breakpoints ≡ some bp
      → (bp.num ≡ n) × (n < s.next_bp)
  pub indexed :
      (a n : ℕ)
      → lookup a s.by_addr ≡ some n
      → (bp : Breakpoint h.Code) × (lookup n s.breakpoints ≡ some bp)
        × (is_execute bp.kind ≡ true)
        × (bp.address ≡ a)

-- Every execute breakpoint is the one that the index has at its address.
abbrev pub Found : {h : Host} → Session h → Type 0
Found {h = h} s =
    (n : ℕ) (bp : Breakpoint h.Code)
    → lookup n s.breakpoints ≡ some bp
    → is_execute bp.kind ≡ true
    → lookup bp.address s.by_addr ≡ some n

pub find_execute-none :
    {Code : Type 0} (a n : ℕ) (bp : Breakpoint Code) (d : Dict ℕ (Breakpoint Code))
    → find_execute a d ≡ none
    → In (n, bp) d
    → is_execute bp.kind ≡ true
    → bp.address ≢ a
unfolding find_execute
find_execute-none a n bp [] p i k e = elim i [ ]
find_execute-none a n bp ((j, x) ∷ d) p (inl q) k e =
    let same : bp ≡ x = ap (λ r. r.1) q in
    let kind : is_execute x.kind ≡ true = subst (λ y. is_execute y.kind ≡ true) same k in
    let there : x.address ≡ a = subst (λ y. y.address ≡ a) same e in
    ground (arith, nat_beq_iff x.address a)
find_execute-none a n bp ((j, x) ∷ d) p (inr i) k e =
    find_execute-none a n bp d (ground arith) i k e

-- What a write to a table says of what it then holds.
pub inserted :
    {A : Type 0} (n m : ℕ) (a b : A) (d : Dict ℕ A)
    → lookup m (insert n a d) ≡ some b
    → (n ≡ m) × (a ≡ b) ⊎ (n ≢ m) × (lookup m d ≡ some b)
inserted n m a b d p = elim (Bool-cases (n == m)) [
  | inl q ↦ inl (ground (arith, nat_beq_iff n m, lookup-insert n m a d))
  | inr q ↦ inr (ground (arith, nat_beq_iff n m, lookup-insert n m a d))
]

pub not_both : {b : Bool} → b ≡ false → b ≡ true → ⊥
not_both p q = ground arith

module _ {h : Host} where
  put-numbered :
      (new : Breakpoint h.Code) (s : Session h)
      → IsValid s
      → new.num ≡ s.next_bp
      → (n : ℕ) (bp : Breakpoint h.Code) → lookup n (insert s.next_bp new s.breakpoints) ≡ some bp
      → (bp.num ≡ n) × (n < s.next_bp + 1)
  put-numbered new s v num n bp p = elim (inserted s.next_bp n new bp s.breakpoints p) [
    | inl (q, e) ↦
        subst (λ b. (b.num ≡ n) × (n < s.next_bp + 1)) e (omega (arith, q, num), omega (arith, q))
    | inr (q, old) ↦ let before = v.numbered n bp old in (before.0, omega (arith, before.1))
  ]

  -- What was in the table stays.
  put-keeps :
      (new : Breakpoint h.Code) (s : Session h)
      → IsValid s
      → (n : ℕ) (bp : Breakpoint h.Code) → lookup n s.breakpoints ≡ some bp
      → lookup n (insert s.next_bp new s.breakpoints) ≡ some bp
  put-keeps new s v n bp there =
      let before = v.numbered n bp there in
      ground (arith, nat_beq_iff s.next_bp n, lookup-insert s.next_bp n new s.breakpoints)

  put-there :
      (new : Breakpoint h.Code) (s : Session h)
      → lookup s.next_bp (insert s.next_bp new s.breakpoints) ≡ some new
  put-there new s =
      ground (
        arith,
        nat_beq_iff s.next_bp s.next_bp,
        lookup-insert s.next_bp s.next_bp new s.breakpoints,
      )

  pub insert_execute-IsValid :
      (a : ℕ) (t : Bool) (s : Session h) → IsValid s → IsValid (insert_execute a t s)
  unfolding insert_execute
  insert_execute-IsValid a t s v =
      let new : Breakpoint h.Code = new_breakpoint s.next_bp execute a 1 t in
      record {
        numbered = put-numbered new s v refl;
        indexed = λ b n p. elim (inserted a b s.next_bp n s.by_addr p) [
          | inl (q, e) ↦ (
            new,
            subst (λ m. lookup m (insert s.next_bp new s.breakpoints) ≡ some new) e
                (put-there new s),
            refl,
            q,
          )
          | inr (q, old) ↦
              let (bp, there, kind, at) = v.indexed b n old in
              (bp, put-keeps new s v n bp there, kind, at)
        ];
      }

  pub insert_execute-Found :
      (a : ℕ) (t : Bool) (s : Session h)
      → find_execute a s.breakpoints ≡ none
      → Found s
      → Found (insert_execute a t s)
  unfolding insert_execute
  insert_execute-Found a t s free f n bp p k =
      let new : Breakpoint h.Code = new_breakpoint s.next_bp execute a 1 t in
      elim (inserted s.next_bp n new bp s.breakpoints p) [
        | inl (q, e) ↦
            subst (λ b. lookup b.address (insert a s.next_bp s.by_addr) ≡ some n) e
              (ground (arith, nat_beq_iff a a, lookup-insert a a s.next_bp s.by_addr))
        | inr (q, old) ↦
            let apart =
              find_execute-none a n bp s.breakpoints free (In-lookup n bp s.breakpoints old) k in
            ground (
              arith,
              f n bp old k,
              nat_beq_iff a bp.address,
              lookup-insert a bp.address s.next_bp s.by_addr,
            )
      ]

  -- A watchpoint enters the table and not the index.
  pub watch-IsValid :
      (new : Breakpoint h.Code) (ws : List ℕ) (s : Session h)
      → new.num ≡ s.next_bp
      → IsValid s
      → IsValid (record s {
        next_bp = s.next_bp + 1;
        breakpoints = insert s.next_bp new s.breakpoints;
        reg_watches = ws;
      })
  watch-IsValid new ws s num v = record {
    numbered = put-numbered new s v num;
    indexed = λ b n p.
        let (bp, there, kind, at) = v.indexed b n p in (bp, put-keeps new s v n bp there, kind, at);
  }

  pub watch-Found :
      (new : Breakpoint h.Code) (ws : List ℕ) (s : Session h)
      → is_execute new.kind ≡ false
      → Found s
      → Found (record s {
        next_bp = s.next_bp + 1;
        breakpoints = insert s.next_bp new s.breakpoints;
        reg_watches = ws;
      })
  watch-Found new ws s kind f n bp p k = elim (inserted s.next_bp n new bp s.breakpoints p) [
    | inl (q, e) ↦ absurd (not_both (subst (λ b. is_execute b.kind ≡ false) e kind) k)
    | inr (q, old) ↦ f n bp old k
  ]
