-- ===== src/Debugger/Points/Temporary.antt =====
-- A temporary breakpoint and the permanent one at the same address.
use ghidra_unicorn.Prelude.{
  nat_eq, nat_beq_iff, ℕ, ◌≡◌, refl, sym, ◌∙◌, ap, some_inj, through, true, none, some, arith, ◌==◌,
  Dict, lookup, insert, lookup-insert, lookup-erase,
}
use ghidra_unicorn.Debugger.{Host, Session, Breakpoint, execute}
use ghidra_unicorn.Debugger.Points.{
  new_breakpoint, unindexed, add_breakpoint, insert_execute, deleted, delete_breakpoint,
}

-- The index after a temporary breakpoint at an address has come and gone.
gone :
    (Code : Type 0) (a n : ℕ) (by_addr : Dict ℕ ℕ)
    → lookup a (unindexed n (new_breakpoint {Code = Code} n execute a 1 true) (insert a n by_addr))
      ≡ none
gone Code a n by_addr =
    let there : lookup a (insert a n by_addr) ≡ some n =
      ground (arith, nat_beq_iff a a, lookup-insert a a n by_addr) in
    let own : (n == n) ≡ true = (nat_beq_iff n n).1 refl in
    rw there (rw own (ground (arith, nat_beq_iff a a, lookup-erase a a (insert a n by_addr))))

-- Whatever breakpoints there are at an address, once a temporary one was set there and deleted again,
-- the hook finds none at it.
pub lookup-delete_breakpoint :
    {h : Host} (a : ℕ) (s s' : Session h)
    → delete_breakpoint s.next_bp (add_breakpoint a true s).0 ≡ some s'
    → lookup a s'.by_addr ≡ none
unfolding delete_breakpoint add_breakpoint insert_execute deleted
lookup-delete_breakpoint {h = h} a s s' p =
    let new : Breakpoint h.Code = new_breakpoint s.next_bp execute a 1 true in
    let after = insert s.next_bp new s.breakpoints in
    let (bp, q, e) = through (lookup s.next_bp after) _ s' p in
    let there : lookup s.next_bp after ≡ some new = ground (
      arith,
      nat_beq_iff s.next_bp s.next_bp,
      lookup-insert s.next_bp s.next_bp new s.breakpoints,
    ) in
    let same : new ≡ bp = some_inj (sym there ∙ q) in
    ap {A = Session h} (λ x. lookup a x.by_addr) (sym e)
    ∙ ap (λ b. lookup a (unindexed s.next_bp b (insert a s.next_bp s.by_addr))) (sym same)
    ∙ gone h.Code a s.next_bp s.by_addr
