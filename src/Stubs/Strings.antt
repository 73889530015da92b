-- ===== src/Stubs/Strings.antt =====
-- What the string functions compute.
use ghidra_unicorn.Prelude.{
  nat_eq, nat_beq_iff, ℕ, zero, suc, ◌+◌, ◌*◌, ◌≤◌, ◌<◌, ◌≡◌, ◌≢◌, refl, sym, ap, subst, inl, inr,
  Option, none, some, [], ◌∷◌, ◌++◌, ◌==◌, length, length-append, All, All-append, arith,
  Bool-cases, Option-cases, some_inj,
}
use ghidra_unicorn.Engine.{Bytes}
use ghidra_unicorn.Target.{Target}
use ghidra_unicorn.Syscalls.{before_zero}
use ghidra_unicorn.Stubs.{
  World, Act, ok, failed, continue, ◌>>=◌, return, fail, given, read_raw, ended, read_chunks,
  read_cstring,
}

abbrev pub NonZero : Bytes → Type 0
NonZero = All {A = ℕ} (λ b. b ≢ 0)

-- What stands before the first zero has no zero, and is shorter than what it stands in.
before_zero-All :
    (bytes text : Bytes)
    → before_zero bytes ≡ some text
    → NonZero text × (length text < length bytes)
unfolding before_zero
before_zero-All [] text p = absurd (cc)
before_zero-All (b ∷ bytes) text p = elim (Bool-cases (b == 0)) [
  | inl q ↦
      subst (λ t. NonZero t × (length t < suc (length bytes))) (some_inj (rw q at p))
        (tt, omega arith)
  | inr q ↦ elim (Option-cases (before_zero bytes)) [
    | inl n ↦ absurd (ground arith)
    | inr (rest, n) ↦
        let below = before_zero-All bytes rest n in
        let whole : b ∷ rest ≡ text = some_inj (rw q at rw n at p) in
        subst (λ t. NonZero t × (length t < suc (length bytes))) whole
          ((λ z. ground (arith, nat_beq_iff b 0), below.0), omega (arith, below.1))
  ]
]

-- Bytes without a zero.
no_zero : (bytes : Bytes) → before_zero bytes ≡ none → NonZero bytes
unfolding before_zero
no_zero [] p = tt
no_zero (b ∷ bytes) p = elim (Bool-cases (b == 0)) [
  | inl q ↦ absurd (ground arith)
  | inr q ↦ (λ z. ground (arith, nat_beq_iff b 0), no_zero bytes (ground arith))
]

-- The chunks that the target hands out are of the length asked for.
pub record ReadLaws (g : Target) : Type 0 where
  pub read_length : (s : g.State) (a n : ℕ) (d : Bytes) → g.read s a n ≡ some d → length d ≡ n

-- A text that was read, of at most `n` bytes.
pub record Text {g : Target} (n : ℕ) (w : World g) (text : Bytes) (w' : World g) : Type 0 where
  pub unchanged : w' ≡ w
  pub no_zeros : NonZero text
  pub bounded : length text < n

ok_inj : {A : Type 0} {a b : A} → ok a ≡ ok b → a ≡ b
ok_inj p = cc

not_ok : {A : Type 0} {a : A} → failed ≡ ok a → ⊥
not_ok p = cc

given_step :
    {g : Target} (o : Option Bytes) (f : Bytes → Act g Bytes) (text : Bytes) (w w' : World g)
    → continue (given o w).0 f (given o w).1 ≡ (ok text, w')
    → (chunk : Bytes) × (o ≡ some chunk) × (f chunk w ≡ (ok text, w'))
given_step none f text w w' p = absurd (not_ok (ap (λ x. x.0) p))
given_step (some chunk) f text w w' p = (chunk, refl, p)

module _ {g : Target} (laws : ReadLaws g) where
  ended-Text :
      (n : ℕ) (out chunk : Bytes) (o : Option Bytes) (rest : Act g Bytes) (w w' : World g)
      (text : Bytes)
      → before_zero chunk ≡ o
      → NonZero out
      → length out + length chunk ≤ n
      → ((w1 : World g) (t1 : Bytes)
          → NonZero (out ++ chunk)
          → rest w ≡ (ok t1, w1)
          → Text n w t1 w1)
      → ended out o rest w ≡ (ok text, w')
      → Text n w text w'
  unfolding return
  ended-Text n out chunk (some front) rest w w' text q clean l later p =
      let below = before_zero-All chunk front q in
      let same_text : out ++ front ≡ text = ok_inj (ap (λ x. x.0) p) in
      record {
        unchanged = sym (ap (λ x. x.1) p);
        no_zeros = subst NonZero same_text (All-append (λ b. b ≢ 0) out front clean below.0);
        bounded =
            subst (λ t. length t < n) same_text
              (omega (arith, length-append out front, below.1, l));
      }
  ended-Text n out chunk none rest w w' text q clean l later p =
      later w' text (All-append (λ b. b ≢ 0) out chunk clean (no_zero chunk q)) p

  read_chunks-Text :
      (chunks address : ℕ) (out text : Bytes) (w w' : World g)
      → NonZero out
      → read_chunks chunks address out w ≡ (ok text, w')
      → Text (length out + 64 * chunks) w text w'
  unfolding read_chunks fail read_raw ◌>>=◌
  read_chunks-Text zero address out text w w' clean p = absurd (not_ok (ap (λ x. x.0) p))
  read_chunks-Text (suc chunks) address out text w w' clean p =
      let (chunk, q, p') = given_step (g.read w.state (address + length out) 64) _ text w w' p in
      let size = laws.read_length w.state (address + length out) 64 chunk q in
      ended-Text (length out + 64 * suc chunks) out chunk (before_zero chunk)
        (read_chunks chunks address (out ++ chunk)) w w' text refl clean (omega (arith, size))
        (λ w1 t1 clean' later.
          subst (λ n. Text n w t1 w1) (omega (arith, length-append out chunk, size))
            (read_chunks-Text chunks address (out ++ chunk) t1 w w1 clean' later))
        p'

-- A string that is read has no zero byte in it, is shorter than 65536 bytes, and reading it changes
-- nothing.
pub read_cstring-Text :
    {g : Target} (address : ℕ) (w w' : World g) (text : Bytes)
    → ReadLaws g
    → read_cstring address w ≡ (ok text, w')
    → Text 65536 w text w'
unfolding read_cstring
read_cstring-Text address w w' text laws p = read_chunks-Text laws 1024 address [] text w w' tt p
