-- ===== src/Arch/Bits.antt =====
-- Setting a field of a register: what is read back, and what stays.
use native.Mathlib.Nat.{
  mul-add, mul_comm, div-add-mod, mod-lt, div-eq_of_lt, add-mul-div_left, add-mul-mod_self_left,
  mul-add-mod_self_left, mul-add-div, mod-eq_of_lt, div-lt_iff_lt-mul, two-pow-succ,
  mul-le-mul_left,
}
use ghidra_unicorn.Prelude.{
  ℕ, zero, suc, ◌+◌, ◌-◌, ◌*◌, ◌/◌, ◌%◌, ◌^◌, ◌≤◌, ◌<◌, ◌≡◌, subst, sym, ◌∙◌, ap, inl, inr, none,
  some, ltb, arith, Bool-cases, some_inj, ltb→lt,
}
use ghidra_unicorn.Arch.{get_bits, set_bits}

pow_pos : (n : ℕ) → 0 < 2 ^ n
pow_pos zero = omega arith
pow_pos (suc n) = omega (arith, pow_pos n)

-- The number with one part of it replaced: `q` above, `v` in the part and `t` below.
replaced :
    (p w value v : ℕ)
    → value - value / p % w * p + v * p ≡ value % p + p * (w * (value / p / w) + v)
replaced p w value v =
    let above : ℕ = w * (value / p / w) in
    let part : ℕ = value / p % w in
    let split : above + part ≡ value / p = div-add-mod (value / p) w in
    omega (
      arith,
      div-add-mod value p,
      ap (λ x. p * x) split,
      mul-add p above part,
      mul-add p above v,
      mul_comm part p,
      mul_comm v p,
    )

no_value : {A : Type 0} {a : A} → none ≡ some a → ⊥
no_value p = cc

add_zero : (n : ℕ) → n + 0 ≡ n
add_zero n = omega arith

set_bits_parts :
    (bit width value v value' : ℕ)
    → set_bits bit width value v ≡ some value'
    → (v < 2 ^ width)
      × (value' ≡ value % 2 ^ bit + 2 ^ bit * (2 ^ width * (value / 2 ^ bit / 2 ^ width) + v))
unfolding set_bits get_bits
set_bits_parts bit width value v value' p = elim (Bool-cases (ltb v (2 ^ width))) [
  | inl q ↦
      (ltb→lt v (2 ^ width) q, sym (some_inj (rw q at p)) ∙ replaced (2 ^ bit) (2 ^ width) value v)
  | inr q ↦ absurd (no_value (rw q at p))
]

zero_add : (n : ℕ) → 0 + n ≡ n
zero_add n = omega arith

one_mul : (n : ℕ) → n ≡ 1 * n
one_mul n = omega arith

pow_add : (a b : ℕ) → 2 ^ (a + b) ≡ 2 ^ a * 2 ^ b
pow_add zero b = ap (λ x. 2 ^ x) (zero_add b) ∙ one_mul (2 ^ b)
pow_add (suc a) b =
    let twice : 2 ^ suc a * 2 ^ b ≡ 2 ^ b * 2 ^ a + 2 ^ b * 2 ^ a =
      mul_comm (2 ^ suc a) (2 ^ b)
      ∙ ap (λ x. 2 ^ b * x) (two-pow-succ a)
      ∙ mul-add (2 ^ b) (2 ^ a) (2 ^ a) in
    let one : 2 ^ suc (a + b) ≡ 2 ^ (a + b) + 2 ^ (a + b) = two-pow-succ (a + b) in
    let same : 2 ^ (suc a + b) ≡ 2 ^ suc (a + b) = ap (λ x. 2 ^ x) (omega arith) in
    omega (arith, twice, one, same, pow_add a b, mul_comm (2 ^ a) (2 ^ b))

-- A number of three parts is bounded where its parts are.
bounded :
    (p w r t above v new size : ℕ)
    → t < p
    → v < w
    → above < r
    → new ≡ t + p * (w * above + v)
    → size ≡ r * w * p
    → new < size
bounded p w r t above v new size tp vw ar e whole =
    let upper : w * (above + 1) ≤ w * r = mul-le-mul_left w (omega (arith, ar)) in
    let step : w * above + v + 1 ≤ w * r = omega (arith, upper, vw, mul-add w above 1) in
    let scaled : p * (w * above + v + 1) ≤ p * (w * r) = mul-le-mul_left p step in
    let order : r * w * p ≡ p * (w * r) = mul_comm (r * w) p ∙ ap (λ x. p * x) (mul_comm r w) in
    omega (arith, scaled, mul-add p (w * above + v) 1, tp, e, whole, order)

-- What a field was set to is what it reads, and the bits below it and above it stay as they were.
pub get_bits-set_bits :
    (bit width value v value' : ℕ)
    → set_bits bit width value v ≡ some value'
    → (get_bits bit width value' ≡ v)
      × (value' % 2 ^ bit ≡ value % 2 ^ bit)
      × (value' / 2 ^ bit / 2 ^ width ≡ value / 2 ^ bit / 2 ^ width)
unfolding get_bits
get_bits-set_bits bit width value v value' p =
    let parts = set_bits_parts bit width value v value' p in
    let above : ℕ = value / 2 ^ bit / 2 ^ width in
    let upper : value' / 2 ^ bit ≡ 2 ^ width * above + v =
      ap (λ x. x / 2 ^ bit) parts.1
      ∙ add-mul-div_left (value % 2 ^ bit) (2 ^ width * above + v) (pow_pos bit)
      ∙ ap (λ x. x + (2 ^ width * above + v)) (div-eq_of_lt (mod-lt value (pow_pos bit)))
      ∙ zero_add (2 ^ width * above + v) in
    (
      ap (λ x. x % 2 ^ width) upper
          ∙ mul-add-mod_self_left (2 ^ width) above v
          ∙ mod-eq_of_lt parts.0,
      ap (λ x. x % 2 ^ bit) parts.1
          ∙ add-mul-mod_self_left (value % 2 ^ bit) (2 ^ bit) (2 ^ width * above + v)
          ∙ mod-eq_of_lt (mod-lt value (pow_pos bit)),
      ap (λ x. x / 2 ^ width) upper
          ∙ mul-add-div (pow_pos width) above v
          ∙ ap (λ x. above + x) (div-eq_of_lt parts.0)
          ∙ add_zero above,
    )

-- A field that lies in a register keeps the register's value in its width.
pub set_bits-lt :
    (bit width value v value' size : ℕ)
    → set_bits bit width value v ≡ some value'
    → bit + width ≤ size
    → value < 2 ^ size
    → value' < 2 ^ size
set_bits-lt bit width value v value' size p inside fits =
    let parts = set_bits_parts bit width value v value' p in
    let rest : ℕ = size - (bit + width) in
    let above : ℕ = value / 2 ^ bit / 2 ^ width in
    let whole : 2 ^ size ≡ 2 ^ rest * 2 ^ width * 2 ^ bit =
      ap (λ x. 2 ^ x) (omega (arith, inside))
      ∙ pow_add (rest + width) bit
      ∙ ap (λ x. x * 2 ^ bit) (pow_add rest width) in
    let low : above < 2 ^ rest =
      (div-lt_iff_lt-mul (pow_pos width)).1
        ((div-lt_iff_lt-mul (pow_pos bit)).1 (subst (λ x. value < x) whole fits)) in
    bounded (2 ^ bit) (2 ^ width) (2 ^ rest) (value % 2 ^ bit) above v value' (2 ^ size)
      (mod-lt value (pow_pos bit)) parts.0 low parts.1 whole
