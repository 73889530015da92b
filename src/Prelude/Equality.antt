-- ===== src/Prelude/Equality.antt =====
-- `==` on dictionary keys: numbers and names.
use Prim.Native.Nat.{ℕ}
use Prim.Native.String.{String}
use mathlib.Core.Path.{◌≡◌}
use mathlib.Core.Logic.{◌↔◌}
use mathlib.Core.Bool.{Bool, true}
use text.Mathlib.Text.{◌==◌ as str_eq}
use text.Mathlib.TextEquality.{eq_iff}
use ghidra_unicorn.Prelude.Tests.{nat_beq, nat_beq_iff}

-- What a dict asks of its keys: a test that decides equality.
pub record Key {ℓ} (K : Type ℓ) : Type ℓ where
  pub same : K → K → Bool
  pub same_iff : (i j : K) → (same i j ≡ true) ↔ (i ≡ j)

-- The keys of the tables by number.
instance abbrev pub nat_eq : Key ℕ
nat_eq = record { same_iff = nat_beq_iff; same = nat_beq }

-- The keys of the tables by name.
instance abbrev pub string_eq : Key String
string_eq = record { same_iff = eq_iff; same = str_eq }

module _ {ℓ} {K : Type ℓ} ⦃keys : Key K⦄ where
  infix 50 ◌==◌
  abbrev pub ◌==◌ : K → K → Bool
  i == j = keys.same i j
