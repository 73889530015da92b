-- ===== src/Coverage/Attribution.antt =====
-- A block is attributed to a span that it lies in, and to a declared module where one holds it.
use ghidra_unicorn.Prelude.{
  nat_eq, ℕ, ◌≤◌, ◌<◌, ◌≡◌, Bool, none, some, List, [], ◌∷◌, String, arith, In, inl, inr,
}
use ghidra_unicorn.Engine.{Region}
use ghidra_unicorn.Coverage.{declared_at, region_at, module_for}

declared_at-eq-some :
    (modules : List (String × ℕ × ℕ)) (address base end : ℕ)
    → declared_at modules address ≡ some (base, end)
    → (base ≤ address) × (address < end)
unfolding declared_at
declared_at-eq-some [] address base end p = absurd (cc)
declared_at-eq-some ((name, b, e) ∷ modules) address base end p =
    ground (arith, declared_at-eq-some modules address base end)

region_at-eq-some :
    (regions : List Region) (address base end : ℕ)
    → region_at regions address ≡ some (base, end)
    → (base ≤ address) × (address < end)
unfolding region_at
region_at-eq-some [] address base end p = absurd (cc)
region_at-eq-some (r ∷ regions) address base end p =
    ground (arith, region_at-eq-some regions address base end)

-- The span that a block is attributed to holds its address.
pub module_for-within :
    (modules : List (String × ℕ × ℕ)) (fallback_regions : Bool) (regions : List Region)
    (address base end : ℕ)
    → module_for modules fallback_regions regions address ≡ some (base, end)
    → (base ≤ address) × (address < end)
unfolding module_for
module_for-within modules fallback_regions regions address base end p = ground (
  arith,
  declared_at-eq-some modules address base end,
  region_at-eq-some regions address base end,
)

declared_at-none :
    (modules : List (String × ℕ × ℕ)) (name : String) (address base end : ℕ)
    → declared_at modules address ≡ none
    → In (name, base, end) modules
    → base ≤ address
    → ¬ (address < end)
unfolding declared_at
declared_at-none [] name address base end p i l u = elim i [ ]
declared_at-none ((n, b, e) ∷ modules) name address base end p (inl q) l u = ground arith
declared_at-none ((n, b, e) ∷ modules) name address base end p (inr i) l u =
    ground (arith, declared_at-none modules name address base end)

-- A block is dropped only if no declared module holds its address.
pub module_for-none :
    (modules : List (String × ℕ × ℕ)) (fallback_regions : Bool) (regions : List Region)
    (name : String) (address base end : ℕ)
    → module_for modules fallback_regions regions address ≡ none
    → In (name, base, end) modules
    → base ≤ address
    → ¬ (address < end)
unfolding module_for
module_for-none modules fallback_regions regions name address base end p i l =
    declared_at-none modules name address base end (ground arith) i l
