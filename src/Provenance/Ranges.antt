-- ===== src/Provenance/Ranges.antt =====
-- `ranges` covers exactly the offsets that it is given.
use ghidra_unicorn.Prelude.{
  nat_eq, nat_beq_iff, ℕ, zero, suc, ◌+◌, ◌≤◌, ◌≡◌, refl, ◌∙◌, Bool, false, not, ◌&&◌, ◌||◌, List,
  [], ◌∷◌, arith, ltb, leb, ◌==◌, sort, All, Bool-cases, inl, inr,
}
use ghidra_unicorn.Timeline.{has, add}
use ghidra_unicorn.Timeline.Touch.{has-add}
use ghidra_unicorn.Timeline.Reading.{has-sort}
use ghidra_unicorn.Provenance.{
  count_from, add_all, extend, runs, ranges, InputProvenance, offsets_read, read_ranges, minus,
  unread_ranges,
}

-- A run of `out` holds `x`.
abbrev pub covered : ℕ → List (ℕ × ℕ) → Bool
covered x [] = false
covered x ((a, b) ∷ out) = leb a x && leb x b || covered x out

-- A run does not end before it starts.
abbrev Runs : List (ℕ × ℕ) → Type 0
Runs = All (λ (r : ℕ × ℕ). r.0 ≤ r.1)

extend-Runs : (out : List (ℕ × ℕ)) (off : ℕ) → Runs out → Runs (extend out off)
unfolding extend
extend-Runs [] off h = (omega arith, tt)
extend-Runs ((a, b) ∷ []) off h = ground (arith, nat_beq_iff off (b + 1))
extend-Runs ((a, b) ∷ r ∷ out) off h = (h.0, extend-Runs (r ∷ out) off h.1)

covered-extend :
    (x : ℕ) (out : List (ℕ × ℕ)) (off : ℕ)
    → Runs out
    → covered x (extend out off) ≡ (off == x || covered x out)
unfolding extend
covered-extend x [] off h = ground (arith, nat_beq_iff off x)
covered-extend x ((a, b) ∷ []) off h = ground (arith, nat_beq_iff off x, nat_beq_iff off (b + 1))
covered-extend x ((a, b) ∷ r ∷ out) off h =
    let p = covered-extend x (r ∷ out) off h.1 in ground (arith, p)

covered-runs :
    (x : ℕ) (offs : List ℕ) (out : List (ℕ × ℕ))
    → Runs out
    → covered x (runs out offs) ≡ (has x offs || covered x out)
unfolding runs has
covered-runs x [] out h = refl
covered-runs x (off ∷ offs) out h =
    let p = covered-runs x offs (extend out off) (extend-Runs out off h) in
    ground (arith, p, covered-extend x out off h, nat_beq_iff off x)

has-add_all : (x : ℕ) (l set : List ℕ) → has x (add_all l set) ≡ (has x l || has x set)
unfolding add_all has
has-add_all x [] set = refl
has-add_all x (y ∷ l) set = ground (arith, has-add_all x l (add y set), has-add y x set)

-- An offset lies in one of the runs of `ranges` exactly if it is one of the offsets given.
pub covered-ranges : (x : ℕ) (offs : List ℕ) → covered x (ranges offs) ≡ has x offs
unfolding ranges has
covered-ranges x offs =
    covered-runs x (sort leb (add_all offs [])) [] tt
    ∙ ground (arith, has-sort x (add_all offs []), has-add_all x offs [])

has-minus : (x : ℕ) (l set : List ℕ) → has x (minus l set) ≡ (has x l && not (has x set))
unfolding minus has
has-minus x [] set = refl
has-minus x (y ∷ l) set = elim (Bool-cases (has y set)) [
  | inl p ↦ rw p (ground (arith, has-minus x l set, nat_beq_iff y x))
  | inr p ↦ rw p (ground (arith, has-minus x l set, nat_beq_iff y x))
]

pub has-count_from :
    (x n start : ℕ) → has x (count_from n start) ≡ (leb start x && ltb x (start + n))
unfolding count_from has
has-count_from x zero start = ground arith
has-count_from x (suc n) start = ground (arith, has-count_from x n (start + 1), nat_beq_iff start x)

-- An offset lies in one of the unread ranges exactly if it is in the buffer and in none of those read.
pub covered-unread_ranges :
    (x : ℕ) (p : InputProvenance)
    → covered x (unread_ranges p) ≡ (ltb x p.length && not (covered x (read_ranges p)))
unfolding unread_ranges read_ranges
covered-unread_ranges x p =
    covered-ranges x (minus (count_from p.length 0) (offsets_read p))
    ∙ has-minus x (count_from p.length 0) (offsets_read p)
    ∙ ground (arith, has-count_from x p.length 0, covered-ranges x (offsets_read p))
