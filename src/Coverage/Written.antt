-- ===== src/Coverage/Written.antt =====
-- The tables that `to_writer` builds.
use ghidra_unicorn.Prelude.{
  nat_eq, ℕ, zero, suc, ◌+◌, ◌-◌, ◌%◌, ◌^◌, ◌≤◌, ◌<◌, ◌≡◌, refl, ◌∙◌, subst, inl, inr, Bool, ◌&&◌,
  Option, none, some, List, [], ◌∷◌, ◌++◌, String, leb, leb→le, ◌==◌, length, All, arith,
  Bool-cases, some_inj, nat_beq_iff, sort,
}
use native.Mathlib.Nat.{mod-le}
use ghidra_unicorn.Engine.{Region}
use ghidra_unicorn.Coverage.{
  Module, Building, add_module, add_block, has_block, module_for, id_of, declare, declare_all,
  known_or_declared, block_in, add_to_span, add_blocks, block_le, to_writer,
}
use ghidra_unicorn.Coverage.Attribution.{module_for-within}

unfoldable pub nth : ℕ → List Module → Option Module
nth i [] = none
nth zero (m ∷ modules) = some m
nth (suc i) (m ∷ modules) = nth i modules

nth-append : (i : ℕ) (l r : List Module) (m : Module) → nth i l ≡ some m → nth i (l ++ r) ≡ some m
unfolding nth
nth-append i [] r m p = absurd (cc)
nth-append zero (x ∷ l) r m p = p
nth-append (suc i) (x ∷ l) r m p = nth-append i l r m p

nth-length : (l : List Module) (m : Module) → nth (length l) (l ++ m ∷ []) ≡ some m
unfolding nth
nth-length [] m = refl
nth-length (x ∷ l) m = nth-length l m

-- The module of an id has the span.
pub record Spans (modules : List Module) (base end id : ℕ) : Type 0 where
  pub found : Module
  pub there : nth id modules ≡ some found
  pub base_same : found.base ≡ base
  pub end_same : found.end ≡ end

-- The module that a block names is in the table, and the block begins inside it.
pub record Lies (modules : List Module) (id start : ℕ) : Type 0 where
  pub found : Module
  pub there : nth id modules ≡ some found
  pub inside : found.base + start < found.end

abbrev pub IdsSpan : List Module → List (ℕ × ℕ × ℕ) → Type 0
IdsSpan modules = All {A = ℕ × ℕ × ℕ} (λ x. Spans modules x.0 x.1 x.2)

abbrev pub BlocksLie : List Module → List (ℕ × ℕ × ℕ) → Type 0
BlocksLie modules = All {A = ℕ × ℕ × ℕ} (λ x. Lies modules x.0 x.1)

pub record IsBuilt (b : Building) : Type 0 where
  pub ids : IdsSpan b.writer.modules b.ids
  pub blocks : BlocksLie b.writer.modules b.writer.blocks

IdsSpan-append : (l r : List Module) (ids : List (ℕ × ℕ × ℕ)) → IdsSpan l ids → IdsSpan (l ++ r) ids
IdsSpan-append l r [] a = tt
IdsSpan-append l r ((base, end, id) ∷ ids) (s, a) = (
  record {
    found = s.found;
    there = nth-append id l r s.found s.there;
    base_same = s.base_same;
    end_same = s.end_same;
  },
  IdsSpan-append l r ids a,
)

BlocksLie-append :
    (l r : List Module) (blocks : List (ℕ × ℕ × ℕ)) → BlocksLie l blocks → BlocksLie (l ++ r) blocks
BlocksLie-append l r [] a = tt
BlocksLie-append l r ((id, start, size) ∷ blocks) (s, a) = (
  record { found = s.found; there = nth-append id l r s.found s.there; inside = s.inside },
  BlocksLie-append l r blocks a,
)

id_of-Spans :
    (modules : List Module) (base end id : ℕ) (ids : List (ℕ × ℕ × ℕ))
    → IdsSpan modules ids
    → id_of base end ids ≡ some id
    → Spans modules base end id
unfolding id_of
id_of-Spans modules base end id [] a p = absurd (cc)
id_of-Spans modules base end id ((b, e, i) ∷ ids) (s, a) p =
    elim (Bool-cases (b == base && e == end)) [
      | inl q ↦
          let eb : b ≡ base = ground (arith, nat_beq_iff b base) in
          let ee : e ≡ end = ground (arith, nat_beq_iff e end) in
          let same : i ≡ id = some_inj (rw q at p) in
          subst (Spans modules base end) same record {
            found = s.found;
            there = s.there;
            base_same = s.base_same ∙ eb;
            end_same = s.end_same ∙ ee;
          }
      | inr q ↦ id_of-Spans modules base end id ids a (rw q at p)
    ]

-- An id that was found or made has its span, in tables that are in order; only an empty span is refused.
abbrev pub Declared : ℕ → ℕ → Option (ℕ × Building) → Type 0
Declared base end none = end ≤ base
Declared base end (some (id, b)) = IsBuilt b × Spans b.writer.modules base end id

declare-Declared :
    (path : String) (base end : ℕ) (b : Building)
    → IsBuilt b
    → Declared base end (declare path base end b)
unfolding declare add_module
declare-Declared path base end b built = elim (Bool-cases (leb end base)) [
  | inl q ↦ rw q (leb→le end base q)
  | inr q ↦
      let id = length b.writer.modules in
      let new : Module = record { id = id; base = base; end = end; path = path } in
      let spans : Spans (b.writer.modules ++ new ∷ []) base end id = record {
        found = new;
        there = nth-length b.writer.modules new;
        base_same = refl;
        end_same = refl;
      } in
      rw q (
        record {
          ids = (spans, IdsSpan-append b.writer.modules (new ∷ []) b.ids built.ids);
          blocks = BlocksLie-append b.writer.modules (new ∷ []) b.writer.blocks built.blocks;
        },
        spans,
      )
]

-- The tables are in order, or the failure has its reason.
abbrev pub BuiltOr : Type 0 → Option Building → Type 0
BuiltOr Reason none = Reason
BuiltOr Reason (some b) = IsBuilt b

-- No declared module is empty.
abbrev pub NoneEmpty : List (String × ℕ × ℕ) → Type 0
NoneEmpty [] = Unit
NoneEmpty ((name, base, end) ∷ modules) = (base < end) × NoneEmpty modules

-- What follows a declaration finds the tables in order.
after_declare :
    (Reason : Type 0) (base end : ℕ) (next : Building → Option Building) (r : Option (ℕ × Building))
    → (end ≤ base → Reason)
    → Declared base end r
    → ((b : Building) → IsBuilt b → BuiltOr Reason (next b))
    → BuiltOr Reason (elim r [ none ↦ none | some (id, b) ↦ next b ])
after_declare Reason base end next none reason d f = reason d
after_declare Reason base end next (some (id, b)) reason d f = f b d.0

declare_all-IsBuilt :
    (Reason : Type 0) (modules : List (String × ℕ × ℕ)) (b : Building)
    → (¬ NoneEmpty modules → Reason)
    → IsBuilt b
    → BuiltOr Reason (declare_all modules b)
unfolding declare_all
declare_all-IsBuilt Reason [] b reason built = built
declare_all-IsBuilt Reason ((name, base, end) ∷ modules) b reason built =
    after_declare Reason base end (declare_all modules) (declare name base end b)
      (λ le. reason (λ full. let lt = full.0 in omega (arith, le, lt)))
      (declare-Declared name base end b built)
      (λ b' built'.
        declare_all-IsBuilt Reason modules b' (λ some_empty. reason (λ full. some_empty full.1))
          built')

known_or_declared-Declared :
    (region_name : ℕ → String) (base end : ℕ) (b : Building) (r : Option ℕ)
    → IsBuilt b
    → id_of base end b.ids ≡ r
    → Declared base end (known_or_declared region_name base end b r)
known_or_declared-Declared region_name base end b none built p =
    declare-Declared (region_name base) base end b built
known_or_declared-Declared region_name base end b (some id) built p =
    (built, id_of-Spans b.writer.modules base end id b.ids built.ids p)

block_in-IsBuilt :
    (Reason : Type 0) (address size base end : ℕ) (r : Option (ℕ × Building))
    → Declared base end r
    → base ≤ address
    → address < end
    → BuiltOr Reason (block_in address size base r)
unfolding add_block
block_in-IsBuilt Reason address size base end none d lo hi = absurd (omega (arith, d, lo, hi))
block_in-IsBuilt Reason address size base end (some (id, b)) (built, s) lo hi =
    let low = mod-le (address - base) (2 ^ 32) in
    let base_same = s.base_same in
    let end_same = s.end_same in
    let lies : Lies b.writer.modules id ((address - base) % 2 ^ 32) = record {
      found = s.found;
      there = s.there;
      inside = omega (arith, low, base_same, end_same, lo, hi);
    } in
    elim (Bool-cases (has_block (id, (address - base) % 2 ^ 32, size % 2 ^ 16) b.writer.blocks)) [
      | inl q ↦ rw q built
      | inr q ↦ rw q record { ids = built.ids; blocks = (lies, built.blocks) }
    ]

-- A span holds every address that it is the span of.
abbrev pub Within : (ℕ → Option (ℕ × ℕ)) → Type 0
Within span_of =
    (address base end : ℕ) → span_of address ≡ some (base, end) → (base ≤ address) × (address < end)

add_to_span-IsBuilt :
    (Reason : Type 0) (region_name : ℕ → String) (span_of : ℕ → Option (ℕ × ℕ)) (address size : ℕ)
    (b : Building) (span : Option (ℕ × ℕ))
    → Within span_of
    → IsBuilt b
    → span_of address ≡ span
    → BuiltOr Reason (add_to_span region_name address size b span)
unfolding add_to_span
add_to_span-IsBuilt Reason region_name span_of address size b none within built p = record {
  ids = built.ids;
  blocks = built.blocks;
}
add_to_span-IsBuilt Reason region_name span_of address size b (some (base, end)) within built p =
    let (lo, hi) = within address base end p in
    block_in-IsBuilt Reason address size base end
      (known_or_declared region_name base end b (id_of base end b.ids))
      (known_or_declared-Declared region_name base end b (id_of base end b.ids) built refl) lo hi

-- What follows a step finds the tables in order.
after :
    (Reason : Type 0) (next : Building → Option Building) (r : Option Building)
    → BuiltOr Reason r
    → ((b : Building) → IsBuilt b → BuiltOr Reason (next b))
    → BuiltOr Reason (elim r [ none ↦ none | some b ↦ next b ])
after Reason next none d f = d
after Reason next (some b) d f = f b d

add_blocks-IsBuilt :
    (Reason : Type 0) (region_name : ℕ → String) (span_of : ℕ → Option (ℕ × ℕ)) (raw : List (ℕ × ℕ))
    → Within span_of
    → (b : Building) → IsBuilt b
    → BuiltOr Reason (add_blocks region_name span_of raw b)
unfolding add_blocks
add_blocks-IsBuilt Reason region_name span_of [] within b built = built
add_blocks-IsBuilt Reason region_name span_of ((address, size) ∷ raw) within b built =
    after Reason (add_blocks region_name span_of raw)
      (add_to_span region_name address size b (span_of address))
      (add_to_span-IsBuilt Reason region_name span_of address size b (span_of address) within built
        refl)
      (add_blocks-IsBuilt Reason region_name span_of raw within)

-- `to_writer` fails only if a declared module is empty. Every block of the tables that it builds names
-- a module of the table and begins inside it, and every span with an id is that of this module.
pub to_writer-IsBuilt :
    (region_name : ℕ → String) (modules : List (String × ℕ × ℕ)) (fallback_regions : Bool)
    (regions : List Region) (raw : List (ℕ × ℕ))
    → BuiltOr (¬ NoneEmpty modules) (to_writer region_name modules fallback_regions regions raw)
unfolding to_writer
to_writer-IsBuilt region_name modules fallback_regions regions raw =
    let start : Building = record {
      writer = record { modules = []; blocks = [] };
      ids = [];
      dropped = 0;
    } in
    after (¬ NoneEmpty modules)
      (add_blocks region_name (module_for modules fallback_regions regions) (sort block_le raw))
      (declare_all modules start)
      (declare_all-IsBuilt (¬ NoneEmpty modules) modules start (λ x. x)
        record { ids = tt; blocks = tt })
      (add_blocks-IsBuilt (¬ NoneEmpty modules) region_name
        (module_for modules fallback_regions regions) (sort block_le raw)
        (λ address base end p.
          module_for-within modules fallback_regions regions address base end p))
