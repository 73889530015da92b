-- ===== src/Effects.antt =====
-- ghidraunicorn/effects.py: the log of what a layer did, to be applied again by a replay.
-- `S` is the layer's own state and `D` its `detail`. Where the log calls the layer back (`_restore`,
-- `_forget`) the model returns the argument of that call.
pub mod Entries
pub mod Cuts
pub mod Tests
use ghidra_unicorn.Prelude.{
  nat_eq, ℕ, suc, ◌+◌, Bool, true, false, Option, none, some, List, [], ◌∷◌, ◌++◌, String, ltb, leb,
  if◌then◌else◌, length, Dict, lookup, insert, erase,
}
use ghidra_unicorn.Engine.{Bytes}
use ghidra_unicorn.Target.{Target}
use ghidra_unicorn.Timeline.{attempt}

pub record Effect (S D : Type 0) : Type 0 where
  pub icount : ℕ
  pub label : String
  pub writes : List (ℕ × Bytes)
  pub maps : List (ℕ × ℕ × ℕ)
  pub unmaps : List (ℕ × ℕ)
  pub regs : List (String × ℕ)
  pub stop : Option (String × String)
  pub output : List (ℕ × Bytes)
  pub before : Option S
  pub detail : Option D

pub record EffectLog (S D : Type 0) : Type 0 where
  pub entries : List (Effect S D)
  pub by_icount : Dict ℕ (Effect S D)
  pub current : Option (Effect S D)

bytes_in : List (ℕ × Bytes) → ℕ
bytes_in [] = 0
bytes_in ((_, d) ∷ l) = length d + bytes_in l

module _ {S D : Type 0} where
  abbrev pub new_log : EffectLog S D
  new_log = record { entries = []; by_icount = []; current = none }

  -- `Effect(icount, label, before=...)`
  abbrev pub new_effect : ℕ → String → Option S → Effect S D
  new_effect icount label before = record {
    icount = icount;
    label = label;
    writes = [];
    maps = [];
    unmaps = [];
    regs = [];
    stop = none;
    output = [];
    before = before;
    detail = none;
  }

  -- `recording`, up to the `yield`
  unfoldable pub begin : ℕ → String → Option S → EffectLog S D → EffectLog S D
  begin icount label before log = record log { current = some (new_effect icount label before) }

  -- `recording`, its `finally`
  unfoldable pub finish : EffectLog S D → EffectLog S D
  finish log = elim log.current [
    | none ↦ log
    | some effect ↦ record {
      entries = log.entries ++ effect ∷ [];
      by_icount = insert effect.icount effect log.by_icount;
      current = none;
    }
  ]

  -- What is done inside `recording` is added to the current entry.
  abbrev pub on_current : (Effect S D → Effect S D) → EffectLog S D → EffectLog S D
  on_current f log = elim log.current [
    | none ↦ log
    | some effect ↦ record log { current = some (f effect) }
  ]

  unfoldable pub note_write : ℕ → Bytes → Effect S D → Effect S D
  note_write address bytes effect = record effect {
    writes = effect.writes ++ (address, bytes) ∷ [];
  }

  unfoldable pub note_reg : String → ℕ → Effect S D → Effect S D
  note_reg name value effect = record effect { regs = effect.regs ++ (name, value) ∷ [] }

  unfoldable pub note_map : ℕ → ℕ → ℕ → Effect S D → Effect S D
  note_map start size perms effect = record effect {
    maps = effect.maps ++ (start, size, perms) ∷ [];
  }

  unfoldable pub note_unmap : ℕ → ℕ → Effect S D → Effect S D
  note_unmap start size effect = record effect { unmaps = effect.unmaps ++ (start, size) ∷ [] }

  unfoldable pub output : ℕ → Bytes → EffectLog S D → EffectLog S D
  output stream bytes =
      on_current (λ effect. record effect { output = effect.output ++ (stream, bytes) ∷ [] })

  unfoldable pub stop : String → String → EffectLog S D → EffectLog S D
  stop reason description =
      on_current (λ effect. record effect { stop = some (reason, description) })

  -- An entry is popped where all after it are.
  abbrev pub cut_newest :
      ℕ → Effect S D → List (Effect S D) → List (Effect S D) → List (Effect S D) × List (Effect S D)
  cut_newest k effect [] popped =
      if leb k effect.icount then ([], effect ∷ popped) else (effect ∷ [], popped)
  cut_newest k effect (next ∷ more) popped = (effect ∷ next ∷ more, popped)

  -- The `while` of `truncate`: what stays, and what is popped off the end, oldest first.
  unfoldable pub split_newest : ℕ → List (Effect S D) → List (Effect S D) × List (Effect S D)
  split_newest k [] = ([], [])
  split_newest k (effect ∷ entries) =
      cut_newest k effect (split_newest k entries).0 (split_newest k entries).1

  -- The `while` of `forget_before`: what is popped off the front, and what stays.
  unfoldable pub split_oldest : ℕ → List (Effect S D) → List (Effect S D) × List (Effect S D)
  split_oldest k [] = ([], [])
  split_oldest k (effect ∷ entries) =
      let (popped, kept) = split_oldest k entries in
      let more : List (Effect S D) × List (Effect S D) = (effect ∷ popped, kept) in
      if ltb effect.icount k then more else ([], effect ∷ entries)

  unfoldable pub unindex : List (Effect S D) → Dict ℕ (Effect S D) → Dict ℕ (Effect S D)
  unindex [] index = index
  unindex (effect ∷ entries) index = unindex entries (erase effect.icount index)

  abbrev pub before_of : List (Effect S D) → Option S
  before_of [] = none
  before_of (effect ∷ _) = effect.before

  -- The log, and the state with which `_restore` is called.
  unfoldable pub truncate : ℕ → EffectLog S D → EffectLog S D × Option S
  truncate k log =
      let (kept, popped) = split_newest k log.entries in
      (record log { entries = kept; by_icount = unindex popped log.by_icount }, before_of popped)

  -- The log, and the argument with which `_forget` is called, if it is.
  unfoldable pub forget_before : ℕ → EffectLog S D → EffectLog S D × Option (Option S)
  forget_before earliest log =
      let (popped, kept) = split_oldest earliest log.entries in
      (
        record log { entries = kept; by_icount = unindex popped log.by_icount },
        elim popped [ [] ↦ none | _ ∷ _ ↦ some (before_of kept) ],
      )

  unfoldable pub effect_nbytes : Effect S D → ℕ
  unfolding bytes_in
  effect_nbytes effect = bytes_in effect.writes + bytes_in effect.output

module _ (g : Target) where
  open g use {State, mem_write, reg_write, mem_map, mem_unmap}

  -- The four loops of `replay`, each with its `except: pass`.
  unfoldable pub replay_maps : List (ℕ × ℕ × ℕ) → State → State
  replay_maps [] s = s
  replay_maps ((start, size, perms) ∷ l) s = replay_maps l (attempt s (mem_map s start size perms))

  unfoldable pub replay_unmaps : List (ℕ × ℕ) → State → State
  replay_unmaps [] s = s
  replay_unmaps ((start, size) ∷ l) s = replay_unmaps l (attempt s (mem_unmap s start size))

  unfoldable pub replay_writes : List (ℕ × Bytes) → State → State
  replay_writes [] s = s
  replay_writes ((address, bytes) ∷ l) s = replay_writes l (attempt s (mem_write s address bytes))

  unfoldable pub replay_regs : List (String × ℕ) → State → State
  replay_regs [] s = s
  replay_regs ((name, value) ∷ l) s = replay_regs l (attempt s (reg_write s name value))

-- The log's operations on the machine.
module _ (g : Target) {S D : Type 0} where
  open g use {State, write, reg_write, mem_map, mem_unmap}

  unfoldable pub write_mem : ℕ → Bytes → State × EffectLog S D → Option (State × EffectLog S D)
  write_mem address [] (s, log) = some (s, log)
  write_mem address (x ∷ xs) (s, log) = elim (write s address (x ∷ xs)) [
    | none ↦ none
    | some s' ↦ some (s', on_current (note_write address (x ∷ xs)) log)
  ]

  unfoldable pub set_reg : String → ℕ → State × EffectLog S D → Option (State × EffectLog S D)
  set_reg name value (s, log) = elim (reg_write s name value) [
    | none ↦ none
    | some s' ↦ some (s', on_current (note_reg name value) log)
  ]

  unfoldable pub map : ℕ → ℕ → ℕ → State × EffectLog S D → Option (State × EffectLog S D)
  map start size perms (s, log) = elim (mem_map s start size perms) [
    | none ↦ none
    | some s' ↦ some (s', on_current (note_map start size perms) log)
  ]

  unfoldable pub unmap : ℕ → ℕ → State × EffectLog S D → Option (State × EffectLog S D)
  unmap start size (s, log) = elim (mem_unmap s start size) [
    | none ↦ none
    | some s' ↦ some (s', on_current (note_unmap start size) log)
  ]

  unfoldable pub apply : Effect S D → State → State
  apply effect s =
      replay_regs g effect.regs (
        replay_writes g effect.writes (replay_unmaps g effect.unmaps (replay_maps g effect.maps s)))

  -- The state, and the effect if there was one.
  unfoldable pub replay : ℕ → EffectLog S D → State → State × Option (Effect S D)
  replay icount log s = elim (lookup icount log.by_icount) [
    | none ↦ (s, none)
    | some effect ↦ (apply effect s, some effect)
  ]
