-- ===== src/Timeline.antt =====
-- ghidraunicorn/timeline.py: the checkpoints, and putting the machine back to one of them.
-- The machine of a `Timeline` (`self.uc`) is passed beside it. A method that can end in folding also
-- returns the argument with which `on_forget` is called, if it is.
pub mod Touch
pub mod Images
pub mod Reading
pub mod Restore
pub mod Exact
pub mod Rewind
pub mod Tests
use ghidra_unicorn.Prelude.{
  nat_eq, ℕ, zero, suc, ◌+◌, ◌-◌, ◌*◌, ◌/◌, max, Bool, true, false, not, ◌&&◌, ◌||◌, Option, none,
  some, List, [], ◌∷◌, ◌++◌, map, ltb, leb, ◌==◌, if◌then◌else◌, length, Dict, lookup, insert,
  update, sort,
}
use ghidra_unicorn.Engine.{Bytes, page, Region, Engine}

-- `address & PAGE_MASK`
abbrev pub page_of : ℕ → ℕ
page_of a = a / page * page

pub record Checkpoint (C : Type 0) : Type 0 where
  pub icount : ℕ
  pub context : C
  pub pages : Dict ℕ Bytes
  pub regions : Option (List Region)

pub record Timeline (C : Type 0) : Type 0 where
  pub interval : ℕ
  pub budget : ℕ
  pub enabled : Bool
  pub icount : ℕ
  pub base : Option (Checkpoint C)
  pub checkpoints : List (Checkpoint C)
  pub dirty : List ℕ
  pub dropped : ℕ
  pub next : ℕ

-- A Python set of numbers.
unfoldable pub has : ℕ → List ℕ → Bool
has x [] = false
has x (y ∷ l) = y == x || has x l

unfoldable pub add : ℕ → List ℕ → List ℕ
add x l = if has x l then l else x ∷ l

-- `while page <= last: dirty.add(page); page += PAGE`
unfoldable pub add_pages : ℕ → ℕ → ℕ → List ℕ → List ℕ
add_pages zero p last dirty = dirty
add_pages (suc fuel) p last dirty =
    let rest = add_pages fuel (p + page) last (add p dirty) in if leb p last then rest else dirty

-- The pages of `[address, address + max(size, 1))`; there are at most `size + 1`.
unfoldable pub touch : ℕ → ℕ → List ℕ → List ℕ
touch address size dirty =
    add_pages (size + 2) (page_of address) (page_of (address + max size 1 - 1)) dirty

-- `range(start, stop, PAGE)`
unfoldable pub page_range : ℕ → ℕ → ℕ → List ℕ
page_range zero start stop = []
page_range (suc fuel) start stop =
    let rest = page_range fuel (start + page) stop in if ltb start stop then start ∷ rest else []

-- The addresses of `_read_all` for one region.
abbrev pub pages_of_region : Region → List ℕ
pages_of_region r = page_range (r.last + 2) (page_of r.start) (r.last + 1)

abbrev pub region_le : Region → Region → Bool
region_le a b =
    if a.start == b.start
    then (if a.last == b.last then leb a.perms b.perms else leb a.last b.last)
    else leb a.start b.start

-- `try: …` with `except UcError: pass`
abbrev pub attempt {ℓ} : {A : Type ℓ} → A → Option A → A
attempt m none = m
attempt m (some m') = m'

sum_lengths : Dict ℕ Bytes → ℕ
sum_lengths [] = 0
sum_lengths ((_, d) ∷ pages) = length d + sum_lengths pages

module _ (e : Engine) where
  open e use {
    Machine, Context, mem_read, mem_write, mem_map, mem_unmap, context_save, context_restore,
    context_size,
  }

  -- `Timeline(uc, interval, budget, enabled)`
  unfoldable pub new : ℕ → ℕ → Bool → Timeline Context
  new interval budget enabled = record {
    interval = max interval 1;
    budget = budget;
    enabled = enabled;
    icount = 0;
    base = none;
    checkpoints = [];
    dirty = [];
    dropped = 0;
    next = 0;
  }

  unfoldable pub nbytes_of : Checkpoint Context → ℕ
  unfolding sum_lengths
  nbytes_of cp = sum_lengths cp.pages + context_size cp.context

  unfoldable pub nbytes : List (Checkpoint Context) → ℕ
  nbytes [] = 0
  nbytes (cp ∷ cps) = nbytes_of cp + nbytes cps

  -- `try: pages[addr] = bytes(mem_read(addr, PAGE))` with `except UcError: pass`
  unfoldable pub read_one : Machine → ℕ → Dict ℕ Bytes → Dict ℕ Bytes
  read_one m a pages = elim (mem_read m a page) [ none ↦ pages | some d ↦ insert a d pages ]

  unfoldable pub read_list : Machine → List ℕ → Dict ℕ Bytes → Dict ℕ Bytes
  read_list m [] pages = pages
  read_list m (a ∷ l) pages = read_list m l (read_one m a pages)

  -- `_read_pages`
  unfoldable pub read_pages : Machine → List ℕ → Dict ℕ Bytes
  read_pages m addrs = read_list m (sort leb addrs) []

  unfoldable pub read_regions : Machine → List Region → Dict ℕ Bytes → Dict ℕ Bytes
  read_regions m [] pages = pages
  read_regions m (r ∷ rs) pages = read_regions m rs (read_list m (pages_of_region r) pages)

  -- `_read_all`
  unfoldable pub read_all : Machine → Dict ℕ Bytes
  read_all m = read_regions m (sort region_le (e.regions m)) []

  -- The base becomes a snapshot of `cp`.
  unfoldable pub folded : Checkpoint Context → Checkpoint Context → Checkpoint Context
  folded base cp = record {
    icount = cp.icount;
    context = cp.context;
    pages = update base.pages cp.pages;
    regions = elim cp.regions [ none ↦ base.regions | some rs ↦ some rs ];
  }

  -- The loop of `_enforce_budget`: what is left, and how many were folded.
  unfoldable pub fold_over :
      ℕ
      → ℕ
      → Checkpoint Context
      → List (Checkpoint Context)
      → Checkpoint Context × List (Checkpoint Context) × ℕ
  fold_over budget total base [] = (base, [], 0)
  fold_over budget total base (cp ∷ cps) =
      let (b, rest, n) = fold_over budget (total - nbytes_of cp) (folded base cp) cps in
      let more : Checkpoint Context × List (Checkpoint Context) × ℕ = (b, rest, suc n) in
      if ltb budget total then more else (base, cp ∷ cps, 0)

  -- `_enforce_budget`. Without a base there are no checkpoints, and nothing to fold.
  unfoldable pub enforce_budget : Timeline Context → Timeline Context × Option ℕ
  enforce_budget t = elim t.base [
    | none ↦ (t, none)
    | some base ↦
        let (b, rest, n) = fold_over t.budget (nbytes t.checkpoints) base t.checkpoints in
        (
          record t { base = some b; checkpoints = rest; dropped = t.dropped + n },
          if ltb 0 n then some b.icount else none,
        )
  ]

  -- The checkpoint of the state that the machine is in, before the budget is enforced.
  unfoldable pub taken : Timeline Context → Machine → Timeline Context
  taken t m =
      let regions = some (sort region_le (e.regions m)) in
      elim t.base [
        | none ↦ record t {
          base = some (record {
            icount = t.icount;
            context = context_save m;
            pages = read_all m;
            regions = regions;
          });
          dirty = [];
          next = t.icount + t.interval;
        }
        | some _ ↦ record t {
          checkpoints =
              t.checkpoints
              ++ record {
                icount = t.icount;
                context = context_save m;
                pages = read_pages m t.dirty;
                regions = regions;
              }
                ∷ [];
          dirty = [];
          next = t.icount + t.interval;
        }
      ]

  unfoldable pub checkpoint : Timeline Context → Machine → Timeline Context × Option ℕ
  checkpoint t m = enforce_budget (taken t m)

  unfoldable pub note_instruction : Timeline Context → Machine → Timeline Context × Option ℕ
  note_instruction t m =
      let (t', forgot) = checkpoint t m in
      if t.enabled && leb t.next t.icount
      then (record t' { icount = t'.icount + 1 }, forgot)
      else (record t { icount = t.icount + 1 }, none)

  unfoldable pub note_write : Timeline Context → ℕ → ℕ → Timeline Context
  note_write t address size =
      if t.enabled then record t { dirty = touch address size t.dirty } else t

  abbrev pub is_some {ℓ} : {A : Type ℓ} → Option A → Bool
  is_some none = false
  is_some (some _) = true

  unfoldable pub note_external_write :
      Timeline Context → Machine → ℕ → ℕ → Timeline Context × Option ℕ
  note_external_write t m address size =
      let t' = note_write t address size in
      if t.enabled then (if is_some t.base then checkpoint t' m else (t', none)) else (t, none)

  unfoldable pub note_external_change : Timeline Context → Machine → Timeline Context × Option ℕ
  note_external_change t m = if t.enabled && is_some t.base then checkpoint t m else (t, none)

  unfoldable pub uncount : Timeline Context → Timeline Context
  uncount t = if ltb 0 t.icount then record t { icount = t.icount - 1 } else t

  unfoldable pub recording : Timeline Context → Bool
  recording t = t.enabled && is_some t.base

  unfoldable pub earliest : Timeline Context → ℕ
  earliest t = elim t.base [ none ↦ t.icount | some base ↦ base.icount ]

  unfoldable pub last_of : Checkpoint Context → List (Checkpoint Context) → Checkpoint Context
  last_of best [] = best
  last_of best (cp ∷ cps) = last_of cp cps

  unfoldable pub last_checkpoint : Timeline Context → Option (Checkpoint Context)
  last_checkpoint t = elim t.base [
    | none ↦ elim t.checkpoints [ [] ↦ none | cp ∷ cps ↦ some (last_of cp cps) ]
    | some base ↦ some (last_of base t.checkpoints)
  ]

  -- The loop of `checkpoint_at_or_before`.
  unfoldable pub best_from : ℕ → Checkpoint Context → List (Checkpoint Context) → Checkpoint Context
  best_from k best [] = best
  best_from k best (cp ∷ cps) =
      let rest = best_from k cp cps in if ltb k cp.icount then best else rest

  -- `none` is `KeyError`.
  unfoldable pub checkpoint_at_or_before : Timeline Context → ℕ → Option (Checkpoint Context)
  checkpoint_at_or_before t k = elim t.base [
    | none ↦ none
    | some base ↦ if ltb k base.icount then none else some (best_from k base t.checkpoints)
  ]

  unfoldable pub kept_until : ℕ → List (Checkpoint Context) → List (Checkpoint Context)
  kept_until k [] = []
  kept_until k (cp ∷ cps) =
      let rest = kept_until k cps in if leb cp.icount k then cp ∷ rest else rest

  unfoldable pub truncate : Timeline Context → ℕ → Timeline Context
  truncate t k =
      let t' : Timeline Context = record t {
        checkpoints = kept_until k t.checkpoints;
        icount = k;
        dirty = [];
      } in
      let next = (elim (last_checkpoint t') [ none ↦ 0 | some last ↦ last.icount ]) + t.interval in
      record t' { next = if leb next k then k + t.interval else next }

  unfoldable pub advance_to : Timeline Context → ℕ → Timeline Context
  advance_to t k = record t { icount = k; next = if ltb t.next k then k else t.next }

  -- `(start, end) in want`
  unfoldable pub bounds_in : Region → List Region → Bool
  bounds_in r [] = false
  bounds_in r (s ∷ rs) = s.start == r.start && s.last == r.last || bounds_in r rs

  unfoldable pub unmap_stale : List Region → List Region → Machine → List Region → Machine
  unmap_stale want baseline m [] = m
  unmap_stale want baseline m (r ∷ rs) =
      unmap_stale want baseline
        (if not (bounds_in r want) || not (bounds_in r baseline)
          then attempt m (mem_unmap m r.start (r.last - r.start + 1))
          else m)
        rs

  unfoldable pub map_missing : List Region → Machine → List Region → Machine
  map_missing have m [] = m
  map_missing have m (r ∷ rs) =
      map_missing have
        (if bounds_in r have
          then m
          else attempt m (mem_map m r.start (r.last - r.start + 1) r.perms))
        rs

  -- `_sync_regions`
  unfoldable pub sync_regions : Timeline Context → Machine → List Region → Machine
  sync_regions t m [] = m
  sync_regions t m (r ∷ rs) =
      let baseline : List Region = elim t.base [
        | none ↦ []
        | some base ↦ elim base.regions [ none ↦ [] | some bs ↦ bs ]
      ] in
      let m' = unmap_stale (r ∷ rs) baseline m (e.regions m) in
      map_missing (e.regions m') m' (r ∷ rs)

  unfoldable pub write_pages : Machine → Dict ℕ Bytes → Machine
  write_pages m [] = m
  write_pages m ((a, d) ∷ pages) = write_pages (attempt m (mem_write m a d)) pages

  -- The deltas up to and at `k`, oldest first.
  unfoldable pub write_deltas : ℕ → Machine → List (Checkpoint Context) → Machine
  write_deltas k m [] = m
  write_deltas k m (cp ∷ cps) =
      let rest = write_deltas k (write_pages m cp.pages) cps in if ltb k cp.icount then m else rest

  -- `self._sync_regions(cp.regions if cp.regions is not None else base.regions or [])`
  unfoldable pub wanted_regions : Checkpoint Context → Checkpoint Context → List Region
  wanted_regions base cp = elim cp.regions [
    | some rs ↦ rs
    | none ↦ elim base.regions [ some rs ↦ rs | none ↦ [] ]
  ]

  unfoldable pub restore : Timeline Context → Machine → ℕ → Option (Checkpoint Context × Machine)
  restore t m k = elim t.base [
    | none ↦ none
    | some base ↦ elim (checkpoint_at_or_before t k) [
      | none ↦ none
      | some cp ↦
          let synced = sync_regions t m (wanted_regions base cp) in
          let written = write_deltas cp.icount (write_pages synced base.pages) t.checkpoints in
          some (cp, context_restore written cp.context)
    ]
  ]
