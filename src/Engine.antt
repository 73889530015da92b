-- ===== src/Engine.antt =====
-- The Unicorn engine, which the program uses and does not contain: a parameter of the model.
-- An operation that may raise `UcError` returns an `Option`; it raises before it changes anything.
pub mod Toy
use ghidra_unicorn.Prelude.{
  ℕ, zero, suc, ◌+◌, ◌-◌, ◌%◌, ◌≤◌, ◌<◌, ◌≡◌, ◌⊎◌, ◌==◌, nat_eq, Option, none, some, List,
  if◌then◌else◌, length, In,
}

abbrev pub Bytes : Type 0
Bytes = List ℕ

abbrev pub page : ℕ
page = 4096

-- `(start, end, perms)`, the end included
pub record Region : Type 0 where
  pub start : ℕ
  pub last : ℕ
  pub perms : ℕ

pub record Engine : Type 1 where
  pub Machine : Type 0
  pub Context : Type 0
  pub regions : Machine → List Region
  pub mem_read : Machine → ℕ → ℕ → Option Bytes
  pub mem_write : Machine → ℕ → Bytes → Option Machine
  pub mem_map : Machine → ℕ → ℕ → ℕ → Option Machine
  pub mem_unmap : Machine → ℕ → ℕ → Option Machine
  pub context_save : Machine → Context
  pub context_restore : Machine → Context → Machine
  pub context_size : Context → ℕ

-- The page at an address.
abbrev pub page_at : (e : Engine) → e.Machine → ℕ → Option Bytes
page_at e m q = e.mem_read m q page

abbrev pub Aligned : ℕ → Type 0
Aligned q = q % page ≡ 0

-- What Unicorn documents of memory and contexts, as far as the history relies on it. Memory is mapped
-- in whole pages; a write succeeds where every byte is mapped, and changes no page that it does not
-- touch; a context holds no memory.
pub record EngineLaws (e : Engine) : Type 0 where
  pub read_length : (m : e.Machine) (a n : ℕ) (d : Bytes) → e.mem_read m a n ≡ some d → length d ≡ n
  pub write_page :
      (m : e.Machine) (a : ℕ) (old d : Bytes)
      → Aligned a
      → length d ≡ page
      → page_at e m a ≡ some old
      → (m' : e.Machine) × (e.mem_write m a d ≡ some m') × (page_at e m' a ≡ some d)
  pub write_unmapped :
      (m : e.Machine) (a : ℕ) (d : Bytes)
      → Aligned a
      → length d ≡ page
      → page_at e m a ≡ none
      → e.mem_write m a d ≡ none
  pub write_apart :
      (m : e.Machine) (a q : ℕ) (d : Bytes) (m' : e.Machine)
      → e.mem_write m a d ≡ some m'
      → Aligned q
      → (q + page ≤ a) ⊎ (a + length d ≤ q)
      → page_at e m' q ≡ page_at e m q
  pub write_regions :
      (m : e.Machine) (a : ℕ) (d : Bytes) (m' : e.Machine)
      → e.mem_write m a d ≡ some m'
      → e.regions m' ≡ e.regions m
  pub mapped_in_region :
      (m : e.Machine) (q : ℕ) (d : Bytes)
      → Aligned q
      → page_at e m q ≡ some d
      → (r : Region) × In r (e.regions m) × (r.start ≤ q) × (q ≤ r.last)
  pub region_aligned : (m : e.Machine) (r : Region) → In r (e.regions m) → r.start % page ≡ 0
  pub restore_page :
      (m : e.Machine) (c : e.Context) (q : ℕ) → page_at e (e.context_restore m c) q ≡ page_at e m q
  pub restore_context : (m : e.Machine) (c : e.Context) → e.context_save (e.context_restore m c) ≡ c
