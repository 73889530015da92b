-- ===== src/Syscalls/Arena.antt =====
-- The two arenas and the table of descriptors: what holds of the kernel's state between calls.
use ghidra_unicorn.Prelude.{
  nat_eq, string_eq, nat_beq_iff, ℕ, zero, suc, ◌+◌, ◌≤◌, ◌<◌, ◌≡◌, refl, sym, subst, Bool, true,
  false, Option, none, some, List, [], ◌∷◌, String, arith, ltb, ◌==◌, if◌then◌else◌, Dict, lookup,
  insert, lookup-insert, Bool-cases, inl, inr, Option-cases,
}
use ghidra_unicorn.Engine.{Bytes}
use ghidra_unicorn.Target.{Target}
use ghidra_unicorn.Effects.{EffectLog}
use ghidra_unicorn.Syscalls.{
  Snapshot, SyscallRecord, page_up, OpenFile, Kernel, Outcome, ok, syscall_error, uc_error, raised,
  World, Action, ◌>>=◌, arg, write_mem, map, unmap, read_mem, file, seek, set_offset, open_file,
  free_span, settle, continue, add_descriptor,
}

pub record IsValid (k : Kernel) : Type 0 where
  pub mmap_low : k.mmap_base ≤ k.mmap_next
  pub mmap_high : k.mmap_next ≤ k.mmap_base + k.mmap_size
  pub brk_low : k.brk_base ≤ k.brk_current
  pub brk_high : k.brk_current ≤ k.brk_base + k.brk_size
  pub brk_backed : k.brk_current ≤ k.brk_mapped
  pub descriptors : (fd : ℕ) (f : OpenFile) → lookup fd k.files ≡ some f → fd < k.next_fd

pub le-page_up : (n : ℕ) → n ≤ page_up n
unfolding page_up
le-page_up n = omega arith

-- An action that keeps the kernel valid, however it ends.
pub record Keeps {g : Target} {A : Type 0} (m : Action g A) : Type 0 where
  pub keeps : (w : World g) → IsValid w.kernel → IsValid (m w).1.kernel

-- An action that leaves the kernel alone.
pub same-Keeps :
    {g : Target} {A : Type 0} {m : Action g A}
    → ((w : World g) → (m w).1.kernel ≡ w.kernel)
    → Keeps m
same-Keeps h = record { keeps = λ w v. subst IsValid (sym (h w)) v }

pub set_offset-files :
    (fd offset i : ℕ) (files : Dict ℕ OpenFile) (f : OpenFile)
    → lookup i (set_offset fd offset files) ≡ some f
    → (f' : OpenFile) × (lookup i files ≡ some f')
unfolding set_offset
set_offset-files fd offset i files f p = elim (Option-cases (lookup fd files)) [
  | inl q ↦ (f, ground arith)
  | inr (f', q) ↦ elim (Bool-cases (fd == i)) [
    | inl e ↦ (f', ground (arith, nat_beq_iff fd i))
    | inr e ↦ (f, ground (arith, lookup-insert fd i (record f' { offset = offset }) files))
  ]
]

-- A valid kernel stays valid under a change of its files that keeps every descriptor below `next_fd`.
pub with_files-IsValid :
    (k : Kernel) (files : Dict ℕ OpenFile) (next_fd : ℕ)
    → IsValid k
    → ((fd : ℕ) (f : OpenFile) → lookup fd files ≡ some f → fd < next_fd)
    → IsValid (record k { files = files; next_fd = next_fd })
with_files-IsValid k files next_fd h d = record {
  mmap_low = h.mmap_low;
  mmap_high = h.mmap_high;
  brk_low = h.brk_low;
  brk_high = h.brk_high;
  brk_backed = h.brk_backed;
  descriptors = d;
}

reserve-IsValid :
    (k : Kernel) (next : ℕ)
    → IsValid k
    → k.mmap_next ≤ next
    → next ≤ k.mmap_base + k.mmap_size
    → IsValid (record k { mmap_next = next })
reserve-IsValid k next h l u = record {
  mmap_low = ground (arith, h.mmap_low);
  mmap_high = u;
  brk_low = h.brk_low;
  brk_high = h.brk_high;
  brk_backed = h.brk_backed;
  descriptors = h.descriptors;
}

module _ {g : Target} where
  continue-IsValid :
      {A B : Type 0} (r : Outcome A) (f : A → Action g B)
      → ((a : A) → Keeps (f a))
      → (w : World g) → IsValid w.kernel
      → IsValid (continue r f w).1.kernel
  continue-IsValid (ok a) f h w v = (h a).keeps w v
  continue-IsValid (syscall_error name) f h w v = v
  continue-IsValid uc_error f h w v = v
  continue-IsValid raised f h w v = v

  pub bind-Keeps :
      {A B : Type 0} {m : Action g A} {f : A → Action g B}
      → Keeps m
      → ((a : A) → Keeps (f a))
      → Keeps (m >>= f)
  unfolding ◌>>=◌
  bind-Keeps {m = m} {f = f} hm hf = record {
    keeps = λ w v. continue-IsValid (m w).0 f hf (m w).1 (hm.keeps w v);
  }

  pub if-Keeps :
      {A : Type 0} {m n : Action g A} (c : Bool) → Keeps m → Keeps n → Keeps (if c then m else n)
  if-Keeps true hm hn = hm
  if-Keeps false hm hn = hn

  arg-kernel : (args : List ℕ) (i : ℕ) (w : World g) → (arg args i w).1.kernel ≡ w.kernel
  unfolding arg
  arg-kernel [] i w = refl
  arg-kernel (x ∷ args) zero w = refl
  arg-kernel (x ∷ args) (suc i) w = arg-kernel args i w

  pub arg-Keeps : (args : List ℕ) (i : ℕ) → Keeps (arg {g = g} args i)
  arg-Keeps args i = same-Keeps (λ w. arg-kernel args i w)

  settle-kernel :
      (r : Option (g.State × EffectLog Snapshot SyscallRecord)) (w : World g)
      → (settle r w).1.kernel ≡ w.kernel
  settle-kernel none w = refl
  settle-kernel (some (s, log)) w = refl

  pub write_mem-Keeps : (a : ℕ) (bytes : Bytes) → Keeps (write_mem {g = g} a bytes)
  unfolding write_mem
  write_mem-Keeps a bytes = same-Keeps (λ w. settle-kernel _ w)

  pub map-Keeps : (a n p : ℕ) → Keeps (map {g = g} a n p)
  unfolding map
  map-Keeps a n p = same-Keeps (λ w. settle-kernel _ w)

  pub unmap-Keeps : (a n : ℕ) → Keeps (unmap {g = g} a n)
  unfolding unmap
  unmap-Keeps a n = same-Keeps (λ w. settle-kernel _ w)

  pub alone : {A : Type 0} {f : World g → Outcome A} → Keeps (λ w. (f w, w))
  alone = same-Keeps (λ w. refl)

  pub file-Keeps : (fd : ℕ) → Keeps (file {g = g} fd)
  unfolding file
  file-Keeps fd = same-Keeps (λ w. refl)

  pub read_mem-Keeps : (a n : ℕ) → Keeps (read_mem {g = g} a n)
  unfolding read_mem
  read_mem-Keeps a n = bind-Keeps (same-Keeps (λ w. refl)) (λ _. same-Keeps (λ w. refl))

  pub seek-Keeps : (fd offset : ℕ) → Keeps (seek {g = g} fd offset)
  seek-Keeps fd offset = record {
    keeps = λ w h.
        with_files-IsValid w.kernel (set_offset fd offset w.kernel.files) w.kernel.next_fd h
          (λ i f p.
            let (f', q) = set_offset-files fd offset i w.kernel.files f p in h.descriptors i f' q);
  }

  pub free_span-Keeps : (size : ℕ) → Keeps (free_span {g = g} size)
  unfolding free_span ◌>>=◌
  free_span-Keeps size = record {
    keeps = λ w h.
        elim (Bool-cases
          (ltb (w.kernel.mmap_base + w.kernel.mmap_size) (w.kernel.mmap_next + page_up size))) [
            | inl p ↦ rw p h
            | inr p ↦ rw p (
                reserve-IsValid w.kernel (w.kernel.mmap_next + page_up size) h (omega arith)
                  (ground arith))
          ];
  }

  add_descriptor-Keeps : (f : OpenFile) → Keeps (add_descriptor {g = g} f)
  add_descriptor-Keeps f = record {
    keeps = λ w h.
        with_files-IsValid w.kernel (insert w.kernel.next_fd f w.kernel.files)
          (w.kernel.next_fd + 1) h
          (λ i x p. elim (Bool-cases (w.kernel.next_fd == i)) [
            | inl e ↦ ground (arith, nat_beq_iff w.kernel.next_fd i)
            | inr e ↦
                let l : i < w.kernel.next_fd =
                  h.descriptors i x
                    (ground (arith, lookup-insert w.kernel.next_fd i f w.kernel.files)) in
                ground arith
          ]);
  }

  pub open_file-Keeps : (path : String) → Keeps (open_file {g = g} path)
  unfolding open_file
  open_file-Keeps path = bind-Keeps (same-Keeps (λ w. refl)) (λ bytes. add_descriptor-Keeps _)
