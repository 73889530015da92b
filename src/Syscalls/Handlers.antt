-- ===== src/Syscalls/Handlers.antt =====
-- Every call of the Linux layer keeps the kernel's state valid.
use ghidra_unicorn.Prelude.{
  lookup-All, nat_eq, string_eq, ℕ, zero, suc, ◌+◌, ◌*◌, ◌/◌, ◌%◌, ◌≤◌, ◌≡◌, refl, Bool, true,
  false, not, ◌&&◌, ◌||◌, Option, none, some, List, [], ◌++◌, String, arith, ltb, leb, ◌==◌,
  if◌then◌else◌, lookup, erase, lookup-erase, Bool-cases, inl, inr, All,
}
use ghidra_unicorn.Engine.{Bytes}
use ghidra_unicorn.Target.{Target}
use ghidra_unicorn.Effects.{EffectLog}
use ghidra_unicorn.Syscalls.{
  page_up, ℤ, pos, negsuc, signed, OpenFile, Kernel, Machine, World, Action, pure, gets, ◌>>=◌,
  set_kernel, map, before_zero, settle, Snapshot, SyscallRecord,
}
use ghidra_unicorn.Syscalls.Calls.{
  sys_read, send, sys_write, read_word, write_buffers, sys_writev, read_chunks, read_cstring,
  sys_open, sys_openat, sys_close, position, seek_to, sys_lseek, except, copy_in, map_at, sys_mmap,
  read_words, sys_old_mmap, sys_munmap, after_map, move_break, sys_brk, sys_getpid, sys_exit,
  handlers,
}
use ghidra_unicorn.Syscalls.Arena.{
  IsValid, le-page_up, Keeps, with_files-IsValid, same-Keeps, alone, bind-Keeps, if-Keeps,
  arg-Keeps, write_mem-Keeps, map-Keeps, unmap-Keeps, file-Keeps, read_mem-Keeps, seek-Keeps,
  free_span-Keeps, open_file-Keeps,
}

-- A break within its arena, over memory that is mapped.
break-IsValid :
    (k : Kernel) (want top : ℕ)
    → IsValid k
    → k.brk_base ≤ want
    → want ≤ k.brk_base + k.brk_size
    → want ≤ top
    → IsValid (record k { brk_mapped = top; brk_current = want })
break-IsValid k want top h l u b = record {
  mmap_low = h.mmap_low;
  mmap_high = h.mmap_high;
  brk_low = l;
  brk_high = u;
  brk_backed = b;
  descriptors = h.descriptors;
}

module _ {g : Target} where
  except-Keeps : {A : Type 0} {m : Action g A} (name : String) → Keeps m → Keeps (except m name)
  except-Keeps name h = record { keeps = λ w v. h.keeps w v }

  sys_read-Keeps : (args : List ℕ) → Keeps (sys_read {g = g} args)
  unfolding sys_read
  sys_read-Keeps args = bind-Keeps (arg-Keeps args 0) (λ fd. bind-Keeps (arg-Keeps args 1) (λ buf.
      bind-Keeps (arg-Keeps args 2) (λ count. bind-Keeps (file-Keeps fd) (λ f.
        bind-Keeps alone (λ _.
          bind-Keeps (seek-Keeps fd _) (λ _. bind-Keeps (write_mem-Keeps buf _) (λ _. alone)))))))

  send-Keeps : (r : Option ℕ) (bytes : Bytes) → Keeps (send {g = g} r bytes)
  send-Keeps none bytes = alone
  send-Keeps (some n) bytes = same-Keeps (λ w. refl)

  sys_write-Keeps : (args : List ℕ) → Keeps (sys_write {g = g} args)
  unfolding sys_write
  sys_write-Keeps args = bind-Keeps (arg-Keeps args 0) (λ fd. bind-Keeps (arg-Keeps args 1) (λ buf.
      bind-Keeps (arg-Keeps args 2) (λ count. bind-Keeps (file-Keeps fd) (λ f.
        bind-Keeps alone (λ _.
          bind-Keeps (if-Keeps (count == 0) alone (read_mem-Keeps buf count))
            (λ bytes. bind-Keeps (send-Keeps f.sink bytes) (λ _. alone)))))))

  read_word-Keeps : (m : Machine) (a : ℕ) → Keeps (read_word {g = g} m a)
  unfolding read_word
  read_word-Keeps m a = bind-Keeps alone (λ _. alone)

  write_buffers-Keeps :
      (m : Machine) (f : OpenFile) (iov total count : ℕ)
      → Keeps (write_buffers {g = g} m f iov total count)
  unfolding write_buffers
  write_buffers-Keeps m f iov total zero = alone
  write_buffers-Keeps m f iov total (suc count) = bind-Keeps (read_word-Keeps m iov) (λ base.
      bind-Keeps (read_word-Keeps m (iov + m.ptr_size)) (λ size.
        bind-Keeps
          (if-Keeps (size == 0) alone
            (bind-Keeps (read_mem-Keeps base size) (λ bytes. send-Keeps f.sink bytes)))
          (λ _. write_buffers-Keeps m f (iov + 2 * m.ptr_size) (total + size) count)))

  sys_writev-Keeps : (m : Machine) (args : List ℕ) → Keeps (sys_writev {g = g} m args)
  unfolding sys_writev
  sys_writev-Keeps m args = bind-Keeps (arg-Keeps args 0) (λ fd.
      bind-Keeps (arg-Keeps args 1) (λ iov. bind-Keeps (arg-Keeps args 2) (λ count.
        bind-Keeps (file-Keeps fd) (λ f.
          bind-Keeps alone (λ _. bind-Keeps alone (λ _. write_buffers-Keeps m f iov 0 count))))))

  chunk-Keeps :
      (rest : Action g Bytes) (found : Option Bytes) (out : Bytes)
      → Keeps rest
      → Keeps {g = g} (elim found [ none ↦ rest | some start ↦ pure (out ++ start) ])
  chunk-Keeps rest none out h = h
  chunk-Keeps rest (some start) out h = alone

  read_chunks-Keeps : (n a : ℕ) (out : Bytes) → Keeps (read_chunks {g = g} n a out)
  unfolding read_chunks
  read_chunks-Keeps zero a out = alone
  read_chunks-Keeps (suc n) a out =
      bind-Keeps alone (λ chunk.
        chunk-Keeps _ (before_zero chunk) out (read_chunks-Keeps n (a + 64) (out ++ chunk)))

  read_cstring-Keeps : (m : Machine) (a : ℕ) → Keeps (read_cstring {g = g} m a)
  unfolding read_cstring
  read_cstring-Keeps m a = bind-Keeps (read_chunks-Keeps 64 a []) (λ _. alone)

  sys_open-Keeps : (m : Machine) (args : List ℕ) → Keeps (sys_open {g = g} m args)
  unfolding sys_open
  sys_open-Keeps m args =
      bind-Keeps (arg-Keeps args 0)
        (λ a. bind-Keeps (read_cstring-Keeps m a) (λ path. open_file-Keeps path))

  sys_openat-Keeps : (m : Machine) (args : List ℕ) → Keeps (sys_openat {g = g} m args)
  unfolding sys_openat
  sys_openat-Keeps m args =
      bind-Keeps (arg-Keeps args 1)
        (λ a. bind-Keeps (read_cstring-Keeps m a) (λ path. open_file-Keeps path))

  close-Keeps : (fd : ℕ) → Keeps {g = g} (set_kernel (λ k. record k { files = erase fd k.files }))
  close-Keeps fd = record {
    keeps = λ w h.
        with_files-IsValid w.kernel (erase fd w.kernel.files) w.kernel.next_fd h
          (λ i f p. h.descriptors i f (ground (arith, lookup-erase fd i w.kernel.files)));
  }

  sys_close-Keeps : (args : List ℕ) → Keeps (sys_close {g = g} args)
  unfolding sys_close
  sys_close-Keeps args = bind-Keeps (arg-Keeps args 0) (λ fd.
      bind-Keeps (file-Keeps fd)
        (λ f. if-Keeps (leb fd 2) alone (bind-Keeps (close-Keeps fd) (λ _. alone))))

  position-Keeps :
      (f : OpenFile) (offset : ℤ) (whence : ℕ) → Keeps (position {g = g} f offset whence)
  unfolding position
  position-Keeps f offset whence =
      if-Keeps (whence == 0) alone
        (if-Keeps (whence == 1) alone (if-Keeps (whence == 2) alone alone))

  seek_to-Keeps : (fd : ℕ) (place : Option ℕ) → Keeps (seek_to {g = g} fd place)
  seek_to-Keeps fd none = alone
  seek_to-Keeps fd (some offset) = bind-Keeps (seek-Keeps fd offset) (λ _. alone)

  sys_lseek-Keeps : (m : Machine) (args : List ℕ) → Keeps (sys_lseek {g = g} m args)
  unfolding sys_lseek
  sys_lseek-Keeps m args = bind-Keeps (arg-Keeps args 0) (λ fd.
      bind-Keeps (arg-Keeps args 1) (λ offset. bind-Keeps (arg-Keeps args 2) (λ whence.
        bind-Keeps (file-Keeps fd) (λ f. bind-Keeps alone (λ _.
          bind-Keeps (position-Keeps f (signed offset m.bits) whence)
            (λ place. seek_to-Keeps fd place))))))

  copy_in-Keeps : (start size : ℕ) (fd : ℤ) → Keeps (copy_in {g = g} start size fd)
  unfolding copy_in
  copy_in-Keeps start size (negsuc n) = alone
  copy_in-Keeps start size (pos fd) =
      bind-Keeps (file-Keeps fd) (λ f. bind-Keeps (write_mem-Keeps start _) (λ _. alone))

  map_at-Keeps :
      (start size perms flags : ℕ) (fd : ℤ) → Keeps (map_at {g = g} start size perms flags fd)
  unfolding map_at
  map_at-Keeps start size perms flags fd =
      bind-Keeps (except-Keeps _ (map-Keeps start size perms))
        (λ _. if-Keeps (flags / 32 % 2 == 1) alone (copy_in-Keeps start size fd))

  sys_mmap-Keeps : (args : List ℕ) → Keeps (sys_mmap {g = g} args)
  unfolding sys_mmap
  sys_mmap-Keeps args = bind-Keeps (arg-Keeps args 0) (λ addr.
      bind-Keeps (arg-Keeps args 1) (λ size. bind-Keeps (arg-Keeps args 2) (λ prot.
        bind-Keeps (arg-Keeps args 3) (λ flags. bind-Keeps (arg-Keeps args 4) (λ fd.
          bind-Keeps alone (λ _.
            if-Keeps ((flags / 16 % 2 == 1) && not (addr == 0))
              (bind-Keeps alone (λ ours. if-Keeps ours alone (map_at-Keeps _ _ _ _ _)))
              (bind-Keeps (free_span-Keeps _) (λ start. map_at-Keeps _ _ _ _ _))))))))

  read_words-Keeps : (m : Machine) (a n : ℕ) → Keeps (read_words {g = g} m a n)
  unfolding read_words
  read_words-Keeps m a zero = alone
  read_words-Keeps m a (suc n) =
      bind-Keeps (except-Keeps _ (read_word-Keeps m a))
        (λ x. bind-Keeps (read_words-Keeps m (a + m.ptr_size) n) (λ _. alone))

  sys_old_mmap-Keeps : (m : Machine) (args : List ℕ) → Keeps (sys_old_mmap {g = g} m args)
  unfolding sys_old_mmap
  sys_old_mmap-Keeps m args =
      bind-Keeps (arg-Keeps args 0)
        (λ block. bind-Keeps (read_words-Keeps m block 6) (λ words. sys_mmap-Keeps words))

  sys_munmap-Keeps : (args : List ℕ) → Keeps (sys_munmap {g = g} args)
  unfolding sys_munmap
  sys_munmap-Keeps args = bind-Keeps (arg-Keeps args 0) (λ addr.
      bind-Keeps (arg-Keeps args 1) (λ size.
        bind-Keeps alone (λ _. bind-Keeps (except-Keeps _ (unmap-Keeps _ _)) (λ _. alone))))

  after_map-IsValid :
      (r : Option (g.State × EffectLog Snapshot SyscallRecord)) (want : ℕ) (w : World g)
      → IsValid w.kernel
      → w.kernel.brk_base ≤ want
      → want ≤ w.kernel.brk_base + w.kernel.brk_size
      → IsValid (after_map (settle r w).0 want (settle r w).1).1.kernel
  unfolding ◌>>=◌
  after_map-IsValid none want w v l u = v
  after_map-IsValid (some (s, log)) want w v l u =
      break-IsValid w.kernel want (page_up want) v l u (le-page_up want)

  move_break-IsValid :
      (want : ℕ) (w : World g)
      → IsValid w.kernel
      → w.kernel.brk_base ≤ want
      → want ≤ w.kernel.brk_base + w.kernel.brk_size
      → IsValid (move_break want w).1.kernel
  unfolding move_break map ◌>>=◌
  move_break-IsValid want w v l u = elim (Bool-cases (ltb w.kernel.brk_mapped (page_up want))) [
    | inl p ↦ rw p (after_map-IsValid _ want w v l u)
    | inr p ↦
        rw p
          (break-IsValid w.kernel want w.kernel.brk_mapped v l u (ground (arith, le-page_up want)))
  ]

  brk-IsValid :
      (want : ℕ) (c : Bool) (w : World g)
      → (want == 0
          || ltb want w.kernel.brk_base
          || ltb (w.kernel.brk_base + w.kernel.brk_size) want)
        ≡ c
      → IsValid w.kernel
      → IsValid ((if c then gets (λ w. w.kernel.brk_current) else move_break want) w).1.kernel
  brk-IsValid want true w p v = v
  brk-IsValid want false w p v = move_break-IsValid want w v (ground arith) (ground arith)

  brk_from-Keeps :
      (want : ℕ)
      → Keeps {g = g} (do
        low ← gets (λ w. w.kernel.brk_base)
        high ← gets (λ w. w.kernel.brk_base + w.kernel.brk_size)
        if want == 0 || ltb want low || ltb high want
            then gets (λ w. w.kernel.brk_current)
            else move_break want)
  unfolding ◌>>=◌
  brk_from-Keeps want = record { keeps = λ w v. brk-IsValid want _ w refl v }

  sys_brk-Keeps : (args : List ℕ) → Keeps (sys_brk {g = g} args)
  unfolding sys_brk
  sys_brk-Keeps args = bind-Keeps (arg-Keeps args 0) brk_from-Keeps

  sys_getpid-Keeps : (args : List ℕ) → Keeps (sys_getpid {g = g} args)
  unfolding sys_getpid
  sys_getpid-Keeps args = alone

  sys_exit-Keeps : (m : Machine) (args : List ℕ) → Keeps (sys_exit {g = g} m args)
  unfolding sys_exit
  sys_exit-Keeps m args =
      bind-Keeps (arg-Keeps args 0) (λ status. bind-Keeps (same-Keeps (λ w. refl)) (λ _. alone))

  handlers-All :
      (m : Machine)
      → All
          (λ (h : String × (List ℕ → Action g ℕ)). (args : List ℕ) → Keeps (h.1 args))
          (handlers m)
  handlers-All m = (
    sys_read-Keeps,
    (
      sys_write-Keeps,
      (
        sys_writev-Keeps m,
        (
          sys_open-Keeps m,
          (
            sys_openat-Keeps m,
            (
              sys_close-Keeps,
              (
                sys_lseek-Keeps m,
                (
                  sys_mmap-Keeps,
                  (
                    sys_mmap-Keeps,
                    (
                      sys_old_mmap-Keeps m,
                      (
                        sys_munmap-Keeps,
                        (
                          sys_brk-Keeps,
                          (sys_getpid-Keeps, (sys_exit-Keeps m, (sys_exit-Keeps m, tt))),
                        ),
                      ),
                    ),
                  ),
                ),
              ),
            ),
          ),
        ),
      ),
    ),
  )

  -- Every handler of the table keeps a valid kernel valid, whatever its arguments and however it ends.
  pub handlers-Keeps :
      (m : Machine) (name : String) (handler : List ℕ → Action g ℕ) (args : List ℕ) (w : World g)
      → lookup name (handlers m) ≡ some handler
      → IsValid w.kernel
      → IsValid (handler args w).1.kernel
  handlers-Keeps m name handler args w p v =
      (lookup-All (λ h. (args : List ℕ) → Keeps (h args)) name (handlers m) handler (handlers-All m)
          p args).keeps
        w v
