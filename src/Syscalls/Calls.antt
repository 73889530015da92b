-- ===== src/Syscalls/Calls.antt =====
-- The calls of the Linux layer: the `sys_*` handlers of ghidraunicorn/syscalls.py, and the trap itself.
use ghidra_unicorn.Prelude.{
  nat_eq, string_eq, ℕ, zero, suc, ◌+◌, ◌-◌, ◌*◌, ◌/◌, ◌%◌, not, ◌&&◌, ◌||◌, Option, none, some,
  List, [], ◌∷◌, ◌++◌, String, ltb, leb, ◌==◌, if◌then◌else◌, length, take, drop, Dict, erase,
}
use ghidra_unicorn.Engine.{Bytes}
use ghidra_unicorn.Target.{Target}
use ghidra_unicorn.Syscalls.{
  iov_max, page_up, page_down, ℤ, pos, negsuc, offset_from, signed, OpenFile, writable, Outcome, ok,
  syscall_error, uc_error, raised, Machine, from_little, from_big, before_zero, Action, pure, raise,
  gets, ◌>>=◌, ◌>>◌, raise_if, set_kernel, stop_at_exit, arg, write_mem, map, unmap, target_read,
  read_mem, sink_bytes, file, seek, open_file, free_span, mapped,
}

-- An `except UcError` that reports another error.
abbrev pub instead : {A : Type 0} → Outcome A → Outcome A → Outcome A
instead (ok a) error = ok a
instead (syscall_error name) error = syscall_error name
instead uc_error error = error
instead raised error = raised

module _ {g : Target} where
  unfoldable pub sys_read : List ℕ → Action g ℕ
  sys_read args = do
    fd ← arg args 0
    buf ← arg args 1
    count ← arg args 2
    f ← file fd
    raise_if (writable f) "EBADF"
    let bytes = take count (drop f.offset f.bytes)
    seek fd (f.offset + length bytes)
    write_mem buf bytes
    pure (length bytes)

  -- `f.sink(bytes)`
  abbrev pub send : Option ℕ → Bytes → Action g (Unit {0})
  send none bytes w = (raised, w)
  send (some stream) bytes w = sink_bytes stream bytes w

  unfoldable pub sys_write : List ℕ → Action g ℕ
  sys_write args = do
    fd ← arg args 0
    buf ← arg args 1
    count ← arg args 2
    f ← file fd
    raise_if (not (writable f)) "EBADF"
    bytes ← (if count == 0 then pure [] else read_mem buf count)
    send f.sink bytes
    pure (length bytes)

  unfoldable pub read_word : Machine → ℕ → Action g ℕ
  read_word m address = do
    bytes ← target_read address m.ptr_size
    pure (if m.big_endian then from_big 0 bytes else from_little bytes)

  -- The loop of `sys_writev`, over the `count` buffers that are left.
  unfoldable pub write_buffers : Machine → OpenFile → ℕ → ℕ → ℕ → Action g ℕ
  write_buffers m f iov total zero = pure total
  write_buffers m f iov total (suc count) = do
    base ← read_word m iov
    size ← read_word m (iov + m.ptr_size)
    (if size == 0 then pure tt else (do bytes ← read_mem base size; send f.sink bytes))
    write_buffers m f (iov + 2 * m.ptr_size) (total + size) count

  unfoldable pub sys_writev : Machine → List ℕ → Action g ℕ
  sys_writev m args = do
    fd ← arg args 0
    iov ← arg args 1
    count ← arg args 2
    f ← file fd
    raise_if (not (writable f)) "EBADF"
    raise_if (ltb iov_max count) "EINVAL"
    write_buffers m f iov 0 count

  -- The loop of `read_cstring`, with its `limit` of 4096 bytes in chunks of 64: `rounds` are left.
  unfoldable pub read_chunks : ℕ → ℕ → Bytes → Action g Bytes
  read_chunks zero address out = pure out
  read_chunks (suc rounds) address out = do
    chunk ← target_read address 64
    elim (before_zero chunk) [
      | none ↦ read_chunks rounds (address + 64) (out ++ chunk)
      | some start ↦ pure (out ++ start)
    ]

  unfoldable pub read_cstring : Machine → ℕ → Action g String
  read_cstring m address = do out ← read_chunks 64 address []; pure (m.decode out)

  unfoldable pub sys_open : Machine → List ℕ → Action g ℕ
  sys_open m args = do address ← arg args 0; path ← read_cstring m address; open_file path

  unfoldable pub sys_openat : Machine → List ℕ → Action g ℕ
  sys_openat m args = do address ← arg args 1; path ← read_cstring m address; open_file path

  unfoldable pub sys_close : List ℕ → Action g ℕ
  sys_close args = do
    fd ← arg args 0
    f ← file fd
    if leb fd 2
        then pure 0
        else (do set_kernel (λ k. record k { files = erase fd k.files }); pure 0)

  -- The position that `lseek` asks for: `none` where it is negative.
  unfoldable pub position : OpenFile → ℤ → ℕ → Action g (Option ℕ)
  position f offset whence =
      if whence == 0
      then pure (offset_from 0 offset)
      else if whence == 1
      then pure (offset_from f.offset offset)
      else if whence == 2
      then pure (offset_from (length f.bytes) offset)
      else raise "EINVAL"

  abbrev pub seek_to : ℕ → Option ℕ → Action g ℕ
  seek_to fd none = raise "EINVAL"
  seek_to fd (some offset) = do seek fd offset; pure offset

  unfoldable pub sys_lseek : Machine → List ℕ → Action g ℕ
  sys_lseek m args = do
    fd ← arg args 0
    offset ← arg args 1
    whence ← arg args 2
    f ← file fd
    raise_if (writable f) "ESPIPE"
    place ← position f (signed offset m.bits) whence
    seek_to fd place

  abbrev pub except : {A : Type 0} → Action g A → String → Action g A
  except m name w = (instead (m w).0 (syscall_error name), (m w).1)

  -- The file that an `mmap` copies in, if the descriptor is one.
  unfoldable pub copy_in : ℕ → ℕ → ℤ → Action g ℕ
  copy_in start size (negsuc n) = pure start
  copy_in start size (pos fd) = do f ← file fd; write_mem start (take size f.bytes); pure start

  -- What `mmap` does where it has chosen an address.
  unfoldable pub map_at : ℕ → ℕ → ℕ → ℕ → ℤ → Action g ℕ
  map_at start size perms flags fd = do
    except (map start size perms) "ENOMEM"
    if flags / 32 % 2 == 1 then pure start else copy_in start size fd

  -- Bit 4 of `flags` is `MAP_FIXED`, bit 5 `MAP_ANONYMOUS`.
  unfoldable pub sys_mmap : List ℕ → Action g ℕ
  sys_mmap args = do
    addr ← arg args 0
    size ← arg args 1
    prot ← arg args 2
    flags ← arg args 3
    fd ← arg args 4
    raise_if (size == 0) "EINVAL"
    let perms = if prot % 8 == 0 then 1 else prot % 8
    if (flags / 16 % 2 == 1) && not (addr == 0)
        then (do
          ours ← mapped (page_down addr) (page_up size)
          if ours
              then pure (page_down addr)
              else map_at (page_down addr) (page_up size) perms flags (signed fd 32))
        else (do
          start ← free_span (page_up size)
          map_at start (page_up size) perms flags (signed fd 32))

  unfoldable pub read_words : Machine → ℕ → ℕ → Action g (List ℕ)
  read_words m block zero = pure []
  read_words m block (suc n) = do
    x ← except (read_word m block) "EFAULT"
    words ← read_words m (block + m.ptr_size) n
    pure (x ∷ words)

  unfoldable pub sys_old_mmap : Machine → List ℕ → Action g ℕ
  sys_old_mmap m args = do block ← arg args 0; words ← read_words m block 6; sys_mmap words

  unfoldable pub sys_munmap : List ℕ → Action g ℕ
  sys_munmap args = do
    addr ← arg args 0
    size ← arg args 1
    let start = page_down addr
    raise_if (page_up (size + (addr - start)) == 0) "EINVAL"
    except (unmap start (page_up (size + (addr - start)))) "EINVAL"
    pure 0

  abbrev pub set_break : ℕ → Action g ℕ
  set_break want = do set_kernel (λ k. record k { brk_current = want }); pure want

  -- `s.brk_mapped = top` where the mapping was made, and the old break where it raised.
  abbrev pub after_map : Outcome (Unit {0}) → ℕ → Action g ℕ
  after_map (ok a) want w =
      set_break want (record w { kernel = record w.kernel { brk_mapped = page_up want } })
  after_map (syscall_error name) want w = (syscall_error name, w)
  after_map uc_error want w = (ok w.kernel.brk_current, w)
  after_map raised want w = (raised, w)

  -- Moving the break to `want`, within the arena.
  unfoldable pub move_break : ℕ → Action g ℕ
  move_break want w =
      let k = w.kernel in
      if ltb k.brk_mapped (page_up want)
      then after_map (map k.brk_mapped (page_up want - k.brk_mapped) 7 w).0 want
          (map k.brk_mapped (page_up want - k.brk_mapped) 7 w).1
      else set_break want w

  unfoldable pub sys_brk : List ℕ → Action g ℕ
  sys_brk args = do
    want ← arg args 0
    low ← gets (λ w. w.kernel.brk_base)
    high ← gets (λ w. w.kernel.brk_base + w.kernel.brk_size)
    if want == 0 || ltb want low || ltb high want
        then gets (λ w. w.kernel.brk_current)
        else move_break want

  unfoldable pub sys_getpid : List ℕ → Action g ℕ
  sys_getpid args = pure 1

  unfoldable pub sys_exit : Machine → List ℕ → Action g ℕ
  sys_exit m args = do status ← arg args 0; stop_at_exit (m.exit_text (signed status 32)); pure 0

  abbrev pub handlers : Machine → Dict String (List ℕ → Action g ℕ)
  handlers m =
      ("read", sys_read)
      ∷ ("write", sys_write)
      ∷ ("writev", sys_writev m)
      ∷ ("open", sys_open m)
      ∷ ("openat", sys_openat m)
      ∷ ("close", sys_close)
      ∷ ("lseek", sys_lseek m)
      ∷ ("mmap", sys_mmap)
      ∷ ("mmap2", sys_mmap)
      ∷ ("old_mmap", sys_old_mmap m)
      ∷ ("munmap", sys_munmap)
      ∷ ("brk", sys_brk)
      ∷ ("getpid", sys_getpid)
      ∷ ("exit", sys_exit m)
      ∷ ("exit_group", sys_exit m)
      ∷ []
