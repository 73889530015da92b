-- ===== src/Syscalls.antt =====
-- ghidraunicorn/syscalls.py: a small Linux under the emulated program.
-- A call keeps what it changed before it raised, so an action returns the world with every outcome.
-- Decoding a file's name from bytes, and what `ArchSpec` says of the machine, are parameters.
pub mod Arena
pub mod Calls
pub mod Dispatch
pub mod Handlers
pub mod Rewind
pub mod Trap
pub mod Tests
use ghidra_unicorn.Prelude.{
  nat_eq, string_eq, ℕ, zero, suc, ◌+◌, ◌-◌, ◌*◌, ◌/◌, ◌%◌, ◌^◌, min, Bool, true, false, ◌&&◌,
  Option, none, some, List, [], ◌∷◌, ◌++◌, String, ltb, leb, ◌==◌, if◌then◌else◌, length, take,
  drop, Dict, lookup, insert, erase, contains,
}
use ghidra_unicorn.Engine.{Bytes, Region}
use ghidra_unicorn.Target.{Target}
use ghidra_unicorn.Effects.{
  EffectLog, write_mem as log_write_mem, map as log_map, unmap as log_unmap, output, stop,
}

abbrev pub page : ℕ
page = 4096

abbrev pub max_transfer : ℕ
max_transfer = 2 ^ 30

abbrev pub iov_max : ℕ
iov_max = 1024

-- `(size + PAGE - 1) & ~(PAGE - 1)`
unfoldable pub page_up : ℕ → ℕ
page_up size = (size + page - 1) / page * page

-- `addr & ~(PAGE - 1)`
unfoldable pub page_down : ℕ → ℕ
page_down addr = addr / page * page

pub data ℤ : Type 0 where
  pos negsuc : ℕ → ℤ

-- `base + offset`, where that is not negative
unfoldable pub offset_from : ℕ → ℤ → Option ℕ
offset_from base (pos n) = some (base + n)
offset_from base (negsuc n) = if leb (suc n) base then some (base - suc n) else none

-- `_signed`
unfoldable pub signed : ℕ → ℕ → ℤ
signed value bits =
    let v = value % 2 ^ bits in if leb (2 ^ (bits - 1)) v then negsuc (2 ^ bits - v - 1) else pos v

-- A file; `sink` is the stream that bytes written to it go to.
pub record OpenFile : Type 0 where
  pub name : String
  pub bytes : Bytes
  pub offset : ℕ
  pub sink : Option ℕ

abbrev pub writable : OpenFile → Bool
writable f = elim f.sink [ none ↦ false | some _ ↦ true ]

pub record SyscallRecord : Type 0 where
  pub icount : ℕ
  pub name : String
  pub number : ℕ
  pub args : List ℕ
  pub result : ℕ
  pub failed : Bool
  pub result_name : String

-- The fields of `Syscalls` that a call changes, and the bases it reads.
pub record Kernel : Type 0 where
  pub files : Dict ℕ OpenFile
  pub contents : Dict String Bytes
  pub next_fd : ℕ
  pub mmap_base : ℕ
  pub mmap_size : ℕ
  pub mmap_next : ℕ
  pub brk_base : ℕ
  pub brk_size : ℕ
  pub brk_current : ℕ
  pub brk_mapped : ℕ
  pub unknown : Dict ℕ ℕ

-- `__init__`
unfoldable pub new : Bytes → Dict String Bytes → ℕ → ℕ → ℕ → ℕ → Kernel
new stdin files mmap_base mmap_size brk_base brk_size = record {
  files =
      (0, record { name = "<stdin>"; bytes = stdin; offset = 0; sink = none })
      ∷ (1, record { name = "<stdout>"; bytes = []; offset = 0; sink = some 1 })
      ∷ (2, record { name = "<stderr>"; bytes = []; offset = 0; sink = some 2 })
      ∷ [];
  contents = files;
  next_fd = 3;
  mmap_base = mmap_base;
  mmap_size = mmap_size;
  mmap_next = mmap_base;
  brk_base = brk_base;
  brk_size = brk_size;
  brk_current = brk_base;
  brk_mapped = brk_base;
  unknown = [];
}

-- The tuple of `_snapshot`. Its `files` names the files themselves, whose offset goes on changing: the
-- offsets are kept beside them.
pub record Snapshot : Type 0 where
  pub files : Dict ℕ OpenFile
  pub offsets : Dict ℕ ℕ
  pub next_fd : ℕ
  pub brk_current : ℕ
  pub brk_mapped : ℕ
  pub mmap_next : ℕ

unfoldable pub offsets_of : Dict ℕ OpenFile → Dict ℕ ℕ
offsets_of [] = []
offsets_of ((fd, f) ∷ files) = (fd, f.offset) ∷ offsets_of files

unfoldable pub snapshot : Kernel → Snapshot
snapshot k = record {
  files = k.files;
  offsets = offsets_of k.files;
  next_fd = k.next_fd;
  brk_current = k.brk_current;
  brk_mapped = k.brk_mapped;
  mmap_next = k.mmap_next;
}

unfoldable pub set_offset : ℕ → ℕ → Dict ℕ OpenFile → Dict ℕ OpenFile
set_offset fd offset files = elim (lookup fd files) [
  | none ↦ files
  | some f ↦ insert fd (record f { offset = offset }) files
]

-- The loop of `_restore`.
unfoldable pub set_offsets : Dict ℕ ℕ → Dict ℕ OpenFile → Dict ℕ OpenFile
set_offsets [] files = files
set_offsets ((fd, offset) ∷ offsets) files = set_offsets offsets (set_offset fd offset files)

unfoldable pub restore : Snapshot → Kernel → Kernel
restore snap k = record k {
  files = set_offsets snap.offsets snap.files;
  next_fd = snap.next_fd;
  brk_current = snap.brk_current;
  brk_mapped = snap.brk_mapped;
  mmap_next = snap.mmap_next;
}

-- How a handler ends: with its result, or by `SyscallError`, `UcError` or another exception.
pub data Outcome (A : Type 0) : Type 0 where
  ok : A → Outcome A
  syscall_error : String → Outcome A
  uc_error raised : Outcome A

-- What is there, or the exception of its absence.
abbrev pub found : {A : Type 0} → Outcome A → Option A → Outcome A
found absent none = absent
found absent (some a) = ok a

-- What `Syscalls` reads of the `ArchSpec`; `decode` is `bytes.decode('utf-8', 'replace')` and
-- `exit_text` the text that `sys_exit` formats.
pub record Machine : Type 0 where
  pub bits : ℕ
  pub ptr_size : ℕ
  pub big_endian : Bool
  pub decode : Bytes → String
  pub exit_text : ℤ → String

abbrev pub mask : Machine → ℕ → ℕ
mask m value = value % 2 ^ m.bits

-- `-value`, masked
abbrev pub mask_neg : Machine → ℕ → ℕ
mask_neg m value = (2 ^ m.bits - value % 2 ^ m.bits) % 2 ^ m.bits

-- `int.from_bytes(bytes, 'little')`
unfoldable pub from_little : Bytes → ℕ
from_little [] = 0
from_little (b ∷ bytes) = b + 256 * from_little bytes

-- `int.from_bytes(bytes, 'big')`, from what the bytes before are worth
unfoldable pub from_big : ℕ → Bytes → ℕ
from_big n [] = n
from_big n (b ∷ bytes) = from_big (256 * n + b) bytes

-- The bytes before the first zero, if one is there.
unfoldable pub before_zero : Bytes → Option Bytes
before_zero [] = none
before_zero (b ∷ bytes) =
    let rest = before_zero bytes in
    if b == 0 then some [] else elim rest [ none ↦ none | some l ↦ some (b ∷ l) ]

-- The loop of `mapped`.
unfoldable pub within : List Region → ℕ → ℕ → Bool
within [] start end = false
within (r ∷ regions) start end =
    let rest = within regions start end in
    if leb r.start start && leb end r.last then true else rest

-- The layer, the machine under it and the log of its effects.
pub record World (g : Target) : Type 0 where
  pub kernel : Kernel
  pub state : g.State
  pub log : EffectLog Snapshot SyscallRecord

abbrev pub Action : Target → Type 0 → Type 0
Action g A = World g → Outcome A × World g

module _ {g : Target} {A : Type 0} where
  abbrev pub pure : A → Action g A
  pure a w = (ok a, w)

  abbrev pub raise : String → Action g A
  raise name w = (syscall_error name, w)

  abbrev pub gets : (World g → A) → Action g A
  gets f w = (ok (f w), w)

-- What follows an outcome: an exception skips it.
abbrev pub continue : {g : Target} {A B : Type 0} → Outcome A → (A → Action g B) → Action g B
continue (ok a) f w = f a w
continue (syscall_error name) f w = (syscall_error name, w)
continue uc_error f w = (uc_error, w)
continue raised f w = (raised, w)

infixl 5 ◌>>=◌ ◌>>◌
unfoldable pub ◌>>=◌ : {g : Target} {A B : Type 0} → Action g A → (A → Action g B) → Action g B
◌>>=◌ m f w = continue (m w).0 f (m w).1

abbrev pub ◌>>◌ : {g : Target} {B : Type 0} → Action g (Unit {0}) → Action g B → Action g B
m >> k = m >>= λ _. k

module _ {g : Target} where
  abbrev pub raise_if : Bool → String → Action g (Unit {0})
  raise_if c name w = (if c then syscall_error name else ok tt, w)

  abbrev pub set_kernel : (Kernel → Kernel) → Action g (Unit {0})
  set_kernel f w = (ok tt, record w { kernel = f w.kernel })

  -- `args[i]`
  unfoldable pub arg : List ℕ → ℕ → Action g ℕ
  arg [] i w = (raised, w)
  arg (x ∷ args) zero w = (ok x, w)
  arg (x ∷ args) (suc i) w = arg args i w

  -- An operation of the log, with its `UcError`.
  abbrev pub settle : Option (g.State × EffectLog Snapshot SyscallRecord) → Action g (Unit {0})
  settle none w = (uc_error, w)
  settle (some (s, log)) w = (ok tt, record w { state = s; log = log })

  abbrev pub logged :
      (g.State × EffectLog Snapshot SyscallRecord
        → Option (g.State × EffectLog Snapshot SyscallRecord))
      → Action g (Unit {0})
  logged f w = settle (f (w.state, w.log)) w

  unfoldable pub write_mem : ℕ → Bytes → Action g (Unit {0})
  write_mem address bytes = logged (log_write_mem g address bytes)

  unfoldable pub map : ℕ → ℕ → ℕ → Action g (Unit {0})
  map start size perms = logged (log_map g start size perms)

  unfoldable pub unmap : ℕ → ℕ → Action g (Unit {0})
  unmap start size = logged (log_unmap g start size)

  -- `target.read`
  abbrev pub target_read : ℕ → ℕ → Action g Bytes
  target_read address size w = (found uc_error (g.read w.state address size), w)

  unfoldable pub read_mem : ℕ → ℕ → Action g Bytes
  read_mem address size = do raise_if (ltb max_transfer size) "EFAULT"; target_read address size

  -- A `sink`: `_output`, less the caller's `on_output`
  abbrev pub sink_bytes : ℕ → Bytes → Action g (Unit {0})
  sink_bytes stream bytes w = (ok tt, record w { log = output stream bytes w.log })

  unfoldable pub file : ℕ → Action g OpenFile
  file fd w = (found (syscall_error "EBADF") (lookup fd w.kernel.files), w)

  -- `exit`
  abbrev pub stop_at_exit : String → Action g (Unit {0})
  stop_at_exit text w = (ok tt, record w { log = stop "exit" text w.log })

  -- `f.offset = offset`, for the file that `fd` names
  abbrev pub seek : ℕ → ℕ → Action g (Unit {0})
  seek fd offset = set_kernel (λ k. record k { files = set_offset fd offset k.files })

  -- The descriptor of a new file.
  abbrev pub add_descriptor : OpenFile → Action g ℕ
  add_descriptor f w =
      let k = w.kernel in
      (
        ok k.next_fd,
        record w {
          kernel = record k { next_fd = k.next_fd + 1; files = insert k.next_fd f k.files };
        },
      )

  unfoldable pub open_file : String → Action g ℕ
  open_file path = do
    bytes ← λ w. (found (syscall_error "ENOENT") (lookup path w.kernel.contents), w)
    add_descriptor (record { name = path; bytes = bytes; offset = 0; sink = none })

  unfoldable pub free_span : ℕ → Action g ℕ
  free_span size = do
    start ← gets (λ w. w.kernel.mmap_next)
    limit ← gets (λ w. w.kernel.mmap_base + w.kernel.mmap_size)
    raise_if (ltb limit (start + page_up size)) "ENOMEM"
    set_kernel (λ k. record k { mmap_next = start + page_up size })
    pure start

  abbrev pub mapped : ℕ → ℕ → Action g Bool
  mapped start size = gets (λ w. within (g.regions w.state) start (start + size - 1))
