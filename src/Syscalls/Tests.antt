-- ===== src/Syscalls/Tests.antt =====
-- A kernel over the one-page machine.
use ghidra_unicorn.Prelude.{
  Dict, Unique, insert, true, ℕ, nat_eq, string_eq, nat_beq_iff, ◌≡◌, refl, false, none, some, [],
  ◌∷◌, arith, lookup, replicate,
}
use ghidra_unicorn.Engine.Toy.{OnePage, zero_page, toy_read, toy_write}
use ghidra_unicorn.Target.{Target}
use ghidra_unicorn.Effects.{new_log}
use ghidra_unicorn.Abi.Conventions.{x86_sys}
use ghidra_unicorn.Syscalls.Rewind.{SameFiles, restore-snapshot}
use ghidra_unicorn.Syscalls.Trap.{dispatch-IsValid}
use ghidra_unicorn.Syscalls.Dispatch.{dispatch}
use ghidra_unicorn.Syscalls.{OpenFile, set_offset, snapshot, restore, Machine, Kernel, World, new}
use ghidra_unicorn.Syscalls.Arena.{IsValid}
use ghidra_unicorn.Syscalls.Calls.{sys_brk, handlers}
use ghidra_unicorn.Syscalls.Handlers.{handlers-Keeps}

-- The machine of one page as a target with one register; nothing can be mapped.
abbrev board : Target
board = record {
  State = OnePage;
  read = toy_read;
  write = toy_write;
  mem_write = toy_write;
  reg_read = λ s name. s.register;
  reg_write = λ s name value. some (record s { register = value });
  mem_map = λ s start size perms. none;
  mem_unmap = λ s start size. none;
  regions = λ s. zero_page ∷ [];
}

abbrev spec : Machine
spec = record {
  bits = 32;
  ptr_size = 4;
  big_endian = false;
  decode = λ bytes. "";
  exit_text = λ status. "";
}

abbrev kernel : Kernel
kernel = new (1 ∷ 2 ∷ 3 ∷ []) [] 16384 4096 8192 4096

abbrev world : World board
world = record {
  kernel = kernel;
  state = record { bytes = replicate 4096 0; register = 0 };
  log = new_log;
}

kernel-IsValid : IsValid kernel
unfolding lookup new
kernel-IsValid = record {
  mmap_low = omega arith;
  mmap_high = omega arith;
  brk_low = omega arith;
  brk_high = omega arith;
  brk_backed = omega arith;
  descriptors = λ fd f p. ground (arith, nat_beq_iff 0 fd, nat_beq_iff 1 fd, nat_beq_iff 2 fd);
}

brk_is_there : lookup "brk" (handlers {g = board} spec) ≡ some sys_brk
unfolding lookup
brk_is_there = refl

handlers-Keeps_example : IsValid (sys_brk (9000 ∷ []) world).1.kernel
handlers-Keeps_example =
    handlers-Keeps spec "brk" sys_brk (9000 ∷ []) world brk_is_there kernel-IsValid

-- A trap of an i386 program: the register holds 0, which names no call.
dispatch-IsValid_example :
    IsValid
      (dispatch x86_sys spec
        (λ r. true)
        "ESP"
        "EIP"
        (λ n. "")
        (handlers spec)
        false
        12
        world).0.kernel
dispatch-IsValid_example =
    dispatch-IsValid x86_sys spec (λ r. true) "ESP" "EIP" (λ n. "") false 12 world kernel-IsValid

kernel-Unique : Unique kernel.files
unfolding lookup new
kernel-Unique = (refl, (refl, (refl, tt)))

-- The standard input has been read to its end since the snapshot.
abbrev moved : Dict ℕ OpenFile
moved = set_offset 0 3 kernel.files

moved-SameFiles : SameFiles moved kernel.files
unfolding set_offset lookup insert new
moved-SameFiles fd = ground (arith, nat_beq_iff 0 fd)

restore-snapshot_example :
    let back = restore (record (snapshot kernel) { files = moved }) world.kernel in
    (lookup 0 back.files ≡ lookup 0 kernel.files)
    × (back.next_fd ≡ kernel.next_fd)
    × (back.brk_current ≡ kernel.brk_current)
    × (back.brk_mapped ≡ kernel.brk_mapped)
    × (back.mmap_next ≡ kernel.mmap_next)
restore-snapshot_example =
    restore-snapshot kernel world.kernel moved 0 kernel-Unique moved-SameFiles
