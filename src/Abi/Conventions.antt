-- ===== src/Abi/Conventions.antt =====
-- ghidraunicorn/abi.py: the system call conventions (`SYSCALLS`).
use ghidra_unicorn.Prelude.{
  nat_eq, string_eq, true, false, Option, none, some, [], ◌∷◌, String, Dict, lookup,
}
use ghidra_unicorn.Abi.{negative, mips, ppc, SyscallAbi}
use ghidra_unicorn.Abi.Numbers.{
  nr_arm, nr_generic, nr_i386, nr_m68k, nr_mips_n64, nr_mips_o32, nr_ppc, nr_x86_64,
}

abbrev pub x64_sys : SyscallAbi
x64_sys = record {
  number = "RAX";
  args = "RDI" ∷ "RSI" ∷ "RDX" ∷ "R10" ∷ "R8" ∷ "R9" ∷ [];
  ret = "RAX";
  numbers = nr_x86_64;
  intnos = [];
  insn = true;
  error = negative;
  error_reg = none;
  error_cr = none;
  errnos = [];
  stack_args = none;
  advance = 0;
}

abbrev pub x86_sys : SyscallAbi
x86_sys = record {
  number = "EAX";
  args = "EBX" ∷ "ECX" ∷ "EDX" ∷ "ESI" ∷ "EDI" ∷ "EBP" ∷ [];
  ret = "EAX";
  numbers = nr_i386;
  intnos = 128 ∷ [];
  insn = false;
  error = negative;
  error_reg = none;
  error_cr = none;
  errnos = [];
  stack_args = none;
  advance = 0;
}

abbrev pub arm_sys : SyscallAbi
arm_sys = record {
  number = "r7";
  args = "r0" ∷ "r1" ∷ "r2" ∷ "r3" ∷ "r4" ∷ "r5" ∷ [];
  ret = "r0";
  numbers = nr_arm;
  intnos = 2 ∷ [];
  insn = false;
  error = negative;
  error_reg = none;
  error_cr = none;
  errnos = [];
  stack_args = none;
  advance = 0;
}

abbrev pub a64_sys : SyscallAbi
a64_sys = record {
  number = "x8";
  args = "x0" ∷ "x1" ∷ "x2" ∷ "x3" ∷ "x4" ∷ "x5" ∷ [];
  ret = "x0";
  numbers = nr_generic;
  intnos = 2 ∷ [];
  insn = false;
  error = negative;
  error_reg = none;
  error_cr = none;
  errnos = [];
  stack_args = none;
  advance = 0;
}

abbrev pub mips_o32_sys : SyscallAbi
mips_o32_sys = record {
  number = "v0";
  args = "a0" ∷ "a1" ∷ "a2" ∷ "a3" ∷ [];
  ret = "v0";
  numbers = nr_mips_o32;
  intnos = 17 ∷ [];
  insn = false;
  error = mips;
  error_reg = some "a3";
  error_cr = none;
  errnos = ("ENOSYS", 89) ∷ [];
  stack_args = some 16;
  advance = 0;
}

abbrev pub mips_n64_sys : SyscallAbi
mips_n64_sys = record {
  number = "v0";
  args = "a0" ∷ "a1" ∷ "a2" ∷ "a3" ∷ "t0" ∷ "t1" ∷ [];
  ret = "v0";
  numbers = nr_mips_n64;
  intnos = 17 ∷ [];
  insn = false;
  error = mips;
  error_reg = some "a3";
  error_cr = none;
  errnos = ("ENOSYS", 89) ∷ [];
  stack_args = none;
  advance = 0;
}

abbrev pub riscv_sys : SyscallAbi
riscv_sys = record {
  number = "a7";
  args = "a0" ∷ "a1" ∷ "a2" ∷ "a3" ∷ "a4" ∷ "a5" ∷ [];
  ret = "a0";
  numbers = nr_generic;
  intnos = 8 ∷ [];
  insn = false;
  error = negative;
  error_reg = none;
  error_cr = none;
  errnos = [];
  stack_args = none;
  advance = 0;
}

abbrev pub ppc_sys : SyscallAbi
ppc_sys = record {
  number = "r0";
  args = "r3" ∷ "r4" ∷ "r5" ∷ "r6" ∷ "r7" ∷ "r8" ∷ [];
  ret = "r3";
  numbers = nr_ppc;
  intnos = 8 ∷ [];
  insn = false;
  error = ppc;
  error_reg = none;
  error_cr = some "cr0";
  errnos = [];
  stack_args = none;
  advance = 0;
}

abbrev pub m68k_sys : SyscallAbi
m68k_sys = record {
  number = "D0";
  args = "D1" ∷ "D2" ∷ "D3" ∷ "D4" ∷ "D5" ∷ "A0" ∷ [];
  ret = "D0";
  numbers = nr_m68k;
  intnos = 32 ∷ [];
  insn = false;
  error = negative;
  error_reg = none;
  error_cr = none;
  errnos = [];
  stack_args = none;
  advance = 2;
}

-- `SYSCALLS`
abbrev pub syscalls : Dict String SyscallAbi
syscalls =
    ("x64", x64_sys)
    ∷ ("x86", x86_sys)
    ∷ ("armle", arm_sys)
    ∷ ("armbe", arm_sys)
    ∷ ("armlethumb", arm_sys)
    ∷ ("armbethumb", arm_sys)
    ∷ ("arm64le", a64_sys)
    ∷ ("arm64be", a64_sys)
    ∷ ("mips", mips_o32_sys)
    ∷ ("mipsel", mips_o32_sys)
    ∷ ("mips64", mips_n64_sys)
    ∷ ("mips64el", mips_n64_sys)
    ∷ ("riscv32", riscv_sys)
    ∷ ("riscv64", riscv_sys)
    ∷ ("ppc32", ppc_sys)
    ∷ ("ppc64", ppc_sys)
    ∷ ("m68k", m68k_sys)
    ∷ []

-- `syscall_abi`; `none` is its `KeyError`.
unfoldable pub syscall_abi : String → Option SyscallAbi
syscall_abi key = lookup key syscalls
