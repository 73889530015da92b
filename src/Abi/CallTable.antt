-- ===== src/Abi/CallTable.antt =====
-- ghidraunicorn/abi.py: the C calling conventions (`CALLS`).
use ghidra_unicorn.Prelude.{nat_eq, string_eq, Option, none, some, [], ◌∷◌, String, Dict, lookup}
use ghidra_unicorn.Abi.{via_link, via_stack, CallAbi}

abbrev pub x64_call : CallAbi
x64_call = record {
  args = "RDI" ∷ "RSI" ∷ "RDX" ∷ "RCX" ∷ "R8" ∷ "R9" ∷ [];
  ret = "RAX";
  returns = via_stack;
  link = none;
  link_offset = 0;
  stack_slot = 1;
  ret_hi = none;
}

abbrev pub x86_call : CallAbi
x86_call = record {
  args = [];
  ret = "EAX";
  returns = via_stack;
  link = none;
  link_offset = 0;
  stack_slot = 1;
  ret_hi = some "EDX";
}

abbrev pub arm_call : CallAbi
arm_call = record {
  args = "r0" ∷ "r1" ∷ "r2" ∷ "r3" ∷ [];
  ret = "r0";
  returns = via_link;
  link = some "lr";
  link_offset = 0;
  stack_slot = 0;
  ret_hi = some "r1";
}

abbrev pub a64_call : CallAbi
a64_call = record {
  args = "x0" ∷ "x1" ∷ "x2" ∷ "x3" ∷ "x4" ∷ "x5" ∷ "x6" ∷ "x7" ∷ [];
  ret = "x0";
  returns = via_link;
  link = some "x30";
  link_offset = 0;
  stack_slot = 0;
  ret_hi = none;
}

abbrev pub mips_o32_call : CallAbi
mips_o32_call = record {
  args = "a0" ∷ "a1" ∷ "a2" ∷ "a3" ∷ [];
  ret = "v0";
  returns = via_link;
  link = some "ra";
  link_offset = 0;
  stack_slot = 4;
  ret_hi = some "v1";
}

abbrev pub mips_n64_call : CallAbi
mips_n64_call = record {
  args = "a0" ∷ "a1" ∷ "a2" ∷ "a3" ∷ "t0" ∷ "t1" ∷ "t2" ∷ "t3" ∷ [];
  ret = "v0";
  returns = via_link;
  link = some "ra";
  link_offset = 0;
  stack_slot = 0;
  ret_hi = none;
}

abbrev pub riscv32_call : CallAbi
riscv32_call = record {
  args = "a0" ∷ "a1" ∷ "a2" ∷ "a3" ∷ "a4" ∷ "a5" ∷ "a6" ∷ "a7" ∷ [];
  ret = "a0";
  returns = via_link;
  link = some "ra";
  link_offset = 0;
  stack_slot = 0;
  ret_hi = some "a1";
}

abbrev pub riscv64_call : CallAbi
riscv64_call = record {
  args = "a0" ∷ "a1" ∷ "a2" ∷ "a3" ∷ "a4" ∷ "a5" ∷ "a6" ∷ "a7" ∷ [];
  ret = "a0";
  returns = via_link;
  link = some "ra";
  link_offset = 0;
  stack_slot = 0;
  ret_hi = none;
}

abbrev pub ppc32_call : CallAbi
ppc32_call = record {
  args = "r3" ∷ "r4" ∷ "r5" ∷ "r6" ∷ "r7" ∷ "r8" ∷ "r9" ∷ "r10" ∷ [];
  ret = "r3";
  returns = via_link;
  link = some "LR";
  link_offset = 0;
  stack_slot = 2;
  ret_hi = none;
}

abbrev pub ppc64_call : CallAbi
ppc64_call = record {
  args = "r3" ∷ "r4" ∷ "r5" ∷ "r6" ∷ "r7" ∷ "r8" ∷ "r9" ∷ "r10" ∷ [];
  ret = "r3";
  returns = via_link;
  link = some "LR";
  link_offset = 0;
  stack_slot = 6;
  ret_hi = none;
}

abbrev pub m68k_call : CallAbi
m68k_call = record {
  args = [];
  ret = "D0";
  returns = via_stack;
  link = none;
  link_offset = 0;
  stack_slot = 1;
  ret_hi = some "D1";
}

abbrev pub sparc_call : CallAbi
sparc_call = record {
  args = "o0" ∷ "o1" ∷ "o2" ∷ "o3" ∷ "o4" ∷ "o5" ∷ [];
  ret = "o0";
  returns = via_link;
  link = some "o7";
  link_offset = 8;
  stack_slot = 16;
  ret_hi = none;
}

abbrev pub tricore_call : CallAbi
tricore_call = record {
  args = "d4" ∷ "d5" ∷ "d6" ∷ "d7" ∷ [];
  ret = "d2";
  returns = via_link;
  link = some "a11";
  link_offset = 0;
  stack_slot = 0;
  ret_hi = none;
}

-- `CALLS`
abbrev pub calls : Dict String CallAbi
calls =
    ("x64", x64_call)
    ∷ ("x86", x86_call)
    ∷ ("armle", arm_call)
    ∷ ("armbe", arm_call)
    ∷ ("armlethumb", arm_call)
    ∷ ("armbethumb", arm_call)
    ∷ ("arm64le", a64_call)
    ∷ ("arm64be", a64_call)
    ∷ ("mips", mips_o32_call)
    ∷ ("mipsel", mips_o32_call)
    ∷ ("mips64", mips_n64_call)
    ∷ ("mips64el", mips_n64_call)
    ∷ ("riscv32", riscv32_call)
    ∷ ("riscv64", riscv64_call)
    ∷ ("ppc32", ppc32_call)
    ∷ ("ppc64", ppc64_call)
    ∷ ("m68k", m68k_call)
    ∷ ("sparc32", sparc_call)
    ∷ ("sparc64", sparc_call)
    ∷ ("tricore", tricore_call)
    ∷ []

-- `call_abi`; `none` is its `KeyError`.
unfoldable pub call_abi : String → Option CallAbi
call_abi key = lookup key calls
