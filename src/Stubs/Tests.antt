-- ===== src/Stubs/Tests.antt =====
-- A machine with one text in memory and one register.
use ghidra_unicorn.Prelude.{
  nat_eq, string_eq, nat_beq_iff, ℕ, ◌≡◌, refl, false, none, some, [], ◌∷◌, String, ◌==◌,
  if◌then◌else◌, length, replicate, arith, lookup, Bool-cases, inl, inr,
}
use ghidra_unicorn.Engine.{Bytes}
use ghidra_unicorn.Target.{Target}
use ghidra_unicorn.Effects.{new_log}
use ghidra_unicorn.Abi.{via_link}
use ghidra_unicorn.Heap.{new}
use ghidra_unicorn.Heap.Layout.{IsValid, new-IsValid}
use ghidra_unicorn.Syscalls.{before_zero}
use ghidra_unicorn.Stubs.{World, ok, ◌>>=◌, read_raw, return, read_chunks, read_cstring}
use ghidra_unicorn.Stubs.Functions.{realloc, implementations}
use ghidra_unicorn.Stubs.Strings.{ReadLaws, Text, read_cstring-Text}
use ghidra_unicorn.Stubs.Keeps.{Keeps}
use ghidra_unicorn.Stubs.Table.{implementations-Keeps}
use ghidra_unicorn.Stubs.Call.{Convention, on_code}
use ghidra_unicorn.Stubs.Returns.{Writable, RegistersApart, Comes, on_code-Comes}

abbrev greeting : Bytes
greeting = 72 ∷ 105 ∷ replicate 62 0

abbrev machine : Target
machine = record {
  State = ℕ;
  read = λ s a n. if n == 64 then some greeting else none;
  write = λ s a bytes. none;
  mem_write = λ s a bytes. none;
  reg_read = λ s name. s;
  reg_write = λ s name value. some value;
  mem_map = λ s start size perms. none;
  mem_unmap = λ s start size. none;
  regions = λ s. [];
}

abbrev world : World machine
world = record {
  state = 0;
  heap = new 4096 4096;
  log = new_log;
  bound = (64, "strlen") ∷ [];
  calls = [];
  out = [];
}

length-greeting : length greeting ≡ 64
length-greeting = refl

machine-ReadLaws : ReadLaws machine
machine-ReadLaws = record {
  read_length = λ s a n d p. elim (Bool-cases (n == 64)) [
    | inl q ↦ ground (arith, nat_beq_iff n 64, length-greeting)
    | inr q ↦ absurd (ground arith)
  ];
}

greeting_read : read_cstring {g = machine} 0 world ≡ (ok (72 ∷ 105 ∷ []), world)
unfolding read_cstring read_chunks read_raw return ◌>>=◌ before_zero
greeting_read = refl

read_cstring-Text_example : Text 65536 world (72 ∷ 105 ∷ []) world
read_cstring-Text_example =
    read_cstring-Text 0 world world (72 ∷ 105 ∷ []) machine-ReadLaws greeting_read

abbrev exit_text : ℕ → String
exit_text status = ""

realloc_found :
    lookup "realloc" (implementations {g = machine} exit_text) ≡ some (λ a b c. realloc a b)
unfolding lookup implementations
realloc_found = refl

implementations-Keeps_example : Keeps {g = machine} (realloc 0 20)
implementations-Keeps_example =
    implementations-Keeps exit_text "realloc" (λ a b c. realloc a b) 0 20 0 realloc_found

abbrev convention : Convention
convention = record {
  abi = record {
    args = "r0" ∷ "r1" ∷ [];
    ret = "r0";
    returns = via_link;
    link = some "lr";
    link_offset = 0;
    stack_slot = 0;
    ret_hi = none;
  };
  bits = 32;
  big_endian = false;
  sp = "sp";
  pc = "pc";
  exit_text = exit_text;
}

machine-Writable : Writable machine convention
machine-Writable = record { result = λ s value. (value, refl); counter = λ s value. (value, refl) }

machine-RegistersApart : RegistersApart machine
machine-RegistersApart = record {
  writes = λ s s' a bytes name p. absurd (cc);
  maps = λ s s' start size perms name p. absurd (cc);
}

heap-IsValid : IsValid world.heap
heap-IsValid = new-IsValid 4096 4096 refl

on_code-Comes_example :
    Comes machine convention false false 3 64 world
      (on_code machine convention false false 3 64 world)
on_code-Comes_example =
    on_code-Comes convention false false 3 64 world machine-Writable machine-RegistersApart refl
      heap-IsValid
