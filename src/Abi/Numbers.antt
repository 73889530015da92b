-- ===== src/Abi/Numbers.antt =====
-- ghidraunicorn/abi.py: the system call numbers of each architecture (`_NR_*`).
use ghidra_unicorn.Prelude.{nat_eq, string_eq, ℕ, [], ◌∷◌, String, Dict}

abbrev pub nr_x86_64 : Dict String ℕ
nr_x86_64 =
    ("read", 0)
    ∷ ("write", 1)
    ∷ ("open", 2)
    ∷ ("close", 3)
    ∷ ("lseek", 8)
    ∷ ("mmap", 9)
    ∷ ("munmap", 11)
    ∷ ("brk", 12)
    ∷ ("writev", 20)
    ∷ ("getpid", 39)
    ∷ ("exit", 60)
    ∷ ("exit_group", 231)
    ∷ ("openat", 257)
    ∷ []

abbrev pub nr_i386 : Dict String ℕ
nr_i386 =
    ("exit", 1)
    ∷ ("read", 3)
    ∷ ("write", 4)
    ∷ ("open", 5)
    ∷ ("close", 6)
    ∷ ("lseek", 19)
    ∷ ("getpid", 20)
    ∷ ("brk", 45)
    ∷ ("old_mmap", 90)
    ∷ ("munmap", 91)
    ∷ ("writev", 146)
    ∷ ("mmap2", 192)
    ∷ ("exit_group", 252)
    ∷ ("openat", 295)
    ∷ []

abbrev pub nr_arm : Dict String ℕ
nr_arm =
    ("exit", 1)
    ∷ ("read", 3)
    ∷ ("write", 4)
    ∷ ("open", 5)
    ∷ ("close", 6)
    ∷ ("lseek", 19)
    ∷ ("getpid", 20)
    ∷ ("brk", 45)
    ∷ ("munmap", 91)
    ∷ ("writev", 146)
    ∷ ("mmap2", 192)
    ∷ ("exit_group", 248)
    ∷ ("openat", 322)
    ∷ []

abbrev pub nr_generic : Dict String ℕ
nr_generic =
    ("openat", 56)
    ∷ ("close", 57)
    ∷ ("lseek", 62)
    ∷ ("read", 63)
    ∷ ("write", 64)
    ∷ ("writev", 66)
    ∷ ("exit", 93)
    ∷ ("exit_group", 94)
    ∷ ("getpid", 172)
    ∷ ("brk", 214)
    ∷ ("munmap", 215)
    ∷ ("mmap", 222)
    ∷ []

abbrev pub nr_mips_o32 : Dict String ℕ
nr_mips_o32 =
    ("exit", 4001)
    ∷ ("read", 4003)
    ∷ ("write", 4004)
    ∷ ("open", 4005)
    ∷ ("close", 4006)
    ∷ ("lseek", 4019)
    ∷ ("getpid", 4020)
    ∷ ("brk", 4045)
    ∷ ("mmap", 4090)
    ∷ ("munmap", 4091)
    ∷ ("writev", 4146)
    ∷ ("mmap2", 4210)
    ∷ ("exit_group", 4246)
    ∷ ("openat", 4288)
    ∷ []

abbrev pub nr_mips_n64 : Dict String ℕ
nr_mips_n64 =
    ("read", 5000)
    ∷ ("write", 5001)
    ∷ ("open", 5002)
    ∷ ("close", 5003)
    ∷ ("lseek", 5008)
    ∷ ("mmap", 5009)
    ∷ ("munmap", 5011)
    ∷ ("brk", 5012)
    ∷ ("writev", 5019)
    ∷ ("getpid", 5038)
    ∷ ("exit", 5058)
    ∷ ("exit_group", 5205)
    ∷ ("openat", 5247)
    ∷ []

abbrev pub nr_ppc : Dict String ℕ
nr_ppc =
    ("exit", 1)
    ∷ ("read", 3)
    ∷ ("write", 4)
    ∷ ("open", 5)
    ∷ ("close", 6)
    ∷ ("lseek", 19)
    ∷ ("getpid", 20)
    ∷ ("brk", 45)
    ∷ ("mmap", 90)
    ∷ ("munmap", 91)
    ∷ ("writev", 146)
    ∷ ("mmap2", 192)
    ∷ ("exit_group", 234)
    ∷ ("openat", 286)
    ∷ []

abbrev pub nr_m68k : Dict String ℕ
nr_m68k =
    ("exit", 1)
    ∷ ("read", 3)
    ∷ ("write", 4)
    ∷ ("open", 5)
    ∷ ("close", 6)
    ∷ ("lseek", 19)
    ∷ ("getpid", 20)
    ∷ ("brk", 45)
    ∷ ("old_mmap", 90)
    ∷ ("munmap", 91)
    ∷ ("writev", 146)
    ∷ ("mmap2", 192)
    ∷ ("exit_group", 247)
    ∷ ("openat", 322)
    ∷ []
