-- ===== src/Lib.antt =====
-- Models of ghidra-unicorn, a debugger for Unicorn sessions that runs backwards, and proofs about them.
--
-- The program. A session drives a Unicorn engine. A timeline (ghidraunicorn/timeline.py) takes
-- checkpoints as instructions run and restores the machine to one of them; the session then runs
-- forward again to the instruction asked for. What lies outside the machine cannot be run twice: the
-- system calls (ghidraunicorn/syscalls.py) and the library stubs (ghidraunicorn/stubs.py) record what
-- each call did in an effect log (ghidraunicorn/effects.py), which a replay applies again. Both layers
-- go back with the machine: the log hands them the state from before the first effect that is undone.
--
-- The files.
--   Prelude    names of the libraries, Python's dict and sort, tests on numbers
--   Engine     the engine: a parameter `Engine`, and `EngineLaws`, what Unicorn documents of memory;
--              Engine/Toy is a machine of one page that satisfies them
--   Target     what the layers use of `UnicornTarget` (ghidraunicorn/target.py), as a record
--   Timeline   `Timeline` and `Checkpoint`. The methods take the machine beside the timeline. Touch is
--              about the dirty pages, Reading about the pages a checkpoint reads, Images about the whole
--              snapshots that the base and the deltas stand for, Restore, Exact and Rewind about
--              `restore`
--   Effects    `Effect` and `EffectLog`; Entries and Cuts are about `truncate` and `forget_before`
--   Heap       the `Heap` of ghidraunicorn/stubs.py: Layout, Fit, Allocate, Rewind, Order
--   Arch       ghidraunicorn/arch.py: registers, flags and fields by name; Bits is about setting a field,
--              Registers has the target's `reg_read` and `reg_write`
--   Debugger   `UnicornTarget` (ghidraunicorn/target.py): the fields of a session. Points sets and deletes
--              breakpoints, Hits has conditions and hit counts, Hook the hooks that the engine calls, Run
--              `_emulate` and stepping, Reverse `_go` and what is built on it: Back steps over calls, Search
--              runs backwards, Went, Recorded and Snapshots are about where it leaves the session
--              and the machine. Counter is a target small enough to evaluate
--   Stubs      the `Stubs` of ghidraunicorn/stubs.py over that heap: Functions has the implementations, Call
--              the hook; Keeps, Table, Strings and Returns are about them
--   Abi        the tables of ghidraunicorn/abi.py
--   Syscalls   the kernel state of `Syscalls`; Calls has the `sys_*` handlers, Dispatch the trap, Arena,
--              Handlers and Trap the invariant of the state, Rewind the snapshots
--   Symbols    the `SymbolTable` of ghidraunicorn/symbols.py: Sorted, Nearest, Enclosing, Described
--   Provenance `InputProvenance`: Ranges and Reads
--   Coverage   ghidraunicorn/coverage.py: the drcov tables `_module_for` and `to_writer`;
--              Attribution, Written
--   Each Tests module applies the results below to a concrete machine, heap, log or kernel.
--
-- How it is modelled. Numbers are natural numbers; addresses and sizes are not bounded, as in Python,
-- and a register's value is masked where the code masks it. A method that raises returns an `Option`,
-- or, in Syscalls, an `Outcome` beside the world that it leaves. A Python set is a list without order
-- in its meaning; a dict is a list of pairs in insertion order. `touch` walks pages on fuel: the pages
-- that a write of `size` bytes meets are at most `size + 1`, and the fuel is `size + 2`. `page_range`
-- has the last address plus two rounds for fewer pages, and `read_cstring` its 64 chunks of 64 bytes,
-- the limit of the code; in Stubs it has 1024. What the engine does, how a name is decoded and how a text is formatted are
-- parameters.
--
-- The engine's run is a parameter (`Runner`): it takes the session to the one that its hooks
-- leave, and `HooksOnly` says that it changes the session through the hooks alone, as a sequence
-- of calls in any order (`Calls`), those of the layers among them, which outside a replay record
-- effects. `Replays` says that a replay runs the instructions it is asked for, with the effects
-- that the layers hold. Registers are a parameter too (`Chip`): `ChipLaws` says which of them
-- store all that is written, in which width. The searches of Back and Search walk windows of
-- history on fuel: each window ends before the one after it, so the instruction they start at is
-- enough.
--
-- Not modelled: the session that an exception leaves in the middle of a reverse operation, texts of
-- events, the binding of stubs, and the rest of the program (the console, the Ghidra connection,
-- loaders, triage, differential runs).
pub mod Prelude
pub mod Abi
pub mod Arch
pub mod Engine
pub mod Effects
pub mod Heap
pub mod Target
pub mod Timeline
pub mod Syscalls
pub mod Stubs
pub mod Provenance
pub mod Coverage
pub mod Symbols
pub mod Debugger
