-- ===== src/Stubs.antt =====
-- ghidraunicorn/stubs.py, `class Stubs`: the library functions that are stood in for.
-- What an implementation does is an `Act`: a result, or the exception that `_on_code` catches, beside the
-- world as it leaves it.
pub mod Functions
pub mod Call
pub mod Strings
pub mod Keeps
pub mod Table
pub mod Returns
pub mod Tests
use ghidra_unicorn.Prelude.{
  nat_eq, string_eq, ℕ, zero, suc, ◌+◌, ◌-◌, ◌*◌, ◌%◌, ◌^◌, min, Bool, true, false, Option, none,
  some, List, [], ◌∷◌, ◌++◌, String, ltb, leb, ◌==◌, if◌then◌else◌, length, Dict,
}
use ghidra_unicorn.Engine.{Bytes}
use ghidra_unicorn.Target.{Target}
use ghidra_unicorn.Effects.{
  EffectLog, write_mem as log_write, map as log_map, output as log_output, stop as log_stop,
}
use ghidra_unicorn.Heap.{Heap, Block, Snapshot, allocate, release}
use ghidra_unicorn.Syscalls.{from_little, from_big, before_zero}

abbrev pub max_transfer : ℕ
max_transfer = 2 ^ 30

-- The layer, with the target under it. `out` is what was given to `on_output`, oldest first.
pub record World (g : Target) : Type 0 where
  pub state : g.State
  pub heap : Heap
  pub log : EffectLog Snapshot String
  pub bound : Dict ℕ String
  pub calls : Dict String ℕ
  pub out : List (ℕ × Bytes)

pub data Result (A : Type 0) : Type 0 where
  ok : A → Result A
  failed : Result A

abbrev pub Act : Target → Type 0 → Type 0
Act g A = World g → Result A × World g

abbrev pub continue : {g : Target} {A B : Type 0} → Result A → (A → Act g B) → Act g B
continue (ok a) f w = f a w
continue failed f w = (failed, w)

infixl 5 ◌>>=◌ ◌>>◌
unfoldable pub ◌>>=◌ : {g : Target} {A B : Type 0} → Act g A → (A → Act g B) → Act g B
◌>>=◌ m f w = continue (m w).0 f (m w).1

abbrev pub ◌>>◌ : {g : Target} {B : Type 0} → Act g (Unit {0}) → Act g B → Act g B
m >> k = m >>= λ _. k

-- What an implementation returns: `None`, a number, or -1.
pub data Answer : Type 0 where
  void minus_one : Answer
  word : ℕ → Answer

module _ {g : Target} where
  unfoldable pub return : {A : Type 0} → A → Act g A
  return a w = (ok a, w)

  unfoldable pub fail : {A : Type 0} → Act g A
  fail w = (failed, w)

  unfoldable pub raise_if : Bool → Act g (Unit {0})
  raise_if c w = (if c then failed else ok tt, w)

  abbrev pub given : {A : Type 0} → Option A → World g → Result A × World g
  given none w = (failed, w)
  given (some a) w = (ok a, w)

  -- `target.read`
  unfoldable pub read_raw : ℕ → ℕ → Act g Bytes
  read_raw address size w = given (g.read w.state address size) w

  -- `read`
  unfoldable pub read : ℕ → ℕ → Act g Bytes
  read address size = raise_if (ltb max_transfer size) >> read_raw address size

  abbrev pub stored :
      Option (g.State × EffectLog Snapshot String) → World g → Result (Unit {0}) × World g
  stored none w = (failed, w)
  stored (some (state, log)) w = (ok tt, record w { state = state; log = log })

  -- `write`
  unfoldable pub write : ℕ → Bytes → Act g (Unit {0})
  write address bytes w = stored (log_write g address bytes (w.state, w.log)) w

  -- `log.map`, with its default permissions
  unfoldable pub map_arena : ℕ → ℕ → Act g (Unit {0})
  map_arena start size w = stored (log_map g start size 7 (w.state, w.log)) w

  unfoldable pub get_heap : Act g Heap
  get_heap w = (ok w.heap, w)

  -- The heap with its tables changed by one of its methods.
  abbrev pub allocated : Option (Heap × Block × ℕ) → Act g (Block × ℕ)
  allocated none w = (failed, w)
  allocated (some (heap, block, need)) w = (ok (block, need), record w { heap = heap })

  unfoldable pub heap_allocate : ℕ → Act g (Block × ℕ)
  heap_allocate size w = allocated (allocate w.heap size) w

  abbrev pub released_to : Option (Heap × Block) → Act g (Unit {0})
  released_to none w = (failed, w)
  released_to (some (heap, block)) w = (ok tt, record w { heap = heap })

  unfoldable pub heap_release : ℕ → Act g (Unit {0})
  heap_release address w = released_to (release w.heap address) w

  -- `self.heap.mapped = need`
  unfoldable pub set_mapped : ℕ → Act g (Unit {0})
  set_mapped need w = (ok tt, record w { heap = record w.heap { mapped = need } })

  -- The arena is mapped as far as a block needs it.
  abbrev pub map_to : ℕ → ℕ → Act g (Unit {0})
  map_to need mapped =
      if ltb mapped need then (map_arena mapped (need - mapped) >> set_mapped need) else return tt

  -- A request of no bytes is one of one byte.
  unfoldable pub malloc : ℕ → Act g ℕ
  malloc size = do
    (block, need) ← heap_allocate (if size == 0 then 1 else size)
    heap ← get_heap
    map_to need heap.mapped
    return block.address

  unfoldable pub output : Bytes → Act g (Unit {0})
  output bytes w =
      (ok tt, record w { log = log_output 1 bytes w.log; out = w.out ++ (1, bytes) ∷ [] })

  unfoldable pub stop : String → Act g (Unit {0})
  stop text w = (ok tt, record w { log = log_stop "exit" text w.log })

  -- The chunk that the loop of `read_cstring` looks at: the text, if it ends here, else the rest.
  abbrev pub ended : Bytes → Option Bytes → Act g Bytes → Act g Bytes
  ended out (some text) more = return (out ++ text)
  ended out none more = more

  -- The loop of `read_cstring`, in chunks of 64 bytes; a limit of 64 * `chunks` is a round less.
  unfoldable pub read_chunks : ℕ → ℕ → Bytes → Act g Bytes
  read_chunks zero address out = fail
  read_chunks (suc chunks) address out = do
    chunk ← read_raw (address + length out) 64
    ended out (before_zero chunk) (read_chunks chunks address (out ++ chunk))

  -- With its limit of 65536 bytes, which is 1024 chunks.
  unfoldable pub read_cstring : ℕ → Act g Bytes
  read_cstring address = read_chunks 1024 address []
