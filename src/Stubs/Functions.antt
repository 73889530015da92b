-- ===== src/Stubs/Functions.antt =====
-- ghidraunicorn/stubs.py: the implementations. An argument that is not there is 0: `_on_code` reads six.
use ghidra_unicorn.Prelude.{
  nat_eq, string_eq, ℕ, suc, ◌+◌, ◌-◌, ◌*◌, ◌%◌, min, max, Bool, true, false, Option, none, some,
  [], ◌∷◌, ◌++◌, String, ltb, leb, ◌==◌, if◌then◌else◌, length, take, replicate, Dict, lookup,
  insert,
}
use ghidra_unicorn.Engine.{Bytes}
use ghidra_unicorn.Target.{Target}
use ghidra_unicorn.Heap.{Block}
use ghidra_unicorn.Stubs.{
  Act, ok, Answer, void, minus_one, word, ◌>>=◌, ◌>>◌, max_transfer, return, raise_if, read, write,
  heap_release, malloc, output, stop, read_cstring,
}

pub data Order : Type 0 where
  less same more : Order

-- `left == right`, `left > right`, on bytes
unfoldable pub compare_bytes : Bytes → Bytes → Order
compare_bytes [] [] = same
compare_bytes [] (y ∷ r) = less
compare_bytes (x ∷ l) [] = more
compare_bytes (x ∷ l) (y ∷ r) =
    let rest = compare_bytes l r in if x == y then rest else if ltb x y then less else more

-- `_cmp`
abbrev pub answer_of : Order → Answer
answer_of same = word 0
answer_of more = word 1
answer_of less = minus_one

unfoldable pub cmp : Bytes → Bytes → Answer
cmp left right = answer_of (compare_bytes left right)

-- `text.find(bytes([ch]))`
unfoldable pub find_byte : ℕ → Bytes → Option ℕ
find_byte ch [] = none
find_byte ch (b ∷ text) =
    let rest = find_byte ch text in
    if b == ch then some 0 else elim rest [ none ↦ none | some i ↦ some (suc i) ]

-- `text.rfind(bytes([ch]))`
unfoldable pub rfind_byte : ℕ → Bytes → Option ℕ
rfind_byte ch [] = none
rfind_byte ch (b ∷ text) = elim (rfind_byte ch text) [
  | some i ↦ some (suc i)
  | none ↦ if b == ch then some 0 else none
]

unfoldable pub starts_with : Bytes → Bytes → Bool
starts_with [] text = true
starts_with (x ∷ needle) [] = false
starts_with (x ∷ needle) (b ∷ text) =
    let rest = starts_with needle text in if b == x then rest else false

-- `hay.find(needle)`, for a needle that is not empty
unfoldable pub find_bytes : Bytes → Bytes → Option ℕ
find_bytes needle [] = none
find_bytes needle (b ∷ text) =
    let rest = find_bytes needle text in
    if starts_with needle (b ∷ text)
    then some 0
    else elim rest [ none ↦ none | some i ↦ some (suc i) ]

-- `0 if idx < 0 else base + idx`
abbrev pub found_at : ℕ → Option ℕ → Answer
found_at base none = word 0
found_at base (some i) = word (base + i)

-- The bytes that `strncpy` writes.
unfoldable pub padded : ℕ → Bytes → Bytes
padded n text = take n text ++ replicate (n - length (take n text)) 0

abbrev pub strstr_in : ℕ → Bytes → Bytes → Answer
strstr_in base hay [] = word base
strstr_in base hay (x ∷ needle) = found_at base (find_bytes (x ∷ needle) hay)

module _ {g : Target} where
  -- `block.size = size`, which nothing records
  unfoldable pub set_size : ℕ → ℕ → Block → Act g (Unit {0})
  set_size address size block w = (
    ok tt,
    record w {
      heap = record w.heap { blocks = insert address (record block { size = size }) w.heap.blocks };
    },
  )

  abbrev pub malloc_word : ℕ → Act g Answer
  malloc_word size = do address ← malloc size; return (word address)

  -- `size` is not capped: a product of two arguments.
  unfoldable pub calloc : ℕ → ℕ → Act g Answer
  calloc n each = do
    address ← malloc (n * each)
    write address (replicate (max (n * each) 1) 0)
    return (word address)

  -- `realloc` to a new block, from the live one if there is one.
  abbrev pub move_block : ℕ → ℕ → Option Block → Act g Answer
  move_block old size none = malloc_word size
  move_block old size (some block) = do
    new ← malloc size
    bytes ← read old (min block.size size)
    write new bytes
    heap_release old
    return (word new)

  -- The block in place, where it is large enough.
  abbrev pub resize_if : Bool → ℕ → ℕ → Block → Act g Answer
  resize_if true old size block = set_size old size block >> return (word old)
  resize_if false old size block = move_block old size (some block)

  abbrev pub resize : ℕ → ℕ → Option Block → Act g Answer
  resize old size none = move_block old size none
  resize old size (some block) = resize_if (leb size block.capacity) old size block

  -- `self.heap.blocks.get(old)`
  unfoldable pub realloc_block : ℕ → ℕ → Act g Answer
  realloc_block old size w = resize old size (lookup old w.heap.blocks) w

  unfoldable pub realloc : ℕ → ℕ → Act g Answer
  realloc old size =
      if old == 0
      then malloc_word size
      else if size == 0
      then (heap_release old >> return (word 0))
      else realloc_block old size

  unfoldable pub free : ℕ → Act g Answer
  free address = if address == 0 then return void else heap_release address >> return void

  -- `memcpy` and `memmove`: all is read before any of it is written.
  unfoldable pub memmove : ℕ → ℕ → ℕ → Act g Answer
  memmove dst src n =
      if n == 0
      then return (word dst)
      else (do bytes ← read src n; write dst bytes; return (word dst))

  unfoldable pub memset : ℕ → ℕ → ℕ → Act g Answer
  memset dst value n = do
    raise_if (ltb max_transfer n)
    write dst (replicate n (value % 256))
    return (word dst)

  unfoldable pub memcmp : ℕ → ℕ → ℕ → Act g Answer
  memcmp left right n =
      if n == 0 then return (word 0) else (do a ← read left n; b ← read right n; return (cmp a b))

  unfoldable pub strlen : ℕ → Act g Answer
  strlen address = do text ← read_cstring address; return (word (length text))

  unfoldable pub strcpy : ℕ → ℕ → Act g Answer
  strcpy dst src = do text ← read_cstring src; write dst (text ++ 0 ∷ []); return (word dst)

  unfoldable pub strncpy : ℕ → ℕ → ℕ → Act g Answer
  strncpy dst src n = do
    raise_if (ltb max_transfer n)
    text ← read_cstring src
    write dst (padded n text)
    return (word dst)

  unfoldable pub strcat : ℕ → ℕ → Act g Answer
  strcat dst src = do
    front ← read_cstring dst
    text ← read_cstring src
    write (dst + length front) (text ++ 0 ∷ [])
    return (word dst)

  unfoldable pub strncat : ℕ → ℕ → ℕ → Act g Answer
  strncat dst src n = do
    front ← read_cstring dst
    text ← read_cstring src
    write (dst + length front) (take n text ++ 0 ∷ [])
    return (word dst)

  unfoldable pub strcmp : ℕ → ℕ → Act g Answer
  strcmp left right = do a ← read_cstring left; b ← read_cstring right; return (cmp a b)

  unfoldable pub strncmp : ℕ → ℕ → ℕ → Act g Answer
  strncmp left right n = do
    a ← read_cstring left
    b ← read_cstring right
    return (cmp (take n a) (take n b))

  -- The terminator counts.
  unfoldable pub strchr : ℕ → ℕ → Act g Answer
  strchr address ch = do
    text ← read_cstring address
    return (
        if ch % 256 == 0
        then word (address + length text)
        else found_at address (find_byte (ch % 256) text))

  unfoldable pub strrchr : ℕ → ℕ → Act g Answer
  strrchr address ch = do
    text ← read_cstring address
    return (
        if ch % 256 == 0
        then word (address + length text)
        else found_at address (rfind_byte (ch % 256) text))

  unfoldable pub strdup : ℕ → Act g Answer
  strdup address = do
    text ← read_cstring address
    new ← malloc (length text + 1)
    write new (text ++ 0 ∷ [])
    return (word new)

  unfoldable pub strstr : ℕ → ℕ → Act g Answer
  strstr address wanted = do
    hay ← read_cstring address
    needle ← read_cstring wanted
    return (strstr_in address hay needle)

  unfoldable pub puts : ℕ → Act g Answer
  puts address = do text ← read_cstring address; output (text ++ 10 ∷ []); return (word 0)

  unfoldable pub putchar : ℕ → Act g Answer
  putchar ch = output (ch % 256 ∷ []) >> return (word (ch % 256))

  unfoldable pub exit : (ℕ → String) → ℕ → Act g Answer
  exit exit_text status = stop (exit_text status) >> return void

  unfoldable pub abort : Act g Answer
  abort = stop "Program called abort()" >> return void

-- An implementation, of the first three arguments: none looks at more.
abbrev pub Implementation : Target → Type 0
Implementation g = ℕ → ℕ → ℕ → Act g Answer

unfoldable pub implementations : {g : Target} → (ℕ → String) → Dict String (Implementation g)
implementations exit_text =
    ("malloc", λ a b c. malloc_word a)
    ∷ ("calloc", λ a b c. calloc a b)
    ∷ ("realloc", λ a b c. realloc a b)
    ∷ ("free", λ a b c. free a)
    ∷ ("memcpy", memmove)
    ∷ ("memmove", memmove)
    ∷ ("memset", memset)
    ∷ ("memcmp", memcmp)
    ∷ ("strlen", λ a b c. strlen a)
    ∷ ("strcpy", λ a b c. strcpy a b)
    ∷ ("strncpy", strncpy)
    ∷ ("strcat", λ a b c. strcat a b)
    ∷ ("strncat", strncat)
    ∷ ("strcmp", λ a b c. strcmp a b)
    ∷ ("strncmp", strncmp)
    ∷ ("strchr", λ a b c. strchr a b)
    ∷ ("strrchr", λ a b c. strrchr a b)
    ∷ ("strstr", λ a b c. strstr a b)
    ∷ ("strdup", λ a b c. strdup a)
    ∷ ("puts", λ a b c. puts a)
    ∷ ("putchar", λ a b c. putchar a)
    ∷ ("exit", λ a b c. exit exit_text a)
    ∷ ("abort", λ a b c. abort)
    ∷ []
