-- ===== src/Stubs/Table.antt =====
-- Every implementation keeps the heap in order.
use ghidra_unicorn.Prelude.{
  nat_eq, ℕ, ◌≤◌, ◌≡◌, refl, Bool, true, false, Option, none, some, String, leb, leb→le, ◌==◌,
  string_eq, lookup, lookup-All, All,
}
use ghidra_unicorn.Target.{Target}
use ghidra_unicorn.Heap.{Block}
use ghidra_unicorn.Heap.Layout.{IsValid}
use ghidra_unicorn.Stubs.{World, ◌>>=◌, void, return}
use ghidra_unicorn.Stubs.Functions.{
  set_size, malloc_word, calloc, move_block, resize_if, resize, realloc_block, realloc, free,
  memmove, memset, memcmp, strlen, strcpy, strncpy, strcat, strncat, strcmp, strncmp, strchr,
  strrchr, strdup, strstr, puts, putchar, exit, abort, Implementation, implementations,
}
use ghidra_unicorn.Stubs.Keeps.{
  Keeps, MemoryOnly, untouched, answer-Keeps, bind-Keeps, heap_release-Keeps, if-Keeps,
  malloc-Keeps, output-Keeps, raise_if-Keeps, read-Keeps, return-Keeps, sized-IsValid, stop-Keeps,
  text-Keeps, write-Keeps,
}

module _ {g : Target} where
  malloc_word-Keeps : (size : ℕ) → Keeps (malloc_word {g = g} size)
  malloc_word-Keeps size = bind-Keeps (malloc-Keeps size) (λ address. return-Keeps _)

  calloc-Keeps : (n each : ℕ) → Keeps (calloc {g = g} n each)
  unfolding calloc
  calloc-Keeps n each = bind-Keeps (malloc-Keeps _) (λ address. answer-Keeps address _ _)

  move_block-Keeps : (old size : ℕ) (o : Option Block) → Keeps (move_block {g = g} old size o)
  move_block-Keeps old size none = malloc_word-Keeps size
  move_block-Keeps old size (some block) = bind-Keeps (malloc-Keeps size) (λ new.
      bind-Keeps (read-Keeps old _) (λ bytes.
        bind-Keeps (write-Keeps new bytes)
          (λ _. bind-Keeps (heap_release-Keeps old) (λ _. return-Keeps _))))

  set_size-IsValid :
      (old size : ℕ) (block : Block) (w : World g)
      → lookup old w.heap.blocks ≡ some block
      → size ≤ block.capacity
      → IsValid w.heap
      → IsValid (resize_if true old size block w).1.heap
  unfolding set_size return ◌>>=◌
  set_size-IsValid old size block w p l v = sized-IsValid w.heap v old size block p l

  resize_if-IsValid :
      (fits : Bool) (old size : ℕ) (block : Block) (w : World g)
      → lookup old w.heap.blocks ≡ some block
      → (fits ≡ true → size ≤ block.capacity)
      → IsValid w.heap
      → IsValid (resize_if fits old size block w).1.heap
  resize_if-IsValid true old size block w p l v = set_size-IsValid old size block w p (l refl) v
  resize_if-IsValid false old size block w p l v =
      (move_block-Keeps old size (some block)).keeps w v

  resize-IsValid :
      (old size : ℕ) (o : Option Block) (w : World g)
      → lookup old w.heap.blocks ≡ o
      → IsValid w.heap
      → IsValid (resize old size o w).1.heap
  resize-IsValid old size none w p v = (move_block-Keeps old size none).keeps w v
  resize-IsValid old size (some block) w p v =
      resize_if-IsValid (leb size block.capacity) old size block w p (leb→le size block.capacity) v

  resize_if-MemoryOnly :
      (fits : Bool) (old size : ℕ) (block : Block) (w : World g)
      → MemoryOnly g w.state (resize_if fits old size block w).1.state
  unfolding set_size return ◌>>=◌
  resize_if-MemoryOnly true old size block w = untouched
  resize_if-MemoryOnly false old size block w = (move_block-Keeps old size (some block)).memory w

  resize-MemoryOnly :
      (old size : ℕ) (o : Option Block) (w : World g)
      → MemoryOnly g w.state (resize old size o w).1.state
  resize-MemoryOnly old size none w = (move_block-Keeps old size none).memory w
  resize-MemoryOnly old size (some block) w =
      resize_if-MemoryOnly (leb size block.capacity) old size block w

  realloc_block-Keeps : (old size : ℕ) → Keeps (realloc_block {g = g} old size)
  unfolding realloc_block
  realloc_block-Keeps old size = record {
    keeps = λ w v. resize-IsValid old size (lookup old w.heap.blocks) w refl v;
    memory = λ w. resize-MemoryOnly old size (lookup old w.heap.blocks) w;
  }

  realloc-Keeps : (old size : ℕ) → Keeps (realloc {g = g} old size)
  unfolding realloc
  realloc-Keeps old size = if-Keeps (old == 0) (malloc_word-Keeps size) (
      if-Keeps (size == 0) (bind-Keeps (heap_release-Keeps old) (λ _. return-Keeps _))
        (realloc_block-Keeps old size))

  free-Keeps : (address : ℕ) → Keeps (free {g = g} address)
  unfolding free
  free-Keeps address =
      if-Keeps (address == 0) (return-Keeps void)
        (bind-Keeps (heap_release-Keeps address) (λ _. return-Keeps void))

  memmove-Keeps : (dst src n : ℕ) → Keeps (memmove {g = g} dst src n)
  unfolding memmove
  memmove-Keeps dst src n =
      if-Keeps (n == 0) (return-Keeps _)
        (bind-Keeps (read-Keeps src n) (λ bytes. answer-Keeps dst bytes _))

  memset-Keeps : (dst value n : ℕ) → Keeps (memset {g = g} dst value n)
  unfolding memset
  memset-Keeps dst value n = bind-Keeps (raise_if-Keeps _) (λ _. answer-Keeps dst _ _)

  memcmp-Keeps : (left right n : ℕ) → Keeps (memcmp {g = g} left right n)
  unfolding memcmp
  memcmp-Keeps left right n =
      if-Keeps (n == 0) (return-Keeps _) (
        bind-Keeps (read-Keeps left n) (λ a. bind-Keeps (read-Keeps right n) (λ b. return-Keeps _)))

  strlen-Keeps : (address : ℕ) → Keeps (strlen {g = g} address)
  unfolding strlen
  strlen-Keeps address = text-Keeps address (λ text. return-Keeps _)

  strcpy-Keeps : (dst src : ℕ) → Keeps (strcpy {g = g} dst src)
  unfolding strcpy
  strcpy-Keeps dst src = text-Keeps src (λ text. answer-Keeps dst _ _)

  strncpy-Keeps : (dst src n : ℕ) → Keeps (strncpy {g = g} dst src n)
  unfolding strncpy
  strncpy-Keeps dst src n =
      bind-Keeps (raise_if-Keeps _) (λ _. text-Keeps src (λ text. answer-Keeps dst _ _))

  strcat-Keeps : (dst src : ℕ) → Keeps (strcat {g = g} dst src)
  unfolding strcat
  strcat-Keeps dst src = text-Keeps dst (λ front. text-Keeps src (λ text. answer-Keeps _ _ _))

  strncat-Keeps : (dst src n : ℕ) → Keeps (strncat {g = g} dst src n)
  unfolding strncat
  strncat-Keeps dst src n = text-Keeps dst (λ front. text-Keeps src (λ text. answer-Keeps _ _ _))

  strcmp-Keeps : (left right : ℕ) → Keeps (strcmp {g = g} left right)
  unfolding strcmp
  strcmp-Keeps left right = text-Keeps left (λ a. text-Keeps right (λ b. return-Keeps _))

  strncmp-Keeps : (left right n : ℕ) → Keeps (strncmp {g = g} left right n)
  unfolding strncmp
  strncmp-Keeps left right n = text-Keeps left (λ a. text-Keeps right (λ b. return-Keeps _))

  strchr-Keeps : (address ch : ℕ) → Keeps (strchr {g = g} address ch)
  unfolding strchr
  strchr-Keeps address ch = text-Keeps address (λ text. return-Keeps _)

  strrchr-Keeps : (address ch : ℕ) → Keeps (strrchr {g = g} address ch)
  unfolding strrchr
  strrchr-Keeps address ch = text-Keeps address (λ text. return-Keeps _)

  strdup-Keeps : (address : ℕ) → Keeps (strdup {g = g} address)
  unfolding strdup
  strdup-Keeps address =
      text-Keeps address (λ text. bind-Keeps (malloc-Keeps _) (λ new. answer-Keeps new _ _))

  strstr-Keeps : (address wanted : ℕ) → Keeps (strstr {g = g} address wanted)
  unfolding strstr
  strstr-Keeps address wanted =
      text-Keeps address (λ hay. text-Keeps wanted (λ needle. return-Keeps _))

  puts-Keeps : (address : ℕ) → Keeps (puts {g = g} address)
  unfolding puts
  puts-Keeps address =
      text-Keeps address (λ text. bind-Keeps (output-Keeps _) (λ _. return-Keeps _))

  putchar-Keeps : (ch : ℕ) → Keeps (putchar {g = g} ch)
  unfolding putchar
  putchar-Keeps ch = bind-Keeps (output-Keeps _) (λ _. return-Keeps _)

  exit-Keeps : (exit_text : ℕ → String) (status : ℕ) → Keeps (exit {g = g} exit_text status)
  unfolding exit
  exit-Keeps exit_text status = bind-Keeps (stop-Keeps _) (λ _. return-Keeps void)

  abort-Keeps : Keeps (abort {g = g})
  unfolding abort
  abort-Keeps = bind-Keeps (stop-Keeps _) (λ _. return-Keeps void)

-- An implementation that keeps a valid heap valid for all arguments.
abbrev KeepsAll : (g : Target) → Implementation g → Type 0
KeepsAll g implementation = (a b c : ℕ) → Keeps (implementation a b c)

table-Keeps :
    (g : Target) (exit_text : ℕ → String)
    → All (λ entry. KeepsAll g entry.1) (implementations {g = g} exit_text)
unfolding implementations
table-Keeps g exit_text = (
  λ a b c. malloc_word-Keeps a,
  (
    λ a b c. calloc-Keeps a b,
    (
      λ a b c. realloc-Keeps a b,
      (
        λ a b c. free-Keeps a,
        (
          memmove-Keeps,
          (
            memmove-Keeps,
            (
              memset-Keeps,
              (
                memcmp-Keeps,
                (
                  λ a b c. strlen-Keeps a,
                  (
                    λ a b c. strcpy-Keeps a b,
                    (
                      strncpy-Keeps,
                      (
                        λ a b c. strcat-Keeps a b,
                        (
                          strncat-Keeps,
                          (
                            λ a b c. strcmp-Keeps a b,
                            (
                              strncmp-Keeps,
                              (
                                λ a b c. strchr-Keeps a b,
                                (
                                  λ a b c. strrchr-Keeps a b,
                                  (
                                    λ a b c. strstr-Keeps a b,
                                    (
                                      λ a b c. strdup-Keeps a,
                                      (
                                        λ a b c. puts-Keeps a,
                                        (
                                          λ a b c. putchar-Keeps a,
                                          (
                                            λ a b c. exit-Keeps exit_text a,
                                            (λ a b c. abort-Keeps, tt),
                                          ),
                                        ),
                                      ),
                                    ),
                                  ),
                                ),
                              ),
                            ),
                          ),
                        ),
                      ),
                    ),
                  ),
                ),
              ),
            ),
          ),
        ),
      ),
    ),
  ),
)

-- Every implementation of the table keeps a valid heap valid, whatever its arguments and whether it
-- succeeds or fails: no two blocks overlap, and no live block is larger than its place. To the machine it
-- does no more than writes of memory and mappings.
pub implementations-Keeps :
    {g : Target} (exit_text : ℕ → String) (name : String) (implementation : Implementation g)
    (a b c : ℕ)
    → lookup name (implementations exit_text) ≡ some implementation
    → Keeps (implementation a b c)
implementations-Keeps {g = g} exit_text name implementation a b c p =
    lookup-All (KeepsAll g) name (implementations exit_text) implementation
      (table-Keeps g exit_text) p a b c
