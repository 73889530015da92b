-- ===== src/Stubs/Keeps.antt =====
-- What keeps the heap in order, and the registers as they are: the steps that the implementations are made of.
use ghidra_unicorn.Prelude.{
  nat_eq, nat_beq_iff, ℕ, zero, suc, ◌≤◌, ◌≡◌, refl, sym, subst, Bool, true, false, Option, none,
  some, [], ◌++◌, String, ltb, ◌==◌, if◌then◌else◌, string_eq, lookup, insert, arith, lookup-insert,
  insert-Unique, ◌∷◌,
}
use ghidra_unicorn.Engine.{Bytes}
use ghidra_unicorn.Target.{Target}
use ghidra_unicorn.Effects.{EffectLog, write_mem, map}
use ghidra_unicorn.Heap.{Heap, Block, Snapshot, allocate, release}
use ghidra_unicorn.Heap.Layout.{IsValid, IsValid-rest, at, at_live}
use ghidra_unicorn.Heap.Allocate.{allocate-Allocated, release-IsValid}
use ghidra_unicorn.Syscalls.{before_zero}
use ghidra_unicorn.Stubs.{
  World, Act, Result, ok, failed, continue, ◌>>=◌, Answer, return, fail, raise_if, given, read_raw,
  read, stored, write, map_arena, get_heap, allocated, heap_allocate, released_to, heap_release,
  set_mapped, malloc, output, stop, ended, read_chunks, read_cstring,
}

-- A block of the right capacity stays in order with a new size.
module _ (h : Heap) (v : IsValid h) (address size : ℕ) (block : Block)
    (live : lookup address h.blocks ≡ some block) (enough : size ≤ block.capacity) where
  at-sized :
      (a : ℕ)
      → at (record h { blocks = insert address (record block { size = size }) h.blocks }) a
        ≡ (if address == a then some (record block { size = size }) else at h a)
  unfolding at
  at-sized a = ground (arith, lookup-insert address a (record block { size = size }) h.blocks)

  pub sized-IsValid :
      IsValid (record h { blocks = insert address (record block { size = size }) h.blocks })
  sized-IsValid = record {
    base_aligned = v.base_aligned;
    top_aligned = v.top_aligned;
    base_le = v.base_le;
    top_le = v.top_le;
    unique = insert-Unique address _ h.blocks v.unique;
    unique_freed = v.unique_freed;
    exclusive = λ a b e. ground (
      arith,
      nat_beq_iff address a,
      lookup-insert address a (record block { size = size }) h.blocks,
      v.exclusive a b,
      v.exclusive a block,
    );
    fits = λ a b e.
        let there = at_live h v address block live in
        let f = v.fits address block there in
        ground (arith, nat_beq_iff address a, at-sized a, v.fits a b);
    apart = λ a c b d e f l.
        let there = at_live h v address block live in
        ground (
          arith,
          nat_beq_iff address a,
          nat_beq_iff address c,
          at-sized a,
          at-sized c,
          v.apart a c b d,
          v.apart a c block d,
          v.apart a c b block,
        );
  }

-- What the layer does to the machine: writes of memory and mappings.
pub data MemoryOnly (g : Target) (s : g.State) : g.State → Type 0 where
  untouched : MemoryOnly g s s
  wrote :
      {s' s'' : g.State} (address : ℕ) (bytes : Bytes)
      → MemoryOnly g s s'
      → g.write s' address bytes ≡ some s''
      → MemoryOnly g s s''
  mapped :
      {s' s'' : g.State} (start size perms : ℕ)
      → MemoryOnly g s s'
      → g.mem_map s' start size perms ≡ some s''
      → MemoryOnly g s s''

trans-MemoryOnly :
    {g : Target} {s t u : g.State} → MemoryOnly g s t → MemoryOnly g t u → MemoryOnly g s u
trans-MemoryOnly before untouched = before
trans-MemoryOnly before (wrote address bytes rest p) =
    wrote address bytes (trans-MemoryOnly before rest) p
trans-MemoryOnly before (mapped start size perms rest p) =
    mapped start size perms (trans-MemoryOnly before rest) p

-- What is done in the layer keeps a valid heap valid, whether it succeeds or fails, and changes no more of
-- the machine than its memory.
pub record Keeps {g : Target} {A : Type 0} (m : Act g A) : Type 0 where
  pub keeps : (w : World g) → IsValid w.heap → IsValid (m w).1.heap
  pub memory : (w : World g) → MemoryOnly g w.state (m w).1.state

same_state : {g : Target} {s t : g.State} → t ≡ s → MemoryOnly g s t
same_state {g = g} {s = s} p = subst (MemoryOnly g s) (sym p) untouched

pub same-Keeps :
    {g : Target} {A : Type 0} {m : Act g A}
    → ((w : World g) → (m w).1.heap ≡ w.heap)
    → ((w : World g) → (m w).1.state ≡ w.state)
    → Keeps m
same-Keeps h s = record {
  keeps = λ w v. subst IsValid (sym (h w)) v;
  memory = λ w. same_state (s w);
}

pub continue-IsValid :
    {g : Target} {A B : Type 0} (r : Result A) (f : A → Act g B)
    → ((a : A) → Keeps (f a))
    → (w : World g) → IsValid w.heap
    → IsValid (continue r f w).1.heap
continue-IsValid (ok a) f h w v = (h a).keeps w v
continue-IsValid failed f h w v = v

continue-MemoryOnly :
    {g : Target} {A B : Type 0} (r : Result A) (f : A → Act g B)
    → ((a : A) → Keeps (f a))
    → (w : World g) → MemoryOnly g w.state (continue r f w).1.state
continue-MemoryOnly (ok a) f h w = (h a).memory w
continue-MemoryOnly failed f h w = untouched

pub bind-Keeps :
    {g : Target} {A B : Type 0} {m : Act g A} {f : A → Act g B}
    → Keeps m
    → ((a : A) → Keeps (f a))
    → Keeps (m >>= f)
unfolding ◌>>=◌
bind-Keeps {m = m} {f = f} hm hf = record {
  keeps = λ w v. continue-IsValid (m w).0 f hf (m w).1 (hm.keeps w v);
  memory = λ w. trans-MemoryOnly (hm.memory w) (continue-MemoryOnly (m w).0 f hf (m w).1);
}

pub if-Keeps :
    {g : Target} {A : Type 0} {m n : Act g A} (c : Bool)
    → Keeps m
    → Keeps n
    → Keeps (if c then m else n)
if-Keeps true hm hn = hm
if-Keeps false hm hn = hn

module _ {g : Target} where
  pub return-Keeps : {A : Type 0} (a : A) → Keeps (return {g = g} a)
  unfolding return
  return-Keeps a = same-Keeps (λ w. refl) (λ w. refl)

  pub fail-Keeps : {A : Type 0} → Keeps (fail {g = g} {A = A})
  unfolding fail
  fail-Keeps = same-Keeps (λ w. refl) (λ w. refl)

  given-heap : {A : Type 0} (o : Option A) (w : World g) → (given o w).1.heap ≡ w.heap
  given-heap none w = refl
  given-heap (some a) w = refl

  given-state : {A : Type 0} (o : Option A) (w : World g) → (given o w).1.state ≡ w.state
  given-state none w = refl
  given-state (some a) w = refl

  pub read_raw-Keeps : (address size : ℕ) → Keeps (read_raw {g = g} address size)
  unfolding read_raw
  read_raw-Keeps address size =
      same-Keeps (λ w. given-heap (g.read w.state address size) w)
        (λ w. given-state (g.read w.state address size) w)

  pub raise_if-Keeps : (c : Bool) → Keeps (raise_if {g = g} c)
  unfolding raise_if
  raise_if-Keeps c = same-Keeps (λ w. refl) (λ w. refl)

  pub read-Keeps : (address size : ℕ) → Keeps (read {g = g} address size)
  unfolding read
  read-Keeps address size = bind-Keeps (raise_if-Keeps _) (λ _. read_raw-Keeps address size)

  stored-heap :
      (o : Option (g.State × EffectLog Snapshot String)) (w : World g)
      → (stored o w).1.heap ≡ w.heap
  stored-heap none w = refl
  stored-heap (some (state, log)) w = refl

  done-MemoryOnly :
      (o : Option g.State) (log : EffectLog Snapshot String) (w : World g)
      → ((s : g.State) → o ≡ some s → MemoryOnly g w.state s)
      → MemoryOnly g w.state (stored (elim o [ none ↦ none | some s ↦ some (s, log) ]) w).1.state
  done-MemoryOnly none log w h = untouched
  done-MemoryOnly (some s) log w h = h s refl

  write-MemoryOnly :
      (address : ℕ) (bytes : Bytes) (w : World g)
      → MemoryOnly g w.state (write {g = g} address bytes w).1.state
  unfolding write write_mem
  write-MemoryOnly address [] w = untouched
  write-MemoryOnly address (x ∷ xs) w =
      done-MemoryOnly (g.write w.state address (x ∷ xs)) _ w
        (λ s q. wrote address (x ∷ xs) untouched q)

  map_arena-MemoryOnly :
      (start size : ℕ) (w : World g) → MemoryOnly g w.state (map_arena {g = g} start size w).1.state
  unfolding map_arena map
  map_arena-MemoryOnly start size w =
      done-MemoryOnly (g.mem_map w.state start size 7) _ w (λ s q. mapped start size 7 untouched q)

  -- What only stores a machine and a log keeps the heap.
  stored-IsValid :
      (o : Option (g.State × EffectLog Snapshot String)) (w : World g)
      → IsValid w.heap
      → IsValid (stored o w).1.heap
  stored-IsValid o w v = subst IsValid (sym (stored-heap o w)) v

  pub write-Keeps : (address : ℕ) (bytes : Bytes) → Keeps (write {g = g} address bytes)
  unfolding write
  write-Keeps address bytes = record {
    keeps = λ w v. stored-IsValid _ w v;
    memory = write-MemoryOnly address bytes;
  }

  pub map_arena-Keeps : (start size : ℕ) → Keeps (map_arena {g = g} start size)
  unfolding map_arena
  map_arena-Keeps start size = record {
    keeps = λ w v. stored-IsValid _ w v;
    memory = map_arena-MemoryOnly start size;
  }

  pub get_heap-Keeps : Keeps (get_heap {g = g})
  unfolding get_heap
  get_heap-Keeps = same-Keeps (λ w. refl) (λ w. refl)

  pub set_mapped-Keeps : (need : ℕ) → Keeps (set_mapped {g = g} need)
  unfolding set_mapped
  set_mapped-Keeps need = record {
    keeps = λ w v. IsValid-rest w.heap v need w.heap.journal w.heap.dropped;
    memory = λ w. untouched;
  }

  pub allocated-IsValid :
      (size : ℕ) (o : Option (Heap × Block × ℕ)) (w : World g)
      → IsValid w.heap
      → allocate w.heap size ≡ o
      → IsValid (allocated o w).1.heap
  allocated-IsValid size none w v p = v
  allocated-IsValid size (some (heap, block, need)) w v p =
      (allocate-Allocated w.heap size heap block need v p).valid

  allocated-state :
      (o : Option (Heap × Block × ℕ)) (w : World g) → (allocated o w).1.state ≡ w.state
  allocated-state none w = refl
  allocated-state (some (heap, block, need)) w = refl

  pub heap_allocate-Keeps : (size : ℕ) → Keeps (heap_allocate {g = g} size)
  unfolding heap_allocate
  heap_allocate-Keeps size = record {
    keeps = λ w v. allocated-IsValid size (allocate w.heap size) w v refl;
    memory = λ w. same_state (allocated-state (allocate w.heap size) w);
  }

  pub released_to-IsValid :
      (address : ℕ) (o : Option (Heap × Block)) (w : World g)
      → IsValid w.heap
      → release w.heap address ≡ o
      → IsValid (released_to o w).1.heap
  released_to-IsValid address none w v p = v
  released_to-IsValid address (some (heap, block)) w v p =
      (release-IsValid w.heap address heap block v p).0

  released_to-state :
      (o : Option (Heap × Block)) (w : World g) → (released_to o w).1.state ≡ w.state
  released_to-state none w = refl
  released_to-state (some (heap, block)) w = refl

  pub heap_release-Keeps : (address : ℕ) → Keeps (heap_release {g = g} address)
  unfolding heap_release
  heap_release-Keeps address = record {
    keeps = λ w v. released_to-IsValid address (release w.heap address) w v refl;
    memory = λ w. same_state (released_to-state (release w.heap address) w);
  }

  pub malloc-Keeps : (size : ℕ) → Keeps (malloc {g = g} size)
  unfolding malloc
  malloc-Keeps size = bind-Keeps (heap_allocate-Keeps _) (λ r. bind-Keeps get_heap-Keeps (λ heap.
      bind-Keeps
        (if-Keeps (ltb heap.mapped r.1)
          (bind-Keeps (map_arena-Keeps _ _) (λ _. set_mapped-Keeps r.1)) (return-Keeps tt))
        (λ _. return-Keeps _)))

  pub output-Keeps : (bytes : Bytes) → Keeps (output {g = g} bytes)
  unfolding output
  output-Keeps bytes = same-Keeps (λ w. refl) (λ w. refl)

  pub stop-Keeps : (text : String) → Keeps (stop {g = g} text)
  unfolding stop
  stop-Keeps text = same-Keeps (λ w. refl) (λ w. refl)

  pub ended-Keeps :
      (out : Bytes) (o : Option Bytes) (more : Act g Bytes) → Keeps more → Keeps (ended out o more)
  ended-Keeps out (some text) more h = return-Keeps _
  ended-Keeps out none more h = h

  pub read_chunks-Keeps :
      (chunks address : ℕ) (out : Bytes) → Keeps (read_chunks {g = g} chunks address out)
  unfolding read_chunks
  read_chunks-Keeps zero address out = fail-Keeps
  read_chunks-Keeps (suc chunks) address out = bind-Keeps (read_raw-Keeps _ 64) (λ chunk.
      ended-Keeps out (before_zero chunk) _ (read_chunks-Keeps chunks address (out ++ chunk)))

  pub read_cstring-Keeps : (address : ℕ) → Keeps (read_cstring {g = g} address)
  unfolding read_cstring
  read_cstring-Keeps address = read_chunks-Keeps 1024 address []

  -- A step that reads a text, and what is done with it.
  pub text-Keeps :
      {A : Type 0} {f : Bytes → Act g A} (address : ℕ)
      → ((text : Bytes) → Keeps (f text))
      → Keeps (read_cstring address >>= f)
  text-Keeps address h = bind-Keeps (read_cstring-Keeps address) h

  -- A write, and the answer after it.
  pub answer-Keeps :
      (address : ℕ) (bytes : Bytes) (answer : Answer)
      → Keeps (write {g = g} address bytes >>= (λ _. return answer))
  answer-Keeps address bytes answer =
      bind-Keeps (write-Keeps address bytes) (λ _. return-Keeps answer)
