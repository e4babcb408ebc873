-- ===== src/Heaps.antt =====
-- `operator new` and `operator delete` of src/lib/toyos/src/boot.cpp over two heaps: the first fit heap,
-- a contributed library and so a parameter, and a simple buddy for greater alignments, which claims its
-- memory with `operator new`, as the set and the map of that buddy do for their nodes. The other
-- operators pass their arguments on to these four. The result `none` is a failed assertion or the panic;
-- a pointer of the heap may be null, a `none` inside.
pub mod Size
pub mod Pairing
use guest_tests.Base.{ℕ, ◌^◌, max, leb, if◌then◌else◌, Option, none, some, ◌>>=◌, ◌>>◌, assert}
use guest_tests.Math.{order_max}
use guest_tests.Buddy as Buddy
use guest_tests.SimpleBuddy as SimpleBuddy
use guest_tests.SimpleBuddy.{SimpleBuddy, claim_order}

pub record FirstFit : Type 1 where
  pub State : Type 0
  pub alignment : ℕ
  pub alloc : State → ℕ → Option ℕ × State
  pub free : State → ℕ → State
  -- What the nodes of the C++ library's set and map take from this heap and give back to it while the
  -- simple buddy goes from one state to another; `none` where `operator new` is out of memory.
  pub nodes : SimpleBuddy → SimpleBuddy → State → Option State

-- The order of the block for a size and an alignment.
unfoldable pub aligned_order : ℕ → ℕ → ℕ
aligned_order size alignment = order_max (max size alignment)

-- `current_heap` and `aligned_heap`, which are null before `init_heap`.
pub record Heaps (d : FirstFit) : Type 0 where
  pub current : Option d.State
  pub aligned : Option SimpleBuddy

module _ (d : FirstFit) where
  open d use {State}

  -- `operator new(size)` on the first fit heap.
  unfoldable pub new_from : State → ℕ → Option (ℕ × State)
  new_from c size = (d.alloc c size).0 >>= (λ tmp. some (tmp, (d.alloc c size).1))

  unfoldable pub new : ℕ → Heaps d → Option (ℕ × Heaps d)
  unfolding new_from
  new size h =
      h.current >>= (λ c. new_from c size >>= (λ r. some (r.0, record h { current = some r.1 })))

  -- The memory that the aligned heap claims when its blocks do not suffice.
  unfoldable pub claim_space : ℕ → Option ℕ → State → Option (Option ℕ × State)
  unfolding new_from
  claim_space order (some addr) c = some (none, c)
  claim_space order none c = new_from c (2 ^ claim_order order) >>= (λ r. some (some r.0, r.1))

  -- `alloc` of the aligned heap, with the nodes of its first attempt, the claim, and all nodes after it.
  unfoldable pub new_block : ℕ → State → SimpleBuddy → Option (Option ℕ × Heaps d)
  unfolding claim_space
  new_block order c s = do
    first ← Buddy.alloc s.base order
    c1 ← d.nodes s (record s { base = first.1 }) c
    space ← claim_space order first.0 c1
    r ← SimpleBuddy.alloc space.0 order s
    c2 ← d.nodes (record s { base = first.1 }) r.1 space.1
    tmp ← r.0
    some (some tmp, record { current = some c2; aligned = some r.1 })

  -- `operator new(size, alignment)`
  unfoldable pub new_aligned : ℕ → ℕ → Heaps d → Option (Option ℕ × Heaps d)
  unfolding new_block aligned_order
  new_aligned size alignment h = h.current >>= (λ c.
      if leb alignment d.alignment
      then some ((d.alloc c size).0, record h { current = some (d.alloc c size).1 })
      else (h.aligned >>= (λ s.
          assert (leb (order_max alignment) s.base.max_order)
          >> new_block (aligned_order size alignment) c s)))

  -- `operator delete(p)` and `operator delete(p, alignment)`
  unfoldable pub delete : ℕ → Heaps d → Option (Heaps d)
  delete p h = h.current >>= (λ c. some (record h { current = some (d.free c p) }))

  unfoldable pub delete_aligned : ℕ → ℕ → Heaps d → Option (Heaps d)
  delete_aligned p alignment h = h.current >>= (λ c.
      if leb alignment d.alignment
      then some (record h { current = some (d.free c p) })
      else (h.aligned >>= (λ s. SimpleBuddy.free p s >>= (λ s2.
          d.nodes s s2 c >>= (λ c2. some (record { current = some c2; aligned = some s2 }))))))
