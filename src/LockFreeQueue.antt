-- ===== src/LockFreeQueue.antt =====
-- src/lib/toyos/include/toyos/util/lock_free_queue.hpp and lock_free_queue_def.h: the bounded queue
-- of one producer and one consumer, in storage that both of them map. Its methods run here without
-- interruption; LockFreeQueue/Spsc.antt takes them apart at their atomic accesses.
pub mod Fifo
pub mod Bounded
pub mod Spsc
pub mod Interleaving
use guest_tests.Base.{
  ℕ, ◌+◌, ◌%◌, Bool, true, false, not, ◌&&◌, ◌==◌, ltb, if◌then◌else◌, Option, none, some, ◌>>=◌,
  ◌>>◌, assert, List, get_elem?, set,
}
use guest_tests.Math.{word}

-- `LFQ_API_VERSION`
abbrev pub api_version : ℕ
api_version = 1

-- `lock_less_queue_meta_t`
pub record MetaData : Type 0 where
  pub version : ℕ
  pub entry_num : ℕ
  pub entry_size : ℕ

-- `queue_storage`; `elements` is an array of `MAX_SIZE + 1` elements.
pub record Storage {ℓ} (A : Type ℓ) : Type ℓ where
  pub meta_data : MetaData
  pub read_position : ℕ
  pub write_position : ℕ
  pub elements : List A

module _ {ℓ} {A : Type ℓ} where
  -- `initialize(num_elems)`, for elements of `size_of` bytes.
  unfoldable pub initialize : (max_size size_of num_elems : ℕ) → Storage A → Storage A
  initialize max_size size_of num_elems s = record s {
    read_position = 0;
    write_position = 0;
    meta_data = record {
      version = api_version;
      entry_num = if ltb num_elems max_size then num_elems else max_size;
      entry_size = size_of;
    };
  }

  unfoldable pub verify : (size_of : ℕ) → Storage A → Bool
  verify size_of s = (s.meta_data.version == api_version) && (s.meta_data.entry_size == size_of)

  unfoldable pub next_slot : Storage A → ℕ → ℕ
  next_slot s old = (old + 1) % word % ((s.meta_data.entry_num + 1) % word)

  unfoldable pub empty : Storage A → Bool
  empty s = s.read_position == s.write_position

  unfoldable pub full : Storage A → Bool
  full s = s.read_position == next_slot s s.write_position

  -- `q.elements[slot] = elem`
  abbrev pub write_slot : Storage A → ℕ → A → Storage A
  write_slot s slot elem = record s { elements = set s.elements slot elem }

  unfoldable pub push : A → Storage A → Bool × Storage A
  push elem s =
      let s2 = write_slot s s.write_position elem in
      if full s
      then (false, s)
      else (true, record s2 { write_position = next_slot s2 s.write_position })

  -- The element that `front` refers to; `none` is the assertion or an index out of the array.
  unfoldable pub front : Storage A → Option A
  front s = do assert (not (empty s)); get_elem? s.elements s.read_position

  unfoldable pub pop : Storage A → Bool × Storage A
  pop s =
      if empty s
      then (false, s)
      else (true, record s { read_position = next_slot s s.read_position })

  unfoldable pub get_and_pop : Storage A → Option (Option A × Storage A)
  get_and_pop s =
      let popped = (do val ← front s; assert (pop s).0; some (some val, (pop s).1)) in
      if empty s then some (none, s) else popped

  -- `lock_free_queue_producer`; a queue is a reference to its storage, `false` is the `nullptr`.
  unfoldable pub create_from_existing_storage : (size_of : ℕ) → Storage A → Bool
  create_from_existing_storage size_of s = verify size_of s

  unfoldable pub producer_create : (max_size size_of num_elems : ℕ) → Storage A → Bool × Storage A
  producer_create max_size size_of num_elems s =
      let s2 = initialize max_size size_of num_elems s in
      if ltb max_size num_elems then (false, s) else (create_from_existing_storage size_of s2, s2)

  -- `lock_free_queue_consumer::create`
  unfoldable pub consumer_create : (size_of : ℕ) → Storage A → Bool
  consumer_create size_of s = verify size_of s
