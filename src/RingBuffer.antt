-- ===== src/RingBuffer.antt =====
-- src/lib/toyos/include/toyos/util/simple_ring_buffer.hpp: the newest elements of a stream. `initial`
-- is `T()`; `none` is a failed ASSERT, or the exception of `queue.at` on an index out of bounds.
pub mod History
use guest_tests.Base.{
  ℕ, zero, suc, ◌+◌, ◌%◌, ◌==◌, ltb, if◌then◌else◌, Option, none, some, ◌>>=◌, ◌>>◌, assert, List,
  length, get_elem?, set, replicate,
}
use guest_tests.Math.{word}

pub record SimpleRingBuffer {ℓ} (A : Type ℓ) : Type ℓ where
  pub max_entries : ℕ
  pub queue : List A
  pub num_elems : ℕ
  pub start : ℕ

module _ {ℓ} {A : Type ℓ} where
  unfoldable pub simple_ring_buffer : A → ℕ → Option (SimpleRingBuffer A)
  simple_ring_buffer initial max_entries = do
    assert (ltb 0 max_entries)
    some (record {
      max_entries = max_entries;
      queue = replicate max_entries initial;
      num_elems = 0;
      start = 0;
    })

  -- `queue.at(i) = msg`
  unfoldable pub write_at : SimpleRingBuffer A → ℕ → A → Option (SimpleRingBuffer A)
  write_at b i msg =
      if ltb i (length b.queue) then some (record b { queue = set b.queue i msg }) else none

  unfoldable pub add : A → SimpleRingBuffer A → Option (SimpleRingBuffer A)
  add msg b =
      let replaced = (do
        b2 ← write_at b b.start msg
        some (record b2 { start = (b.start + 1) % word % b.max_entries })) in
      let appended = (do
        b2 ← write_at b ((b.start + b.num_elems) % word % b.max_entries) msg
        some (record b2 { num_elems = (b.num_elems + 1) % word })) in
      if b.num_elems == b.max_entries then replaced else appended

  unfoldable pub at : SimpleRingBuffer A → ℕ → Option A
  at b i = get_elem? b.queue ((b.start + i) % word % b.max_entries)

  unfoldable pub flush : A → SimpleRingBuffer A → SimpleRingBuffer A
  flush initial b = record b {
    queue = replicate (length b.queue) initial;
    num_elems = 0;
    start = 0;
  }
