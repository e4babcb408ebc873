-- ===== src/ArrayLockFree/Threads.antt =====
-- Threads that insert into the array of util/array_lock_free.hpp, apart at the compare-and-exchange of
-- each place. A thread inserts once; that many calls are as many threads.
use guest_tests.Base.{ℕ, suc, ◌≡◌, ◌≢◌, ◌==◌, if◌then◌else◌, some, List, length, get_elem?, set}

-- Where a thread stands: before its call, before the exchange at an index, or behind the call with
-- the index that it answers or with nothing.
pub data Pc : Type 0 where
  idle : Pc
  scanning : (value i : ℕ) → Pc
  stored : (value i : ℕ) → Pc
  refused : (value : ℕ) → Pc

abbrev pub update : (ℕ → Pc) → ℕ → Pc → ℕ → Pc
update pcs t p u = if u == t then p else pcs u

pub record System : Type 0 where
  pub array : List ℕ
  pub pcs : ℕ → Pc

-- A step of a thread from one point to the next, with the array before and behind it.
pub data Move (invalid : ℕ) (array : List ℕ) : Pc → List ℕ → Pc → Type 0 where
  call : {v : ℕ} → v ≢ invalid → Move invalid array idle array (scanning v 0)
  exchange :
      {v i : ℕ}
      → get_elem? array i ≡ some invalid
      → Move invalid array (scanning v i) (set array i v) (stored v i)
  go_on :
      {v i x : ℕ}
      → get_elem? array i ≡ some x
      → x ≢ invalid
      → Move invalid array (scanning v i) array (scanning v (suc i))
  give_up : {v i : ℕ} → i ≡ length array → Move invalid array (scanning v i) array (refused v)

-- Any thread may move next.
pub data Step (invalid t : ℕ) (s : System) : System → Type 0 where
  step :
      {array : List ℕ} {p : Pc}
      → Move invalid s.array (s.pcs t) array p
      → Step invalid t s (record { array = array; pcs = update s.pcs t p })

-- A run from the start, and the number of steps in it that thread `t` made.
pub data Run (invalid : ℕ) (array : List ℕ) (t : ℕ) : ℕ → System → Type 0 where
  start : Run invalid array t 0 (record { array = array; pcs = λ u. idle })
  mine :
      {n : ℕ} {s s2 : System}
      → Run invalid array t n s
      → Step invalid t s s2
      → Run invalid array t (suc n) s2
  other :
      {n u : ℕ} {s s2 : System}
      → Run invalid array t n s
      → u ≢ t
      → Step invalid u s s2
      → Run invalid array t n s2
