-- ===== src/IntervalMap.antt =====
-- src/lib/toyos/include/toyos/util/interval_map.hpp: a map from numbers to values, as the ascending
-- vector of the points where the value changes. An iterator is its index in the vector; `none` is an
-- assertion or an iterator that is used outside the vector. `same` is `==` on the values. The binary
-- searches of the C++ library find the point up to which their test holds, given that it holds for no
-- element behind that.
pub mod Find
pub mod Ascent
pub mod Merge
mod Shape
pub mod Places
mod Branches
pub mod Insert
pub mod Overwrite
use guest_tests.Base.{
  ℕ, zero, suc, ◌+◌, ◌-◌, ◌%◌, min, Bool, true, false, not, ◌&&◌, ◌||◌, ◌==◌, leb, ltb,
  if◌then◌else◌, Option, none, some, ◌>>=◌, ◌>>◌, assert, List, [], ◌∷◌, ◌++◌, length, get_elem?,
  set, take, drop,
}
use guest_tests.Math.{word}
use guest_tests.Interval.{Interval, empty, size}

abbrev pub ival_last : ℕ
ival_last = word - 1

-- Where an element stands after `insert` and `erase` of a vector.
unfoldable pub insert_at {ℓ} : {A : Type ℓ} → List A → ℕ → A → List A
insert_at m i x = take i m ++ x ∷ drop i m

unfoldable pub erase_range {ℓ} : {A : Type ℓ} → List A → ℕ → ℕ → List A
erase_range m i j = take i m ++ drop j m

module _ {ℓ} {V : Type ℓ} where
  unfoldable pub lower_bound : List (ℕ × V) → ℕ → ℕ
  lower_bound [] point = 0
  lower_bound (e ∷ m) point =
      let rest = lower_bound m point in if ltb e.0 point then suc rest else 0

  unfoldable pub upper_bound : List (ℕ × V) → ℕ → ℕ
  upper_bound [] point = 0
  upper_bound (e ∷ m) point =
      let rest = upper_bound m point in if leb e.0 point then suc rest else 0

  -- `std::prev(it)`, used.
  unfoldable pub before : List (ℕ × V) → ℕ → Option (ℕ × V)
  before m zero = none
  before m (suc i) = get_elem? m i

  -- The interval that starts at `lower` and ends at the element with index `upper`, if there is one.
  unfoldable pub interval_of : List (ℕ × V) → ℕ → ℕ × V → Interval × V
  interval_of m upper lower = (
    record { a = lower.0; b = elim (get_elem? m upper) [ none ↦ ival_last | some e ↦ e.0 ] },
    lower.1,
  )

  unfoldable pub find : List (ℕ × V) → ℕ → Option (Interval × V)
  find m point =
      before m (upper_bound m point) >>= (λ lower. some (interval_of m (upper_bound m point) lower))

  -- The indices of `iterate_range`.
  unfoldable pub iterate_range : List (ℕ × V) → ℕ → ℕ → Option (ℕ × ℕ)
  iterate_range m begin_point end_point = get_elem? m (lower_bound m begin_point) >>= (λ e.
      if e.0 == begin_point
      then some (lower_bound m begin_point, lower_bound m end_point)
      else some (lower_bound m begin_point - 1, lower_bound m end_point))

module _ {ℓ} {V : Type ℓ} (same : V → V → Bool) where
  -- `merge` with the predecessor: the vector and the index of the element then.
  unfoldable pub merge_before : List (ℕ × V) → ℕ → ℕ × V → List (ℕ × V) × ℕ
  merge_before m i cur = elim (before m i) [
    | none ↦ (m, i)
    | some pre ↦
        if same cur.1 pre.1 then (erase_range (set m i (pre.0, cur.1)) (i - 1) i, i - 1) else (m, i)
  ]

  unfoldable pub merge_behind : List (ℕ × V) → ℕ → V → List (ℕ × V)
  merge_behind m i val = elim (get_elem? m (i + 1)) [
    | none ↦ m
    | some post ↦ if same val post.1 then erase_range m (i + 1) (i + 2) else m
  ]

  unfoldable pub merge : List (ℕ × V) → ℕ → List (ℕ × V)
  merge m i = elim (get_elem? m i) [
    | none ↦ m
    | some cur ↦ let r = merge_before m i cur in merge_behind r.0 r.1 cur.1
  ]

  -- `insert` inside another interval: no element lies from `ival.a` up to `ival.b`.
  unfoldable pub insert_inside : List (ℕ × V) → ℕ → Interval → V → Option (List (ℕ × V))
  insert_inside m lbb ival val =
      let one_point = insert_at m lbb (ival.a, val) in
      before m lbb >>= (λ prev.
        let two_points = insert_at one_point (lbb + 1) (ival.b, prev.1) in
        if same val prev.1
        then some m
        else if ival.b == ival_last
        then some one_point
        else elim (get_elem? m lbb) [
          | none ↦ some two_points
          | some e ↦ if not (ival.b == e.0) then some two_points else some (merge one_point lbb)
        ])

  -- `insert` at the end: no element lies from `ival.b` on.
  unfoldable pub insert_end : List (ℕ × V) → ℕ → ℕ → Interval → V → Option (List (ℕ × V))
  insert_end m lba lbb ival val =
      let cleared = erase_range m lba lbb in
      let kept = erase_range m lba (lbb - 1) in
      let shifted = get_elem? kept lba >>= (λ prev.
        if same prev.1 val
        then some (merge (set kept lba (ival.a, prev.1)) lba)
        else some (merge (insert_at (set kept lba (ival.b, prev.1)) lba (ival.a, val)) lba)) in
      if ival.b == ival_last
      then some (merge (insert_at cleared (length cleared) (ival.a, val)) (length cleared))
      else shifted

  -- `insert` over some elements, with more behind them.
  unfoldable pub insert_over : List (ℕ × V) → ℕ → ℕ → Interval → V → Option (List (ℕ × V))
  insert_over m lba lbb ival val =
      let place = λ (m2 : List (ℕ × V)) (up_to : ℕ).
        merge (insert_at (erase_range m2 lba up_to) lba (ival.a, val)) lba in
      get_elem? m lbb >>= (λ e. before m lbb >>= (λ prev.
        if not (ival.b == e.0)
        then some (place (set m (lbb - 1) (ival.b, prev.1)) (lbb - 1))
        else some (place m lbb)))

  unfoldable pub insert : List (ℕ × V) → Interval → V → Option (List (ℕ × V))
  insert m ival val =
      let lba = lower_bound m ival.a in
      let lbb = lower_bound m ival.b in
      let inside = (do assert (not (lba == 0)); insert_inside m lbb ival val) in
      let at_end = insert_end m lba lbb ival val in
      let over = insert_over m lba lbb ival val in
      (do
        assert (not (empty ival))
        assert (not (length m == 0))
        (if lba == lbb then inside else if lbb == length m then at_end else over))

  -- `remove(point)`; `initial` is `value_t{}`.
  unfoldable pub remove : V → List (ℕ × V) → ℕ → Option (List (ℕ × V))
  remove initial m point =
      let next = upper_bound m point in
      let actual = next - 1 in
      before m next >>= (λ cur. elim (get_elem? m next) [
        | none ↦
            if actual == 0
            then some (set m actual (cur.0, initial))
            else some (erase_range m actual (actual + 1))
        | some e ↦ elim (before m actual) [
          | none ↦ some (erase_range (set m next (0, e.1)) actual (actual + 1))
          | some prev ↦
              if same prev.1 e.1
              then some (erase_range (erase_range m next (next + 1)) actual (actual + 1))
              else some (erase_range m actual (actual + 1))
        ]
      ])

  -- What `find_last_fit` makes of one element.
  unfoldable pub fit : List (ℕ × V) → ℕ → V → ℕ → Interval → ℕ × V → Option Interval
  fit m bytes val limit final_range elem =
      let wanted = find m elem.0 >>= (λ pair.
        let last = min pair.0.b limit in
        if leb bytes (size pair.0) && leb ((pair.0.a + bytes) % word) limit
        then some (record { a = (last + word - bytes) % word; b = last })
        else some final_range) in
      if same elem.1 val then wanted else some final_range

  unfoldable pub fit_from : List (ℕ × V) → ℕ → V → ℕ → Interval → List (ℕ × V) → Option Interval
  fit_from m bytes val limit final_range [] = some final_range
  fit_from m bytes val limit final_range (elem ∷ rest) =
      fit m bytes val limit final_range elem >>= (λ r. fit_from m bytes val limit r rest)

  unfoldable pub find_last_fit : List (ℕ × V) → ℕ → V → ℕ → Option Interval
  find_last_fit m bytes val limit = fit_from m bytes val limit (record { a = 0; b = 0 }) m
