-- ===== src/ArrayLockFree/Progress.antt =====
-- The steps that a thread needs to insert into the array of util/array_lock_free.hpp.
use guest_tests.Base.{
  ℕ, suc, ◌+◌, ◌≤◌, ◌≡◌, refl, sym, ap, ◌∙◌, subst, arith, true, false, ◌==◌, ==_iff, ==_self,
  if◌then◌else◌, Bool-cases, inl, inr, some, List, length, get_elem?, get_or, get_elem?-eq-get_or,
  ltb, ltb→lt,
}
use guest_tests.ArrayLockFree.Threads.{
  Pc, idle, scanning, stored, refused, update, System, Move, call, exchange, go_on, give_up, Step,
  step, Run, start, mine, other,
}
use guest_tests.ArrayLockFree.Claims.{Good, Run-IsSound, Move-Grows}

-- Behind its call.
abbrev pub Finished : Pc → Type 0
Finished idle = ⊥
Finished (scanning v i) = ⊥
Finished (stored v i) = Unit
Finished (refused v) = Unit

-- The steps that a thread has made where it stands.
Counted : ℕ → Pc → Type 0
Counted n idle = n ≡ 0
Counted n (scanning v i) = n ≡ suc i
Counted n (stored v i) = Unit
Counted n (refused v) = Unit

Move-Counted :
    {invalid : ℕ} {array array2 : List ℕ} {p p2 : Pc} (n : ℕ)
    → Move invalid array p array2 p2
    → Counted n p
    → Counted (suc n) p2
unfolding Counted
Move-Counted n (call real) h = ap suc h
Move-Counted n (exchange free) h = tt
Move-Counted n (go_on e differ) h = ap suc h
Move-Counted n (give_up e) h = tt

Run-Counted :
    {invalid : ℕ} {array : List ℕ} {t n : ℕ} {s : System}
    → Run invalid array t n s
    → Counted n (s.pcs t)
unfolding Counted
Run-Counted start = refl
Run-Counted {t = t} {n = n} (mine {n = m} {s} r (step {p} move)) =
    subst (Counted n) (sym (ap (λ b. if b then p else s.pcs t) (==_self t)))
      (Move-Counted m move (Run-Counted r))
Run-Counted {t = t} {n = n} (other {u = u} {s = s} r ne (step {p} move)) =
    subst (Counted n) (sym (ap (λ b. if b then p else s.pcs t) apart)) (Run-Counted r)
  where
    apart : (t == u) ≡ false
    apart = ground (arith, ne)

Run-length :
    {invalid : ℕ} {array : List ℕ} {t n : ℕ} {s : System}
    → Run invalid array t n s
    → length s.array ≡ length array
Run-length start = refl
Run-length {invalid} (mine r (step move)) = (Move-Grows invalid move).same_length ∙ Run-length r
Run-length {invalid} (other r ne (step move)) = (Move-Grows invalid move).same_length ∙ Run-length r

-- A thread that scans can always make a step.
can_step :
    (invalid t v i : ℕ) (s : System)
    → s.pcs t ≡ scanning v i
    → i ≤ length s.array
    → (s2 : System) × Step invalid t s s2
can_step invalid t v i s at le = elim (Bool-cases (ltb i (length s.array))) [
  | inr end ↦ moved (give_up {v = v} (ground (arith, end, le)))
  | inl below ↦ elim (Bool-cases (get_or s.array i 0 == invalid)) [
    | inl free ↦
        moved
          (exchange {v = v} (there below ∙ ap some ((==_iff (get_or s.array i 0) invalid).0 free)))
    | inr taken ↦ moved (go_on {v = v} (there below) (ground (arith, taken)))
  ]
]
  where
    moved :
        {array : List ℕ} {p : Pc}
        → Move invalid s.array (scanning v i) array p
        → (s2 : System) × Step invalid t s s2
    moved {array} {p} move = (
      record { array = array; pcs = update s.pcs t p },
      step (subst (λ q. Move invalid s.array q array p) (sym at) move),
    )

    there : ltb i (length s.array) ≡ true → get_elem? s.array i ≡ some (get_or s.array i 0)
    there below = get_elem?-eq-get_or s.array i 0 (ltb→lt i (length s.array) below)

-- Where a thread is that has made `n` steps: behind its call, before it, or scanning with a next step.
pub data Progress (invalid t n places : ℕ) (s : System) : Type 0 where
  finished : Finished (s.pcs t) → Progress invalid t n places s
  waits : s.pcs t ≡ idle → n ≡ 0 → Progress invalid t n places s
  scans :
      (v i : ℕ) (s2 : System)
      → s.pcs t ≡ scanning v i
      → n ≤ places + 1
      → Step invalid t s s2
      → Progress invalid t n places s

-- In every run, whatever the other threads do between its steps: a thread has finished its insertion,
-- has not begun it, or has made at most one step more than there are places and can make another one.
pub Run-Progress :
    (invalid t : ℕ) {n : ℕ} {array : List ℕ} {s : System}
    → Run invalid array t n s
    → Progress invalid t n (length array) s
Run-Progress invalid t {n} {array} {s} r =
    at_point (s.pcs t) refl (Run-Counted r) ((Run-IsSound invalid r).good t)
  where
    at_point :
        (p : Pc)
        → s.pcs t ≡ p
        → Counted n p
        → Good invalid s.array p
        → Progress invalid t n (length array) s
    at_point idle e c g = waits e (unfold Counted in c)
    at_point (scanning v i) e c (real, le, taken) =
        let (s2, st) = can_step invalid t v i s e le in
        scans v i s2 e (unfold Counted in omega (arith, c, le, Run-length r)) st
    at_point (stored v i) e c g = finished (subst Finished (sym e) tt)
    at_point (refused v) e c g = finished (subst Finished (sym e) tt)
