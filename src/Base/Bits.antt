-- ===== src/Base/Bits.antt =====
-- Binary digits of a number at every width, and what the bit operations do to each digit.
use Prim.Native.Nat.{ℕ, zero, suc, ◌+◌, ◌-◌, ◌*◌, ◌/◌, ◌%◌, ◌^◌, ◌≤◌, ◌<◌, min, max}
use Prim.Native.Nat.{bit_and, bit_or, bit_xor, digits, bitwise, differ}
use Prim.Native.Nat.{bit_and-bitwise, bit_or-bitwise, bit_xor-bitwise}
use mathlib.Core.Logic.{◌⊎◌, inl, inr}
use mathlib.Core.Path.{◌≡◌, refl, ap, ◌∙◌, sym}
use native.Mathlib.Nat.{
  zero-add, suc-add, pow-suc, one-le-pow, mod-lt, mul-sub, mod-eq_of_lt, pow-le-pow_right,
  div-lt_iff_lt-mul, div-add-mod', mul-add-mod_self_right, div-eq_of_lt-le, div-div-eq-div-mul,
}
use mathlib.Core.WellFounded
use guest_tests.Base.Tests.{◌==◌}
use guest_tests.Base.Order.{lt_wf}
use native.Mathlib.Decide.{dec_lt}
use native.Mathlib.Omega.{arith}

-- The bit operations go through `rounds` digits; rounds past the first number change nothing.
module _ (rest : ℕ → ℕ) (op : ℕ → ℕ → ℕ) where
  rounds_at_zero : (rounds b : ℕ) → digits rest op rounds 0 b ≡ rest b
  rounds_at_zero zero b = refl
  rounds_at_zero (suc rounds) b = refl

  one_more_round :
      (rounds a b : ℕ) → a ≤ rounds → digits rest op (suc rounds) a b ≡ digits rest op rounds a b
  one_more_round rounds zero b h = sym (rounds_at_zero rounds b)
  one_more_round zero (suc a) b h = absurd (omega arith)
  one_more_round (suc rounds) (suc a) b h =
      ap (λ (t : ℕ). t * 2 + op (suc a % 2) (b % 2))
        (one_more_round rounds (suc a / 2) (b / 2) (omega arith))

  spare_rounds : (spare a b : ℕ) → digits rest op (spare + a) a b ≡ bitwise rest op a b
  spare_rounds zero a b = rw (zero-add a) refl
  spare_rounds (suc spare) a b =
      rw (suc-add spare a) (one_more_round (spare + a) a b (omega arith) ∙ spare_rounds spare a b)

  bitwise_step :
      (a b : ℕ)
      → rest b ≡ rest (b / 2) * 2 + op 0 (b % 2)
      → bitwise rest op a b ≡ bitwise rest op (a / 2) (b / 2) * 2 + op (a % 2) (b % 2)
  bitwise_step zero b h = h
  bitwise_step (suc a) b h =
      ap (λ (t : ℕ). t * 2 + op (suc a % 2) (b % 2))
        (ap (λ (n : ℕ). digits rest op n (suc a / 2) (b / 2)) {y = a - suc a / 2 + suc a / 2}
            (omega arith)
          ∙ spare_rounds (a - suc a / 2) (suc a / 2) (b / 2))

pub bit_and_step : (v w : ℕ) → bit_and v w ≡ 2 * bit_and (v / 2) (w / 2) + min (v % 2) (w % 2)
bit_and_step v w = omega (arith, and_digits)
  where
    and_digits : bit_and v w ≡ bit_and (v / 2) (w / 2) * 2 + min (v % 2) (w % 2)
    and_digits = simp bit_and-bitwise (bitwise_step (λ t. 0) min v w (omega arith))

pub bit_or_step : (v w : ℕ) → bit_or v w ≡ 2 * bit_or (v / 2) (w / 2) + max (v % 2) (w % 2)
bit_or_step v w = omega (arith, or_digits)
  where
    or_digits : bit_or v w ≡ bit_or (v / 2) (w / 2) * 2 + max (v % 2) (w % 2)
    or_digits = simp bit_or-bitwise (bitwise_step (λ t. t) max v w (omega arith))

differ_bits : (x y : ℕ) → x < 2 → y < 2 → differ x y ≡ (x + y) % 2
differ_bits zero y hx hy = omega arith
differ_bits (suc zero) zero hx hy = refl
differ_bits (suc zero) (suc zero) hx hy = refl
differ_bits (suc zero) (suc (suc y)) hx hy = absurd (omega arith)
differ_bits (suc (suc x)) y hx hy = absurd (omega arith)

differ_mod : (a b : ℕ) → differ (a % 2) (b % 2) ≡ (a + b) % 2
differ_mod a b = omega (arith, differ_bits (a % 2) (b % 2) (omega arith) (omega arith))

pub bit_xor_step : (a b : ℕ) → bit_xor a b ≡ bit_xor (a / 2) (b / 2) * 2 + (a + b) % 2
bit_xor_step a b = simp bit_xor-bitwise (
    bitwise_step (λ t. t) differ a b (omega (arith, differ_mod 0 b))
    ∙ ap (λ t. bitwise (λ y. y) differ (a / 2) (b / 2) * 2 + t) (differ_mod a b))

-- Digit `i` of `n`.
abbrev pub digit : ℕ → ℕ → ℕ
digit n i = n / 2 ^ i % 2

pub two-pow-pos : (k : ℕ) → 0 < 2 ^ k
two-pow-pos k = one-le-pow k 2 (omega arith)

pub two-pow-suc : (k : ℕ) → 2 ^ suc k ≡ 2 * 2 ^ k
two-pow-suc k = omega (arith, pow-suc 2 k)

pub two-pow-add : (j k : ℕ) → 2 ^ (j + k) ≡ 2 ^ j * 2 ^ k
two-pow-add zero k = omega (arith, ap (λ (t : ℕ). 2 ^ t) (zero-add k))
two-pow-add (suc j) k = omega (
  arith,
  two-pow-suc (j + k),
  ap (λ (t : ℕ). 2 ^ t) (suc-add j k),
  two-pow-suc j,
  two-pow-add j k,
  ap (λ (t : ℕ). t * 2 ^ k) (two-pow-suc j),
)

pub half_pow : (n k : ℕ) → n / 2 ^ suc k ≡ n / 2 / 2 ^ k
half_pow n k = rw (two-pow-suc k) (sym (div-div-eq-div-mul n 2 (2 ^ k)))

pub digit-suc : (n i : ℕ) → digit n (suc i) ≡ digit (n / 2) i
digit-suc n i = ap (λ t. t % 2) (half_pow n i)

pub digit-bit_and : (a b i : ℕ) → digit (bit_and a b) i ≡ min (digit a i) (digit b i)
digit-bit_and a b zero = omega (arith, bit_and_step a b)
digit-bit_and a b (suc i) =
    rw (digit-suc (bit_and a b) i, digit-suc a i, digit-suc b i, halved)
      (digit-bit_and (a / 2) (b / 2) i)
  where
    halved : bit_and a b / 2 ≡ bit_and (a / 2) (b / 2)
    halved = omega (arith, bit_and_step a b)

pub digit-bit_or : (a b i : ℕ) → digit (bit_or a b) i ≡ max (digit a i) (digit b i)
digit-bit_or a b zero = omega (arith, bit_or_step a b)
digit-bit_or a b (suc i) =
    rw (digit-suc (bit_or a b) i, digit-suc a i, digit-suc b i, halved)
      (digit-bit_or (a / 2) (b / 2) i)
  where
    halved : bit_or a b / 2 ≡ bit_or (a / 2) (b / 2)
    halved = omega (arith, bit_or_step a b)

abbrev pub low_mask : ℕ → ℕ
low_mask k = 2 ^ k - 1

-- Induction on the binary digits.
by_halves : (P : ℕ → Type 0) → P 0 → ((n : ℕ) → P (n / 2) → P n) → (n : ℕ) → P n
by_halves P base double n = WellFounded.induction lt_wf {C = P} n go
  where
    go : (n : ℕ) → ((m : ℕ) → m < n → P m) → P n
    go zero smaller = base
    go (suc n) smaller = double (suc n) (smaller (suc n / 2) (omega arith))

pub bit_and-zero : (v : ℕ) → bit_and v 0 ≡ 0
bit_and-zero = by_halves (λ v. bit_and v 0 ≡ 0) refl (λ v h. omega (arith, h, bit_and_step v 0))

pub bit_or-zero : (v : ℕ) → bit_or v 0 ≡ v
bit_or-zero = by_halves (λ v. bit_or v 0 ≡ v) refl (λ v h. omega (arith, h, bit_or_step v 0))

pub bit_xor-zero : (v : ℕ) → bit_xor v 0 ≡ v
bit_xor-zero = by_halves (λ v. bit_xor v 0 ≡ v) refl (λ v h. omega (arith, h, bit_xor_step v 0))

zero-bit_or : (v : ℕ) → bit_or 0 v ≡ v
zero-bit_or = by_halves (λ v. bit_or 0 v ≡ v) refl (λ v h. omega (arith, h, bit_or_step 0 v))

pub bit_or_comm : (a b : ℕ) → bit_or a b ≡ bit_or b a
bit_or_comm =
    by_halves (λ a. (b : ℕ) → bit_or a b ≡ bit_or b a) (λ b. zero-bit_or b ∙ sym (bit_or-zero b))
      (λ a h b. omega (arith, h (b / 2), bit_or_step a b, bit_or_step b a))

-- A remainder is the number below the modulus that a multiple of it completes.
pub mod_unique : (a q m r : ℕ) → a ≡ q * m + r → r < m → a % m ≡ r
mod_unique a q m r e h = rw e (mul-add-mod_self_right q m r ∙ mod-eq_of_lt h)

pub div_unique : (a q m r : ℕ) → a ≡ q * m + r → r < m → a / m ≡ q
div_unique a q m r e h = div-eq_of_lt-le {k = q} m {m = a} (omega arith) (grind arith)

two_mul-mod : (a m : ℕ) → 0 < m → a % (2 * m) ≡ a / 2 % m * 2 + a % 2
two_mul-mod a m h =
    mod_unique a (a / 2 / m) (2 * m) (a / 2 % m * 2 + a % 2) (omega (arith, div-add-mod' (a / 2) m))
      (omega (arith, mod-lt (a / 2) h))

pub mod-two-pow-suc : (a k : ℕ) → a % 2 ^ suc k ≡ a / 2 % 2 ^ k * 2 + a % 2
mod-two-pow-suc a k = rw (two-pow-suc k) (two_mul-mod a (2 ^ k) (two-pow-pos k))

-- A mask of `b` low bits is the remainder by `2 ^ b`.
pub bit_and_mask : (b a : ℕ) → bit_and a (low_mask b) ≡ a % 2 ^ b
bit_and_mask zero a = omega (arith, bit_and-zero a)
bit_and_mask (suc b) a = ground (
  arith,
  bit_and_step a (low_mask (suc b)),
  two-pow-suc b,
  two-pow-pos b,
  bit_and_mask b (a / 2),
  mod-two-pow-suc a b,
)

-- One more place to shift by.
pub shifted_suc : (v shift : ℕ) → v * 2 ^ suc shift ≡ 2 * (v * 2 ^ shift)
shifted_suc v shift = rw (two-pow-suc shift) (grind arith)

-- A mask of `b` bits, shifted by `s`, keeps the digits from `s` up to `s + b`.
pub bit_and_field : (s b a : ℕ) → bit_and a (low_mask b * 2 ^ s) ≡ a / 2 ^ s % 2 ^ b * 2 ^ s
bit_and_field zero b a = ground (arith, bit_and_mask b a)
bit_and_field (suc s) b a = ground (
  arith,
  bit_and_step a (low_mask b * 2 ^ suc s),
  shifted_suc (low_mask b) s,
  shifted_suc (a / 2 / 2 ^ s % 2 ^ b) s,
  bit_and_field s b (a / 2),
  half_pow a s,
)

pub bit_and_pow : (k a : ℕ) → bit_and a (2 ^ k) ≡ digit a k * 2 ^ k
bit_and_pow k a = ap (bit_and a) (omega arith) ∙ bit_and_field k 1 a

-- `~mask` in `w` bits clears the low `k` bits of a `w`-bit number.
pub bit_and_high : (w k a : ℕ) → k ≤ w → a < 2 ^ w → bit_and a (2 ^ w - 2 ^ k) ≡ a / 2 ^ k * 2 ^ k
bit_and_high w k a h lt =
    ap (bit_and a) high
    ∙ bit_and_field k (w - k) a
    ∙ ap (λ t. t * 2 ^ k) (mod-eq_of_lt ((div-lt_iff_lt-mul (two-pow-pos k)).1 (rw (← split) lt)))
  where
    split : 2 ^ w ≡ 2 ^ (w - k) * 2 ^ k
    split = ap (λ t. 2 ^ t) (omega arith) ∙ two-pow-add (w - k) k

    high : 2 ^ w - 2 ^ k ≡ low_mask (w - k) * 2 ^ k
    high = omega (arith, split, mul-sub (2 ^ k) (2 ^ (w - k)) 1)

-- `(q << k) | r` is a sum when `r` fits `k` bits.
pub bit_or_fields :
    (shift high low : ℕ) → low < 2 ^ shift → bit_or (high * 2 ^ shift) low ≡ high * 2 ^ shift + low
bit_or_fields zero high low fits = ground (arith, bit_or-zero high)
bit_or_fields (suc shift) high low fits = ground (
  arith,
  bit_or_fields shift high (low / 2) (omega (arith, two-pow-suc shift)),
  shifted_suc high shift,
  bit_or_step (high * 2 ^ suc shift) low,
)

-- One more digit of a remainder.
pub mod-two-pow-digit : (n k : ℕ) → n % 2 ^ suc k ≡ n % 2 ^ k + digit n k * 2 ^ k
mod-two-pow-digit n zero = omega arith
mod-two-pow-digit n (suc k) = omega (
  arith,
  mod-two-pow-suc n (suc k),
  mod-two-pow-suc n k,
  mod-two-pow-digit (n / 2) k,
  shifted_suc (digit n (suc k)) k,
  ap (λ (t : ℕ). t * 2 ^ k) (digit-suc n k),
)

-- The Boolean test of one bit.
pub bit_test : (n k : ℕ) → (bit_and n (2 ^ k) == 0) ≡ (digit n k == 0)
bit_test n k = ground (arith, bit_and_pow k n, two-pow-pos k)

pub bit_xor_pow_clear : (k a : ℕ) → digit a k ≡ 0 → bit_xor a (2 ^ k) ≡ a + 2 ^ k
bit_xor_pow_clear zero a h = omega (arith, bit_xor_step a 1, bit_xor-zero (a / 2))
bit_xor_pow_clear (suc k) a h =
    ground
      (arith, bit_xor_step a (2 ^ suc k), two-pow-suc k, digit-suc a k, bit_xor_pow_clear k (a / 2))

pub bit_xor_pow_set : (k a : ℕ) → digit a k ≡ 1 → bit_xor a (2 ^ k) + 2 ^ k ≡ a
bit_xor_pow_set zero a h = omega (arith, bit_xor_step a 1, bit_xor-zero (a / 2))
bit_xor_pow_set (suc k) a h =
    ground
      (arith, bit_xor_step a (2 ^ suc k), two-pow-suc k, digit-suc a k, bit_xor_pow_set k (a / 2))

pub two-pow-le : (j k : ℕ) → j ≤ k → 2 ^ j ≤ 2 ^ k
two-pow-le j k h = pow-le-pow_right {n = 2} (omega arith) h

pub lt_of_two-pow-lt : (j k : ℕ) → 2 ^ j < 2 ^ k → j < k
lt_of_two-pow-lt j k h = elim (dec_lt j k) [
  | yes p ↦ p
  | no p ↦ absurd (omega (arith, two-pow-le k j (omega arith)))
]

pub le_of_two-pow-le : (j k : ℕ) → 2 ^ j ≤ 2 ^ k → j ≤ k
le_of_two-pow-le j k h =
    omega (arith, lt_of_two-pow-lt j (suc k) (omega (arith, two-pow-suc k, two-pow-pos k)))

pub two-pow-lt : (j k : ℕ) → j < k → 2 ^ j < 2 ^ k
two-pow-lt j k h = omega (arith, two-pow-suc j, two-pow-pos j, two-pow-le (suc j) k h)

-- An index into a ring that has run over its end at most once.
pub mod_cases : (n a : ℕ) → a < n + n → ((a < n) × (a % n ≡ a)) ⊎ ((n ≤ a) × (a % n + n ≡ a))
mod_cases n a h = elim (dec_lt a n) [
  | yes lt ↦ inl (lt, mod-eq_of_lt lt)
  | no ge ↦ inr (omega arith, omega (arith, mod_unique a 1 n (a - n) (omega arith) (omega arith)))
]

pub bit_or_lt : (w a b : ℕ) → a < 2 ^ w → b < 2 ^ w → bit_or a b < 2 ^ w
bit_or_lt zero a b ha hb = omega (
  arith,
  ha,
  hb,
  bit_or-zero 0,
  ap (λ t. bit_or t b) {x = a} {y = 0} (omega (arith, ha)),
  ap (bit_or 0) {x = b} {y = 0} (omega (arith, hb)),
)
bit_or_lt (suc w) a b ha hb = omega (
  arith,
  bit_or_step a b,
  bit_or_lt w (a / 2) (b / 2) (omega (arith, two-pow-suc w)) (omega (arith, two-pow-suc w)),
  two-pow-suc w,
)
