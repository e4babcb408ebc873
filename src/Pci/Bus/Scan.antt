-- ===== src/Pci/Bus/Scan.antt =====
-- The loop of pci/bus.hpp over the configuration space finds the functions that are there.
use guest_tests.Base.{
  ℕ, zero, suc, ◌+◌, ◌*◌, ◌%◌, ◌<◌, ◌≡◌, refl, sym, ap, ap₂, ◌∙◌, arith, true, false, ◌==◌,
  if◌then◌else◌, Bool-cases, inl, inr, ◌⊎◌, some, ◌>>=◌, List, [], ◌∷◌,
}
use guest_tests.Math.{word}
use guest_tests.Pci.Bdf.Rid.{split, next-split}
use guest_tests.Pci.Device.{is_valid}
use guest_tests.Pci.Bus.{PciBus, Iterator, mcfg_end, begin, step, increment, devices}

module _ (config : ℕ → ℕ) (base : ℕ) where
  -- The iterator at the function with number `i`.
  abbrev pub at : ℕ → Iterator
  at i = record { cfg_base = base + i * 4096; bdf = split i }

  -- The functions that are there, of `k` from number `i` on.
  unfoldable pub functions : ℕ → ℕ → List Iterator
  functions zero i = []
  functions (suc k) i =
      let rest = functions k (suc i) in
      if is_valid config (base + i * 4096) then at i ∷ rest else rest

  module _ (n : ℕ) (fits : base + n * 4096 < word) where
    abbrev stop : ℕ
    stop = base + n * 4096

    step-at : (i : ℕ) → i < n → step config stop (at i) ≡ at (suc i)
    unfolding step
    step-at i h =
        ap₂ (λ b d. record { cfg_base = b; bdf = d }) moved
          (next-split i ∙ ap split {y = suc i} (omega arith))
      where
        moved : (base + i * 4096 + 4096) % word ≡ base + suc i * 4096
        moved = omega (arith, h, fits)

    -- Where the increment goes from function `i`, when `k` functions are behind it.
    pub record Moved (fuel k i : ℕ) : Type 0 where
      pub place : ℕ
      pub left : ℕ
      pub reached : increment config stop fuel (at i) ≡ some (at place)
      pub fewer : left < suc k
      pub outcome :
          ((place ≡ n) × (functions k (suc i) ≡ []))
          ⊎ ((place + suc left ≡ n)
              × (left < k)
              × (functions k (suc i) ≡ at place ∷ functions left (suc place)))

    not_end : (i : ℕ) → i < n → (base + i * 4096 == stop) ≡ false
    not_end i h = ground (arith, h)

    increment-Moved : (k fuel i : ℕ) → suc i + k ≡ n → k < fuel → Moved fuel k i
    unfolding increment functions
    increment-Moved k zero i e enough = absurd (omega arith)
    increment-Moved zero (suc fuel) i e enough = record {
      place = suc i;
      left = 0;
      reached = rw (step-at i (omega (arith, e)), at_stop) refl;
      fewer = omega arith;
      outcome = inl (omega (arith, e), refl);
    }
      where
        at_stop : (base + suc i * 4096 == stop) ≡ true
        at_stop = ground (arith, e)
    increment-Moved (suc k) (suc fuel) i e enough =
        elim (Bool-cases (is_valid config (base + suc i * 4096))) [
          | inl here ↦ record {
            place = suc i;
            left = k;
            reached =
                rw (step-at i (omega (arith, e)), not_end (suc i) (omega (arith, e)), here) refl;
            fewer = omega arith;
            outcome = inr (omega (arith, e), omega arith, rw here refl);
          }
          | inr absent ↦
              let m = increment-Moved k fuel (suc i) (omega (arith, e)) (omega arith) in
              record {
                place = m.place;
                left = m.left;
                reached =
                    rw (step-at i (omega (arith, e)), not_end (suc i) (omega (arith, e)), absent)
                      m.reached;
                fewer = omega (arith, m.fewer);
                outcome = elim m.outcome [
                  | inl done ↦ inl (done.0, rw absent done.1)
                  | inr more ↦ inr (more.0, omega (arith, more.1), rw absent more.2)
                ];
              }
        ]

    devices_end : (fuel i : ℕ) → i ≡ n → 0 < fuel → devices config stop fuel (at i) ≡ some []
    unfolding devices
    devices_end zero i e h = absurd (omega arith)
    devices_end (suc fuel) i e h = rw at_stop refl
      where
        at_stop : (base + i * 4096 == stop) ≡ true
        at_stop = ground (arith, e)

    devices_from :
        (fuel k i : ℕ)
        → i + suc k ≡ n
        → suc k < fuel
        → devices config stop fuel (at i) ≡ some (at i ∷ functions k (suc i))
    unfolding devices
    devices_from zero k i e enough = absurd (omega arith)
    devices_from (suc fuel) k i e enough =
        let m = increment-Moved k (suc fuel) i (omega (arith, e)) (omega arith) in
        rw (not_end i (omega (arith, e)), m.reached)
          (elim m.outcome [
            | inl done ↦
                ap (λ o. o >>= (λ rest. some (at i ∷ rest)))
                  (devices_end fuel m.place done.0 (omega arith))
                ∙ ap (λ l. some (at i ∷ l)) (sym done.1)
            | inr more ↦
                ap (λ o. o >>= (λ rest. some (at i ∷ rest)))
                  (devices_from fuel m.left m.place more.0 (omega (arith, more.1)))
                ∙ ap (λ l. some (at i ∷ l)) (sym more.2)
          ])

-- The number of functions of a bus.
abbrev pages : PciBus → ℕ
pages b = b.pci_busses * 256

-- For one bus or more, whose configuration space ends below 2^64, and more rounds than functions: the
-- loop visits the first function, and then just those that are there, in the order of their numbers, each
-- with its own bus, device and function, and ends.
pub devices-functions :
    (config : ℕ → ℕ) (b : PciBus) (fuel k : ℕ)
    → suc k ≡ pages b
    → b.mcfg_base + pages b * 4096 < word
    → suc k < fuel
    → devices config (mcfg_end b) fuel (begin b)
      ≡ some (at config b.mcfg_base 0 ∷ functions config b.mcfg_base k 1)
unfolding mcfg_end begin
devices-functions config b fuel k e fits enough =
    ap₂ (λ s d. devices config s fuel d) stops starts
    ∙ devices_from config b.mcfg_base (pages b) fits fuel k 0 (omega (arith, e)) enough
  where
    stops : (b.mcfg_base + b.pci_busses * 32 * 8 * 4096) % word ≡ b.mcfg_base + pages b * 4096
    stops = omega (arith, fits)

    starts : begin b ≡ at config b.mcfg_base 0
    starts = ap (λ t. record { cfg_base = t; bdf = split 0 }) (omega arith)
