-- ===== src/Pci/Bdf/Rid.antt =====
-- The requester id of pci/bdf.hpp as the number of a PCI function.
use guest_tests.Base.{
  ℕ, ◌+◌, ◌*◌, ◌/◌, ◌%◌, ◌^◌, ◌<◌, ◌≡◌, refl, sym, ap, ap₂, ◌∙◌, arith, bit_and, bit_or, ◌==◌,
  if◌then◌else◌, bit_and_mask, bit_or_fields,
}
use guest_tests.Math.{mask}
use guest_tests.Pci.Bdf.{Bdf, from_rid, from_offset, rid, next}

pub record IsBdf (b : Bdf) : Type 0 where
  pub bus_fits : b.bus < 256
  pub device_fits : b.device < 32
  pub function_fits : b.function < 8

Bdf_ext : (b o : Bdf) → b.bus ≡ o.bus → b.device ≡ o.device → b.function ≡ o.function → b ≡ o
Bdf_ext b o e f g =
    ap (λ t. record { bus = t; device = b.device; function = b.function }) e
    ∙ ap₂ (λ t u. record { bus = o.bus; device = t; function = u }) f g

-- The parts of a number as quotients and remainders.
abbrev pub split : ℕ → Bdf
split r = record { bus = r / 256 % 256; device = r / 8 % 32; function = r % 8 }

pub from_rid-split : (r : ℕ) → from_rid r ≡ split r
unfolding from_rid mask
from_rid-split r = rw (bit_and_mask 5 (r / 8), bit_and_mask 3 (r / 1), device, function) refl
  where
    device : r / 8 % 32 % 256 ≡ r / 8 % 32
    device = omega arith

    function : r / 1 % 8 % 256 ≡ r % 8
    function = omega arith

pub from_offset-split : (o : ℕ) → from_offset o ≡ split (o / 4096)
unfolding from_offset mask
from_offset-split o =
    rw
      (
        bit_and_mask 8 (o / 2 ^ 20),
        bit_and_mask 5 (o / 2 ^ 15),
        bit_and_mask 3 (o / 2 ^ 12),
        bus,
        device,
        function,
      )
      refl
  where
    bus : o / 2 ^ 20 % 256 % 256 ≡ o / 4096 / 256 % 256
    bus = omega arith

    device : o / 2 ^ 15 % 32 % 256 ≡ o / 4096 / 8 % 32
    device = omega arith

    function : o / 2 ^ 12 % 8 % 256 ≡ o / 4096 % 8
    function = omega arith

pub rid_sum : (b : Bdf) → IsBdf b → rid b ≡ b.bus * 256 + b.device * 8 + b.function
unfolding rid mask
rid_sum b h =
    ap₂ (λ d f. bit_or (bit_or (b.bus * 2 ^ 8) (d * 2 ^ 3)) (f * 2 ^ 0) % 2 ^ 16) device function
    ∙ ap (λ t. bit_or t (b.function * 2 ^ 0) % 2 ^ 16)
        (bit_or_fields 8 b.bus (b.device * 2 ^ 3) (omega (arith, h.device_fits)) ∙ shifted)
    ∙ ap (λ t. bit_or ((b.bus * 32 + b.device) * 2 ^ 3) t % 2 ^ 16) {y = b.function} (omega arith)
    ∙ ap (λ t. t % 2 ^ 16)
        (bit_or_fields 3 (b.bus * 32 + b.device) b.function (omega (arith, h.function_fits)))
    ∙ omega (arith, h.bus_fits, h.device_fits, h.function_fits)
  where
    device : bit_and b.device 31 ≡ b.device
    device = bit_and_mask 5 b.device ∙ omega (arith, h.device_fits)

    function : bit_and b.function 7 ≡ b.function
    function = bit_and_mask 3 b.function ∙ omega (arith, h.function_fits)

    shifted : b.bus * 2 ^ 8 + b.device * 2 ^ 3 ≡ (b.bus * 32 + b.device) * 2 ^ 3
    shifted = omega arith

split_sum : (b : Bdf) → IsBdf b → split (b.bus * 256 + b.device * 8 + b.function) ≡ b
split_sum b h = rw (bus, device, function) refl
  where
    bus : (b.bus * 256 + b.device * 8 + b.function) / 256 % 256 ≡ b.bus
    bus = omega (arith, h.bus_fits, h.device_fits, h.function_fits)

    device : (b.bus * 256 + b.device * 8 + b.function) / 8 % 32 ≡ b.device
    device = omega (arith, h.bus_fits, h.device_fits, h.function_fits)

    function : (b.bus * 256 + b.device * 8 + b.function) % 8 ≡ b.function
    function = omega (arith, h.bus_fits, h.device_fits, h.function_fits)

pub split-IsBdf : (r : ℕ) → IsBdf (split r)
split-IsBdf r = record {
  bus_fits = omega arith;
  device_fits = omega arith;
  function_fits = omega arith;
}

pub next-split : (r : ℕ) → next (split r) ≡ split (r + 1)
unfolding next
next-split r = Bdf_ext (next (split r)) (split (r + 1)) bus device function
  where
    function : (r % 8 + 1) % 8 ≡ (r + 1) % 8
    function = omega arith

    device : (r / 8 % 32 + (if (r % 8 + 1) % 8 == 0 then 1 else 0)) % 32 ≡ (r + 1) / 8 % 32
    device = ground arith

    bus : (next (split r)).bus ≡ (r + 1) / 256 % 256
    bus = ground (arith, device, function)

-- For a bus below 256, a device below 32 and a function below 8, the requester id gives them back.
pub from_rid-rid : (b : Bdf) → IsBdf b → from_rid (rid b) ≡ b
from_rid-rid b h = ap from_rid (rid_sum b h) ∙ from_rid-split _ ∙ split_sum b h

pub rid-split : (r : ℕ) → rid (split r) ≡ r % 2 ^ 16
rid-split r = rid_sum (split r) (split-IsBdf r) ∙ omega arith

-- What an increment and an offset mean for the requester id.
pub record Numbered (b : Bdf) : Type 0 where
  pub bounded : rid b < 2 ^ 16
  pub at_rid : from_rid (rid b) ≡ b
  pub at_offset : (o : ℕ) → o < 4096 → from_offset (rid b * 4096 + o) ≡ b
  pub next_rid : rid (next b) ≡ (rid b + 1) % 2 ^ 16
  pub next_valid : IsBdf (next b)

-- For a bus below 256, a device below 32 and a function below 8: the requester id takes 16 bits, it and
-- each offset in its page of the configuration space give the three back, and the increment goes on to
-- the function of the next requester id, wrapping behind the last.
pub rid-Numbered : (b : Bdf) → IsBdf b → Numbered b
rid-Numbered b h =
    let r : ℕ = b.bus * 256 + b.device * 8 + b.function in
    let is_split : b ≡ split r = sym (split_sum b h) in
    let is_next : next b ≡ split (r + 1) = ap next is_split ∙ next-split r in
    record {
      bounded = omega (arith, rid_sum b h, h.bus_fits, h.device_fits, h.function_fits);
      at_rid = from_rid-rid b h;
      at_offset = λ o lt.
          from_offset-split (rid b * 4096 + o)
          ∙ ap split {y = r} (omega (arith, rid_sum b h, lt))
          ∙ split_sum b h;
      next_rid =
          ap rid is_next ∙ rid-split (r + 1) ∙ ap (λ t. (t + 1) % 2 ^ 16) (sym (rid_sum b h));
      next_valid = rw is_next (split-IsBdf (r + 1));
    }
