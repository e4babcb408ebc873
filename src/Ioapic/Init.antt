-- ===== src/Ioapic/Init.antt =====
-- The loop of `init_interrupt_controllers` in src/boot.cpp that masks the redirection entries.
use guest_tests.Base.{
  ℕ, zero, suc, ◌+◌, ◌≤◌, ◌<◌, ◌≡◌, ◌≢◌, refl, sym, ap, ◌∙◌, arith, not, true, ◌==◌, ==_iff, ltb,
  ltb→lt, Bool-cases, ◌⊎◌, inl, inr,
}
use guest_tests.Ioapic.{
  Device, Entry, masked, mask_entry, max_irt, get_irt, set_irt, mask_unmasked, mask_from, mask_irts,
}
use guest_tests.Ioapic.Fields.{masked-digit, digit-masked_bit}
use guest_tests.Ioapic.Update.{SameSettings, Updated, set_irt-Updated, masked_by_digit}

module _ (d : Device) where
  open d use {State}

  -- What one round does.
  record Round (idx : ℕ) (s t : State) : Type 0 where
    is_masked : masked (get_irt d t idx).raw ≡ true
    others_kept :
        (j : ℕ) → j ≢ idx → j ≤ max_irt d s → SameSettings (get_irt d t j).raw (get_irt d s j).raw
    size_kept : max_irt d t ≡ max_irt d s

  round_lem : (s : State) (idx : ℕ) → idx ≤ max_irt d s → Round idx s (mask_unmasked d s idx)
  unfolding mask_unmasked mask_entry
  round_lem s idx there = elim (Bool-cases (masked (get_irt d s idx).raw)) [
    | inl already ↦
        rw (already)
          (record { is_masked = already; others_kept = λ j other le k h. refl; size_kept = refl })
    | inr open_entry ↦ rw (open_entry) (record {
      is_masked =
          masked_by_digit d (set_irt d entry s) idx
            (updated.reads_back 16 (ground arith) ∙ digit-masked_bit (get_irt d s idx).raw);
      others_kept = updated.keeps_others;
      size_kept = updated.keeps_size;
    })
  ]
    where
      entry : Entry
      entry = record { index = idx; raw = mask_entry (get_irt d s idx).raw }

      updated : Updated d entry s
      updated = set_irt-Updated d entry s there

  same_masked : (a b : ℕ) → SameSettings a b → masked a ≡ masked b
  same_masked a b same =
      masked-digit a ∙ ap (λ t. not (t == 0)) (same 16 (ground arith)) ∙ sym (masked-digit b)

  -- The rounds from `idx` on.
  record Masks (idx : ℕ) (s t : State) : Type 0 where
    masks : (j : ℕ) → idx ≤ j → j < max_irt d s → masked (get_irt d t j).raw ≡ true
    keeps :
        (j : ℕ)
        → (j < idx) ⊎ (max_irt d s ≤ j)
        → j ≤ max_irt d s
        → SameSettings (get_irt d t j).raw (get_irt d s j).raw
    size_same : max_irt d t ≡ max_irt d s

  few : (s : State) → max_irt d s ≤ 256
  unfolding max_irt
  few s = omega arith

  onward :
      (idx : ℕ) (s t u : State)
      → idx < max_irt d s
      → Round idx s t
      → Masks (idx + 1) t u
      → Masks idx s u
  onward idx s t u more round later = record {
    masks = λ j a b. elim (Bool-cases (j == idx)) [
      | inl this ↦
          same_masked (get_irt d u j).raw (get_irt d t j).raw
            (later.keeps j (inl (ground (arith, this))) (omega (arith, round.size_kept, b)))
          ∙ ap (λ k. masked (get_irt d t k).raw) ((==_iff j idx).0 this)
          ∙ round.is_masked
      | inr other ↦ later.masks j (ground (arith, other)) (omega (arith, round.size_kept))
    ];
    keeps = λ j out le k h. elim out [
      | inl before ↦
          later.keeps j (inl (omega arith)) (omega (arith, round.size_kept, le)) k h
          ∙ round.others_kept j (ground (arith, before)) le k h
      | inr behind ↦
          later.keeps j (inr (omega (arith, round.size_kept))) (omega (arith, round.size_kept, le))
            k h
          ∙ round.others_kept j (ground (arith, behind, more)) le k h
    ];
    size_same = later.size_same ∙ round.size_kept;
  }

  mask_from-Masks :
      (rounds idx : ℕ) (s : State)
      → max_irt d s ≤ idx + rounds
      → Masks idx s (mask_from d rounds idx s)
  unfolding mask_from
  mask_from-Masks zero idx s h = record {
    masks = λ j a b. absurd (omega arith);
    keeps = λ j out le k is_set. refl;
    size_same = refl;
  }
  mask_from-Masks (suc rounds) idx s h = elim (Bool-cases (ltb idx (max_irt d s))) [
    | inr done ↦ rw done (record {
      masks = λ j a b. absurd (ground (arith, done));
      keeps = λ j out le k is_set. refl;
      size_same = refl;
    })
    | inl more ↦
        let below = ltb→lt idx (max_irt d s) more in
        let round = round_lem s idx (omega (arith, below)) in
        rw more (
          onward idx s (mask_unmasked d s idx)
            (mask_from d rounds (idx + 1) (mask_unmasked d s idx)) below round
            (mask_from-Masks rounds (idx + 1) (mask_unmasked d s idx)
              (omega (arith, round.size_kept))))
  ]

  -- The loop at start-up masks every entry below the greatest index that the device reports; it leaves
  -- that index and the settings of the entry there, the last one, as they are.
  pub mask_irts-Masks :
      (s : State)
      → ((j : ℕ) → j < max_irt d s → masked (get_irt d (mask_irts d s) j).raw ≡ true)
        × SameSettings (get_irt d (mask_irts d s) (max_irt d s)).raw (get_irt d s (max_irt d s)).raw
        × (max_irt d (mask_irts d s) ≡ max_irt d s)
  unfolding mask_irts
  mask_irts-Masks s =
      let all = mask_from-Masks 256 0 s (few s) in
      (
        (λ j below. all.masks j (omega arith) below),
        all.keeps (max_irt d s) (inr (omega arith)) (omega arith),
        all.size_same,
      )
