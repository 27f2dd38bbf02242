-- ===== src/Adc/Manager/Read.antt =====
-- What `readRaw` and `readMv` of src/ungula/hal/adc/platforms/adc_manager_esp32.cpp return.
use ungula_hal.Base.{
  ℕ, ◌+◌, ◌*◌, ◌<◌, ◌≡◌, refl, ap, ◌∙◌, Bool, true, false, Option, none, some, ◌==◌, get_or,
  Bool-cases, inl, inr, arith,
}
use ungula_hal.Base.Int.{ℤ, pos, negsuc, neg_part}
use ungula_hal.Adc.Oneshot.{Oneshot}
use ungula_hal.Adc.Convert.{unit_to_index, atten_to_index, raw_to_mv_fallback}
use ungula_hal.Adc.Oneshot.{AdcUnit, AdcAtten}
use ungula_hal.Adc.Manager.{
  AdcManager, find_channel, max_channels, no_channel, sample, read_unit, read_raw, read_mv, no_cali,
  convert, millivolts, index_or_zero,
}

module _ (d : Oneshot) where
  record IsSample (r : Bool × ℤ × d.Hw) : Type 0 where
    zero_if_refused : r.0 ≡ false → r.1 ≡ pos 0
    not_negative : neg_part r.1 ≡ 0

  sample-IsSample : (o : Option ℤ) (w : d.Hw) → IsSample (sample d o w)
  unfolding sample
  sample-IsSample none w = record { zero_if_refused = λ h. refl; not_negative = refl }
  sample-IsSample (some (pos n)) w = record {
    zero_if_refused = λ h. absurd (ground (arith, h));
    not_negative = refl;
  }
  sample-IsSample (some (negsuc n)) w = record { zero_if_refused = λ h. refl; not_negative = refl }

  read_unit-IsSample :
      (ch : ℕ) (i : Option ℕ) (m : AdcManager d) (w : d.Hw) → IsSample (read_unit d ch i m w)
  unfolding read_unit
  read_unit-IsSample ch none m w = sample-IsSample none w
  read_unit-IsSample ch (some i) m w =
      let r = d.read (get_or m.units i none) ch w in sample-IsSample r.0 r.1

  read_raw-IsSample : (pin : ℕ) (m : AdcManager d) (w : d.Hw) → IsSample (read_raw d pin m w)
  unfolding read_raw
  read_raw-IsSample pin m w = elim (Bool-cases (find_channel d pin m == max_channels)) [
    | inl e ↦ rw e (sample-IsSample none w)
    | inr e ↦
        let info = get_or m.channels (find_channel d pin m) no_channel in
        rw e (read_unit-IsSample info.channel (unit_to_index info.unit) m w)
  ]

  read_mv-refused :
      (pin : ℕ) (m : AdcManager d) (w : d.Hw)
      → (read_raw d pin m w).0 ≡ false
      → read_mv d pin m w ≡ (false, 0, (read_raw d pin m w).2)
  unfolding read_mv
  read_mv-refused pin m w h = rw h refl

  read_raw-unknown :
      (pin : ℕ) (m : AdcManager d) (w : d.Hw)
      → find_channel d pin m ≡ max_channels
      → read_raw d pin m w ≡ (false, pos 0, w)
  unfolding read_raw
  read_raw-unknown pin m w h = rw h refl

  unit_slot : (u : AdcUnit) (i : ℕ) → unit_to_index u ≡ some i → index_or_zero (unit_to_index u) ≡ i
  unit_slot u i e = rw e refl

  -- How a raw reading becomes millivolts, with the handle in the calibration slot of its channel.
  pub record IsMillivolts (o : Option d.Cali) (raw : ℤ) (atten : AdcAtten) (mv : ℕ) : Type 0 where
    pub without_handle : o ≡ none → mv ≡ raw_to_mv_fallback raw atten
    pub conversion_fails :
        (c : d.Cali)
        → o ≡ some c
        → d.raw_to_voltage c raw ≡ none
        → mv ≡ raw_to_mv_fallback raw atten
    pub conversion :
        (c : d.Cali) (n : ℕ)
        → o ≡ some c
        → d.raw_to_voltage c raw ≡ some (pos n)
        → n < 4294967296
        → mv ≡ n

  convert-IsMillivolts :
      (o : Option d.Cali) (raw : ℤ) (atten : AdcAtten)
      → IsMillivolts o raw atten (convert d o raw atten)
  unfolding convert millivolts
  convert-IsMillivolts o raw atten = record {
    without_handle = λ e. rw e refl;
    conversion_fails = λ c e v. rw (e, v) refl;
    conversion = λ c n e v b. rw (e, v) (omega (arith, b));
  }

  read_mv-good :
      (pin : ℕ) (m : AdcManager d) (w : d.Hw) (i : ℕ)
      → (read_raw d pin m w).0 ≡ true
      → let info = get_or m.channels (find_channel d pin m) no_channel in
        unit_to_index info.unit ≡ some i
        → let entry = get_or m.cali (i * 4 + atten_to_index info.atten) (no_cali d) in
          IsMillivolts entry.handle (read_raw d pin m w).1 info.atten (read_mv d pin m w).1
  unfolding read_mv
  read_mv-good pin m w i h u =
      let info = get_or m.channels (find_channel d pin m) no_channel in
      let entry = get_or m.cali (i * 4 + atten_to_index info.atten) (no_cali d) in
      rw (h, unit_slot info.unit i u)
        (convert-IsMillivolts entry.handle (read_raw d pin m w).1 info.atten)

  read_mv-done :
      (pin : ℕ) (m : AdcManager d) (w : d.Hw)
      → ((read_mv d pin m w).0 ≡ (read_raw d pin m w).0)
        × ((read_mv d pin m w).2 ≡ (read_raw d pin m w).2)
  unfolding read_mv
  read_mv-done pin m w = elim (Bool-cases (read_raw d pin m w).0) [
    | inl e ↦ rw e (refl, refl)
    | inr e ↦ rw e (refl, refl)
  ]

  -- `readMv` succeeds exactly where `readRaw` does, and leaves the driver as `readRaw` does. A raw reading
  -- is never negative. A reading that fails is 0, raw and in millivolts, and a pin that is not configured
  -- fails and leaves the driver alone. A reading that succeeds is converted by the calibration handle in
  -- the slot of the channel's unit and attenuation: it is the driver's conversion where there is a handle
  -- that converts to a value from 0 to 2^32 - 1, and the fallback of the raw reading where there is no
  -- handle or the conversion fails.
  pub read_mv-result :
      (pin : ℕ) (m : AdcManager d) (w : d.Hw)
      → let (done, raw, w1) = read_raw d pin m w in
        let (done_mv, mv, w2) = read_mv d pin m w in
        let info = get_or m.channels (find_channel d pin m) no_channel in
        (done_mv ≡ done)
        × (w2 ≡ w1)
        × (neg_part raw ≡ 0)
        × (done ≡ false → (raw ≡ pos 0) × (mv ≡ 0))
        × (find_channel d pin m ≡ max_channels
            → (read_raw d pin m w ≡ (false, pos 0, w)) × (read_mv d pin m w ≡ (false, 0, w)))
        × (done ≡ true
            → (i : ℕ) → unit_to_index info.unit ≡ some i
            → let entry = get_or m.cali (i * 4 + atten_to_index info.atten) (no_cali d) in
              IsMillivolts entry.handle raw info.atten mv)
  read_mv-result pin m w =
      let s = read_raw-IsSample pin m w in
      (
        (read_mv-done pin m w).0,
        (read_mv-done pin m w).1,
        s.not_negative,
        λ h. (s.zero_if_refused h, ap (λ r. r.1) (read_mv-refused pin m w h)),
        λ h.
            let u = read_raw-unknown pin m w h in
            (u, read_mv-refused pin m w (ap (λ r. r.0) u) ∙ ap (λ r. (false, 0, r.2)) u),
        λ h i. read_mv-good pin m w i h,
      )
