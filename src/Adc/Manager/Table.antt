-- ===== src/Adc/Manager/Table.antt =====
-- The channel table of src/ungula/hal/adc/platforms/adc_manager_esp32.cpp under `configure`.
use ungula_hal.Base.{
  ℕ, zero, suc, ◌+◌, ◌≤◌, ◌<◌, ◌≡◌, ◌∙◌, ap, refl, Bool, true, false, Option, none, some, List, [],
  ◌∷◌, ◌&&◌, ◌||◌, not, leb, ◌==◌, length, get_or, set, length-set, Bool-cases, Option-cases,
  is_some, inl, inr, arith,
}
use ungula_hal.Adc.Oneshot.{Oneshot, AdcUnit, AdcAtten}
use ungula_hal.Adc.Convert.{Attenuation, unit_to_index, to_idf_attenuation}
use ungula_hal.Adc.Manager.{
  AdcManager, ChannelInfo, find_channel_in, find_channel, max_channels, ensure_unit, ensure_unit_at,
  new_unit_at, ensure_calibration, ensure_calibration_at, enroll, attach, configure_at, configure,
}

-- The table has its 16 slots, and the count stays within them.
pub record IsTable {d : Oneshot} (m : AdcManager d) : Type 0 where
  pub size : length m.channels ≡ max_channels
  pub fit : m.channel_count ≤ max_channels

-- A configured channel written behind the slots in use is found there, if no search found it before.
find_channel_in-set :
    (cs : List ChannelInfo) (n idx : ℕ) (c : ChannelInfo)
    → n < length cs
    → n + idx < max_channels
    → c.configured ≡ true
    → find_channel_in c.pin cs n idx ≡ max_channels
    → find_channel_in c.pin (set cs n c) (suc n) idx ≡ n + idx
unfolding find_channel_in
find_channel_in-set [] n idx c l b k f = absurd (omega arith)
find_channel_in-set (e ∷ cs) zero idx c l b k f = ground (arith, k)
find_channel_in-set (e ∷ cs) (suc n) idx c l b k f =
    elim (Bool-cases (e.configured && e.pin == c.pin)) [
      | inl q ↦ absurd (ground (arith, q, f, b))
      | inr q ↦
          let ih =
            find_channel_in-set cs n (suc idx) c (omega arith) (omega arith) k
              (ground (arith, q, f)) in
          rw q (omega (arith, ih))
    ]

module _ {d : Oneshot} where
  abbrev SameTable : AdcManager d → AdcManager d → Type 0
  SameTable m n = (n.channels ≡ m.channels) × (n.channel_count ≡ m.channel_count)

  ensure_unit_at-SameTable :
      (unit : AdcUnit) (i : Option ℕ) (m : AdcManager d) (w : d.Hw)
      → SameTable m (ensure_unit_at d unit i m w).1
  unfolding ensure_unit_at new_unit_at
  ensure_unit_at-SameTable unit none m w = (refl, refl)
  ensure_unit_at-SameTable unit (some i) m w = elim (Bool-cases (is_some (get_or m.units i none))) [
    | inl e ↦ rw e (refl, refl)
    | inr e ↦ elim (Option-cases (d.new_unit unit w).0) [
      | inl q ↦ rw (e, q) (refl, refl)
      | inr (h, q) ↦ rw (e, q) (refl, refl)
    ]
  ]

  ensure_calibration_at-SameTable :
      (unit : AdcUnit) (a : AdcAtten) (i : Option ℕ) (m : AdcManager d) (w : d.Hw)
      → SameTable m (ensure_calibration_at d unit a i m w).0
  unfolding ensure_calibration_at
  ensure_calibration_at-SameTable unit a none m w = (refl, refl)
  ensure_calibration_at-SameTable unit a (some i) m w = ground arith

  -- What `configure` leaves of the table: as it was, or, where it returns true, with the pin in the first
  -- free slot.
  record Leaves (pin : ℕ) (m : AdcManager d) (r : Bool × AdcManager d × d.Hw) : Type 0 where
    refused : r.0 ≡ false → SameTable m r.1
    table : IsTable r.1
    accepted :
        r.0 ≡ true
        → (find_channel d pin m ≡ max_channels)
          × (find_channel d pin r.1 ≡ m.channel_count)
          × (m.channel_count < max_channels)
          × (r.1.channel_count ≡ m.channel_count + 1)

  Leaves-same :
      (pin : ℕ) (m n : AdcManager d) (r : Bool × AdcManager d × d.Hw)
      → SameTable m n
      → Leaves pin n r
      → Leaves pin m r
  unfolding find_channel
  Leaves-same pin m n r (p, q) v = record {
    refused = λ h. ((v.refused h).0 ∙ p, (v.refused h).1 ∙ q);
    table = v.table;
    accepted = λ h.
        let (a, b, c, e) = v.accepted h in
        (rw⁻¹ (p, q) a, b ∙ q, omega (arith, c, q), omega (arith, e, q));
  }

  unchanged-Leaves :
      (pin : ℕ) (m : AdcManager d) (w : d.Hw) → IsTable m → Leaves pin m (false, m, w)
  unchanged-Leaves pin m w t = record {
    refused = λ h. (refl, refl);
    table = t;
    accepted = λ h. absurd (ground (arith, h));
  }

  enroll-Leaves :
      (pin : ℕ) (unit : AdcUnit) (ch : ℕ) (a : AdcAtten) (m : AdcManager d) (w : d.Hw)
      → IsTable m
      → find_channel d pin m ≡ max_channels
      → m.channel_count < max_channels
      → Leaves pin m (enroll d pin unit ch a m w)
  unfolding enroll find_channel ensure_calibration
  enroll-Leaves pin unit ch a m w t f b =
      let (p, q) = ensure_calibration_at-SameTable unit a (unit_to_index unit) m w in
      let c : ChannelInfo = record {
        pin = pin;
        unit = unit;
        channel = ch;
        atten = a;
        configured = true;
      } in
      let one_more : m.channel_count + 1 ≡ suc m.channel_count = omega arith in
      rw (p, q)
        (record {
          refused = λ h. absurd (ground (arith, h));
          table = record {
            size = length-set m.channels m.channel_count c ∙ t.size;
            fit = omega (arith, b);
          };
          accepted = λ h. (
            f,
            rw one_more (
                find_channel_in-set m.channels m.channel_count 0 c (omega (arith, b, t.size))
                  (omega (arith, b)) refl f
                ∙ omega arith),
            b,
            refl,
          );
        })

  attach-Leaves :
      (pin : ℕ) (unit : AdcUnit) (ch : ℕ) (a : AdcAtten) (i : Option ℕ) (m : AdcManager d)
      (w : d.Hw)
      → IsTable m
      → find_channel d pin m ≡ max_channels
      → m.channel_count < max_channels
      → Leaves pin m (attach d pin unit ch a i m w)
  unfolding attach
  attach-Leaves pin unit ch a none m w t f b = unchanged-Leaves pin m w t
  attach-Leaves pin unit ch a (some i) m w t f b =
      let r = d.config_channel (get_or m.units i none) ch a w in
      elim (Bool-cases r.0) [
        | inl e ↦ rw e (enroll-Leaves pin unit ch a m r.1 t f b)
        | inr e ↦ rw e (unchanged-Leaves pin m r.1 t)
      ]

  configure_at-Leaves :
      (pin : ℕ) (a : Attenuation) (o : Option (AdcUnit × ℕ)) (m : AdcManager d) (w : d.Hw)
      → IsTable m
      → Leaves pin m (configure_at d pin a o m w)
  unfolding configure_at ensure_unit find_channel
  configure_at-Leaves pin a none m w t = unchanged-Leaves pin m w t
  configure_at-Leaves pin a (some (unit, ch)) m w t =
      let u = ensure_unit_at d unit (unit_to_index unit) m w in
      let same = ensure_unit_at-SameTable unit (unit_to_index unit) m w in
      let t' : IsTable u.1 = record {
        size = ap length same.0 ∙ t.size;
        fit = omega (arith, same.1, t.fit);
      } in
      elim (Bool-cases
        (not (find_channel d pin m == max_channels) || leb max_channels m.channel_count)) [
          | inl e ↦ rw e (unchanged-Leaves pin m w t)
          | inr e ↦
              let f : find_channel d pin m ≡ max_channels = ground (arith, e) in
              let b : m.channel_count < max_channels = ground (arith, e) in
              elim (Bool-cases u.0) [
                | inl r ↦
                    rw (e, r)
                      (Leaves-same pin m u.1 _ same (
                        attach-Leaves pin unit ch (to_idf_attenuation a) (unit_to_index unit) u.1
                          u.2 t' (rw (same.0, same.1) f) (omega (arith, b, same.1))))
                | inr r ↦ rw (e, r) (Leaves-same pin m u.1 _ same (unchanged-Leaves pin u.1 u.2 t'))
              ]
        ]

  refuses_at :
      (pin : ℕ) (a : Attenuation) (o : Option (AdcUnit × ℕ)) (m : AdcManager d) (w : d.Hw)
      → find_channel d pin m < max_channels
      → configure_at d pin a o m w ≡ (false, m, w)
  unfolding configure_at
  refuses_at pin a none m w f = refl
  refuses_at pin a (some (unit, ch)) m w f =
      let taken : (find_channel d pin m == max_channels) ≡ false = ground (arith, f) in
      rw taken refl

  -- `configure` keeps the channel table within its 16 slots, and leaves it as it was where it returns
  -- false. Where it returns true, a search had not found the pin before and now finds it in the slot that
  -- was the first free one, exactly one slot was taken, and another `configure` of the pin, whatever its
  -- attenuation, returns false and changes neither the manager nor the drivers.
  pub configure-IsTable :
      (pin : ℕ) (a a' : Attenuation) (m : AdcManager d) (w : d.Hw)
      → IsTable m
      → let (done, m', w') = configure d pin a m w in
        IsTable m'
        × (done ≡ false → (m'.channels ≡ m.channels) × (m'.channel_count ≡ m.channel_count))
        × (done ≡ true
            → (find_channel d pin m ≡ max_channels)
              × (find_channel d pin m' ≡ m.channel_count)
              × (m.channel_count < max_channels)
              × (m'.channel_count ≡ m.channel_count + 1)
              × (configure d pin a' m' w' ≡ (false, m', w')))
  unfolding configure
  configure-IsTable pin a a' m w t =
      let r = configure_at d pin a (d.io_to_channel pin) m w in
      let v = configure_at-Leaves pin a (d.io_to_channel pin) m w t in
      (
        v.table,
        v.refused,
        λ e.
            let (free, here, room, more) = v.accepted e in
            let found : find_channel d pin r.1 < max_channels = omega (arith, here, room) in
            (free, here, room, more, refuses_at pin a' (d.io_to_channel pin) r.1 r.2 found),
      )
