-- ===== src/Adc/Manager/Balance.antt =====
-- Across `configure` of src/ungula/hal/adc/platforms/adc_manager_esp32.cpp, what the
-- drivers have given out is what the manager holds.
use mathlib.Mathlib.Data.Multiset.ZeroCons.{cons}
use ungula_hal.Base.{
  ℕ, ◌+◌, ◌*◌, ◌<◌, ◌≡◌, ◌∙◌, ap, sym, refl, Option, none, some, ◌||◌, not, leb, ◌==◌, length-set,
  get_or, is_some, is_some-none, if◌then◌else◌, Bool-cases, Option-cases, inl, inr, arith,
}
use ungula_hal.Adc.Oneshot.{
  Oneshot, AdcUnit, AdcAtten, unit_1, unit_2, unit_other, atten_db_0, atten_db_2_5, atten_db_6,
  atten_db_12, atten_other,
}
use ungula_hal.Adc.Convert.{Attenuation, unit_to_index, atten_to_index, to_idf_attenuation}
use ungula_hal.Adc.Manager.{
  line_fitting, CaliEntry, AdcManager, no_cali, max_channels, find_channel, new_unit_at,
  ensure_unit_at, ensure_unit, entry_of, calibrate, ensure_calibration_at, ensure_calibration,
  enroll, attach, configure_at, configure,
}
use ungula_hal.Adc.Manager.Ledger.{
  Handles, unit_handle, Laws, with_cali, with_units, with_calis, IsTagged, IsBalanced,
  cons-with_calis, with_units-set, with_calis-set, AreTagged-set,
}

unit_to_index-bound : (u : AdcUnit) (i : ℕ) → unit_to_index u ≡ some i → i < 2
unit_to_index-bound unit_1 i e = ground (arith, e)
unit_to_index-bound unit_2 i e = ground (arith, e)
unit_to_index-bound unit_other i e = absurd (ground (arith, e))

atten_to_index-bound : (a : AdcAtten) → atten_to_index a < 4
atten_to_index-bound atten_db_0 = omega arith
atten_to_index-bound atten_db_2_5 = omega arith
atten_to_index-bound atten_db_6 = omega arith
atten_to_index-bound atten_db_12 = omega arith
atten_to_index-bound atten_other = omega arith

module _ {d : Oneshot} (l : Laws d) where
  -- `ensureUnit`.
  ensure_unit_at-IsBalanced :
      (u : AdcUnit) (o : Option ℕ) (s : Handles d) (m : AdcManager d) (w : d.Hw)
      → unit_to_index u ≡ o
      → IsBalanced d l s m w
      → let (done, m', w') = ensure_unit_at d u o m w in IsBalanced d l s m' w'
  unfolding ensure_unit_at new_unit_at
  ensure_unit_at-IsBalanced u none s m w e b = b
  ensure_unit_at-IsBalanced u (some i) s m w e b =
      elim (Bool-cases (is_some (get_or m.units i none))) [
        | inl q ↦ rw q b
        | inr q ↦ elim (Option-cases (d.new_unit u w).0) [
          | inl n ↦
              rw (q, n)
                (record {
                  two_units = b.two_units;
                  eight_calis = b.eight_calis;
                  tagged = b.tagged;
                  opened_here = l.unit_refused u w n ∙ b.opened_here;
                })
          | inr (h, n) ↦
              rw (q, n)
                (record {
                  two_units = length-set m.units i (some h) ∙ b.two_units;
                  eight_calis = b.eight_calis;
                  tagged = b.tagged;
                  opened_here =
                      l.unit_made u h w n
                      ∙ ap (cons (unit_handle h)) b.opened_here
                      ∙ cons-with_calis d (unit_handle h) m.cali (with_units d m.units s)
                      ∙ ap (with_calis d m.cali) (
                          sym (
                            with_units-set d m.units i h s
                              (omega (arith, unit_to_index-bound u i e, b.two_units))
                              (is_some-none (get_or m.units i none) q)));
                })
        ]
      ]

  -- `ensureCalibration`.
  record Calibrates (w : d.Hw) (r : CaliEntry d × d.Hw) : Type 0 where
    tag : IsTagged d r.0.handle r.0.scheme
    adds : l.opened r.1 ≡ with_cali d r.0.handle r.0.scheme (l.opened w)

  line-Calibrates :
      (u : AdcUnit) (a : AdcAtten) (w : d.Hw)
      → let (line, w') =
          if d.line_fitting_supported then d.create_line_fitting u a w else (none, w) in
        Calibrates w (entry_of d line_fitting line, w')
  unfolding entry_of
  line-Calibrates u a w = elim (Bool-cases d.line_fitting_supported) [
    | inl f ↦ elim (Option-cases (d.create_line_fitting u a w).0) [
      | inl n ↦ rw (f, n) (record { tag = tt; adds = l.line_refused u a w n })
      | inr (h, n) ↦ rw (f, n) (record { tag = f; adds = l.line_made u a h w n })
    ]
    | inr f ↦ rw f (record { tag = tt; adds = refl })
  ]

  Calibrates-later :
      (v w : d.Hw) (r : CaliEntry d × d.Hw)
      → l.opened v ≡ l.opened w
      → Calibrates v r
      → Calibrates w r
  Calibrates-later v w r e c = record {
    tag = c.tag;
    adds = c.adds ∙ ap (with_cali d r.0.handle r.0.scheme) e;
  }

  calibrate-Calibrates : (u : AdcUnit) (a : AdcAtten) (w : d.Hw) → Calibrates w (calibrate d u a w)
  unfolding calibrate entry_of
  calibrate-Calibrates u a w = elim (Bool-cases d.curve_fitting_supported) [
    | inl f ↦
        let made = d.create_curve_fitting u a w in
        elim (Option-cases made.0) [
          | inl n ↦
              rw (f, n)
                (Calibrates-later made.1 w _ (l.curve_refused u a w n) (line-Calibrates u a made.1))
          | inr (h, n) ↦ rw (f, n) (record { tag = f; adds = l.curve_made u a h w n })
        ]
    | inr f ↦ rw f (line-Calibrates u a w)
  ]

  ensure_calibration_at-IsBalanced :
      (u : AdcUnit) (a : AdcAtten) (o : Option ℕ) (s : Handles d) (m : AdcManager d) (w : d.Hw)
      → unit_to_index u ≡ o
      → IsBalanced d l s m w
      → let (m', w') = ensure_calibration_at d u a o m w in IsBalanced d l s m' w'
  unfolding ensure_calibration_at
  ensure_calibration_at-IsBalanced u a none s m w e b = b
  ensure_calibration_at-IsBalanced u a (some i) s m w e b =
      let at = i * 4 + atten_to_index a in
      let r = calibrate d u a w in
      let c = calibrate-Calibrates u a w in
      elim (Bool-cases (is_some ((get_or m.cali at (no_cali d)).handle))) [
        | inl q ↦ rw q b
        | inr q ↦
            let free = is_some-none ((get_or m.cali at (no_cali d)).handle) q in
            rw q (record {
              two_units = b.two_units;
              eight_calis = length-set m.cali at r.0 ∙ b.eight_calis;
              tagged = AreTagged-set d m.cali at r.0 b.tagged c.tag;
              opened_here =
                  c.adds
                  ∙ ap (with_cali d r.0.handle r.0.scheme) b.opened_here
                  ∙ sym (
                      with_calis-set d m.cali at r.0 (with_units d m.units s)
                        (omega
                          (arith, unit_to_index-bound u i e, atten_to_index-bound a, b.eight_calis))
                        free);
            })
      ]

  -- `configure`.
  pub moved :
      (s : Handles d) (m : AdcManager d) (v w : d.Hw)
      → l.opened v ≡ l.opened w
      → IsBalanced d l s m w
      → IsBalanced d l s m v
  moved s m v w e b = record {
    two_units = b.two_units;
    eight_calis = b.eight_calis;
    tagged = b.tagged;
    opened_here = e ∙ b.opened_here;
  }

  enroll-IsBalanced :
      (pin : ℕ) (u : AdcUnit) (ch : ℕ) (a : AdcAtten) (s : Handles d) (m : AdcManager d) (w : d.Hw)
      → IsBalanced d l s m w
      → let (done, m', w') = enroll d pin u ch a m w in IsBalanced d l s m' w'
  unfolding enroll ensure_calibration
  enroll-IsBalanced pin u ch a s m w b =
      let c = ensure_calibration_at-IsBalanced u a (unit_to_index u) s m w refl b in
      record {
        two_units = c.two_units;
        eight_calis = c.eight_calis;
        tagged = c.tagged;
        opened_here = c.opened_here;
      }

  attach-IsBalanced :
      (pin : ℕ) (u : AdcUnit) (ch : ℕ) (a : AdcAtten) (o : Option ℕ) (s : Handles d)
      (m : AdcManager d) (w : d.Hw)
      → IsBalanced d l s m w
      → let (done, m', w') = attach d pin u ch a o m w in IsBalanced d l s m' w'
  unfolding attach
  attach-IsBalanced pin u ch a none s m w b = b
  attach-IsBalanced pin u ch a (some i) s m w b =
      let r = d.config_channel (get_or m.units i none) ch a w in
      let b' = moved s m r.1 w (l.config_keeps (get_or m.units i none) ch a w) b in
      elim (Bool-cases r.0) [
        | inl e ↦ rw e (enroll-IsBalanced pin u ch a s m r.1 b')
        | inr e ↦ rw e b'
      ]

  configure_at-IsBalanced :
      (pin : ℕ) (a : Attenuation) (o : Option (AdcUnit × ℕ)) (s : Handles d) (m : AdcManager d)
      (w : d.Hw)
      → IsBalanced d l s m w
      → let (done, m', w') = configure_at d pin a o m w in IsBalanced d l s m' w'
  unfolding configure_at ensure_unit
  configure_at-IsBalanced pin a none s m w b = b
  configure_at-IsBalanced pin a (some (u, ch)) s m w b =
      let r = ensure_unit_at d u (unit_to_index u) m w in
      let b' = ensure_unit_at-IsBalanced u (unit_to_index u) s m w refl b in
      elim (Bool-cases
        (not (find_channel d pin m == max_channels) || leb max_channels m.channel_count)) [
          | inl e ↦ rw e b
          | inr e ↦ elim (Bool-cases r.0) [
            | inl q ↦
                rw (e, q)
                  (attach-IsBalanced pin u ch (to_idf_attenuation a) (unit_to_index u) s r.1 r.2 b')
            | inr q ↦ rw (e, q) b'
          ]
        ]

  pub configure-IsBalanced :
      (pin : ℕ) (a : Attenuation) (s : Handles d) (m : AdcManager d) (w : d.Hw)
      → IsBalanced d l s m w
      → let (done, m', w') = configure d pin a m w in IsBalanced d l s m' w'
  unfolding configure
  configure-IsBalanced pin a s m w b = configure_at-IsBalanced pin a (d.io_to_channel pin) s m w b
