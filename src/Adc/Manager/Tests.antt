-- ===== src/Adc/Manager/Tests.antt =====
-- The life of an `AdcManager` of src/ungula/hal/adc/platforms/adc_manager_esp32.cpp on a driver that keeps the
-- handles which it gave out.
use mathlib.Mathlib.Data.Multiset.Defs.{Multiset}
use mathlib.Mathlib.Data.Multiset.ZeroCons.{cons}
use mathlib.Mathlib.Data.Multiset.ZeroCons as Multisets
use native.Mathlib.Decide.{ℕ_discrete}
use mathlib.Mathlib.Data.Multiset.AddSub.{erase, erase-cons-head}
use ungula_hal.Base.{
  ℕ, ◌≡◌, ◌∙◌, ap, refl, true, false, Option, none, some, List, [], ◌∷◌, ltb, if◌then◌else◌, arith,
}
use ungula_hal.Base.Int.{negsuc, pos}
use ungula_hal.Adc.Oneshot.{Oneshot, unit_1, unit_2}
use ungula_hal.Adc.Convert.{db_12, db_0}
use ungula_hal.Adc.Manager.{CaliScheme, curve_fitting, line_fitting, fresh, deinit}
use ungula_hal.Adc.Manager.Ledger.{Resource, unit_handle, cali_handle, Laws, with_units, with_calis}
use ungula_hal.Adc.Manager.Lifetime.{Call, configures, reads_mv, deinits, run, run_then_deinit}

CaliScheme-discrete : Discrete CaliScheme
CaliScheme-discrete = hlevel

Resource-discrete : Discrete (Resource ℕ ℕ)
Resource-discrete = hlevel (ℕ_discrete, CaliScheme-discrete)

abbrev Open : Type 0
Open = Multiset (Resource ℕ ℕ)

-- A handle is taken back if it is open.
abbrev close : Resource ℕ ℕ → Open → Open
close r w = erase Resource-discrete w r

close-cons : (r : Resource ℕ ℕ) (s w : Open) → w ≡ cons r s → close r w ≡ s
close-cons r s w e = ap (close r) e ∙ erase-cons-head Resource-discrete r s

-- Pins below 10 are channels of the first unit, those below 20 of the second; the first unit calibrates.
abbrev model : Oneshot
model = record {
  Hw = Open;
  UnitHandle = ℕ;
  Cali = ℕ;
  curve_fitting_supported = true;
  line_fitting_supported = false;
  io_to_channel =
      λ p. if ltb p 10 then some (unit_1, p) else (if ltb p 20 then some (unit_2, p) else none);
  new_unit = λ u w. (some 7, cons (unit_handle 7) w);
  del_unit = λ h w. close (unit_handle h) w;
  config_channel = λ u c a w. (true, w);
  read = λ u c w. (some (negsuc 2), w);
  create_curve_fitting = λ u a w. (some 3, cons (cali_handle curve_fitting 3) w);
  create_line_fitting = λ u a w. (none, w);
  delete_curve_fitting = λ h w. close (cali_handle curve_fitting h) w;
  delete_line_fitting = λ h w. close (cali_handle line_fitting h) w;
  raw_to_voltage = λ h r. some (pos 1234);
}

some_inj : (a b : ℕ) → ◌≡◌ {A = Option ℕ} (some a) (some b) → a ≡ b
some_inj a b e = ap get e
  where
    get : Option ℕ → ℕ
    get none = a
    get (some x) = x

abbrev laws : Laws model
laws = record {
  opened = λ w. w;
  unit_made = λ u h w e. ap (λ x. cons (unit_handle x) w) (some_inj 7 h e);
  unit_refused = λ u w e. absurd (ground (arith, e));
  unit_deleted = λ h s w e. close-cons (unit_handle h) s w e;
  curve_made = λ u a h w e. ap (λ x. cons (cali_handle curve_fitting x) w) (some_inj 3 h e);
  curve_refused = λ u a w e. absurd (ground (arith, e));
  curve_deleted = λ h s w e. close-cons (cali_handle curve_fitting h) s w e;
  line_made = λ u a h w e. absurd (ground (arith, e));
  line_refused = λ u a w e. refl;
  line_deleted = λ h s w e. close-cons (cali_handle line_fitting h) s w e;
  config_keeps = λ u c a w. refl;
  read_keeps = λ u c w. refl;
}

-- Two pins of one unit, one twice, one of the other unit, one of none, and a second life.
abbrev history : List Call
history =
    configures 4 db_12
    ∷ configures 4 db_0
    ∷ configures 5 db_0
    ∷ reads_mv 5
    ∷ configures 14 db_12
    ∷ configures 30 db_12
    ∷ deinits
    ∷ configures 4 db_12
    ∷ []

run_then_deinit_example :
    let (m, w1) = run model history (fresh model) Multisets.zero in
    let (m', w2) = deinit model m w1 in
    (w1 ≡ with_calis model m.cali (with_units model m.units Multisets.zero))
    × (w2 ≡ Multisets.zero)
    × (deinit model m' w2 ≡ (m', w2))
run_then_deinit_example = run_then_deinit laws history Multisets.zero
