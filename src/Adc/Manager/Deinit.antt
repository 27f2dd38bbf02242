-- ===== src/Adc/Manager/Deinit.antt =====
-- `deinit` of src/ungula/hal/adc/platforms/adc_manager_esp32.cpp releases everything, once.
use ungula_hal.Base.{◌≡◌, refl, ap, Option, none, some, List, [], ◌∷◌, arith}
use ungula_hal.Adc.Oneshot.{Oneshot}
use ungula_hal.Adc.Manager.{
  AdcManager, CaliEntry, delete_calis, release_cali, delete_units, release_unit, deinit,
}

module _ (d : Oneshot) where
  -- No handle is left.
  abbrev pub IsUncalibrated : List (CaliEntry d) → Type 0
  IsUncalibrated [] = Unit {0}
  IsUncalibrated (e ∷ es) = (e.handle ≡ none) × IsUncalibrated es

  abbrev pub IsClosed : List (Option d.UnitHandle) → Type 0
  IsClosed [] = Unit {0}
  IsClosed (u ∷ us) = (u ≡ none) × IsClosed us

  release_cali-handle :
      (h : Option d.Cali) (e : CaliEntry d) (w : d.Hw)
      → e.handle ≡ h
      → (release_cali d h e w).0.handle ≡ none
  unfolding release_cali
  release_cali-handle none e w q = q
  release_cali-handle (some h) e w q = refl

  pub delete_calis-IsUncalibrated :
      (es : List (CaliEntry d)) (w : d.Hw) → IsUncalibrated (delete_calis d es w).0
  unfolding delete_calis
  delete_calis-IsUncalibrated [] w = tt
  delete_calis-IsUncalibrated (e ∷ es) w =
      (release_cali-handle e.handle e w refl, delete_calis-IsUncalibrated es _)

  release_cali-done :
      (h : Option d.Cali) (e : CaliEntry d) (w : d.Hw) → h ≡ none → release_cali d h e w ≡ (e, w)
  unfolding release_cali
  release_cali-done none e w q = refl
  release_cali-done (some h) e w q = absurd (ground (arith, q))

  delete_calis-done :
      (es : List (CaliEntry d)) (w : d.Hw) → IsUncalibrated es → delete_calis d es w ≡ (es, w)
  unfolding delete_calis
  delete_calis-done [] w v = refl
  delete_calis-done (e ∷ es) w v =
      rw (release_cali-done e.handle e w v.0)
        (ap (λ r. (e ∷ r.0, r.1)) (delete_calis-done es w v.1))

  pub delete_units-IsClosed :
      (us : List (Option d.UnitHandle)) (w : d.Hw) → IsClosed (delete_units d us w).0
  unfolding delete_units
  delete_units-IsClosed [] w = tt
  delete_units-IsClosed (u ∷ us) w = (refl, delete_units-IsClosed us _)

  delete_units-done :
      (us : List (Option d.UnitHandle)) (w : d.Hw) → IsClosed us → delete_units d us w ≡ (us, w)
  unfolding delete_units release_unit
  delete_units-done [] w v = refl
  delete_units-done (u ∷ us) w v =
      rw (v.0) (ap (λ r. (none ∷ r.0, r.1)) (delete_units-done us w v.1))

  -- `deinit` leaves no channel, no unit and no calibration handle, and a second `deinit`, as by the
  -- destructor, deletes nothing: it changes neither the manager nor the driver.
  pub deinit-twice :
      (m : AdcManager d) (w : d.Hw)
      → let (m', w') = deinit d m w in
        (m'.channel_count ≡ 0)
        × IsClosed m'.units
        × IsUncalibrated m'.cali
        × (deinit d m' w' ≡ (m', w'))
  unfolding deinit
  deinit-twice m w =
      let es = (delete_calis d m.cali w).0 in
      let w1 = (delete_calis d m.cali w).1 in
      let us = (delete_units d m.units w1).0 in
      let w2 = (delete_units d m.units w1).1 in
      let closed = delete_units-IsClosed m.units w1 in
      let clear = delete_calis-IsUncalibrated m.cali w in
      (refl, closed, clear, rw (delete_calis-done es w2 clear, delete_units-done us w2 closed) refl)
