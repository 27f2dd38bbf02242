-- ===== src/Adc/Manager/Release.antt =====
-- What `deinit` of src/ungula/hal/adc/platforms/adc_manager_esp32.cpp gives back to the drivers.
use mathlib.Mathlib.Data.Multiset.ZeroCons.{cons}
use ungula_hal.Base.{◌≡◌, Option, none, some, List, [], ◌∷◌}
use ungula_hal.Adc.Oneshot.{Oneshot}
use ungula_hal.Adc.Manager.{
  CaliScheme, no_scheme, curve_fitting, line_fitting, CaliEntry, AdcManager, delete_cali,
  release_cali, delete_calis, release_unit, delete_units, deinit,
}
use ungula_hal.Adc.Manager.Ledger.{
  Handles, cali_handle, Laws, with_unit, with_cali, with_units, with_calis, IsSupported, IsTagged,
  AreTagged, IsBalanced,
}

module _ {d : Oneshot} (l : Laws d) where
  -- What `deinit` gives back, entry by entry and unit by unit.
  delete_cali-returns :
      (k : CaliScheme) (h : d.Cali) (s : Handles d) (w : d.Hw)
      → IsSupported d k
      → l.opened w ≡ cons (cali_handle k h) s
      → l.opened (delete_cali d k h w) ≡ s
  unfolding delete_cali
  delete_cali-returns no_scheme h s w t e = absurd t
  delete_cali-returns curve_fitting h s w t e = rw t (l.curve_deleted h s w e)
  delete_cali-returns line_fitting h s w t e = rw t (l.line_deleted h s w e)

  release_cali-returns :
      (o : Option d.Cali) (e : CaliEntry d) (s : Handles d) (w : d.Hw)
      → IsTagged d o e.scheme
      → l.opened w ≡ with_cali d o e.scheme s
      → l.opened (release_cali d o e w).1 ≡ s
  unfolding release_cali
  release_cali-returns none e s w t h = h
  release_cali-returns (some c) e s w t h = delete_cali-returns e.scheme c s w t h

  delete_calis-returns :
      (es : List (CaliEntry d)) (s : Handles d) (w : d.Hw)
      → AreTagged d es
      → l.opened w ≡ with_calis d es s
      → l.opened (delete_calis d es w).1 ≡ s
  unfolding delete_calis with_calis
  delete_calis-returns [] s w t h = h
  delete_calis-returns (e ∷ es) s w t h =
      delete_calis-returns es s (release_cali d e.handle e w).1 t.1
        (release_cali-returns e.handle e (with_calis d es s) w t.0 h)

  release_unit-returns :
      (u : Option d.UnitHandle) (s : Handles d) (w : d.Hw)
      → l.opened w ≡ with_unit d u s
      → l.opened (release_unit d u w) ≡ s
  unfolding release_unit
  release_unit-returns none s w h = h
  release_unit-returns (some u) s w h = l.unit_deleted u s w h

  delete_units-returns :
      (us : List (Option d.UnitHandle)) (s : Handles d) (w : d.Hw)
      → l.opened w ≡ with_units d us s
      → l.opened (delete_units d us w).1 ≡ s
  unfolding delete_units with_units
  delete_units-returns [] s w h = h
  delete_units-returns (u ∷ us) s w h =
      delete_units-returns us s (release_unit d u w)
        (release_unit-returns u (with_units d us s) w h)

  pub deinit-returns :
      (s : Handles d) (m : AdcManager d) (w : d.Hw)
      → IsBalanced d l s m w
      → l.opened (deinit d m w).1 ≡ s
  unfolding deinit
  deinit-returns s m w b =
      delete_units-returns m.units s (delete_calis d m.cali w).1
        (delete_calis-returns m.cali (with_units d m.units s) w b.tagged b.opened_here)
