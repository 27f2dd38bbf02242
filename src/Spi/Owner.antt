-- ===== src/Spi/Owner.antt =====
-- The devices of src/ungula/hal/spi/spi_master.h: what several `SpiMaster` objects on one bus hold of the driver.
use mathlib.Mathlib.Data.Multiset.Defs.{Multiset}
use mathlib.Mathlib.Data.Multiset.ZeroCons.{cons}
use ungula_hal.Base.{
  ℕ, ◌≡◌, ◌∙◌, ◌⊎◌, ap, refl, true, false, none, some, Bool-cases, Option-cases, inl, inr,
}
use ungula_hal.Spi.Bus.{Driver}
use ungula_hal.Spi.{SpiMaster, begin, is_initialized, destroy}

-- The devices that were added and not removed, in no order.
pub record Laws (d : Driver) : Type 0 where
  pub devices : d.Hw → Multiset d.Handle
  pub initialize_keeps :
      (host mosi miso sclk size : ℕ) (w : d.Hw)
      → devices (d.initialize host mosi miso sclk size w).1 ≡ devices w
  pub added :
      (host freq_hz mode cs queue : ℕ) (h : d.Handle) (w : d.Hw)
      → (d.add_device host freq_hz mode cs queue w).0 ≡ some h
      → devices (d.add_device host freq_hz mode cs queue w).1 ≡ cons h (devices w)
  pub refused :
      (host freq_hz mode cs queue : ℕ) (w : d.Hw)
      → (d.add_device host freq_hz mode cs queue w).0 ≡ none
      → devices (d.add_device host freq_hz mode cs queue w).1 ≡ devices w
  pub removed :
      (h : d.Handle) (s : Multiset d.Handle) (w : d.Hw)
      → devices w ≡ cons h s
      → devices (d.remove_device h w) ≡ s

module _ (d : Driver) (l : Laws d) where
  -- `begin` that returns false leaves the object and the devices as they were. One that returns true adds one
  -- device, and whenever the destructor runs, whatever others have added or removed by then, it removes that
  -- one and no other.
  begin-devices :
      (sclk miso mosi cs freq_hz mode host : ℕ) (m : SpiMaster d) (w : d.Hw)
      → let (done, m', w') = begin d sclk miso mosi cs freq_hz mode host m w in
        ((done ≡ false) × (m' ≡ m) × (l.devices w' ≡ l.devices w))
        ⊎ ((done ≡ true)
            × (h : d.Handle) × (l.devices w' ≡ cons h (l.devices w))
            × ((s : Multiset d.Handle) (v : d.Hw)
                → l.devices v ≡ cons h s
                → l.devices (destroy d m' v) ≡ s))
  unfolding begin destroy
  begin-devices sclk miso mosi cs freq_hz mode host m w =
      let bus = d.initialize host mosi miso sclk 32 w in
      let kept = l.initialize_keeps host mosi miso sclk 32 w in
      elim (Bool-cases m.installed) [
        | inl e ↦ rw e (inl (refl, refl, refl))
        | inr e ↦ elim (Bool-cases (is_initialized bus.0)) [
          | inl b ↦ elim (Option-cases (d.add_device host freq_hz mode cs 1 bus.1).0) [
            | inl n ↦
                rw (e, b, n) (inl (refl, refl, l.refused host freq_hz mode cs 1 bus.1 n ∙ kept))
            | inr (h, n) ↦
                rw (e, b, n)
                  (inr (
                    refl,
                    h,
                    l.added host freq_hz mode cs 1 h bus.1 n ∙ ap (cons h) kept,
                    λ s v q. l.removed h s v q,
                  ))
          ]
          | inr b ↦ rw (e, b) (inl (refl, refl, kept))
        ]
      ]
