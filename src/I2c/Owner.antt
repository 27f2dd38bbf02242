-- ===== src/I2c/Owner.antt =====
-- A port and its driver: `installed_` of src/ungula/hal/i2c/i2c_master.h against the I2C driver.
use ungula_hal.Base.{
  ℕ, ◌≡◌, ◌≢◌, Bool, true, false, Option, none, List, refl, arith, ◌==◌, ◌||◌, Bool-cases, inl, inr,
}
use ungula_hal.I2c.Link.{Driver, Command}
use ungula_hal.I2c.{I2cMaster, begin, write, read, write_read, destroy, is_null}

-- Whether a driver is installed at a port. Only `install` and `delete` change it, and only at their port.
pub record Laws (d : Driver) : Type 0 where
  pub has : ℕ → d.Hw → Bool
  pub param_config_keeps :
      (q p sda scl freq_hz : ℕ) (w : d.Hw) → has q (d.param_config p sda scl freq_hz w).1 ≡ has q w
  pub cmd_begin_keeps :
      (q p : ℕ) (cs : List Command) (ticks : ℕ) (b : Option (List ℕ)) (w : d.Hw)
      → has q (d.cmd_begin p cs ticks b w).2 ≡ has q w
  pub install_ok : (p : ℕ) (w : d.Hw) → (d.install p w).0 ≡ true → has p (d.install p w).1 ≡ true
  pub install_failed :
      (p : ℕ) (w : d.Hw) → (d.install p w).0 ≡ false → has p (d.install p w).1 ≡ has p w
  pub install_elsewhere : (q p : ℕ) (w : d.Hw) → q ≢ p → has q (d.install p w).1 ≡ has q w
  pub deleted : (p : ℕ) (w : d.Hw) → has p (d.delete p w) ≡ false

module _ (d : Driver) (l : Laws d) where
  -- No transaction, whatever its result, installs or deletes a driver.
  transactions-keep :
      (q a n len timeout_ms : ℕ) (bytes buffer : Option (List ℕ)) (m : I2cMaster) (w : d.Hw)
      → (l.has q (write d a bytes len timeout_ms m w).hw ≡ l.has q w)
        × (l.has q (read d a buffer n timeout_ms m w).hw ≡ l.has q w)
        × (l.has q (write_read d a bytes len buffer n timeout_ms m w).hw ≡ l.has q w)
  unfolding write read write_read
  transactions-keep q a n len timeout_ms bytes buffer m w =
      let keeps : (cs : List Command) (b : Option (List ℕ))
          → l.has q (d.cmd_begin m.port cs (d.ms_to_ticks timeout_ms) b w).2 ≡ l.has q w =
        λ cs b. l.cmd_begin_keeps q m.port cs (d.ms_to_ticks timeout_ms) b w in
      elim (Bool-cases m.installed) [
        | inl e ↦ elim (Bool-cases (n == 0 || is_null d buffer)) [
          | inl z ↦ rw (e, z) (keeps _ none, refl, refl)
          | inr z ↦ rw (e, z) (keeps _ none, keeps _ buffer, keeps _ buffer)
        ]
        | inr e ↦ rw e (refl, refl, refl)
      ]

  -- `begin` that returns true leaves a driver at the object's port, which the destructor removes; one that
  -- returns false leaves the object, and whether a driver is installed at its port, as they were; and
  -- neither installs or removes a driver at another port.
  begin-has :
      (sda scl freq_hz : ℕ) (m : I2cMaster) (w : d.Hw)
      → let (done, m', w') = begin d sda scl freq_hz m w in
        (done ≡ true
          → (m.installed ≡ false)
            × (m'.installed ≡ true)
            × (l.has m.port w' ≡ true)
            × (l.has m.port (destroy d m' w') ≡ false))
        × (done ≡ false → (m' ≡ m) × (l.has m.port w' ≡ l.has m.port w))
        × ((q : ℕ) → q ≢ m.port → l.has q w' ≡ l.has q w)
  unfolding begin destroy
  begin-has sda scl freq_hz m w =
      let w1 = (d.param_config m.port sda scl freq_hz w).1 in
      (
        λ h. ground (arith, h, l.install_ok m.port w1, l.deleted m.port (d.install m.port w1).1),
        λ h. ground (
          arith,
          h,
          l.install_failed m.port w1,
          l.param_config_keeps m.port m.port sda scl freq_hz w,
        ),
        λ q ne. ground (
          arith,
          l.install_elsewhere q m.port w1 ne,
          l.param_config_keeps q m.port sda scl freq_hz w,
        ),
      )
