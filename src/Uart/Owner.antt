-- ===== src/Uart/Owner.antt =====
-- A port and its driver: `installed_` of src/ungula/hal/uart/uart.h against the UART driver.
use ungula_hal.Base.{ℕ, ◌≡◌, ◌≢◌, Bool, true, false, arith}
use ungula_hal.Uart.{Driver, Uart, begin, destroy}

-- Whether a driver is installed at a port. Only `install` and `uninstall` change it, and only at their port.
pub record Laws (d : Driver) : Type 0 where
  pub has : ℕ → d.Hw → Bool
  pub param_config_keeps : (q p b : ℕ) (w : d.Hw) → has q (d.param_config p b w).1 ≡ has q w
  pub set_pin_keeps : (q p tx rx : ℕ) (w : d.Hw) → has q (d.set_pin p tx rx w).1 ≡ has q w
  pub install_ok :
      (p r t : ℕ) (w : d.Hw) → (d.install p r t w).0 ≡ true → has p (d.install p r t w).1 ≡ true
  pub install_failed :
      (p r t : ℕ) (w : d.Hw) → (d.install p r t w).0 ≡ false → has p (d.install p r t w).1 ≡ has p w
  pub install_elsewhere : (q p r t : ℕ) (w : d.Hw) → q ≢ p → has q (d.install p r t w).1 ≡ has q w
  pub uninstalled : (p : ℕ) (w : d.Hw) → has p (d.uninstall p w) ≡ false

-- `begin` that returns true leaves a driver at the object's port, which the destructor removes; one that
-- returns false leaves the object, and whether a driver is installed at its port, as they were; and
-- neither installs or removes a driver at another port.
pub begin-destroy :
    (d : Driver) (l : Laws d) (baud tx rx rx_size tx_size : ℕ) (u : Uart) (w : d.Hw)
    → let (done, u', w') = begin d baud tx rx rx_size tx_size u w in
      (done ≡ true
        → (u.installed ≡ false)
          × (u'.installed ≡ true)
          × (l.has u.port w' ≡ true)
          × (l.has u.port (destroy d u' w') ≡ false))
      × (done ≡ false → (u' ≡ u) × (l.has u.port w' ≡ l.has u.port w))
      × ((q : ℕ) → q ≢ u.port → l.has q w' ≡ l.has q w)
unfolding begin destroy
begin-destroy d l baud tx rx rx_size tx_size u w =
    let w1 = (d.param_config u.port baud w).1 in
    let w2 = (d.set_pin u.port tx rx w1).1 in
    let w3 = (d.install u.port rx_size tx_size w2).1 in
    (
      λ h. ground (arith, h, l.install_ok u.port rx_size tx_size w2, l.uninstalled u.port w3),
      λ h. ground (
        arith,
        h,
        l.install_failed u.port rx_size tx_size w2,
        l.set_pin_keeps u.port u.port tx rx w1,
        l.param_config_keeps u.port u.port baud w,
      ),
      λ q ne. ground (
        arith,
        l.install_elsewhere q u.port rx_size tx_size w2 ne,
        l.set_pin_keeps q u.port tx rx w1,
        l.param_config_keeps q u.port baud w,
      ),
    )
