-- ===== src/Uart.antt =====
-- src/ungula/hal/uart: the class `Uart` of uart.h, as platforms/uart_esp32.cpp implements it over
-- ESP-IDF's driver, which is an argument; `Host` is platforms/uart_default.cpp.
pub mod Host
pub mod Owner
mod Tests
use ungula_hal.Base.{ℕ, Bool, true, false, List, [], ◌==◌, if◌then◌else◌}
use ungula_hal.Base.Int.{ℤ, negsuc}

-- The driver's calls at a port; a result of type `Bool` is `== ESP_OK`. A read returns the number that
-- `uart_read_bytes` returns and the bytes that it stored.
pub record Driver : Type 1 where
  pub Hw : Type 0
  pub ms_to_ticks : ℕ → ℕ
  pub param_config : ℕ → ℕ → Hw → Bool × Hw
  pub set_pin : ℕ → ℕ → ℕ → Hw → Bool × Hw
  pub install : ℕ → ℕ → ℕ → Hw → Bool × Hw
  pub uninstall : ℕ → Hw → Hw
  pub write_bytes : ℕ → List ℕ → Hw → ℤ × Hw
  pub read_bytes : ℕ → ℕ → ℕ → Hw → ℤ × List ℕ × Hw
  pub wait_tx_done : ℕ → ℕ → Hw → Hw
  pub flush_rx : ℕ → Hw → Hw

pub record Uart : Type 0 where
  pub port : ℕ
  pub installed : Bool

abbrev pub tx_flush_timeout_ms : ℕ
tx_flush_timeout_ms = 100

module _ (d : Driver) where
  unfoldable pub begin : ℕ → ℕ → ℕ → ℕ → ℕ → Uart → d.Hw → Bool × Uart × d.Hw
  begin baud_rate tx_pin rx_pin rx_buf_size tx_buf_size u w =
      let (configured, w1) = d.param_config u.port baud_rate w in
      let (routed, w2) = d.set_pin u.port tx_pin rx_pin w1 in
      let (is_in, w3) = d.install u.port rx_buf_size tx_buf_size w2 in
      if u.installed
      then (false, u, w)
      else if configured
      then (if routed
          then (if is_in then (true, record u { installed = true }, w3) else (false, u, w3))
          else (false, u, w2))
      else (false, u, w1)

  unfoldable pub write : List ℕ → Uart → d.Hw → ℤ × d.Hw
  write bytes u w = if u.installed then d.write_bytes u.port bytes w else (negsuc 0, w)

  -- The bytes are those stored in the caller's buffer.
  unfoldable pub read : ℕ → ℕ → Uart → d.Hw → ℤ × List ℕ × d.Hw
  read max_length timeout_ms u w =
      let ticks = if timeout_ms == 0 then 0 else d.ms_to_ticks timeout_ms in
      if u.installed then d.read_bytes u.port max_length ticks w else (negsuc 0, [], w)

  unfoldable pub flush : Uart → d.Hw → d.Hw
  flush u w = if u.installed then d.wait_tx_done u.port (d.ms_to_ticks tx_flush_timeout_ms) w else w

  unfoldable pub flush_input : Uart → d.Hw → d.Hw
  flush_input u w = if u.installed then d.flush_rx u.port w else w

  -- The destructor.
  unfoldable pub destroy : Uart → d.Hw → d.Hw
  destroy u w = if u.installed then d.uninstall u.port w else w
