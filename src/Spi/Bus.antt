-- ===== src/Spi/Bus.antt =====
-- What src/ungula/hal/spi/platforms/spi_master_esp32.cpp calls of ESP-IDF's SPI driver, over an abstract
-- state.
use ungula_hal.Base.{ℕ, Bool, Option, List}
use ungula_hal.Esp.{EspErr}

-- `initialize` takes the host, the pins MOSI, MISO and SCLK and the largest transfer; `add_device` the
-- host, the frequency, the mode, the select pin and the length of the queue. `transmit` takes the bits
-- and the bytes to send, `none` being a null pointer, and returns whether it was done, and the bytes that
-- came, which stand at the start of the receive buffer, if there is one.
pub record Driver : Type 1 where
  pub Hw : Type 0
  pub Handle : Type 0
  pub initialize : ℕ → ℕ → ℕ → ℕ → ℕ → Hw → EspErr × Hw
  pub add_device : ℕ → ℕ → ℕ → ℕ → ℕ → Hw → Option Handle × Hw
  pub remove_device : Handle → Hw → Hw
  pub transmit : Option Handle → ℕ → Option (List ℕ) → Hw → Bool × List ℕ × Hw
