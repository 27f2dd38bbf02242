-- ===== src/Spi.antt =====
-- src/ungula/hal/spi: the class `SpiMaster` of platforms/spi_master_esp32.cpp over ESP-IDF's SPI driver (`Bus`).
-- `Exchange` is what a device sees of `writeRead`, `Owner` what the objects hold of the driver, and `Host` is
-- platforms/spi_master_default.cpp. A `size_t` has 32 bits, and a pointer that may be null is an `Option`.
pub mod Bus
pub mod Buffers
pub mod Exchange
pub mod Owner
pub mod Host
mod Tests
use ungula_hal.Base.{
  ℕ, ◌+◌, ◌*◌, Bool, true, false, Option, none, some, List, [], ◌++◌, ltb, leb, ◌==◌, ◌||◌, ◌&&◌,
  not, if◌then◌else◌, u32, take, drop, replicate, length,
}
use ungula_hal.Esp.{EspErr, ok, invalid_state, timeout, failed}
use ungula_hal.Spi.Bus.{Driver}

pub record SpiMaster (d : Driver) : Type 0 where
  pub installed : Bool
  pub device : Option d.Handle  -- devHandle_

-- What a call brings: its result, the receive buffer, and the driver.
pub record Outcome (d : Driver) : Type 0 where
  pub done : Bool
  pub buffer : Option (List ℕ)
  pub hw : d.Hw

-- `memcpy` of `n` bytes; `none` where that leaves one of the two buffers.
abbrev pub memcpy : ℕ → List ℕ → List ℕ → Option (List ℕ)
memcpy n source target =
    if leb n (length source) && leb n (length target)
    then some (take n source ++ drop n target)
    else none

-- A receive buffer with what has come at its start.
abbrev pub fill : List ℕ → List ℕ → List ℕ
fill got buffer = got ++ drop (length got) buffer

abbrev pub fill_if_any : List ℕ → Option (List ℕ) → Option (List ℕ)
fill_if_any got none = none
fill_if_any got (some buffer) = some (fill got buffer)

-- The bus is there, be it from another device.
abbrev pub is_initialized : EspErr → Bool
is_initialized ok = true
is_initialized invalid_state = true
is_initialized timeout = false
is_initialized failed = false

abbrev pub blank : ℕ → List ℕ
blank n = replicate n 0

abbrev pub zeros : List ℕ
zeros = blank 64

module _ (d : Driver) where
  unfoldable pub adopt : Option d.Handle → SpiMaster d → d.Hw → Bool × SpiMaster d × d.Hw
  adopt none m w = (false, m, w)
  adopt (some h) m w = (true, record { device = some h; installed = true }, w)

  -- `max_transfer_sz` is 32 and `queue_size` 1.
  unfoldable pub begin : ℕ → ℕ → ℕ → ℕ → ℕ → ℕ → ℕ → SpiMaster d → d.Hw → Bool × SpiMaster d × d.Hw
  unfolding adopt
  begin sclk miso mosi cs freq_hz mode host m w =
      let (err, w1) = d.initialize host mosi miso sclk 32 w in
      let (h, w2) = d.add_device host freq_hz mode cs 1 w1 in
      if m.installed
      then (false, m, w)
      else if not (is_initialized err)
      then (false, m, w1)
      else adopt h m w2

  unfoldable pub transfer : Option (List ℕ) → Option (List ℕ) → ℕ → SpiMaster d → d.Hw → Outcome d
  transfer tx rx len m w =
      let (sent, got, w') = d.transmit m.device (u32 (len * 8)) tx w in
      if not m.installed || len == 0
      then record { done = false; buffer = rx; hw = w }
      else record { done = sent; buffer = fill_if_any got rx; hw = w' }

  unfoldable pub write : Option (List ℕ) → ℕ → SpiMaster d → d.Hw → Outcome d
  unfolding transfer
  write tx len m w = transfer tx none len m w

  unfoldable pub read : Option (List ℕ) → ℕ → SpiMaster d → d.Hw → Outcome d
  unfolding transfer
  read rx len m w = transfer none rx len m w

  -- The caller's buffer when `rxBuf` is written, or `none` when that leaves a buffer.
  unfoldable pub hand_over : Option (List ℕ) → d.Hw → Option (Outcome d)
  hand_over none w = none
  hand_over (some rx) w = some (record { done = true; buffer = some rx; hw = w })

  -- `writeRead` from the transmission on.
  unfoldable pub exchange :
      ℕ → ℕ → ℕ → Option (List ℕ) → List ℕ → SpiMaster d → d.Hw → Option (Outcome d)
  unfolding hand_over
  exchange total write_len read_len none rx m w = none
  exchange total write_len read_len (some tx) rx m w =
      let (sent, got, w') = d.transmit m.device (u32 (total * 8)) (some tx) w in
      let received = memcpy read_len (drop write_len (fill got zeros)) rx in
      if not sent
      then some (record { done = false; buffer = some rx; hw = w' })
      else hand_over received w'

  -- `none` is a call that reads or writes beyond a buffer.
  unfoldable pub write_read : List ℕ → ℕ → List ℕ → ℕ → SpiMaster d → d.Hw → Option (Outcome d)
  unfolding exchange
  write_read tx write_len rx read_len m w =
      let total = u32 (write_len + read_len) in
      if not m.installed || total == 0 || ltb 64 total
      then some (record { done = false; buffer = some rx; hw = w })
      else exchange total write_len read_len (memcpy write_len tx zeros) rx m w

  abbrev remove_if_any : Option d.Handle → d.Hw → d.Hw
  remove_if_any none w = w
  remove_if_any (some h) w = d.remove_device h w

  -- The destructor.
  unfoldable pub destroy : SpiMaster d → d.Hw → d.Hw
  destroy m w = if m.installed then remove_if_any m.device w else w
