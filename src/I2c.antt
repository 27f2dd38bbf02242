-- ===== src/I2c.antt =====
-- src/ungula/hal/i2c: the class `I2cMaster` of platforms/i2c_master_esp32.cpp over ESP-IDF's I2C driver (`Link`).
-- `Wire` reads its command links by the rules of `Protocol`, and `Owner` sets it against the driver; `Host` is
-- platforms/i2c_master_default.cpp. A pointer is an `Option`, `none` being null.
pub mod Link
pub mod Protocol
pub mod Wire
pub mod Owner
pub mod Host
mod Tests
use ungula_hal.Base.{
  ℕ, zero, suc, ◌+◌, ◌-◌, ◌*◌, Bool, true, false, Option, none, some, List, [], ◌∷◌, ◌++◌, ltb,
  ◌==◌, ◌||◌, not, if◌then◌else◌, u8, take,
}
use ungula_hal.I2c.Link.{
  Driver, Command, start, stop, write_byte, write_bytes, read_bytes, read_byte, ack, nack,
}

pub record I2cMaster : Type 0 where
  pub port : ℕ
  pub installed : Bool

-- What a call brings: its result, the read buffer, and the driver.
pub record Outcome (d : Driver) : Type 0 where
  pub ok : Bool
  pub buffer : Option (List ℕ)
  pub hw : d.Hw

module _ (d : Driver) where
  -- The byte after START. `|` is `+` here, since the shifted address is even and the bit below 2.
  abbrev pub address_byte : ℕ → ℕ → ℕ
  address_byte addr bit = u8 (addr * 2 + bit)

  abbrev pub payload : ℕ → Option (List ℕ) → List Command
  payload zero bytes = []
  payload (suc n) none = []
  payload (suc n) (some ds) = write_bytes (take (suc n) ds) true ∷ []

  unfoldable pub write_phase : ℕ → Option (List ℕ) → ℕ → List Command
  write_phase addr bytes length =
      start ∷ write_byte (address_byte addr d.write_bit) true ∷ payload length bytes

  unfoldable pub read_phase : ℕ → ℕ → List Command
  read_phase addr length =
      start
        ∷ write_byte (address_byte addr d.read_bit) true
        ∷ (if ltb 1 length then read_bytes 0 (length - 1) ack ∷ [] else [])
      ++ (read_byte (length - 1) nack ∷ [])

  unfoldable pub begin : ℕ → ℕ → ℕ → I2cMaster → d.Hw → Bool × I2cMaster × d.Hw
  begin sda scl freq_hz m w =
      let (configured, w1) = d.param_config m.port sda scl freq_hz w in
      let (installed, w2) = d.install m.port w1 in
      if m.installed
      then (false, m, w)
      else if not configured
      then (false, m, w1)
      else if not installed
      then (false, m, w2)
      else (true, record m { installed = true }, w2)

  abbrev pub send : List Command → ℕ → Option (List ℕ) → I2cMaster → d.Hw → Outcome d
  send cmds timeout_ms buffer m w =
      let (done, got, w') = d.cmd_begin m.port cmds (d.ms_to_ticks timeout_ms) buffer w in
      record { ok = done; buffer = got; hw = w' }

  abbrev refuse : Option (List ℕ) → d.Hw → Outcome d
  refuse buffer w = record { ok = false; buffer = buffer; hw = w }

  abbrev pub is_null : Option (List ℕ) → Bool
  is_null none = true
  is_null (some b) = false

  unfoldable pub write : ℕ → Option (List ℕ) → ℕ → ℕ → I2cMaster → d.Hw → Outcome d
  write addr bytes length timeout_ms m w =
      if not m.installed
      then refuse none w
      else send (write_phase addr bytes length ++ (stop ∷ [])) timeout_ms none m w

  unfoldable pub read : ℕ → Option (List ℕ) → ℕ → ℕ → I2cMaster → d.Hw → Outcome d
  read addr buffer length timeout_ms m w =
      if not m.installed || length == 0 || is_null buffer
      then refuse buffer w
      else send (read_phase addr length ++ (stop ∷ [])) timeout_ms buffer m w

  unfoldable pub write_read :
      ℕ → Option (List ℕ) → ℕ → Option (List ℕ) → ℕ → ℕ → I2cMaster → d.Hw → Outcome d
  write_read addr bytes write_len buffer read_len timeout_ms m w =
      if not m.installed || read_len == 0 || is_null buffer
      then refuse buffer w
      else send (write_phase addr bytes write_len ++ (read_phase addr read_len ++ (stop ∷ [])))
          timeout_ms buffer m w

  -- The destructor.
  unfoldable pub destroy : I2cMaster → d.Hw → d.Hw
  destroy m w = if m.installed then d.delete m.port w else w
