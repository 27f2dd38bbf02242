-- ===== src/Multiplexer.antt =====
-- The I2C multiplexer: `IMultiplexer` of src/ungula/hal/multiplexer/i_multiplexer.cpp with the TCA9548 of
-- src/ungula/hal/multiplexer/drivers/multiplexer_tca9548.cpp on the `I2cMaster` of the host, which several
-- multiplexers may share. What is logged and the settling pause are left out.
pub mod Cache
pub mod Shared
pub mod Fake
pub mod Retries
mod Tests
use ungula_hal.Base.{
  ℕ, zero, suc, ◌^◌, Bool, true, false, Option, none, some, [], ◌∷◌, ◌&&◌, leb, ◌==◌, if◌then◌else◌,
}
use ungula_hal.I2c
use ungula_hal.I2c.{I2cMaster}
use ungula_hal.I2c.Link.{Driver}

pub record Mux : Type 0 where
  pub i2c_address : ℕ
  pub initiated : Bool
  pub is_functional : Bool
  pub current_channel : ℕ
  pub logging_enabled : Bool

unfoldable pub enable_logging : Mux → Mux
enable_logging m = record m { logging_enabled = true }

unfoldable pub disable_logging : Mux → Mux
disable_logging m = record m { logging_enabled = false }

abbrev pub select_retry_count : ℕ
select_retry_count = 3

-- `selectChannel` over the hook `selectChannel_` of a driver, which has the state `W`.
module _ {W : Type 0} (hook : ℕ → W → Bool × W) where
  -- The loop of `selectChannel`, with the attempts that are left.
  unfoldable pub attempts : ℕ → ℕ → W → Bool × W
  attempts zero channel w = (false, w)
  attempts (suc n) channel w =
      let (done, w') = hook channel w in
      let rest = attempts n channel w' in if done then (true, w') else rest

  unfoldable pub select_channel : ℕ → Mux → W → Bool × Mux × W
  select_channel channel m w =
      let (done, w') = attempts select_retry_count channel w in
      if m.initiated && m.is_functional && m.current_channel == channel
      then (true, m, w)
      else if m.initiated
      then (if done
          then (true, record m { current_channel = channel; is_functional = true }, w')
          else (false, record m { is_functional = false }, w'))
      else (false, m, w)

-- The driver of the TCA9548, on the master `bus`. A call waits 50 ms at most, the master's default.
module _ (d : Driver) (bus : I2cMaster) where
  -- `selectChannel_`.
  unfoldable pub select_on_chip : ℕ → ℕ → d.Hw → Bool × d.Hw
  select_on_chip address channel w =
      let o = I2c.write d address (some (2 ^ channel ∷ [])) 1 50 bus w in
      if leb 8 channel then (false, w) else (o.ok, o.hw)

  -- `selectChannel` with this driver.
  unfoldable pub select : ℕ → Mux → d.Hw → Bool × Mux × d.Hw
  unfolding select_channel
  select channel m w = select_channel (select_on_chip m.i2c_address) channel m w

  unfoldable pub is_responding : Mux → d.Hw → Bool × Mux × d.Hw
  is_responding m w =
      let o = I2c.write d m.i2c_address none 0 50 bus w in
      (o.ok, record m { is_functional = o.ok }, o.hw)

  unfoldable pub begin : Mux → d.Hw → Bool × Mux × d.Hw
  unfolding is_responding
  begin m w = let (done, m', w') = is_responding m w in (done, record m' { initiated = done }, w')

unfoldable pub restart_bus : Mux → Mux
restart_bus m = record m { is_functional = false; current_channel = 255 }
