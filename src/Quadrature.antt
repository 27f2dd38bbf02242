-- ===== src/Quadrature.antt =====
-- src/ungula/hal/quadrature: the decoder of platforms/decoder_esp32.cpp over ESP-IDF's pulse counter.
-- `Handles` is what it holds of the driver, by the laws of `Ledger`; `Setup` is how `begin` sets up the
-- counter, by the laws of `Counter`, and `Shaft` what it counts of the moves of `Turns`; `Fake` and `Host` are
-- drivers/decoder_fake.h and platforms/decoder_default.cpp. An `int32_t` count is an integer: the code
-- does not wrap it.
pub mod Pcnt
pub mod Ledger
pub mod Handles
pub mod Counter
pub mod Turns
pub mod Setup
pub mod Shaft
pub mod Fake
pub mod Host
mod Tests
mod CounterTests
use ungula_hal.Base.{ℕ, Bool, true, false, Option, none, some, if◌then◌else◌}
use ungula_hal.Base.Int.{ℤ, pos, negsuc, ◌+ℤ◌}
use ungula_hal.Quadrature.Pcnt.{
  Driver, EdgeAction, increase, decrease, LevelAction, keep, inverse, Actions,
}

-- `EspState`, which `unit_` points to.
pub record EspState (d : Driver) : Type 0 where
  pub unit : d.UnitHandle
  pub ch_a : d.Channel
  pub ch_b : d.Channel

pub record Decoder (d : Driver) : Type 0 where
  pub installed : Bool
  pub pin_a : ℕ
  pub pin_b : ℕ
  pub seed : ℤ  -- count_
  pub unit : Option (EspState d)

-- The actions of the two channels.
abbrev pub actions_a : Actions
actions_a = record { rise = decrease; fall = increase; high = keep; low = inverse }

abbrev pub actions_b : Actions
actions_b = record { rise = increase; fall = decrease; high = keep; low = inverse }

module _ (d : Driver) where
  abbrev pub set_actions : d.Channel → Actions → d.Hw → d.Hw
  set_actions c a w = d.set_level_action c a.high a.low (d.set_edge_action c a.rise a.fall w)

  -- `begin` from the last allocation on.
  unfoldable pub run : ℕ → ℕ → ℤ → EspState d → Decoder d → d.Hw → Bool × Decoder d × d.Hw
  run pin_a pin_b initial st s w =
      let w1 = set_actions st.ch_b actions_b (set_actions st.ch_a actions_a w) in
      let w2 = d.start st.unit (d.clear_count st.unit (d.enable st.unit w1)) in
      (
        true,
        record s { unit = some st; pin_a = pin_a; pin_b = pin_b; seed = initial; installed = true },
        w2,
      )

  unfoldable pub with_b :
      ℕ
      → ℕ
      → ℤ
      → d.UnitHandle
      → d.Channel
      → Option d.Channel
      → Decoder d
      → d.Hw
      → Bool × Decoder d × d.Hw
  unfolding run
  with_b pin_a pin_b initial u a none s w = (false, s, d.del_unit u (d.del_channel a w))
  with_b pin_a pin_b initial u a (some b) s w =
      run pin_a pin_b initial (record { unit = u; ch_a = a; ch_b = b }) s w

  unfoldable pub with_a :
      ℕ → ℕ → ℤ → d.UnitHandle → Option d.Channel → Decoder d → d.Hw → Bool × Decoder d × d.Hw
  unfolding with_b
  with_a pin_a pin_b initial u none s w = (false, s, d.del_unit u w)
  with_a pin_a pin_b initial u (some a) s w =
      let (b, w') = d.new_channel u pin_b pin_a w in with_b pin_a pin_b initial u a b s w'

  unfoldable pub with_unit :
      ℕ → ℕ → ℤ → Option d.UnitHandle → Decoder d → d.Hw → Bool × Decoder d × d.Hw
  unfolding with_a
  with_unit pin_a pin_b initial none s w = (false, s, w)
  with_unit pin_a pin_b initial (some u) s w =
      let (a, w') = d.new_channel u pin_a pin_b w in with_a pin_a pin_b initial u a s w'

  -- The limits are those of a 16-bit counter, 32767 and -32768.
  unfoldable pub begin : ℕ → ℕ → ℤ → Decoder d → d.Hw → Bool × Decoder d × d.Hw
  unfolding with_unit
  begin pin_a pin_b initial s w =
      let (u, w') = d.new_unit (pos 32767) (negsuc 32767) true w in
      if s.installed then (false, s, w) else with_unit pin_a pin_b initial u s w'

  unfoldable pub release : Option (EspState d) → d.Hw → d.Hw
  release none w = w
  release (some st) w =
      let w1 = d.disable st.unit (d.stop st.unit w) in
      d.del_unit st.unit (d.del_channel st.ch_b (d.del_channel st.ch_a w1))

  unfoldable pub stop : Decoder d → d.Hw → Bool × Decoder d × d.Hw
  unfolding release
  stop s w =
      if s.installed
      then (true, record s { unit = none; installed = false }, release s.unit w)
      else (true, s, w)

  abbrev pub counted : ℤ → Option (EspState d) → d.Hw → ℤ
  counted seed none w = seed
  counted seed (some st) w = seed +ℤ d.get_count st.unit w

  unfoldable pub count : Decoder d → d.Hw → ℤ
  count s w = if s.installed then counted s.seed s.unit w else s.seed

  unfoldable pub clear : Option (EspState d) → d.Hw → d.Hw
  clear none w = w
  clear (some st) w = d.clear_count st.unit w

  unfoldable pub reset : ℤ → Decoder d → d.Hw → Bool × Decoder d × d.Hw
  unfolding clear
  reset value s w = (true, record s { seed = value }, if s.installed then clear s.unit w else w)

  -- The destructor.
  unfoldable pub destroy : Decoder d → d.Hw → d.Hw
  unfolding stop
  destroy s w = if s.installed then (stop s w).2 else w
