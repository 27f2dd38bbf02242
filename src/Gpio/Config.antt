-- ===== src/Gpio/Config.antt =====
-- The pin configuration of src/ungula/hal/gpio/platforms/gpio_esp32.h: `config*()`. A pin is a `uint8_t`.
use ungula_hal.Base.{ℕ, ◌^◌, Bool, true, false, ◌&&◌, ltb, not, if◌then◌else◌}
use ungula_hal.Gpio.Driver.{
  Driver, GpioConfig, Mode, input, output, output_open_drain, IntrType, intr_disable, posedge,
  negedge, anyedge,
}

pub data RelayPolarity : Type 0 where
  active_low active_high : RelayPolarity

pub data InterruptEdge : Type 0 where
  edge_rising edge_falling edge_any : InterruptEdge

pub data PullMode : Type 0 where
  pull_none pull_up pull_down : PullMode

abbrev pub intr_type_of : InterruptEdge → IntrType
intr_type_of edge_rising = posedge
intr_type_of edge_falling = negedge
intr_type_of edge_any = anyedge

abbrev pub is_up : PullMode → Bool
is_up pull_none = false
is_up pull_up = true
is_up pull_down = false

abbrev pub is_down : PullMode → Bool
is_down pull_none = false
is_down pull_up = false
is_down pull_down = true

-- `off_level` of `configOutputRelay`.
abbrev pub off_level : RelayPolarity → Bool
off_level active_low = true
off_level active_high = false

-- `b == c` of two levels.
abbrev pub same : Bool → Bool → Bool
same true c = c
same false c = not c

-- `gpio_config_t cfg = {}` with the pulls off.
abbrev pub plain : ℕ → Mode → GpioConfig
plain pin mode = record {
  pin_bit_mask = 2 ^ pin;
  mode = mode;
  pull_up_en = false;
  pull_down_en = false;
  intr_type = intr_disable;
}

module _ (d : Driver) where
  unfoldable pub supports_internal_pulldown : ℕ → Bool
  supports_internal_pulldown pin = d.is_valid_gpio pin && ltb pin 34

  unfoldable pub supports_internal_pullup : ℕ → Bool
  supports_internal_pullup pin = d.is_valid_gpio pin && ltb pin 34

  unfoldable pub config_output : ℕ → d.Hw → Bool × d.Hw
  config_output pin w =
      if d.is_valid_output_gpio pin then d.config (plain pin output) w else (false, w)

  unfoldable pub config_input : ℕ → d.Hw → Bool × d.Hw
  config_input pin w = if d.is_valid_gpio pin then d.config (plain pin input) w else (false, w)

  unfoldable pub config_input_pullup : ℕ → d.Hw → Bool × d.Hw
  unfolding supports_internal_pullup
  config_input_pullup pin w =
      if supports_internal_pullup pin
      then d.config (record (plain pin input) { pull_up_en = true }) w
      else (false, w)

  unfoldable pub config_input_pulldown : ℕ → d.Hw → Bool × d.Hw
  unfolding supports_internal_pulldown
  config_input_pulldown pin w =
      if supports_internal_pulldown pin
      then d.config (record (plain pin input) { pull_down_en = true }) w
      else (false, w)

  unfoldable pub config_output_relay : ℕ → RelayPolarity → d.Hw → Bool × d.Hw
  config_output_relay pin polarity w =
      let (configured, w1) = d.config (plain pin output) w in
      let (is_set, w2) = d.set_level pin (off_level polarity) w1 in
      if d.is_valid_output_gpio pin
      then (if configured
          then (if is_set
              then (same (d.get_level pin w2) (off_level polarity), w2)
              else (false, w2))
          else (false, w1))
      else (false, w)

  unfoldable pub config_output_open_drain : ℕ → d.Hw → Bool × d.Hw
  config_output_open_drain pin w =
      if d.is_valid_output_gpio pin then d.config (plain pin output_open_drain) w else (false, w)

  -- The guard of `configInputInterrupt`.
  abbrev pub pull_allowed : ℕ → PullMode → Bool
  pull_allowed pin pull_none = d.is_valid_gpio pin
  pull_allowed pin pull_up = supports_internal_pullup pin
  pull_allowed pin pull_down = supports_internal_pulldown pin

  unfoldable pub config_input_interrupt : ℕ → InterruptEdge → PullMode → d.Hw → Bool × d.Hw
  unfolding supports_internal_pullup supports_internal_pulldown
  config_input_interrupt pin edge pull w =
      if pull_allowed pin pull
      then d.config
          (record (plain pin input) {
            pull_up_en = is_up pull;
            pull_down_en = is_down pull;
            intr_type = intr_type_of edge;
          })
          w
      else (false, w)
