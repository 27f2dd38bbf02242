-- ===== src/Gpio/Sound.antt =====
-- What the checked operations of src/ungula/hal/gpio/platforms/gpio_esp32.h ask of the driver, whatever
-- pin they are given.
use ungula_hal.Base.{
  ℕ, ◌^◌, ◌≡◌, ◌≢◌, ◌<◌, refl, Bool, true, false, Bool-cases, inl, inr, ◌⊎◌, arith, if◌then◌else◌,
}
use ungula_hal.Gpio.Driver.{
  Driver, GpioConfig, Mode, input, output, output_open_drain, IntrType, intr_disable,
}
use ungula_hal.Gpio.Config.{
  RelayPolarity, InterruptEdge, PullMode, pull_none, pull_up, pull_down, config_output,
  config_input, config_input_pullup, config_input_pulldown, config_output_relay,
  config_output_open_drain, config_input_interrupt, plain, pull_allowed, is_up, is_down,
  intr_type_of, supports_internal_pullup, supports_internal_pulldown, off_level,
}
use ungula_hal.Gpio.Access.{checked_set_high, checked_set_low, checked_write}

pub data Request : Type 0 where
  output_request input_request pullup_request pulldown_request open_drain_request : ℕ → Request
  relay_request : ℕ → RelayPolarity → Request
  interrupt_request : ℕ → InterruptEdge → PullMode → Request
  set_high_request set_low_request : ℕ → Request
  write_request : ℕ → Bool → Request

module _ (d : Driver) where
  unfoldable pub handle : Request → d.Hw → Bool × d.Hw
  handle (output_request pin) w = config_output d pin w
  handle (input_request pin) w = config_input d pin w
  handle (pullup_request pin) w = config_input_pullup d pin w
  handle (pulldown_request pin) w = config_input_pulldown d pin w
  handle (open_drain_request pin) w = config_output_open_drain d pin w
  handle (relay_request pin p) w = config_output_relay d pin p w
  handle (interrupt_request pin edge pull) w = config_input_interrupt d pin edge pull w
  handle (set_high_request pin) w = checked_set_high d pin w
  handle (set_low_request pin) w = checked_set_low d pin w
  handle (write_request pin high) w = checked_write d pin high w

  -- A configuration of one pin that the SoC has, an output only where the pin can drive, at most one
  -- pull and only on a pin below 34, and interrupts only on an input.
  pub record IsSoundConfig (pin : ℕ) (c : GpioConfig) : Type 0 where
    pub one_pin : c.pin_bit_mask ≡ 2 ^ pin
    pub drives : c.mode ≢ input → d.is_valid_output_gpio pin ≡ true
    pub reads : c.mode ≡ input → d.is_valid_gpio pin ≡ true
    pub one_pull : (c.pull_up_en ≡ false) ⊎ (c.pull_down_en ≡ false)
    pub has_pull : (c.pull_up_en ≡ true) ⊎ (c.pull_down_en ≡ true) → pin < 34
    pub input_only : c.mode ≢ input → c.intr_type ≡ intr_disable

module _ {d : Driver} (pin : ℕ) where
  output-IsSoundConfig :
      (m : Mode) → m ≢ input → d.is_valid_output_gpio pin ≡ true → IsSoundConfig d pin (plain pin m)
  output-IsSoundConfig m ne e = record {
    one_pin = refl;
    drives = λ q. e;
    reads = λ q. absurd (ne q);
    one_pull = inl refl;
    has_pull = λ q. absurd (ground (arith, q));
    input_only = λ q. refl;
  }

  input-IsSoundConfig :
      (up down : Bool) (t : IntrType)
      → d.is_valid_gpio pin ≡ true
      → (up ≡ false) ⊎ (down ≡ false)
      → ((up ≡ true) ⊎ (down ≡ true) → pin < 34)
      → IsSoundConfig d pin
          (record (plain pin input) { pull_up_en = up; pull_down_en = down; intr_type = t })
  input-IsSoundConfig up down t e one low = record {
    one_pin = refl;
    drives = λ q. absurd (q refl);
    reads = λ q. e;
    one_pull = one;
    has_pull = low;
    input_only = λ q. absurd (q refl);
  }

  pull-IsSoundConfig :
      (pull : PullMode) (t : IntrType)
      → pull_allowed d pin pull ≡ true
      → IsSoundConfig d pin (record (plain pin input) {
        pull_up_en = is_up pull;
        pull_down_en = is_down pull;
        intr_type = t;
      })
  unfolding supports_internal_pullup supports_internal_pulldown
  pull-IsSoundConfig pull_none t e =
      input-IsSoundConfig false false t e (inl refl) (λ q. absurd (ground (arith, q)))
  pull-IsSoundConfig pull_up t e =
      input-IsSoundConfig true false t (ground (arith, e)) (inr refl) (λ q. ground (arith, e))
  pull-IsSoundConfig pull_down t e =
      input-IsSoundConfig false true t (ground (arith, e)) (inl refl) (λ q. ground (arith, e))

module _ (d : Driver) (Good : d.Hw → Type 0)
    (cfg : (pin : ℕ) (c : GpioConfig) (w : d.Hw)
      → IsSoundConfig d pin c
      → Good w
      → Good (d.config c w).1)
    (lvl : (pin : ℕ) (b : Bool) (w : d.Hw)
      → d.is_valid_output_gpio pin ≡ true
      → Good w
      → Good (d.set_level pin b w).1 × Good (d.ll_set_level pin b w)) where
  guarded :
      (b : Bool) (pin : ℕ) (c : GpioConfig) (w : d.Hw)
      → (b ≡ true → IsSoundConfig d pin c)
      → Good w
      → Good (if b then d.config c w else (false, w)).1
  guarded true pin c w h g = cfg pin c w (h refl) g
  guarded false pin c w h g = g

  guarded_level :
      (v : Bool) (pin : ℕ) (b : Bool) (w : d.Hw)
      → (v ≡ true → d.is_valid_output_gpio pin ≡ true)
      → Good w
      → let r : Bool × d.Hw = if v then (true, d.ll_set_level pin b w) else (false, w) in Good r.1
  guarded_level true pin b w h g = (lvl pin b w (h refl) g).1
  guarded_level false pin b w h g = g

  relay-keeps :
      (pin : ℕ) (p : RelayPolarity) (w : d.Hw) → Good w → Good (config_output_relay d pin p w).1
  unfolding config_output_relay
  relay-keeps pin p w g = elim (Bool-cases (d.is_valid_output_gpio pin)) [
    | inl e ↦
        let g1 =
          cfg pin (plain pin output) w (output-IsSoundConfig pin output (λ q. ground (arith, q)) e)
            g in
        elim (Bool-cases (d.config (plain pin output) w).0) [
          | inl c ↦
              elim (Bool-cases
                (d.set_level pin (off_level p) (d.config (plain pin output) w).1).0) [
                  | inl s ↦ rw (e, c, s) (lvl pin (off_level p) _ e g1).0
                  | inr s ↦ rw (e, c, s) (lvl pin (off_level p) _ e g1).0
                ]
          | inr c ↦ rw (e, c) g1
        ]
    | inr e ↦ rw e g
  ]

  -- Any property of the driver's state that sound configurations of a pin and writes to pins that can
  -- drive keep is kept by every request to configure a pin and by every checked write (`checkedSetHigh`,
  -- `checkedSetLow`, `checkedWrite`), whatever pin it names. The unchecked `setHigh`, `setLow`, `write`
  -- and `toggle`, which write to any pin, are not among the requests.
  pub handle-keeps : (r : Request) (w : d.Hw) → Good w → Good (handle d r w).1
  unfolding handle config_output config_input config_input_pullup config_input_pulldown
      config_output_open_drain config_input_interrupt checked_set_high checked_set_low checked_write
  handle-keeps (output_request pin) w g =
      guarded _ pin _ w (output-IsSoundConfig pin output (λ q. ground (arith, q))) g
  handle-keeps (input_request pin) w g =
      guarded _ pin _ w (pull-IsSoundConfig pin pull_none intr_disable) g
  handle-keeps (pullup_request pin) w g =
      guarded _ pin _ w (pull-IsSoundConfig pin pull_up intr_disable) g
  handle-keeps (pulldown_request pin) w g =
      guarded _ pin _ w (pull-IsSoundConfig pin pull_down intr_disable) g
  handle-keeps (open_drain_request pin) w g =
      guarded _ pin _ w (output-IsSoundConfig pin output_open_drain (λ q. ground (arith, q))) g
  handle-keeps (relay_request pin p) w g = relay-keeps pin p w g
  handle-keeps (interrupt_request pin edge pull) w g =
      guarded _ pin _ w (pull-IsSoundConfig pin pull (intr_type_of edge)) g
  handle-keeps (set_high_request pin) w g = guarded_level _ pin _ w (λ e. e) g
  handle-keeps (set_low_request pin) w g = guarded_level _ pin _ w (λ e. e) g
  handle-keeps (write_request pin high) w g = guarded_level _ pin _ w (λ e. e) g
