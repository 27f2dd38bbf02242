-- ===== src/Gpio/Driver.antt =====
-- What src/ungula/hal/gpio and src/ungula/hal/pwm_input call of ESP-IDF's GPIO driver and of the SoC's
-- headers, over an abstract state of the driver and the pins.
use ungula_hal.Base.{ℕ, Bool}
use ungula_hal.Esp.{EspErr}

-- `gpio_mode_t` and `gpio_int_type_t`, as far as the code uses them.
pub data Mode : Type 0 where
  input output output_open_drain : Mode

pub data IntrType : Type 0 where
  intr_disable posedge negedge anyedge : IntrType

-- `gpio_config_t`; the pulls are on where `true`.
pub record GpioConfig : Type 0 where
  pub pin_bit_mask : ℕ
  pub mode : Mode
  pub pull_up_en : Bool
  pub pull_down_en : Bool
  pub intr_type : IntrType

-- A result of type `Bool` is `== ESP_OK`, a level is `!= 0`.
pub record Driver : Type 1 where
  pub Hw : Type 0
  -- `GPIO_IS_VALID_GPIO` and `GPIO_IS_VALID_OUTPUT_GPIO` of the SoC.
  pub is_valid_gpio : ℕ → Bool
  pub is_valid_output_gpio : ℕ → Bool
  pub config : GpioConfig → Hw → Bool × Hw
  pub set_level : ℕ → Bool → Hw → Bool × Hw
  pub get_level : ℕ → Hw → Bool
  pub ll_set_level : ℕ → Bool → Hw → Hw
  pub ll_get_level : ℕ → Hw → Bool
  pub install_isr_service : Hw → EspErr × Hw
  -- The handler and its context.
  pub isr_handler_add : ℕ → ℕ → ℕ → Hw → Bool × Hw
  pub isr_handler_remove : ℕ → Hw → Bool × Hw
