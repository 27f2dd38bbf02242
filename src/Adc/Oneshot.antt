-- ===== src/Adc/Oneshot.antt =====
-- What src/ungula/hal/adc/platforms/adc_manager_esp32.cpp calls of ESP-IDF's one-shot and calibration
-- drivers, over an abstract state.
use ungula_hal.Base.{ℕ, Bool, Option}
use ungula_hal.Base.Int.{ℤ}

-- `adc_unit_t` and `adc_atten_t`; the last of each is any other value of the type.
pub data AdcUnit : Type 0 where
  unit_1 unit_2 unit_other : AdcUnit

pub data AdcAtten : Type 0 where
  atten_db_0 atten_db_2_5 atten_db_6 atten_db_12 atten_other : AdcAtten

-- A call that makes a handle returns it, or `none` where it fails; `Bool` is `== ESP_OK`. A unit's
-- handle is `none` where the code passes a null pointer.
pub record Oneshot : Type 1 where
  pub Hw : Type 0
  pub UnitHandle : Type 0
  pub Cali : Type 0
  -- `ADC_CALI_SCHEME_CURVE_FITTING_SUPPORTED` and `ADC_CALI_SCHEME_LINE_FITTING_SUPPORTED`.
  pub curve_fitting_supported : Bool
  pub line_fitting_supported : Bool
  pub io_to_channel : ℕ → Option (AdcUnit × ℕ)
  pub new_unit : AdcUnit → Hw → Option UnitHandle × Hw
  pub del_unit : UnitHandle → Hw → Hw
  pub config_channel : Option UnitHandle → ℕ → AdcAtten → Hw → Bool × Hw
  pub read : Option UnitHandle → ℕ → Hw → Option ℤ × Hw
  pub create_curve_fitting : AdcUnit → AdcAtten → Hw → Option Cali × Hw
  pub create_line_fitting : AdcUnit → AdcAtten → Hw → Option Cali × Hw
  pub delete_curve_fitting : Cali → Hw → Hw
  pub delete_line_fitting : Cali → Hw → Hw
  pub raw_to_voltage : Cali → ℤ → Option ℤ
