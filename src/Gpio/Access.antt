-- ===== src/Gpio/Access.antt =====
-- Reads and writes of src/ungula/hal/gpio/platforms/gpio_esp32.h, checked and unchecked, and the
-- interrupt handlers.
use ungula_hal.Base.{ℕ, Bool, true, false, not, if◌then◌else◌}
use ungula_hal.Gpio.Driver.{Driver}

module _ (d : Driver) where
  abbrev pub read : ℕ → d.Hw → Bool
  read pin w = d.ll_get_level pin w

  abbrev pub set_high : ℕ → d.Hw → d.Hw
  set_high pin w = d.ll_set_level pin true w

  abbrev pub set_low : ℕ → d.Hw → d.Hw
  set_low pin w = d.ll_set_level pin false w

  unfoldable pub write : ℕ → Bool → d.Hw → d.Hw
  write pin high w = d.ll_set_level pin (if high then true else false) w

  unfoldable pub toggle : ℕ → d.Hw → d.Hw
  unfolding write
  toggle pin w = write pin (not (read pin w)) w

  -- The convenience helpers: `writeHigh` and `on`, `writeLow` and `off`; `isOn`, `isHigh`, `isEnabled`
  -- and `isClosed`; `isOff`, `isLow`, `isDisabled` and `isOpen`.
  abbrev pub write_high : ℕ → d.Hw → d.Hw
  write_high pin w = set_high pin w

  abbrev pub write_low : ℕ → d.Hw → d.Hw
  write_low pin w = set_low pin w

  abbrev pub on : ℕ → d.Hw → d.Hw
  on pin w = set_high pin w

  abbrev pub off : ℕ → d.Hw → d.Hw
  off pin w = set_low pin w

  abbrev pub is_on : ℕ → d.Hw → Bool
  is_on pin w = read pin w

  abbrev pub is_off : ℕ → d.Hw → Bool
  is_off pin w = not (read pin w)

  abbrev pub is_high : ℕ → d.Hw → Bool
  is_high pin w = read pin w

  abbrev pub is_low : ℕ → d.Hw → Bool
  is_low pin w = not (read pin w)

  abbrev pub is_enabled : ℕ → d.Hw → Bool
  is_enabled pin w = read pin w

  abbrev pub is_disabled : ℕ → d.Hw → Bool
  is_disabled pin w = not (read pin w)

  abbrev pub is_open : ℕ → d.Hw → Bool
  is_open pin w = not (read pin w)

  abbrev pub is_closed : ℕ → d.Hw → Bool
  is_closed pin w = read pin w

  -- `out` is what the caller's variable holds.
  unfoldable pub checked_read : ℕ → Bool → d.Hw → Bool × Bool
  checked_read pin out w =
      if d.is_valid_gpio pin then (true, d.ll_get_level pin w) else (false, out)

  unfoldable pub checked_set_high : ℕ → d.Hw → Bool × d.Hw
  checked_set_high pin w =
      if d.is_valid_output_gpio pin then (true, d.ll_set_level pin true w) else (false, w)

  unfoldable pub checked_set_low : ℕ → d.Hw → Bool × d.Hw
  checked_set_low pin w =
      if d.is_valid_output_gpio pin then (true, d.ll_set_level pin false w) else (false, w)

  unfoldable pub checked_write : ℕ → Bool → d.Hw → Bool × d.Hw
  checked_write pin high w =
      if d.is_valid_output_gpio pin
      then (true, d.ll_set_level pin (if high then true else false) w)
      else (false, w)

  unfoldable pub add_isr_handler : ℕ → ℕ → ℕ → d.Hw → Bool × d.Hw
  add_isr_handler pin handler context w = d.isr_handler_add pin handler context w

  unfoldable pub remove_isr_handler : ℕ → d.Hw → Bool × d.Hw
  remove_isr_handler pin w = d.isr_handler_remove pin w
