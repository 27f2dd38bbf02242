-- ===== src/Gpio/Host.antt =====
-- src/ungula/hal/gpio/platforms/gpio_default.h, the stub for host builds: the last input mode of each pin and
-- the levels that a test sets, both in tables of 64, and the flag of the ISR service. Writes do
-- nothing.
use ungula_hal.Base.{
  ℕ, zero, suc, ◌+◌, ◌%◌, Bool, true, false, not, List, if◌then◌else◌, get_or, set, replicate,
}
use ungula_hal.Gpio.{IsrServiceInstall, installed, already_installed}

-- `None` and `Plain` are `untouched` and `plain_input`.
pub data HostInputMode : Type 0 where
  untouched plain_input pullup pulldown interrupt : HostInputMode

pub record HostGpio : Type 0 where
  pub modes : List HostInputMode
  pub values : List Bool
  pub service : Bool

abbrev pub fresh : HostGpio
fresh = record { modes = replicate 64 untouched; values = replicate 64 false; service = false }

-- `DEFAULT_GPIO_STATE`.
abbrev pub default_gpio_state : Bool
default_gpio_state = false

-- `pin & 63`.
abbrev pub slot : ℕ → ℕ
slot pin = pin % 64

abbrev set_mode : HostInputMode → ℕ → HostGpio → HostGpio
set_mode mode pin g = record g { modes = set g.modes (slot pin) mode }

unfoldable pub last_input_mode : ℕ → HostGpio → HostInputMode
last_input_mode pin g = get_or g.modes (slot pin) untouched

unfoldable pub reset_input_mode : ℕ → HostGpio → HostGpio
reset_input_mode pin g = set_mode untouched pin g

unfoldable pub set_host_read_value : ℕ → Bool → HostGpio → HostGpio
set_host_read_value pin value g = record g { values = set g.values (slot pin) value }

-- The loop from `i` on, with the turns that are left.
unfoldable pub reset_values : ℕ → ℕ → HostGpio → HostGpio
unfolding set_host_read_value
reset_values zero i g = g
reset_values (suc n) i g = reset_values n (i + 1) (set_host_read_value i false g)

unfoldable pub reset_all_host_read_values : HostGpio → HostGpio
unfolding reset_values
reset_all_host_read_values g = reset_values 64 0 g

unfoldable pub config_output : ℕ → HostGpio → Bool × HostGpio
config_output pin g = (true, g)

unfoldable pub config_input : ℕ → HostGpio → Bool × HostGpio
config_input pin g = (true, set_mode plain_input pin g)

unfoldable pub config_input_pullup : ℕ → HostGpio → Bool × HostGpio
config_input_pullup pin g = (true, set_mode pullup pin g)

unfoldable pub config_input_pulldown : ℕ → HostGpio → Bool × HostGpio
config_input_pulldown pin g = (true, set_mode pulldown pin g)

unfoldable pub config_output_open_drain : ℕ → HostGpio → Bool × HostGpio
config_output_open_drain pin g = (true, g)

unfoldable pub config_output_relay : ℕ → HostGpio → Bool × HostGpio
config_output_relay pin g = (true, g)

unfoldable pub config_input_interrupt : ℕ → HostGpio → Bool × HostGpio
config_input_interrupt pin g = (true, set_mode interrupt pin g)

unfoldable pub read : ℕ → HostGpio → Bool
read pin g = get_or g.values (slot pin) false

-- Writes leave everything as it is.
unfoldable pub set_high : ℕ → HostGpio → HostGpio
set_high pin g = g

unfoldable pub set_low : ℕ → HostGpio → HostGpio
set_low pin g = g

unfoldable pub write_high : ℕ → HostGpio → HostGpio
write_high pin g = g

unfoldable pub write_low : ℕ → HostGpio → HostGpio
write_low pin g = g

unfoldable pub toggle : ℕ → HostGpio → HostGpio
toggle pin g = g

unfoldable pub on : ℕ → HostGpio → HostGpio
on pin g = g

unfoldable pub off : ℕ → HostGpio → HostGpio
off pin g = g

unfoldable pub write : ℕ → Bool → HostGpio → HostGpio
write pin high g = g

-- The tests of a level do not look at the table that `read` looks at.
unfoldable pub is_on : ℕ → Bool
is_on pin = default_gpio_state

unfoldable pub is_off : ℕ → Bool
is_off pin = not default_gpio_state

unfoldable pub is_high : ℕ → Bool
is_high pin = default_gpio_state

unfoldable pub is_low : ℕ → Bool
is_low pin = not default_gpio_state

unfoldable pub is_enabled : ℕ → Bool
is_enabled pin = default_gpio_state

unfoldable pub is_disabled : ℕ → Bool
is_disabled pin = not default_gpio_state

unfoldable pub is_open : ℕ → Bool
is_open pin = not default_gpio_state

unfoldable pub is_closed : ℕ → Bool
is_closed pin = default_gpio_state

unfoldable pub checked_read : ℕ → Bool × Bool
checked_read pin = (true, default_gpio_state)

unfoldable pub install_isr_service : HostGpio → IsrServiceInstall × HostGpio
install_isr_service g =
    if not g.service then (installed, record g { service = true }) else (already_installed, g)

unfoldable pub checked_set_high : ℕ → Bool
checked_set_high pin = true

unfoldable pub checked_set_low : ℕ → Bool
checked_set_low pin = true

unfoldable pub checked_write : ℕ → Bool → Bool
checked_write pin high = true

unfoldable pub add_isr_handler : ℕ → ℕ → ℕ → Bool
add_isr_handler pin handler ctx = true

unfoldable pub remove_isr_handler : ℕ → Bool
remove_isr_handler pin = true

unfoldable pub config_pwm : ℕ → ℕ → ℕ → Bool
config_pwm pin freq_hz res_bits = true

unfoldable pub write_pwm : ℕ → ℕ → Bool
write_pwm pin duty = true
