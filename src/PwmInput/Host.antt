-- ===== src/PwmInput/Host.antt =====
-- src/ungula/hal/pwm_input/platforms/pwm_input_default.cpp, the stub for host builds: it never has a sample and
-- drops a callback.
use ungula_hal.Base.{ℕ, Bool, true, false, if◌then◌else◌}
use ungula_hal.PwmInput.Esp32.{PwmInput}

unfoldable pub begin : ℕ → PwmInput → Bool × PwmInput
begin pin p = if p.installed then (false, p) else (true, record { installed = true; pin = pin })

unfoldable pub stop : PwmInput → Bool × PwmInput
stop p = (true, record p { installed = false })

unfoldable pub last_high_time_us : PwmInput → ℕ
last_high_time_us p = 0

unfoldable pub last_period_us : PwmInput → ℕ
last_period_us p = 0

unfoldable pub has_sample : PwmInput → Bool
has_sample p = false

unfoldable pub sample_age_us : PwmInput → ℕ
sample_age_us p = 0
