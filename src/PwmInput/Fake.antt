-- ===== src/PwmInput/Fake.antt =====
-- src/ungula/hal/pwm_input/drivers/pwm_input_fake.h: the input that tests feed. The callback is an address and
-- its context, and is taken to leave the fake alone.
use ungula_hal.Base.{ℕ, ◌+◌, Bool, true, false, Option, none, some, if◌then◌else◌, u32}

pub record PwmInputFake : Type 0 where
  pub installed : Bool
  pub pin : ℕ
  pub high_time_us : ℕ
  pub period_us : ℕ
  pub sample_age_us : ℕ
  pub has_sample : Bool
  pub cb : Option ℕ
  pub cb_ctx : ℕ
  pub begin_call_count : ℕ
  pub stop_call_count : ℕ
  pub inject_call_count : ℕ
  pub set_callback_call_count : ℕ
  pub callback_invocation_count : ℕ

abbrev pub fresh : PwmInputFake
fresh = record {
  installed = false;
  pin = 0;
  high_time_us = 0;
  period_us = 0;
  sample_age_us = 0;
  has_sample = false;
  cb = none;
  cb_ctx = 0;
  begin_call_count = 0;
  stop_call_count = 0;
  inject_call_count = 0;
  set_callback_call_count = 0;
  callback_invocation_count = 0;
}

unfoldable pub begin : ℕ → PwmInputFake → Bool × PwmInputFake
begin pin f = if f.installed then (false, f) else (
  true,
  record f { pin = pin; installed = true; begin_call_count = u32 (f.begin_call_count + 1) },
)

unfoldable pub stop : PwmInputFake → Bool × PwmInputFake
stop f = (true, record f { installed = false; stop_call_count = u32 (f.stop_call_count + 1) })

unfoldable pub set_sample_callback : Option ℕ → ℕ → PwmInputFake → PwmInputFake
set_sample_callback cb ctx f = record f {
  cb = cb;
  cb_ctx = ctx;
  set_callback_call_count = u32 (f.set_callback_call_count + 1);
}

unfoldable pub inject_sample : ℕ → ℕ → PwmInputFake → PwmInputFake
inject_sample high_time_us period_us f = record f {
  high_time_us = high_time_us;
  period_us = period_us;
  has_sample = true;
  sample_age_us = 0;
  inject_call_count = u32 (f.inject_call_count + 1);
}

-- The callback that is run, with its context.
abbrev invoke : Option ℕ → PwmInputFake → Option (ℕ × ℕ) × PwmInputFake
invoke none f = (none, f)
invoke (some cb) f = (
  some (cb, f.cb_ctx),
  record f { callback_invocation_count = u32 (f.callback_invocation_count + 1) },
)

unfoldable pub trigger_sample : ℕ → ℕ → PwmInputFake → Option (ℕ × ℕ) × PwmInputFake
unfolding inject_sample
trigger_sample high_time_us period_us f =
    let f' = inject_sample high_time_us period_us f in invoke f'.cb f'

unfoldable pub set_high_time_us : ℕ → PwmInputFake → PwmInputFake
set_high_time_us v f = record f { high_time_us = v }

unfoldable pub set_period_us : ℕ → PwmInputFake → PwmInputFake
set_period_us v f = record f { period_us = v }

unfoldable pub set_has_sample : Bool → PwmInputFake → PwmInputFake
set_has_sample v f = record f { has_sample = v }

unfoldable pub set_sample_age_us : ℕ → PwmInputFake → PwmInputFake
set_sample_age_us v f = record f { sample_age_us = v }
