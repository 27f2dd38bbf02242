-- ===== src/Gpio/Pwm.antt =====
-- LEDC PWM: src/ungula/hal/gpio/platforms/gpio_pwm_esp32.cpp. The module's only state, `s_pwmState`, is
-- passed along; the sizes of its tables come from the SoC's headers.
pub mod Find
pub mod Timers
pub mod Sound
pub mod Stays
pub mod Duty
use ungula_hal.Base.{
  ℕ, zero, suc, ◌+◌, ◌-◌, ◌^◌, Bool, true, false, List, [], ◌∷◌, ◌&&◌, ◌||◌, not, ltb, leb, ◌==◌,
  if◌then◌else◌, get_or, set,
}

pub record PwmChannelInfo : Type 0 where
  pub pin : ℕ
  pub timer : ℕ
  pub resolution_bits : ℕ
  pub configured : Bool

pub record PwmTimerInfo : Type 0 where
  pub freq_hz : ℕ
  pub res_bits : ℕ
  pub configured : Bool

pub record PwmState : Type 0 where
  pub channels : List PwmChannelInfo
  pub timers : List PwmTimerInfo
  pub channel_count : ℕ
  pub timer_count : ℕ

abbrev pub no_channel : PwmChannelInfo
no_channel = record { pin = 0; timer = 0; resolution_bits = 0; configured = false }

abbrev pub no_timer : PwmTimerInfo
no_timer = record { freq_hz = 0; res_bits = 0; configured = false }

abbrev pub slot_unused : ℕ
slot_unused = 255

-- The LEDC driver. A result is `== ESP_OK`; what the code sets to the same constants on every call is
-- left out of the configurations.
pub record Ledc : Type 1 where
  pub Hw : Type 0
  pub max_pwm_channels : ℕ  -- `SOC_LEDC_CHANNEL_NUM`
  pub max_pwm_timers : ℕ  -- `LEDC_TIMER_MAX`
  pub max_resolution_bits : ℕ  -- `SOC_LEDC_TIMER_BIT_WIDTH`
  pub is_valid_output_gpio : ℕ → Bool
  -- The timer, its resolution and its frequency.
  pub timer_config : ℕ → ℕ → ℕ → Hw → Bool × Hw
  -- The channel, its timer and its pin, at duty 0.
  pub channel_config : ℕ → ℕ → ℕ → Hw → Bool × Hw
  pub set_duty : ℕ → ℕ → Hw → Bool × Hw
  pub update_duty : ℕ → Hw → Bool × Hw

-- The loops over the first `n` slots of a table, from the index `idx` on.
unfoldable pub find_channel_in : ℕ → List PwmChannelInfo → ℕ → ℕ → ℕ
find_channel_in pin [] n idx = slot_unused
find_channel_in pin (c ∷ cs) zero idx = slot_unused
find_channel_in pin (c ∷ cs) (suc n) idx =
    let rest = find_channel_in pin cs n (suc idx) in
    if c.configured && c.pin == pin then idx else rest

unfoldable pub find_timer_in : ℕ → ℕ → List PwmTimerInfo → ℕ → ℕ → ℕ
find_timer_in freq res [] n idx = slot_unused
find_timer_in freq res (t ∷ ts) zero idx = slot_unused
find_timer_in freq res (t ∷ ts) (suc n) idx =
    let rest = find_timer_in freq res ts n (suc idx) in
    if t.configured && t.freq_hz == freq && t.res_bits == res then idx else rest

unfoldable pub find_channel : ℕ → PwmState → ℕ
find_channel pin s = find_channel_in pin s.channels s.channel_count 0

module _ (g : Ledc) where
  unfoldable pub find_or_create_timer : ℕ → ℕ → PwmState → g.Hw → ℕ × PwmState × g.Hw
  find_or_create_timer freq res s w =
      let found = find_timer_in freq res s.timers s.timer_count 0 in
      let slot = s.timer_count in
      let (done, w') = g.timer_config slot res freq w in
      if not (found == slot_unused)
      then (found, s, w)
      else if leb g.max_pwm_timers s.timer_count
      then (slot_unused, s, w)
      else if done
      then (
        slot,
        record s {
          timers = set s.timers slot (record { freq_hz = freq; res_bits = res; configured = true });
          timer_count = slot + 1;
        },
        w',
      )
      else (slot_unused, s, w')

  -- The rest of `configPwm`, once it has a timer.
  unfoldable pub assign : ℕ → ℕ → ℕ → PwmState → g.Hw → Bool × PwmState × g.Hw
  assign pin res timr s w =
      let slot = s.channel_count in
      let (done, w') = g.channel_config slot timr pin w in
      if (timr == slot_unused) || leb g.max_pwm_channels s.channel_count
      then (false, s, w)
      else if done
      then (
        true,
        record s {
          channels =
              set s.channels slot
                (record { pin = pin; timer = timr; resolution_bits = res; configured = true });
          channel_count = slot + 1;
        },
        w',
      )
      else (false, s, w')

  unfoldable pub config_pwm : ℕ → ℕ → ℕ → PwmState → g.Hw → Bool × PwmState × g.Hw
  config_pwm pin freq res s w =
      let (timr, s', w') = find_or_create_timer freq res s w in
      if not (g.is_valid_output_gpio pin)
        || ltb res 1
        || ltb g.max_resolution_bits res
        || not (find_channel pin s == slot_unused)
      then (false, s, w)
      else assign pin res timr s' w'

  -- The duty that `writePwm` asks for.
  abbrev pub clamp_duty : ℕ → ℕ → ℕ
  clamp_duty res duty = if ltb (2 ^ res - 1) duty then 2 ^ res - 1 else duty

  unfoldable pub write_pwm : ℕ → ℕ → PwmState → g.Hw → Bool × g.Hw
  write_pwm pin duty s w =
      let ch = find_channel pin s in
      let res = (get_or s.channels ch no_channel).resolution_bits in
      let (is_set, w1) = g.set_duty ch (clamp_duty res duty) w in
      let (updated, w2) = g.update_duty ch w1 in
      if ch == slot_unused then (false, w) else (if is_set then (updated, w2) else (false, w1))
