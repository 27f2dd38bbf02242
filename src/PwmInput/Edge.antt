-- ===== src/PwmInput/Edge.antt =====
-- The capture slots and the interrupt handler of
-- src/ungula/hal/pwm_input/platforms/pwm_input_esp32.cpp. The time and the level of the pin, which the
-- handler reads from ESP-IDF, are arguments.
use ungula_hal.Base.{
  ℕ, ◌+◌, ◌-◌, Bool, true, false, Option, none, some, List, not, leb, ◌==◌, if◌then◌else◌, u32, u64,
  get_or, set,
}

pub record CaptureState : Type 0 where
  pub last_rise_us : ℕ  -- uint64_t
  pub last_fall_us : ℕ  -- uint64_t
  pub last_edge_us : ℕ  -- uint64_t
  pub high_time_us : ℕ  -- uint32_t
  pub period_us : ℕ  -- uint32_t
  pub has_sample : Bool
  pub in_use : Bool
  pub callback : Option ℕ
  pub context : ℕ

-- `CaptureState{}`.
abbrev pub cleared : CaptureState
cleared = record {
  last_rise_us = 0;
  last_fall_us = 0;
  last_edge_us = 0;
  high_time_us = 0;
  period_us = 0;
  has_sample = false;
  in_use = false;
  callback = none;
  context = 0;
}

abbrev pub max_gpio : ℕ
max_gpio = 64

-- `static_cast<uint32_t>(a - b)` of 64-bit unsigned times.
abbrev pub elapsed : ℕ → ℕ → ℕ
elapsed a b = u32 (u64 (a + 18446744073709551616 - b))

abbrev call_of : Option ℕ → ℕ → Option (ℕ × ℕ)
call_of none ctx = none
call_of (some f) ctx = some (f, ctx)

-- The handler's work on its slot: the new slot, and the callback that it calls with its context.
unfoldable pub capture : ℕ → Bool → CaptureState → CaptureState × Option (ℕ × ℕ)
capture now level s =
    let seen = not (s.last_rise_us == 0) in
    if level
    then (
      record s {
        last_edge_us = now;
        period_us = if seen then elapsed now s.last_rise_us else s.period_us;
        has_sample = if seen then true else s.has_sample;
        last_rise_us = now;
      },
      if seen then call_of s.callback s.context else none,
    )
    else (
      record s {
        last_edge_us = now;
        high_time_us = if seen then elapsed now s.last_rise_us else s.high_time_us;
        last_fall_us = now;
      },
      none,
    )

-- `g_state`, and the handler: a pin out of range is ignored.
abbrev pub Slots : Type 0
Slots = List CaptureState

unfoldable pub on_edge : ℕ → ℕ → Bool → Slots → Slots × Option (ℕ × ℕ)
unfolding capture
on_edge pin now level slots =
    let (s, called) = capture now level (get_or slots pin cleared) in
    if leb max_gpio pin then (slots, none) else (set slots pin s, called)
