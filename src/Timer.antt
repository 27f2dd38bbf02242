-- ===== src/Timer.antt =====
-- src/ungula/hal/timer/i_hwtimer.h: the vocabulary of the one-shot hardware timer.
-- The backends are children: `Esp32` (platforms/hwtimer_esp32.cpp), `Host`
-- (platforms/hwtimer_default.cpp) and `Fake` (drivers/hwtimer_fake.h). `Machine` is the interface
-- that a client sees, `Contract` what its calls do to what a client knows of a timer, `Promise` which
-- calls its comments determine, `Refine` that a backend keeps to that.
pub mod Machine
pub mod StatusNames
pub mod Contract
pub mod Promise
pub mod Refine
pub mod Gptimer
pub mod Esp32
pub mod Host
pub mod Fake
mod Tests
use ungula_hal.Base.{ℕ}

pub data Status : Type 0 where
  ok not_initialized already_initialized invalid_config invalid_ticks backend_error unsupported
        busy :
      Status

pub record Config : Type 0 where
  pub resolution_hz : ℕ
  pub min_ticks : ℕ

-- What an alarm callback does with the timer that fired: the calls that are allowed in interrupt
-- context, each with what follows its status, and the client's state at the end.
pub data Isr (C : Type 0) : Type 0 where
  done : C → Isr C
  rearms : ℕ → (Status → Isr C) → Isr C
  disarms : (Status → Isr C) → Isr C

-- A callback is a function pointer, here a number, with a context pointer; what runs at a pointer
-- is the client's code.
abbrev pub Callbacks : Type 0 → Type 0
Callbacks C = ℕ → ℕ → C → Isr C
