-- ===== src/Timer/Gptimer.antt =====
-- The ESP-IDF GPTimer driver, which is not in the repository: what
-- src/ungula/hal/timer/platforms/hwtimer_esp32.cpp calls, over an abstract state of the driver and
-- the hardware, and what it relies on.
use ungula_hal.Base.{ℕ, ◌≡◌, Bool, true, Option, some}
use ungula_hal.Base.Int.{ℤ}

-- `gptimer_alarm_config_t`.
pub record Alarm : Type 0 where
  pub alarm_count : ℕ
  pub reload_count : ℕ
  pub auto_reload_on_alarm : Bool

-- A result of type `Bool` is `== ESP_OK`. Calls whose result the code drops return the state alone.
pub record Gptimer : Type 1 where
  pub Hw : Type 0
  pub Handle : Type 0
  -- The resolution is the one field of `gptimer_config_t` that varies.
  pub new_timer : ℕ → Hw → Option Handle × Hw
  pub register_event_callbacks : Handle → Hw → Bool × Hw
  pub enable : Handle → Hw → Bool × Hw
  pub disable : Handle → Hw → Hw
  pub del_timer : Handle → Hw → Hw
  -- The fields of the driver's private structure that `begin` reads: `none` is a null group.
  pub group_id : Handle → Hw → Option ℤ
  pub timer_id : Handle → Hw → ℤ
  pub start : Handle → Hw → Bool × Hw
  pub stop : Handle → Hw → Hw
  pub set_raw_count : Handle → ℕ → Hw → Bool × Hw
  pub set_alarm_action : Handle → Alarm → Hw → Bool × Hw
  -- `timer_ll_*`, on the registers of a group (`TIMERG0` or `TIMERG1`) and a timer of it.
  pub ll_set_alarm_value : ℕ → ℕ → ℕ → Hw → Hw
  pub ll_enable_alarm : ℕ → ℕ → Bool → Hw → Hw

-- The driver's state machine for one timer: created, enabled, counting.
pub data Fsm : Type 0 where
  init enabled run : Fsm

-- What ESP-IDF documents of the state machine, and the code relies on. Making a timer, registering the
-- callback and enabling the timer may fail. Starting a timer in the enabled state does not, nor does
-- setting the count or the alarm of one that was made; and those two and the registers leave the
-- state machine alone.
pub record IsGptimer (g : Gptimer) : Type 0 where
  pub fsm : g.Handle → g.Hw → Fsm
  pub fsm-new_timer :
      (n : ℕ) (h : g.Handle) (w : g.Hw)
      → (g.new_timer n w).0 ≡ some h
      → fsm h (g.new_timer n w).1 ≡ init
  pub fsm-register :
      (h : g.Handle) (w : g.Hw)
      → fsm h w ≡ init
      → (g.register_event_callbacks h w).0 ≡ true
      → fsm h (g.register_event_callbacks h w).1 ≡ init
  pub fsm-enable :
      (h : g.Handle) (w : g.Hw)
      → fsm h w ≡ init
      → (g.enable h w).0 ≡ true
      → fsm h (g.enable h w).1 ≡ enabled
  pub fsm-start :
      (h : g.Handle) (w : g.Hw)
      → fsm h w ≡ enabled
      → ((g.start h w).0 ≡ true) × (fsm h (g.start h w).1 ≡ run)
  pub fsm-stop : (h : g.Handle) (w : g.Hw) → fsm h w ≡ run → fsm h (g.stop h w) ≡ enabled
  pub fsm-set_raw_count :
      (h : g.Handle) (n : ℕ) (w : g.Hw)
      → ((g.set_raw_count h n w).0 ≡ true) × (fsm h (g.set_raw_count h n w).1 ≡ fsm h w)
  pub fsm-set_alarm_action :
      (h : g.Handle) (a : Alarm) (w : g.Hw)
      → ((g.set_alarm_action h a w).0 ≡ true) × (fsm h (g.set_alarm_action h a w).1 ≡ fsm h w)
  pub fsm-ll_set_alarm_value :
      (h : g.Handle) (dev id n : ℕ) (w : g.Hw) → fsm h (g.ll_set_alarm_value dev id n w) ≡ fsm h w
  pub fsm-ll_enable_alarm :
      (h : g.Handle) (dev id : ℕ) (b : Bool) (w : g.Hw)
      → fsm h (g.ll_enable_alarm dev id b w) ≡ fsm h w
