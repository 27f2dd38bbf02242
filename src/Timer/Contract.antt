-- ===== src/Timer/Contract.antt =====
-- What a client of src/ungula/hal/timer/i_hwtimer.h knows of a timer, whether it is begun, its callback
-- slot, and whether an alarm is armed, and what a call that is answered does to that. `Promise` says which
-- calls the interface answers.
use ungula_hal.Base.{ℕ, Bool, true, false, Option, ltb, ◌==◌, if◌then◌else◌}
use ungula_hal.Timer.{
  Status, ok, not_initialized, already_initialized, invalid_config, invalid_ticks, Config,
  Callbacks,
}
use ungula_hal.Timer.Machine.{invoke}

pub record Timer : Type 0 where
  pub begun : Bool
  pub min_ticks : ℕ
  pub callback : Option ℕ
  pub context : ℕ
  pub armed : Bool

-- After a `begin` that returned Ok.
abbrev pub opened : Config → Option ℕ → ℕ → Timer
opened cfg cb ctx = record {
  begun = true;
  min_ticks = if cfg.min_ticks == 0 then 1 else cfg.min_ticks;
  callback = cb;
  context = ctx;
  armed = false;
}

-- A `begin` that is refused without a call of the driver.
unfoldable pub decline : Timer → Status × Timer
decline t = if t.begun then (already_initialized, t) else (invalid_config, t)

unfoldable pub set_callback : Option ℕ → ℕ → Timer → Status × Timer
set_callback cb ctx t =
    if t.begun then (ok, record t { callback = cb; context = ctx }) else (not_initialized, t)

-- `startOneShotTicks` and `rearmFromIsr`, where they are answered.
unfoldable pub arm : ℕ → Timer → Status × Timer
arm ticks t =
    if t.begun
    then (if ltb ticks t.min_ticks then (invalid_ticks, t) else (ok, record t { armed = true }))
    else (not_initialized, t)

-- `disarmFromIsr` and `stop`.
unfoldable pub disarm : Timer → Status × Timer
disarm t = if t.begun then (ok, record t { armed = false }) else (not_initialized, t)

-- The alarm: it is spent before the callback runs, and dropped where none is armed.
module _ (C : Type 0) where
  unfoldable pub fire : Callbacks C → Timer → C → Timer × C
  fire calls t c =
      if t.armed
      then invoke arm disarm calls t.callback t.context (record t { armed = false }) c
      else (t, c)
