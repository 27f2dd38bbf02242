-- ===== src/Timer/Esp32.antt =====
-- src/ungula/hal/timer/platforms/hwtimer_esp32.cpp with the state of drivers/hwtimer.h.
-- The driver's own state is a field of the timer's, so that each method is one function.
pub mod Lifecycle
pub mod Gate
pub mod Pulses
pub mod Ledger
pub mod Owner
mod Tests
use ungula_hal.Base.{
  ℕ, ◌+◌, Bool, true, false, Option, none, some, ◌||◌, ltb, ◌==◌, if◌then◌else◌, is_some, u64,
}
use ungula_hal.Base.Int.{ℤ, pos, negsuc}
use ungula_hal.Timer.{
  Status, ok, not_initialized, already_initialized, invalid_config, invalid_ticks, backend_error,
  Config, Callbacks,
}
use ungula_hal.Timer.Machine.{Machine, invoke}
use ungula_hal.Timer.Gptimer.{Gptimer, Alarm}

pub record HwTimer (g : Gptimer) : Type 0 where
  pub hw : g.Hw
  pub handle : Option g.Handle
  -- The register block: 0 is `TIMERG0`, 1 is `TIMERG1`. A null pointer is never used: `rearmFromIsr`
  -- runs only behind a handle.
  pub dev : ℕ
  pub timer_id : ℕ
  pub callback : Option ℕ
  pub context : ℕ
  pub resolution : ℕ
  pub min_ticks : ℕ
  pub enabled : Bool
  pub started : Bool
  pub armed : Bool
  pub last_alarm_count : ℕ  -- uint64_t

-- `x < 0 || x > 1`.
abbrev outside : ℤ → Bool
outside (pos n) = ltb 1 n
outside (negsuc n) = true

-- A null group reads as -1.
abbrev or_minus_one : Option ℤ → ℤ
or_minus_one none = negsuc 0
or_minus_one (some i) = i

abbrev to_unsigned : ℤ → ℕ
to_unsigned (pos n) = n
to_unsigned (negsuc n) = 0

abbrev one_shot : ℕ → Alarm
one_shot ticks = record { alarm_count = ticks; reload_count = 0; auto_reload_on_alarm = false }

module _ {g : Gptimer} where
  -- `begin` from the check of the group on, where the driver has enabled the timer.
  adopt : Config → g.Handle → HwTimer g → Status × HwTimer g
  adopt cfg h t =
      let group = or_minus_one (g.group_id h t.hw) in
      let id = g.timer_id h t.hw in
      if outside group || outside id
      then (backend_error, record t { hw = g.del_timer h (g.disable h t.hw) })
      else (
        ok,
        record t {
          dev = to_unsigned group;
          timer_id = to_unsigned id;
          handle = some h;
          resolution = cfg.resolution_hz;
          min_ticks = if cfg.min_ticks == 0 then 1 else cfg.min_ticks;
          enabled = true;
          started = false;
          armed = false;
          last_alarm_count = 0;
        },
      )

  -- `begin` from the registration of the trampoline on.
  attach : Config → Option g.Handle → HwTimer g → Status × HwTimer g
  unfolding adopt
  attach cfg none t = (backend_error, t)
  attach cfg (some h) t =
      let (registered, w) = g.register_event_callbacks h t.hw in
      let (enabled, w') = g.enable h w in
      if registered
      then (if enabled
          then adopt cfg h (record t { hw = w' })
          else (backend_error, record t { hw = g.del_timer h w' }))
      else (backend_error, record t { hw = g.del_timer h w })

  unfoldable pub begin : Config → HwTimer g → Status × HwTimer g
  unfolding attach
  begin cfg t =
      let (made, w) = g.new_timer cfg.resolution_hz t.hw in
      if is_some t.handle
      then (already_initialized, t)
      else (if cfg.resolution_hz == 0
          then (invalid_config, t)
          else attach cfg made (record t { hw = w }))

  unfoldable pub set_callback : Option ℕ → ℕ → HwTimer g → Status × HwTimer g
  set_callback cb ctx t =
      if is_some t.handle
      then (ok, record t { callback = cb; context = ctx })
      else (not_initialized, t)

  -- `if (started_) { gptimer_stop(h); started_ = false; } armed_ = false;`
  halt : g.Handle → HwTimer g → HwTimer g
  halt h t = record t {
    hw = if t.started then g.stop h t.hw else t.hw;
    started = false;
    armed = false;
  }

  -- `startOneShotTicks` behind its guards.
  schedule : ℕ → g.Handle → HwTimer g → Status × HwTimer g
  schedule ticks h t =
      let (zeroed, w) = g.set_raw_count h 0 t.hw in
      let (set, w') = g.set_alarm_action h (one_shot ticks) w in
      let (running, w'') = g.start h w' in
      if zeroed
      then (if set
          then (if running
              then (
                ok,
                record t { hw = w''; last_alarm_count = ticks; started = true; armed = true },
              )
              else (backend_error, record t { hw = w'' }))
          else (backend_error, record t { hw = w' }))
      else (backend_error, record t { hw = w })

  start_with : ℕ → Option g.Handle → HwTimer g → Status × HwTimer g
  unfolding schedule halt
  start_with ticks none t = (not_initialized, t)
  start_with ticks (some h) t =
      if ltb ticks t.min_ticks then (invalid_ticks, t) else schedule ticks h (halt h t)

  unfoldable pub start_one_shot_ticks : ℕ → HwTimer g → Status × HwTimer g
  unfolding start_with
  start_one_shot_ticks ticks t = start_with ticks t.handle t

  unfoldable pub rearm_from_isr : ℕ → HwTimer g → Status × HwTimer g
  rearm_from_isr ticks t =
      let next = u64 (t.last_alarm_count + ticks) in
      if is_some t.handle
      then (if ltb ticks t.min_ticks then (invalid_ticks, t) else (
        ok,
        record t {
          hw =
              g.ll_enable_alarm t.dev t.timer_id true
                (g.ll_set_alarm_value t.dev t.timer_id next t.hw);
          last_alarm_count = next;
          armed = true;
        },
      ))
      else (not_initialized, t)

  unfoldable pub disarm_from_isr : HwTimer g → Status × HwTimer g
  disarm_from_isr t =
      if is_some t.handle then (ok, record t { armed = false }) else (not_initialized, t)

  stop_with : Option g.Handle → HwTimer g → Status × HwTimer g
  unfolding halt
  stop_with none t = (not_initialized, t)
  stop_with (some h) t = (ok, halt h t)

  unfoldable pub stop : HwTimer g → Status × HwTimer g
  unfolding stop_with
  stop t = stop_with t.handle t

  -- The trampoline's gate: the alarm is dropped unless armed, and is spent before the callback runs.
  module _ (C : Type 0) where
    unfoldable pub fire_from_isr : Callbacks C → HwTimer g → C → HwTimer g × C
    fire_from_isr calls t c =
        if t.armed
        then invoke rearm_from_isr disarm_from_isr calls t.callback t.context
            (record t { armed = false }) c
        else (t, c)

  -- The destructor: what is left is the driver's state and a timer without a handle.
  destroy_with : Option g.Handle → HwTimer g → HwTimer g
  destroy_with none t = t
  destroy_with (some h) t =
      let w = if t.started then g.stop h t.hw else t.hw in
      let w' = if t.enabled then g.disable h w else w in
      record t {
        hw = g.del_timer h w';
        handle = none;
        started = false;
        armed = false;
        enabled = false;
      }

  unfoldable pub destroy : HwTimer g → HwTimer g
  unfolding destroy_with
  destroy t = destroy_with t.handle t

module _ (g : Gptimer) where
  abbrev pub esp32 : Machine
  esp32 = record {
    T = HwTimer g;
    begin = begin;
    set_callback = set_callback;
    start = start_one_shot_ticks;
    rearm = rearm_from_isr;
    disarm = disarm_from_isr;
    stop = stop;
    fire = fire_from_isr;
  }
