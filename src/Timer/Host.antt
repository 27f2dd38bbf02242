-- ===== src/Timer/Host.antt =====
-- src/ungula/hal/timer/platforms/hwtimer_default.cpp: the host stub, which keeps the state of
-- drivers/hwtimer.h and has no hardware.
use ungula_hal.Base.{
  ℕ, ◌≡◌, Bool, true, false, Option, arith, inl, inr, Bool-cases, ltb, ◌==◌, if◌then◌else◌,
}
use ungula_hal.Timer.{
  Status, ok, not_initialized, already_initialized, invalid_config, invalid_ticks, Config,
  Callbacks,
}
use ungula_hal.Timer.Machine.{Machine, invoke}
use ungula_hal.Timer.Contract
use ungula_hal.Timer.Contract.{Timer}
use ungula_hal.Timer.Refine.{KeepsFire, Refines, invoke-KeepsFire}

pub record HwTimer : Type 0 where
  pub handle : Bool  -- not null
  pub callback : Option ℕ
  pub context : ℕ
  pub resolution : ℕ
  pub min_ticks : ℕ
  pub enabled : Bool
  pub started : Bool
  pub armed : Bool
  pub last_alarm_count : ℕ

begin : Config → HwTimer → Status × HwTimer
begin cfg t =
    if t.handle
    then (already_initialized, t)
    else (if cfg.resolution_hz == 0 then (invalid_config, t) else (
      ok,
      record t {
        resolution = cfg.resolution_hz;
        min_ticks = if cfg.min_ticks == 0 then 1 else cfg.min_ticks;
        handle = true;
        enabled = true;
        started = false;
        armed = false;
        last_alarm_count = 0;
      },
    ))

set_callback : Option ℕ → ℕ → HwTimer → Status × HwTimer
set_callback cb ctx t =
    if t.handle then (ok, record t { callback = cb; context = ctx }) else (not_initialized, t)

start_one_shot_ticks : ℕ → HwTimer → Status × HwTimer
start_one_shot_ticks ticks t =
    if t.handle
    then (if ltb ticks t.min_ticks
        then (invalid_ticks, t)
        else (ok, record t { started = true; last_alarm_count = 0; armed = true }))
    else (not_initialized, t)

rearm_from_isr : ℕ → HwTimer → Status × HwTimer
rearm_from_isr ticks t =
    if t.handle
    then (if ltb ticks t.min_ticks then (invalid_ticks, t) else (ok, record t { armed = true }))
    else (not_initialized, t)

disarm_from_isr : HwTimer → Status × HwTimer
disarm_from_isr t = if t.handle then (ok, record t { armed = false }) else (not_initialized, t)

stop : HwTimer → Status × HwTimer
stop t =
    if t.handle then (ok, record t { started = false; armed = false }) else (not_initialized, t)

-- Unlike the ESP32's, this one records the count at which the alarm fired.
module _ (fired : ℕ) (C : Type 0) where
  fire_from_isr : Callbacks C → HwTimer → C → HwTimer × C
  fire_from_isr calls t c =
      if t.armed
      then invoke rearm_from_isr disarm_from_isr calls t.callback t.context
          (record t { last_alarm_count = fired; armed = false }) c
      else (record t { last_alarm_count = fired }, c)

abbrev host : ℕ → Machine
host fired = record {
  T = HwTimer;
  begin = begin;
  set_callback = set_callback;
  start = start_one_shot_ticks;
  rearm = rearm_from_isr;
  disarm = disarm_from_isr;
  stop = stop;
  fire = fire_from_isr fired;
}

abbrev pub view : HwTimer → Timer
view t = record {
  begun = t.handle;
  min_ticks = t.min_ticks;
  callback = t.callback;
  context = t.context;
  armed = t.armed;
}

abbrev Always : HwTimer → Type 0
Always t = Unit {0}

rearm-Keeps :
    (n : ℕ) (t : HwTimer)
    → Always t
    → ((rearm_from_isr n t).0 ≡ (Contract.arm n (view t)).0)
      × (view (rearm_from_isr n t).1 ≡ (Contract.arm n (view t)).1)
      × Unit {0}
unfolding rearm_from_isr Contract.arm
rearm-Keeps n t v = (ground arith, ground arith, tt)

disarm-Keeps :
    (t : HwTimer)
    → Always t
    → ((disarm_from_isr t).0 ≡ (Contract.disarm (view t)).0)
      × (view (disarm_from_isr t).1 ≡ (Contract.disarm (view t)).1)
      × Unit {0}
unfolding disarm_from_isr Contract.disarm
disarm-Keeps t v = (ground arith, ground arith, tt)

fire-KeepsFire :
    (fired : ℕ) (C : Type 0) (calls : Callbacks C) (t : HwTimer) (c : C)
    → Always t
    → KeepsFire Always view (fire_from_isr fired C calls t c) (Contract.fire C calls (view t) c)
unfolding fire_from_isr Contract.fire
fire-KeepsFire fired C calls t c v = elim (Bool-cases t.armed) [
  | inl armed ↦ rw armed (
      invoke-KeepsFire Always view rearm_from_isr disarm_from_isr rearm-Keeps disarm-Keeps calls
        t.callback t.context (record t { last_alarm_count = fired; armed = false }) c v)
  | inr idle ↦ (ground arith, ground arith, tt)
]

host-Refines : (fired : ℕ) → Refines (host fired)
unfolding begin set_callback start_one_shot_ticks stop Contract.decline Contract.set_callback
    Contract.arm Contract.disarm
host-Refines fired = record {
  Inv = Always;
  view = view;
  begin = λ cfg t v e. (ground (arith, e), ground (arith, e), tt);
  opens = λ cfg t e. (ground (arith, e), tt);
  set_callback = λ cb ctx t v. (ground arith, ground arith, tt);
  start = λ n t v. (ground arith, ground arith, tt);
  rearm = rearm-Keeps;
  disarm = disarm-Keeps;
  stop = λ t v. (ground arith, ground arith, tt);
  fire = fire-KeepsFire fired;
}
