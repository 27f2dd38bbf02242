-- ===== src/Timer/Fake.antt =====
-- src/ungula/hal/timer/drivers/hwtimer_fake.h: the fake that host tests drive by hand. The counters
-- are `uint32_t` and wrap.
pub mod Keeps
use ungula_hal.Base.{
  ℕ, zero, suc, ◌+◌, Bool, true, false, Option, none, some, ltb, ◌==◌, if◌then◌else◌, u32,
}
use ungula_hal.Timer.{
  Status, ok, not_initialized, already_initialized, invalid_config, invalid_ticks, Config,
  Callbacks,
}
use ungula_hal.Timer.Machine.{Machine, invoke}

pub record HwTimerFake : Type 0 where
  pub cfg : Config
  pub callback : Option ℕ
  pub context : ℕ
  pub begun : Bool
  pub armed : Bool
  pub last_armed_ticks : ℕ
  pub begin_call_count : ℕ
  pub set_callback_call_count : ℕ
  pub start_call_count : ℕ
  pub rearm_call_count : ℕ
  pub disarm_call_count : ℕ
  pub stop_call_count : ℕ
  pub fire_attempt_count : ℕ
  pub fire_call_count : ℕ
  pub fires_dropped_while_disarmed : ℕ

-- The member initialisers; `HwTimerConfig{}` is 1 MHz with five ticks at least.
unfoldable pub fresh : HwTimerFake
fresh = record {
  cfg = record { resolution_hz = 1000000; min_ticks = 5 };
  callback = none;
  context = 0;
  begun = false;
  armed = false;
  last_armed_ticks = 0;
  begin_call_count = 0;
  set_callback_call_count = 0;
  start_call_count = 0;
  rearm_call_count = 0;
  disarm_call_count = 0;
  stop_call_count = 0;
  fire_attempt_count = 0;
  fire_call_count = 0;
  fires_dropped_while_disarmed = 0;
}

unfoldable pub begin : Config → HwTimerFake → Status × HwTimerFake
begin cfg s =
    let t = record s { begin_call_count = u32 (s.begin_call_count + 1) } in
    let floor = if cfg.min_ticks == 0 then 1 else cfg.min_ticks in
    if t.begun
    then (already_initialized, t)
    else (if cfg.resolution_hz == 0 then (invalid_config, t) else (
      ok,
      record t {
        cfg = record { resolution_hz = cfg.resolution_hz; min_ticks = floor };
        begun = true;
        armed = false;
      },
    ))

pub set_callback : Option ℕ → ℕ → HwTimerFake → Status × HwTimerFake
set_callback cb ctx s =
    let t = record s { set_callback_call_count = u32 (s.set_callback_call_count + 1) } in
    if t.begun then (ok, record t { callback = cb; context = ctx }) else (not_initialized, t)

-- The part that `startOneShotTicks` and `rearmFromIsr` have in common.
arm : ℕ → HwTimerFake → Status × HwTimerFake
arm ticks t =
    if t.begun
    then (if ltb ticks t.cfg.min_ticks
        then (invalid_ticks, t)
        else (ok, record t { last_armed_ticks = ticks; armed = true }))
    else (not_initialized, t)

pub start_one_shot_ticks : ℕ → HwTimerFake → Status × HwTimerFake
unfolding arm
start_one_shot_ticks ticks s =
    arm ticks (record s { start_call_count = u32 (s.start_call_count + 1) })

pub rearm_from_isr : ℕ → HwTimerFake → Status × HwTimerFake
unfolding arm
rearm_from_isr ticks s = arm ticks (record s { rearm_call_count = u32 (s.rearm_call_count + 1) })

pub disarm_from_isr : HwTimerFake → Status × HwTimerFake
disarm_from_isr s =
    let t = record s { disarm_call_count = u32 (s.disarm_call_count + 1) } in
    if t.begun then (ok, record t { armed = false }) else (not_initialized, t)

pub stop : HwTimerFake → Status × HwTimerFake
stop s =
    let t = record s { stop_call_count = u32 (s.stop_call_count + 1) } in
    if t.begun then (ok, record t { armed = false }) else (not_initialized, t)

unfoldable pub resolution_hz : HwTimerFake → ℕ
resolution_hz t = t.cfg.resolution_hz

module _ (C : Type 0) (calls : Callbacks C) where
  -- The last counter counts from the timer that the callback leaves.
  pub fire : HwTimerFake → C → HwTimerFake × C
  fire s c =
      let t = record s { fire_attempt_count = u32 (s.fire_attempt_count + 1) } in
      let spent = record t { armed = false } in
      let (t', c') =
        invoke rearm_from_isr disarm_from_isr calls spent.callback spent.context spent c in
      if t.armed
      then (record t' { fire_call_count = u32 (t'.fire_call_count + 1) }, c')
      else (record t { fires_dropped_while_disarmed = u32 (t.fires_dropped_while_disarmed + 1) }, c)

  -- The loop of `fireMany` with `n - i` rounds left; the count stays below `n` and does not wrap.
  fire_loop : ℕ → ℕ → HwTimerFake → C → ℕ × HwTimerFake × C
  fire_loop zero actual t c = (actual, t, c)
  fire_loop (suc n) actual t c =
      let rest = let (t', c') = fire t c in fire_loop n (actual + 1) t' c' in
      if t.armed then rest else (actual, t, c)

  pub fire_many : ℕ → HwTimerFake → C → ℕ × HwTimerFake × C
  unfolding fire_loop
  fire_many n t c = fire_loop n 0 t c

abbrev pub fake : Machine
fake = record {
  T = HwTimerFake;
  begin = begin;
  set_callback = set_callback;
  start = start_one_shot_ticks;
  rearm = rearm_from_isr;
  disarm = disarm_from_isr;
  stop = stop;
  fire = fire;
}
