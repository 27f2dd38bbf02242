-- ===== src/Timer/Tests.antt =====
-- A driver that behaves as ESP-IDF documents, and the timer's theorems at concrete states.
use ungula_hal.Base.{
  ℕ, ◌==◌, if◌then◌else◌, ◌+◌, ◌≡◌, refl, Bool, true, false, List, [], ◌∷◌, Option, none, some,
  arith,
}
use ungula_hal.Base.Int.{pos}
use ungula_hal.Timer.{Status, ok, already_initialized, Config, Callbacks, done, disarms}
use ungula_hal.Timer.Gptimer.{Gptimer, IsGptimer, Fsm, init, enabled, run}
use ungula_hal.Timer.Machine
use ungula_hal.Timer.Machine.{
  Op, begins, sets_callback, starts, rearms_late, disarms_late, stops, fires,
}
use ungula_hal.Timer.Contract
use ungula_hal.Timer.Promise
use ungula_hal.Timer.Promise.{begun}
use ungula_hal.Timer.Esp32.{HwTimer, begin, start_one_shot_ticks, disarm_from_isr, esp32}
use ungula_hal.Timer.Esp32.Lifecycle.{start_one_shot_ticks-ok}
use ungula_hal.Timer.Esp32.Gate.{disarm_silences, fire_once}
use ungula_hal.Timer.Esp32.Pulses.{HasAlarmRegister, fire_times, fire_times-pulse}
use ungula_hal.Timer.Fake
use ungula_hal.Timer.Fake.{HwTimerFake, fake}
use ungula_hal.Timer.Fake.Keeps.{fake-run-esp32, fire_many-train, train}

-- One timer: its state machine and the value that its alarm compares with.
record Chip : Type 0 where
  fsm : Fsm
  compare : ℕ

abbrev is_enabled : Fsm → Bool
is_enabled enabled = true
is_enabled init = false
is_enabled run = false

-- Starting is refused unless the timer is enabled and at rest.
abbrev started : Fsm → Fsm
started init = init
started enabled = run
started run = run

abbrev chip_driver : Gptimer
chip_driver = record {
  Hw = Chip;
  Handle = ℕ;
  new_timer = λ n w. (if n == 0 then none else some 0, record w { fsm = init });
  register_event_callbacks = λ h w. (true, w);
  enable = λ h w. (true, record w { fsm = enabled });
  disable = λ h w. record w { fsm = init };
  del_timer = λ h w. w;
  group_id = λ h w. some (pos 0);
  timer_id = λ h w. pos 1;
  start = λ h w. (is_enabled w.fsm, record w { fsm = started w.fsm });
  stop = λ h w. record w { fsm = enabled };
  set_raw_count = λ h n w. (true, w);
  set_alarm_action = λ h a w. (true, record w { compare = a.alarm_count });
  ll_set_alarm_value = λ dev id n w. record w { compare = n };
  ll_enable_alarm = λ dev id b w. w;
}

chip-start : (w : Chip) → w.fsm ≡ enabled → (is_enabled w.fsm ≡ true) × (started w.fsm ≡ run)
chip-start w e = ground arith

abbrev chip_laws : IsGptimer chip_driver
chip_laws = record {
  fsm = λ h w. w.fsm;
  fsm-new_timer = λ n h w e. refl;
  fsm-register = λ h w e r. e;
  fsm-enable = λ h w e r. refl;
  fsm-start = λ h w e. chip-start w e;
  fsm-stop = λ h w e. refl;
  fsm-set_raw_count = λ h n w. (refl, refl);
  fsm-set_alarm_action = λ h a w. (refl, refl);
  fsm-ll_set_alarm_value = λ h dev id n w. refl;
  fsm-ll_enable_alarm = λ h dev id b w. refl;
}

-- A timer of the ESP32 backend before `begin`.
abbrev unbegun : HwTimer chip_driver
unbegun = record {
  hw = record { fsm = init; compare = 0 };
  handle = none;
  dev = 0;
  timer_id = 0;
  callback = none;
  context = 0;
  resolution = 0;
  min_ticks = 5;
  enabled = false;
  started = false;
  armed = false;
  last_alarm_count = 0;
}

abbrev megahertz : Config
megahertz = record { resolution_hz = 1000000; min_ticks = 5 }

-- Running, with one alarm at 500 ticks, and a callback at pointer 7.
abbrev armed_at_500 : HwTimer chip_driver
armed_at_500 = record unbegun {
  hw = record { fsm = run; compare = 500 };
  handle = some 0;
  timer_id = 1;
  callback = some 7;
  enabled = true;
  started = true;
  armed = true;
  last_alarm_count = 500;
}

-- The state in which the calls leave it.
begin_then_start :
    (start_one_shot_ticks 500 (record (begin megahertz unbegun).1 { callback = some 7 })).1
    ≡ record armed_at_500 { resolution = 1000000 }
unfolding begin start_one_shot_ticks
begin_then_start = refl

-- One period is too short, and the last alarm comes after a `stop`.
abbrev script : List Op
script =
    begins megahertz
    ∷ sets_callback (some 7) 0
    ∷ starts 500
    ∷ fires
    ∷ starts 3
    ∷ starts 600
    ∷ fires
    ∷ stops
    ∷ fires
    ∷ []

-- The callback counts.
abbrev count_calls : Callbacks ℕ
count_calls f ctx n = done (n + 1)

-- What the script shows: three alarms, two callbacks, one rejected period, and a second `begin` that is
-- refused.
abbrev script_shows : List (Option Status) × ℕ
script_shows = (
  some already_initialized
      ∷ some ok
      ∷ some ok
      ∷ none
      ∷ some Status.invalid_ticks
      ∷ some ok
      ∷ none
      ∷ some ok
      ∷ none
      ∷ [],
  2,
)

script_determined : Promise.run count_calls script (begun megahertz none 0) 0 ≡ some script_shows
unfolding Promise.run Promise.begin Promise.set_callback Promise.start Promise.stop Promise.fire
    Contract.decline Contract.set_callback Contract.arm Contract.disarm
script_determined = refl

-- The interface does not say what a `begin` after a `stop` does, nor a `rearmFromIsr` after a
-- `disarmFromIsr`.
begin_after_stop :
    Promise.run count_calls (stops ∷ begins megahertz ∷ []) (begun megahertz none 0) 0 ≡ none
unfolding Promise.run Promise.begin Promise.stop Contract.decline Contract.disarm
begin_after_stop = refl

rearm_after_disarm :
    Promise.run count_calls
      (starts 500 ∷ disarms_late ∷ rearms_late 500 ∷ [])
      (begun megahertz none 0)
      0
    ≡ none
unfolding Promise.run Promise.start Promise.disarm Promise.rearm Contract.arm Contract.disarm
rearm_after_disarm = refl

begin_succeeds : (begin megahertz unbegun).0 ≡ ok
unfolding begin
begin_succeeds = refl

start_one_shot_ticks-ok_example :
    ((start_one_shot_ticks 600 armed_at_500).0 ≡ ok)
    × ((start_one_shot_ticks 600 armed_at_500).1.armed ≡ true)
    × ((start_one_shot_ticks 600 armed_at_500).1.hw.fsm ≡ run)
start_one_shot_ticks-ok_example =
    start_one_shot_ticks-ok chip_driver chip_laws 600 armed_at_500 0 (λ h e. refl) refl
      (omega arith)

disarm_silences_example :
    (Machine.run
      (esp32 chip_driver)
      count_calls
      (disarms_late ∷ fires ∷ fires ∷ [])
      armed_at_500
      0).1
    ≡ 0
unfolding disarm_from_isr
disarm_silences_example = disarm_silences count_calls (fires ∷ fires ∷ []) armed_at_500 0 refl tt

-- The callback counts, and disarms the timer before it returns.
abbrev last_pulse : Callbacks ℕ
last_pulse f ctx n = disarms (λ s. done (n + 1))

fire_once_example :
    (Machine.run
      (esp32 chip_driver)
      last_pulse
      (fires ∷ fires ∷ stops ∷ fires ∷ [])
      armed_at_500
      0).1
    ≡ 1
fire_once_example =
    fire_once last_pulse (fires ∷ stops ∷ fires ∷ []) armed_at_500 0 7 0 refl refl refl (λ s. tt) tt

-- A driver whose `gptimer_start` always fails.
abbrev broken_driver : Gptimer
broken_driver = record chip_driver { start = λ h w. (false, w) }

abbrev broken : HwTimer broken_driver
broken = record {
  hw = record { fsm = run; compare = 500 };
  handle = some 0;
  dev = 0;
  timer_id = 1;
  callback = some 7;
  context = 0;
  resolution = 1000000;
  min_ticks = 5;
  enabled = true;
  started = true;
  armed = true;
  last_alarm_count = 500;
}

abbrev chip_register : HasAlarmRegister chip_driver
chip_register = record {
  alarm_value = λ dev id w. w.compare;
  alarm_value-set = λ dev id n w. refl;
  alarm_value-enable = λ dev id b w. refl;
}

fire_times-pulse_example :
    let (t', c') = fire_times 3 armed_at_500 (20 ∷ 30 ∷ 40 ∷ []) in
    (c' ≡ [])
    × (t'.last_alarm_count ≡ 590)
    × (t'.hw.compare ≡ t'.last_alarm_count)
    × (t'.armed ≡ true)
fire_times-pulse_example =
    fire_times-pulse chip_driver chip_register 7 (20 ∷ 30 ∷ 40 ∷ []) armed_at_500
      (record { armed = refl; callback = refl; begun = refl; range = omega arith; register = refl })
      (omega arith)

fake_begin_succeeds : (Fake.begin megahertz Fake.fresh).0 ≡ ok
unfolding Fake.begin Fake.fresh
fake_begin_succeeds = refl

fake-run-esp32_example :
    Machine.run fake count_calls script (Fake.begin megahertz Fake.fresh).1 0
    ≡ Machine.run (esp32 chip_driver) count_calls script (begin megahertz unbegun).1 0
unfolding Fake.fresh
fake-run-esp32_example =
    fake-run-esp32 chip_driver chip_laws count_calls megahertz script Fake.fresh unbegun 0
      script_shows fake_begin_succeeds begin_succeeds refl refl script_determined

abbrev fake_armed : HwTimerFake
unfolding Fake.fresh
fake_armed = record Fake.fresh { begun = true; armed = true; callback = some 7 }

fire_many-train_example : (Fake.fire_many ℕ (train 500) 9 fake_armed 3).0 ≡ 4
unfolding Fake.fresh
fire_many-train_example = fire_many-train 500 9 fake_armed 3 7 refl refl refl (omega arith)
