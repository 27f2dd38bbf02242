-- ===== src/Timer/Esp32/Tests.antt =====
-- The driver's timers at a concrete driver, which counts those that it has given out.
use ungula_hal.Base.{
  ℕ, ◌≡◌, ◌≢◌, refl, Bool, true, false, List, [], ◌∷◌, none, some, arith, if◌then◌else◌, length,
}
use ungula_hal.Base.Int.{pos}
use ungula_hal.Timer.{Config, ok}
use ungula_hal.Timer.Gptimer.{Gptimer, Fsm, init, enabled, run}
use ungula_hal.Timer.Esp32.{HwTimer, begin, destroy}
use ungula_hal.Timer.Esp32.Ledger.{Laws}
use ungula_hal.Timer.Esp32.Owner.{Use, use_all, begin_then_destroy}

-- The timers in use, and the state of the newest.
record Chip : Type 0 where
  pub taken : List ℕ
  pub fsm : Fsm

abbrev can_start : Fsm → Bool
can_start init = false
can_start enabled = true
can_start run = false

abbrev without_first : List ℕ → List ℕ
without_first [] = []
without_first (h ∷ hs) = hs

abbrev model : Gptimer
model = record {
  Hw = Chip;
  Handle = ℕ;
  new_timer =
      λ n w. (some (length w.taken), record { taken = length w.taken ∷ w.taken; fsm = init });
  register_event_callbacks = λ h w. (true, w);
  enable = λ h w. (true, record w { fsm = enabled });
  disable = λ h w. record w { fsm = init };
  del_timer = λ h w. record w { taken = without_first w.taken };
  group_id = λ h w. some (pos 0);
  timer_id = λ h w. pos 1;
  start = λ h w. (can_start w.fsm, record w { fsm = if can_start w.fsm then run else w.fsm });
  stop = λ h w. record w { fsm = enabled };
  set_raw_count = λ h n w. (true, w);
  set_alarm_action = λ h a w. (true, w);
  ll_set_alarm_value = λ dev id n w. w;
  ll_enable_alarm = λ dev id b w. w;
}

made_lem :
    (h : ℕ) (w : Chip) → some (length w.taken) ≡ some h → length w.taken ∷ w.taken ≡ h ∷ w.taken
made_lem h w e = ground (arith, e)

never_none : (n : ℕ) → some n ≢ none
never_none n e = absurd (ground (arith, e))

deleted_lem : (h : ℕ) (hs ts : List ℕ) → ts ≡ h ∷ hs → without_first ts ≡ hs
deleted_lem h hs ts e = ground (arith, e)

abbrev laws : Laws model
laws = record {
  taken = λ w. w.taken;
  fsm = λ h w. w.fsm;
  made = λ n h w e. (made_lem h w e, refl);
  not_made = λ n w e. absurd (never_none (length w.taken) e);
  registers = λ h w. (refl, refl);
  enables = λ h w. (refl, refl);
  disables = λ h w e. (refl, refl);
  starts = λ h w. (refl, refl);
  stops = λ h w e. (refl, refl);
  counts = λ h n w. (refl, refl);
  alarms = λ h a w. (refl, refl);
  deleted = λ h hs w e q. deleted_lem h hs w.taken q;
}

-- An object without a timer, where another has one.
abbrev unbegun : HwTimer model
unbegun = record {
  hw = record { taken = 0 ∷ []; fsm = init };
  handle = none;
  dev = 0;
  timer_id = 0;
  callback = none;
  context = 0;
  resolution = 0;
  min_ticks = 5;
  enabled = false;
  started = false;
  armed = false;
  last_alarm_count = 0;
}

abbrev megahertz : Config
megahertz = record { resolution_hz = 1000000; min_ticks = 5 }

taken_by_begin : (begin megahertz unbegun).1.hw.taken ≡ 1 ∷ 0 ∷ []
unfolding begin
taken_by_begin = refl

begin_then_destroy_example :
    let (s, t') = begin megahertz unbegun in
    (s ≢ ok → (t'.handle ≡ none) × (t'.hw.taken ≡ 0 ∷ []))
    × (s ≡ ok → (us : List Use) → (destroy (use_all us t')).hw.taken ≡ 0 ∷ [])
begin_then_destroy_example = begin_then_destroy laws megahertz unbegun refl
