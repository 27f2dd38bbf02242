-- ===== src/PwmInput/Tests.antt =====
-- Tests of src/ungula/hal/pwm_input on a GPIO driver that accepts everything, and the theorems at
-- concrete inputs.
use ungula_hal.PwmInput.Fake
use ungula_hal.Base.{
  ℕ, ◌≡◌, ◌<◌, ◌≤◌, ◌≢◌, if◌then◌else◌, ◌==◌, none, get_or, Bool-cases, inl, inr, refl, true, false,
  some, List, [], ◌∷◌, arith, u32, length, replicate, Option,
}
use ungula_hal.Esp.{ok}
use ungula_hal.Gpio.Driver.{Driver}
use ungula_hal.Gpio.IsrService.{vacant, install, settle}
use ungula_hal.PwmInput.Edge.{CaptureState, cleared, capture}
use ungula_hal.PwmInput.Measure.{Edge, IsFresh, run_edges, rises, period, high_time, capture_calls}
use ungula_hal.PwmInput.Esp32.{
  World, PwmInput, begin, claim, stop, destroy, last_high_time_us, last_period_us, has_sample,
}
use ungula_hal.PwmInput.Esp32.Life.{begin_then_measure}
use ungula_hal.PwmInput.Esp32.Delivery.{edges_of, IsWired}
use ungula_hal.PwmInput.Esp32.Wiring.{Laws, after}
use ungula_hal.PwmInput.Esp32.Owner.{begin_then_stop}

unfoldable with_handler : ℕ → Option (ℕ × ℕ) → (ℕ → Option (ℕ × ℕ)) → ℕ → Option (ℕ × ℕ)
with_handler p o w q = if q == p then o else w q

with_handler_self : (p : ℕ) (o : Option (ℕ × ℕ)) (w : ℕ → Option (ℕ × ℕ)) → with_handler p o w p ≡ o
unfolding with_handler
with_handler_self p o w = ground arith

with_handler_other :
    (p q : ℕ) (o : Option (ℕ × ℕ)) (w : ℕ → Option (ℕ × ℕ)) → q ≢ p → with_handler p o w q ≡ w q
unfolding with_handler
with_handler_other p q o w h = elim (Bool-cases (q == p)) [
  | inl e ↦ absurd (h (ground (arith, e)))
  | inr e ↦ rw e refl
]

-- It remembers only the handlers.
abbrev model : Driver
model = record {
  Hw = ℕ → Option (ℕ × ℕ);
  is_valid_gpio = λ p. true;
  is_valid_output_gpio = λ p. true;
  config = λ c w. (true, w);
  set_level = λ p b w. (true, w);
  get_level = λ p w. false;
  ll_set_level = λ p b w. w;
  ll_get_level = λ p w. false;
  install_isr_service = λ w. (ok, w);
  isr_handler_add = λ p f ctx w. (true, with_handler p (some (f, ctx)) w);
  isr_handler_remove = λ p w. (true, with_handler p none w);
}

abbrev boot : World model
boot = record { slots = replicate 64 cleared; guard = vacant; hw = λ q. none }

true-false : true ≢ false
true-false e = absurd (ground (arith, e))

abbrev laws : Laws model
laws = record {
  handlers = λ w. w;
  configures = λ c w. refl;
  installs = λ w. refl;
  adds = λ pin f ctx w e. with_handler_self pin (some (f, ctx)) w;
  adds_elsewhere = λ pin f ctx q w n. with_handler_other pin q (some (f, ctx)) w n;
  refuses = λ pin f ctx w e. absurd (true-false e);
  removes = λ pin w. with_handler_self pin none w;
  removes_elsewhere = λ pin q w n. with_handler_other pin q none w n;
}

boot-IsWired : IsWired boot.hw
boot-IsWired q ctx e = absurd (ground (arith, e))

abbrev object : PwmInput
object = record { installed = false; pin = 0 }

-- Pin 3: rises at 100 and 1100, falls at 400 and 1250; an edge of pin 5 in between.
abbrev events : List (ℕ × Edge)
events =
    (3, record { time = 1250; rising = false })
    ∷ (3, record { time = 1100; rising = true })
    ∷ (5, record { time = 900; rising = true })
    ∷ (3, record { time = 400; rising = false })
    ∷ (3, record { time = 100; rising = true })
    ∷ []

begin_result : (begin 3 object boot).0 ≡ true
unfolding begin install settle claim
begin_result = refl

begin_bad_pin : (begin 64 object boot).0 ≡ false
unfolding begin
begin_bad_pin = refl

abbrev later : World model
later = let (_, p, w) = begin 3 object boot in after laws events w

begin_then_measure_example :
    let es = edges_of 3 events in
    (2 ≤ length (rises es)
      → (has_sample (begin 3 object boot).1 later ≡ true)
        × (last_period_us (begin 3 object boot).1 later ≡ u32 (period (rises es)))
        × (last_high_time_us (begin 3 object boot).1 later ≡ u32 (high_time es)))
    × (length (rises es) < 2
        → (has_sample (begin 3 object boot).1 later ≡ false)
          × (last_period_us (begin 3 object boot).1 later ≡ 0)
          × (last_high_time_us (begin 3 object boot).1 later ≡ u32 (high_time es)))
begin_then_measure_example =
    begin_then_measure 3 object boot laws events boot-IsWired refl begin_result (omega arith)

-- A second object on the same pin is accepted, and the `stop` of the first takes its handler away.
abbrev shared_pin : World model
shared_pin = (begin 3 object (begin 3 object boot).2).2

second_begin : (begin 3 object (begin 3 object boot).2).0 ≡ true
unfolding begin install settle claim
second_begin = refl

first_stop_silences : (stop (begin 3 object boot).1 shared_pin).2.hw 3 ≡ none
unfolding begin install settle claim stop with_handler
first_stop_silences = refl

begin_then_stop_example :
    let (done, p1, w1) = begin 3 object boot in
    let w2 = after laws events w1 in
    let (stopped, p2, w3) = stop p1 w2 in
    (done ≡ false
      → (p1 ≡ object)
        × ((q : ℕ) → w1.hw q ≡ none)
        × ((q : ℕ) → q ≢ 3 → get_or w1.slots q cleared ≡ get_or boot.slots q cleared))
    × (done ≡ true
        → (w3.hw 3 ≡ none)
          × ((q : ℕ) → q ≢ 3 → w3.hw q ≡ none)
          × ((get_or w3.slots 3 cleared).in_use ≡ false)
          × (get_or (after laws events w3).slots 3 cleared ≡ get_or w3.slots 3 cleared)
          × (stop p2 w3 ≡ (true, p2, w3))
          × (destroy p1 w2 ≡ w3))
begin_then_stop_example = begin_then_stop laws 3 object boot events events boot-IsWired refl

fresh : IsFresh cleared
fresh = record { rise = refl; edge = refl; spans = refl; high = refl; sample = refl }

abbrev with_callback : CaptureState
with_callback = record cleared { callback = some 9; context = 4 }

fresh_callback : IsFresh with_callback
fresh_callback = record { rise = refl; edge = refl; spans = refl; high = refl; sample = refl }

capture_calls_example :
    (capture 1100 true (run_edges with_callback (record { time = 100; rising = true } ∷ []))).1
    ≡ some (9, 4)
capture_calls_example =
    capture_calls with_callback fresh_callback (record { time = 1100; rising = true })
      (record { time = 100; rising = true } ∷ []) (omega arith)

-- A sample that a test triggers runs the callback once, and is reported.
abbrev triggered : Option (ℕ × ℕ) × Fake.PwmInputFake
triggered = Fake.trigger_sample 150 1000 (Fake.set_sample_callback (some 9) 4 Fake.fresh)

trigger_calls :
    (triggered.0 ≡ some (9, 4))
    × (triggered.1.callback_invocation_count ≡ 1)
    × (triggered.1.period_us ≡ 1000)
unfolding Fake.trigger_sample Fake.set_sample_callback Fake.inject_sample
trigger_calls = (refl, refl, refl)
