-- ===== src/Timer/Esp32/Pulses.antt =====
-- A variable-period pulse train on the ESP32 backend (the use for which
-- src/ungula/hal/timer/platforms/hwtimer_esp32.cpp keeps `lastAlarmCount_`): each alarm's callback
-- re-arms the timer for the next pulse.
use ungula_hal.Base.{
  ℕ, zero, suc, ◌+◌, ◌≤◌, ◌<◌, ◌≡◌, refl, Bool, true, List, [], ◌∷◌, some, arith, is_some, u64,
  length, sym,
}
use mathlib.Core.Path.{subst}
use ungula_hal.Timer.{Callbacks, done, rearms}
use ungula_hal.Timer.Gptimer.{Gptimer}
use ungula_hal.Timer.Machine.{invoke, run_isr}
use ungula_hal.Timer.Esp32.{HwTimer, rearm_from_isr, fire_from_isr}

-- The alarm registers: the compare value of a timer, which enabling the alarm leaves alone.
pub record HasAlarmRegister (g : Gptimer) : Type 0 where
  pub alarm_value : ℕ → ℕ → g.Hw → ℕ
  pub alarm_value-set :
      (dev id n : ℕ) (w : g.Hw) → alarm_value dev id (g.ll_set_alarm_value dev id n w) ≡ n
  pub alarm_value-enable :
      (dev id : ℕ) (b : Bool) (w : g.Hw)
      → alarm_value dev id (g.ll_enable_alarm dev id b w) ≡ alarm_value dev id w

-- The client's state is the list of the periods to come.
abbrev pub pulse : Callbacks (List ℕ)
pulse f ctx [] = done []
pulse f ctx (x ∷ xs) = rearms x (λ s. done xs)

abbrev pub sum : List ℕ → ℕ
sum [] = 0
sum (x ∷ xs) = x + sum xs

abbrev pub AllFrom : ℕ → List ℕ → Type 0
AllFrom low [] = Unit {0}
AllFrom low (x ∷ xs) = (low ≤ x) × AllFrom low xs

module _ {g : Gptimer} where
  -- As many alarms, one after the other.
  unfoldable pub fire_times : ℕ → HwTimer g → List ℕ → HwTimer g × List ℕ
  fire_times zero t c = (t, c)
  fire_times (suc n) t c = let (t', c') = fire_from_isr (List ℕ) pulse t c in fire_times n t' c'

  -- What a pulse train keeps: the timer is armed and the compare register holds the cursor.
  pub record IsPulsing (r : HasAlarmRegister g) (f : ℕ) (t : HwTimer g) : Type 0 where
    pub armed : t.armed ≡ true
    pub callback : t.callback ≡ some f
    pub begun : is_some t.handle ≡ true
    pub range : t.last_alarm_count < 18446744073709551616
    pub register : r.alarm_value t.dev t.timer_id t.hw ≡ t.last_alarm_count

  fire-pulse :
      (r : HasAlarmRegister g) (f x : ℕ) (xs : List ℕ) (t : HwTimer g)
      → IsPulsing r f t
      → t.min_ticks ≤ x
      → let (t', c') = fire_from_isr (List ℕ) pulse t (x ∷ xs) in
        (c' ≡ xs)
        × (t'.last_alarm_count ≡ u64 (t.last_alarm_count + x))
        × (t'.min_ticks ≡ t.min_ticks)
        × IsPulsing r f t'
  unfolding fire_from_isr invoke run_isr rearm_from_isr
  fire-pulse r f x xs t v le =
      let next = u64 (t.last_alarm_count + x) in
      let w = g.ll_set_alarm_value t.dev t.timer_id next t.hw in
      ground (
        arith,
        r.alarm_value-set t.dev t.timer_id next t.hw,
        r.alarm_value-enable t.dev t.timer_id true w,
      )

-- A pulse train does not drift: after as many alarms as there are periods, each at least `minTicks`,
-- the compare register and `lastAlarmCount_` stand at the start plus the sum of the periods, modulo
-- 2^64, no period is left, and the timer is armed.
pub fire_times-pulse :
    (g : Gptimer) (r : HasAlarmRegister g) (f : ℕ) (xs : List ℕ) (t : HwTimer g)
    → IsPulsing r f t
    → AllFrom t.min_ticks xs
    → let (t', c') = fire_times (length xs) t xs in
      (c' ≡ [])
      × (t'.last_alarm_count ≡ u64 (t.last_alarm_count + sum xs))
      × (r.alarm_value t'.dev t'.timer_id t'.hw ≡ t'.last_alarm_count)
      × (t'.armed ≡ true)
unfolding fire_times
fire_times-pulse g r f [] t v a = (refl, omega (arith, v.range), v.register, v.armed)
fire_times-pulse g r f (x ∷ xs) t v a =
    let k = fire-pulse r f x xs t v a.0 in
    let (t', c') = fire_from_isr (List ℕ) pulse t (x ∷ xs) in
    let ih = fire_times-pulse g r f xs t' k.3 (subst (λ low. AllFrom low xs) (sym k.2) a.1) in
    rw (k.0, fire_times) (ih.0, omega (arith, ih.1, k.1), ih.2, ih.3)
