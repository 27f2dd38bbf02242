-- ===== src/Timer/Esp32/Gate.antt =====
-- The software gate of src/ungula/hal/timer/platforms/hwtimer_esp32.cpp: what runs after a disarm,
-- after a failed start, and how often a one-shot alarm calls back. Nothing is asked of the driver.
use ungula_hal.Base.{ℕ, ◌≡◌, refl, true, false, List, [], ◌∷◌, Option, none, some, arith, ◌∙◌}
use ungula_hal.Timer.{Status, ok, Config, Callbacks, Isr, done, rearms, disarms}
use ungula_hal.Timer.Gptimer.{Gptimer}
use ungula_hal.Timer.Machine.{
  Op, begins, sets_callback, starts, rearms_late, disarms_late, stops, fires, run, invoke, run_isr,
}
use ungula_hal.Timer.Esp32.{
  HwTimer, begin, attach, set_callback, disarm_from_isr, stop, stop_with, rearm_from_isr,
  fire_from_isr, esp32,
}

-- The calls that arm nothing: all but `startOneShotTicks` and `rearmFromIsr`.
abbrev pub IsQuiet : List Op → Type 0
IsQuiet [] = Unit {0}
IsQuiet (starts n ∷ ops) = ⊥
IsQuiet (rearms_late n ∷ ops) = ⊥
IsQuiet (_ ∷ ops) = IsQuiet ops

module _ {C : Type 0} where
  -- The callback does not call `rearmFromIsr`, whatever its calls of `disarmFromIsr` return.
  abbrev pub NeverRearms : Isr C → Type 0
  NeverRearms (done c) = Unit {0}
  NeverRearms (rearms n next) = ⊥
  NeverRearms (disarms next) = (s : Status) → NeverRearms (next s)

  -- The client's state when the callback returns, if each of its calls returns Ok.
  abbrev pub outcome : Isr C → C
  outcome (done c) = c
  outcome (rearms n next) = outcome (next ok)
  outcome (disarms next) = outcome (next ok)

module _ {g : Gptimer} where
  armed-stop_with :
      (o : Option g.Handle) (t : HwTimer g) → t.armed ≡ false → (stop_with o t).1.armed ≡ false
  unfolding stop_with
  armed-stop_with none t e = e
  armed-stop_with (some h) t e = refl

  armed-attach :
      (cfg : Config) (o : Option g.Handle) (t : HwTimer g)
      → t.armed ≡ false
      → (attach cfg o t).1.armed ≡ false
  unfolding attach
  armed-attach cfg none t e = e
  armed-attach cfg (some h) t e = ground arith

  armed-begin : (cfg : Config) (t : HwTimer g) → t.armed ≡ false → (begin cfg t).1.armed ≡ false
  unfolding begin
  armed-begin cfg t e =
      let (made, w) = g.new_timer cfg.resolution_hz t.hw in
      ground (arith, armed-attach cfg made (record t { hw = w }) e)

  armed-set_callback :
      (cb : Option ℕ) (ctx : ℕ) (t : HwTimer g)
      → t.armed ≡ false
      → (set_callback cb ctx t).1.armed ≡ false
  unfolding set_callback
  armed-set_callback cb ctx t e = ground arith

  armed-disarm : (t : HwTimer g) → t.armed ≡ false → (disarm_from_isr t).1.armed ≡ false
  unfolding disarm_from_isr
  armed-disarm t e = ground arith

  fire_idle :
      {C : Type 0} (calls : Callbacks C) (t : HwTimer g) (c : C)
      → t.armed ≡ false
      → fire_from_isr C calls t c ≡ (t, c)
  unfolding fire_from_isr
  fire_idle calls t c e = rw e

  -- An alarm that is not armed calls nothing, and nothing but arming arms it.
  run_quiet :
      {C : Type 0} (calls : Callbacks C) (ops : List Op) (t : HwTimer g) (c : C)
      → t.armed ≡ false
      → IsQuiet ops
      → (run (esp32 g) calls ops t c).1 ≡ c
  unfolding run stop
  run_quiet calls [] t c e q = refl
  run_quiet calls (begins cfg ∷ ops) t c e q =
      run_quiet calls ops (begin cfg t).1 c (armed-begin cfg t e) q
  run_quiet calls (sets_callback cb ctx ∷ ops) t c e q =
      run_quiet calls ops (set_callback cb ctx t).1 c (armed-set_callback cb ctx t e) q
  run_quiet calls (starts n ∷ ops) t c e q = absurd q
  run_quiet calls (rearms_late n ∷ ops) t c e q = absurd q
  run_quiet calls (disarms_late ∷ ops) t c e q =
      run_quiet calls ops (disarm_from_isr t).1 c (armed-disarm t e) q
  run_quiet calls (stops ∷ ops) t c e q =
      run_quiet calls ops (stop t).1 c (armed-stop_with t.handle t e) q
  run_quiet calls (fires ∷ ops) t c e q = rw (fire_idle calls t c e) (run_quiet calls ops t c e q)

  handle-disarm : (t : HwTimer g) → (disarm_from_isr t).1.handle ≡ t.handle
  unfolding disarm_from_isr
  handle-disarm t = ground arith

  disarm-begun :
      (t : HwTimer g) (h : g.Handle)
      → t.handle ≡ some h
      → ((disarm_from_isr t).0 ≡ ok) × ((disarm_from_isr t).1.armed ≡ false)
  unfolding disarm_from_isr
  disarm-begun t h e = ground arith

  -- A callback that does not re-arm leaves a disarmed timer disarmed.
  run_isr-disarmed :
      {C : Type 0} (p : Isr C) (t : HwTimer g) (h : g.Handle)
      → NeverRearms p
      → t.armed ≡ false
      → t.handle ≡ some h
      → let (t', c') = run_isr rearm_from_isr disarm_from_isr p t in
        (t'.armed ≡ false) × (c' ≡ outcome p)
  unfolding run_isr
  run_isr-disarmed (done c) t h q a e = (a, refl)
  run_isr-disarmed (rearms n next) t h q a e = absurd q
  run_isr-disarmed (disarms next) t h q a e =
      let (status, armed) = disarm-begun t h e in
      rw (run_isr, status)
        (run_isr-disarmed (next ok) (disarm_from_isr t).1 h (q ok) armed (handle-disarm t ∙ e))

  invoke-disarmed :
      {C : Type 0} (calls : Callbacks C) (o : Option ℕ) (f ctx : ℕ) (t : HwTimer g) (c : C)
      (h : g.Handle)
      → o ≡ some f
      → NeverRearms (calls f ctx c)
      → t.armed ≡ false
      → t.handle ≡ some h
      → let (t', c') = invoke rearm_from_isr disarm_from_isr calls o ctx t c in
        (t'.armed ≡ false) × (c' ≡ outcome (calls f ctx c))
  unfolding invoke
  invoke-disarmed calls o f ctx t c h b q a e = rw b (run_isr-disarmed (calls f ctx c) t h q a e)

  -- An armed alarm calls back with the timer disarmed.
  fire_armed :
      {C : Type 0} (calls : Callbacks C) (t : HwTimer g) (c : C) (f : ℕ) (h : g.Handle)
      → t.armed ≡ true
      → t.callback ≡ some f
      → t.handle ≡ some h
      → NeverRearms (calls f t.context c)
      → let (t', c') = fire_from_isr C calls t c in
        (t'.armed ≡ false) × (c' ≡ outcome (calls f t.context c))
  unfolding fire_from_isr
  fire_armed calls t c f h a b e q =
      rw a
        (invoke-disarmed calls t.callback f t.context (record t { armed = false }) c h b q refl e)

  armed-disarm_ok :
      (t : HwTimer g) → (disarm_from_isr t).0 ≡ ok → (disarm_from_isr t).1.armed ≡ false
  unfolding disarm_from_isr
  armed-disarm_ok t e = ground arith

  -- After a `disarmFromIsr` that returned Ok, no callback runs until the timer is armed again,
  -- whatever alarms the hardware still fires: the client's state stays as it was.
  pub disarm_silences :
      {C : Type 0} (calls : Callbacks C) (ops : List Op) (t : HwTimer g) (c : C)
      → (disarm_from_isr t).0 ≡ ok
      → IsQuiet ops
      → (run (esp32 g) calls (disarms_late ∷ ops) t c).1 ≡ c
  unfolding run
  disarm_silences calls ops t c e q =
      run_quiet calls ops (disarm_from_isr t).1 c (armed-disarm_ok t e) q

  -- A begun and armed timer whose callback does not call `rearmFromIsr`, but may call `disarmFromIsr`, calls
  -- it exactly once, however many alarms fire before the timer is armed again: the client's state is that
  -- in which one callback ends.
  pub fire_once :
      {C : Type 0} (calls : Callbacks C) (ops : List Op) (t : HwTimer g) (c : C) (f : ℕ)
      (h : g.Handle)
      → t.armed ≡ true
      → t.callback ≡ some f
      → t.handle ≡ some h
      → NeverRearms (calls f t.context c)
      → IsQuiet ops
      → (run (esp32 g) calls (fires ∷ ops) t c).1 ≡ outcome (calls f t.context c)
  unfolding run
  fire_once calls ops t c f h a b e n q =
      let (armed, same) = fire_armed calls t c f h a b e n in
      let (t', c') = fire_from_isr _ calls t c in run_quiet calls ops t' c' armed q ∙ same
