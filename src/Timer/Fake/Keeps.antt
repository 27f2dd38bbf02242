-- ===== src/Timer/Fake/Keeps.antt =====
-- The fake keeps the timer's contract, and `fireMany` fires until the callback stops re-arming.
use ungula_hal.Base.{
  ℕ, zero, suc, ◌+◌, ◌≤◌, ◌≡◌, refl, true, false, Option, some, List, arith, inl, inr, Bool-cases,
  min, u32, sym, ◌∙◌,
}
use ungula_hal.Timer.{Status, Config, ok, Callbacks, done, rearms}
use ungula_hal.Timer.Machine
use ungula_hal.Timer.Machine.{Op, invoke, run_isr}
use ungula_hal.Timer.Contract
use ungula_hal.Timer.Contract.{Timer, opened}
use ungula_hal.Timer.Promise
use ungula_hal.Timer.Promise.{begun}
use mathlib.Core.Path.{ap₂}
use ungula_hal.Timer.Esp32
use ungula_hal.Timer.Refine.{KeepsFire, Refines, invoke-KeepsFire, run_refines}
use ungula_hal.Timer.Gptimer.{Gptimer, IsGptimer}
use ungula_hal.Timer.Esp32.{HwTimer, esp32}
use ungula_hal.Timer.Esp32.Lifecycle.{esp32-run}
use ungula_hal.Timer.Fake.{
  HwTimerFake, begin, set_callback, start_one_shot_ticks, rearm_from_isr, disarm_from_isr, stop,
  fire, fire_loop, fire_many, fake,
}

abbrev pub view : HwTimerFake → Timer
view t = record {
  begun = t.begun;
  min_ticks = t.cfg.min_ticks;
  callback = t.callback;
  context = t.context;
  armed = t.armed;
}

-- Before `begin` the fake holds the least ticks that it is configured with, as `HwTimer` does.
abbrev Always : HwTimerFake → Type 0
Always t = Unit {0}

rearm-Keeps :
    (n : ℕ) (t : HwTimerFake)
    → Always t
    → ((rearm_from_isr n t).0 ≡ (Contract.arm n (view t)).0)
      × (view (rearm_from_isr n t).1 ≡ (Contract.arm n (view t)).1)
      × Unit {0}
unfolding rearm_from_isr Contract.arm
rearm-Keeps n t v = (ground arith, ground arith, tt)

disarm-Keeps :
    (t : HwTimerFake)
    → Always t
    → ((disarm_from_isr t).0 ≡ (Contract.disarm (view t)).0)
      × (view (disarm_from_isr t).1 ≡ (Contract.disarm (view t)).1)
      × Unit {0}
unfolding disarm_from_isr Contract.disarm
disarm-Keeps t v = (ground arith, ground arith, tt)

fire-KeepsFire :
    (C : Type 0) (calls : Callbacks C) (t : HwTimerFake) (c : C)
    → Always t
    → KeepsFire Always view (fire C calls t c) (Contract.fire C calls (view t) c)
unfolding fire Contract.fire
fire-KeepsFire C calls t c v = elim (Bool-cases t.armed) [
  | inl armed ↦
      let k =
        invoke-KeepsFire Always view rearm_from_isr disarm_from_isr rearm-Keeps disarm-Keeps calls
          t.callback t.context
          (record t { armed = false; fire_attempt_count = u32 (t.fire_attempt_count + 1) }) c v in
      rw armed (k.0, k.1, tt)
  | inr idle ↦ (ground arith, ground arith, tt)
]

fake-Refines : Refines fake
unfolding begin set_callback start_one_shot_ticks stop Contract.decline Contract.set_callback
    Contract.arm Contract.disarm
fake-Refines = record {
  Inv = Always;
  view = view;
  begin = λ cfg t v e. (ground (arith, e), ground (arith, e), tt);
  opens = λ cfg t e. (ground (arith, e), tt);
  set_callback = λ cb ctx t v. (ground arith, ground arith, tt);
  start = λ n t v. (ground arith, ground arith, tt);
  rearm = rearm-Keeps;
  disarm = disarm-Keeps;
  stop = λ t v. (ground arith, ground arith, tt);
  fire = fire-KeepsFire;
}

-- A test that drives the fake sees what production sees: after a `begin` of each that returned Ok, with the
-- same configuration and callback, every interleaving of calls and alarms that the interface determines
-- (`Promise.run` answers it) returns the same statuses on the fake and on the ESP32 backend, and leaves
-- the client in the same state, with a driver that refuses no call of a timer in the state that the
-- call wants (`IsGptimer`). Where the driver has no timer to give, `begin` of the backend does not
-- return Ok, and nothing is said.
pub fake-run-esp32 :
    (g : Gptimer) (laws : IsGptimer g) {C : Type 0} (calls : Callbacks C) (cfg : Config)
    (ops : List Op) (s : HwTimerFake) (t : HwTimer g) (c : C) (seen : List (Option Status) × C)
    → (begin cfg s).0 ≡ ok
    → (Esp32.begin cfg t).0 ≡ ok
    → s.callback ≡ t.callback
    → s.context ≡ t.context
    → Promise.run calls ops (begun cfg t.callback t.context) c ≡ some seen
    → Machine.run fake calls ops (begin cfg s).1 c
      ≡ Machine.run (esp32 g) calls ops (Esp32.begin cfg t).1 c
unfolding fake-Refines
fake-run-esp32 g laws calls cfg ops s t c seen f e same_cb same_ctx h =
    let view_eq =
      (fake-Refines.opens cfg s f).0 ∙ ap₂ (λ cb ctx. opened cfg cb ctx) same_cb same_ctx in
    run_refines fake-Refines calls ops (begin cfg s).1 (begun cfg t.callback t.context) c seen tt
      view_eq h
    ∙ sym (esp32-run g laws calls cfg ops t c seen e h)

-- One alarm of a pulse train: the callback re-arms while pulses are left, and then does nothing.
abbrev pub train : ℕ → Callbacks ℕ
train ticks f ctx zero = done zero
train ticks f ctx (suc left) = rearms ticks (λ s. done left)

fire-train :
    (ticks : ℕ) (t : HwTimerFake) (left f : ℕ)
    → t.armed ≡ true
    → t.begun ≡ true
    → t.callback ≡ some f
    → t.cfg.min_ticks ≤ ticks
    → let (t', left') = fire ℕ (train ticks) t (suc left) in
      (left' ≡ left)
      × (t'.armed ≡ true)
      × (t'.begun ≡ true)
      × (t'.callback ≡ some f)
      × (t'.cfg.min_ticks ≡ t.cfg.min_ticks)
unfolding fire invoke run_isr rearm_from_isr
fire-train ticks t left f a b e le = ground arith

fire-train_last :
    (ticks : ℕ) (t : HwTimerFake) (f : ℕ)
    → t.armed ≡ true
    → t.callback ≡ some f
    → ((fire ℕ (train ticks) t zero).1 ≡ 0) × ((fire ℕ (train ticks) t zero).0.armed ≡ false)
unfolding fire invoke run_isr
fire-train_last ticks t f a e = ground arith

fire_loop_armed :
    (ticks n actual : ℕ) (t : HwTimerFake) (left : ℕ)
    → t.armed ≡ true
    → fire_loop ℕ (train ticks) (suc n) actual t left ≡ (
        let (t', left') = fire ℕ (train ticks) t left in
        fire_loop ℕ (train ticks) n (actual + 1) t' left')
unfolding fire_loop
fire_loop_armed ticks n actual t left a = simp a

fire_loop_idle :
    (ticks n actual : ℕ) (t : HwTimerFake) (left : ℕ)
    → t.armed ≡ false
    → (fire_loop ℕ (train ticks) n actual t left).0 ≡ actual
unfolding fire_loop
fire_loop_idle ticks zero actual t left a = refl
fire_loop_idle ticks (suc n) actual t left a = simp a

fire_loop-train :
    (ticks n actual : ℕ) (t : HwTimerFake) (left f : ℕ)
    → t.armed ≡ true
    → t.begun ≡ true
    → t.callback ≡ some f
    → t.cfg.min_ticks ≤ ticks
    → (fire_loop ℕ (train ticks) n actual t left).0 ≡ actual + min n (left + 1)
fire_loop-train ticks zero actual t left f a b e le = unfold fire_loop in omega arith
fire_loop-train ticks (suc n) actual t zero f a b e le =
    let (t', left') = fire ℕ (train ticks) t zero in
    rw
      (
        fire_loop_armed ticks n actual t zero a,
        fire_loop_idle ticks n (actual + 1) t' left' (fire-train_last ticks t f a e).1,
      )
      (omega arith)
fire_loop-train ticks (suc n) actual t (suc left) f a b e le =
    let k = fire-train ticks t left f a b e le in
    let t' = (fire ℕ (train ticks) t (suc left)).0 in
    rw (fire_loop_armed ticks n actual t (suc left) a, k.0)
      (omega
        (arith, fire_loop-train ticks n (actual + 1) t' left f k.1 k.2 k.3 (omega (arith, k.4))))

-- `fireMany` stops when the callback stops re-arming: with an armed timer whose callback re-arms
-- `left` times more, it fires `left + 1` times, or as often as it was asked to if that is less.
pub fire_many-train :
    (ticks n : ℕ) (t : HwTimerFake) (left f : ℕ)
    → t.armed ≡ true
    → t.begun ≡ true
    → t.callback ≡ some f
    → t.cfg.min_ticks ≤ ticks
    → (fire_many ℕ (train ticks) n t left).0 ≡ min n (left + 1)
unfolding fire_many
fire_many-train ticks n t left f a b e le =
    omega (arith, fire_loop-train ticks n 0 t left f a b e le)
