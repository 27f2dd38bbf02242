-- ===== src/Timer/Esp32/Lifecycle.antt =====
-- `started_` of drivers/hwtimer.h follows the driver's state machine, so the ESP32 backend never
-- calls `gptimer_start` where the driver would refuse it, and keeps the timer's contract.
use ungula_hal.Base.{
  ℕ, ◌≤◌, ◌≡◌, refl, Bool, true, false, List, Option, none, some, ◌+◌, u64, arith, if◌then◌else◌,
  is_some, ap, sym, ◌∙◌, ◌||◌, Bool-cases, ltb, inl, inr, ◌==◌,
}
use ungula_hal.Timer.{Status, Config, ok, Callbacks}
use ungula_hal.Timer.Gptimer.{Gptimer, IsGptimer, Fsm, init, enabled, run}
use ungula_hal.Timer.Contract
use ungula_hal.Timer.Contract.{Timer, opened}
use ungula_hal.Timer.Promise
use ungula_hal.Timer.Promise.{begun}
use ungula_hal.Timer.Machine
use ungula_hal.Timer.Machine.{Op}
use ungula_hal.Timer.Refine.{Keeps, KeepsFire, Refines, invoke-KeepsFire, run_refines}
use ungula_hal.Timer.Esp32.{
  HwTimer, begin, attach, adopt, set_callback, schedule, halt, start_with, start_one_shot_ticks,
  rearm_from_isr, disarm_from_isr, stop, stop_with, fire_from_isr, esp32, one_shot,
}

module _ {g : Gptimer} (laws : IsGptimer g) where
  abbrev pub expected : Bool → Fsm
  expected started = if started then run else enabled

  -- A timer with a handle is counting exactly when `started` says so, and enabled otherwise.
  abbrev pub FsmInv : HwTimer g → Type 0
  FsmInv t = (h : g.Handle) → t.handle ≡ some h → laws.fsm h t.hw ≡ expected t.started

  abbrev pub view : HwTimer g → Timer
  view t = record {
    begun = is_some t.handle;
    min_ticks = t.min_ticks;
    callback = t.callback;
    context = t.context;
    armed = t.armed;
  }

  halt-fsm :
      (h : g.Handle) (t : HwTimer g)
      → laws.fsm h t.hw ≡ expected t.started
      → laws.fsm h (halt h t).hw ≡ enabled
  unfolding halt
  halt-fsm h t v = ground (arith, laws.fsm-stop h t.hw)

  stop_with-Keeps :
      (o : Option g.Handle) (t : HwTimer g)
      → t.handle ≡ o
      → FsmInv t
      → Keeps FsmInv view (stop_with o t) (Contract.disarm (view t))
  unfolding stop_with Contract.disarm
  stop_with-Keeps none t e v = ground arith
  stop_with-Keeps (some h) t e v =
      (ground arith, ground arith, λ k q. ground (arith, v h e, laws.fsm-stop h t.hw))

  disarm-Keeps :
      (t : HwTimer g) → FsmInv t → Keeps FsmInv view (disarm_from_isr t) (Contract.disarm (view t))
  unfolding disarm_from_isr Contract.disarm
  disarm-Keeps t v = (ground arith, ground arith, λ k q. ground (arith, v k))

  rearm-Keeps :
      (n : ℕ) (t : HwTimer g)
      → FsmInv t
      → Keeps FsmInv view (rearm_from_isr n t) (Contract.arm n (view t))
  unfolding rearm_from_isr Contract.arm
  rearm-Keeps n t v = (
    ground arith,
    ground arith,
    λ k q.
        let next = u64 (t.last_alarm_count + n) in
        let w = g.ll_set_alarm_value t.dev t.timer_id next t.hw in
        ground (
          arith,
          v k,
          laws.fsm-ll_set_alarm_value k t.dev t.timer_id next t.hw,
          laws.fsm-ll_enable_alarm k t.dev t.timer_id true w,
        ),
  )

  set_callback-Keeps :
      (cb : Option ℕ) (ctx : ℕ) (t : HwTimer g)
      → FsmInv t
      → Keeps FsmInv view (set_callback cb ctx t) (Contract.set_callback cb ctx (view t))
  unfolding set_callback Contract.set_callback
  set_callback-Keeps cb ctx t v = (ground arith, ground arith, λ k q. ground (arith, v k))

  -- From an enabled timer the driver takes all three calls, and the timer ends up counting.
  schedule-fsm :
      (n : ℕ) (h : g.Handle) (t : HwTimer g)
      → laws.fsm h t.hw ≡ enabled
      → ((schedule n h t).0 ≡ ok)
        × (laws.fsm h (schedule n h t).1.hw ≡ run)
        × ((schedule n h t).1.started ≡ true)
        × (view (schedule n h t).1 ≡ record (view t) { armed = true })
  unfolding schedule
  schedule-fsm n h t v =
      let (zeroed, w) = g.set_raw_count h 0 t.hw in
      let (set, w') = g.set_alarm_action h (one_shot n) w in
      ground (
        arith,
        laws.fsm-set_raw_count h 0 t.hw,
        laws.fsm-set_alarm_action h (one_shot n) w,
        laws.fsm-start h w',
      )

  handle-schedule : (n : ℕ) (h : g.Handle) (t : HwTimer g) → (schedule n h t).1.handle ≡ t.handle
  unfolding schedule
  handle-schedule n h t = ground arith

  start_with-Keeps :
      (n : ℕ) (o : Option g.Handle) (t : HwTimer g)
      → t.handle ≡ o
      → FsmInv t
      → Keeps FsmInv view (start_with n o t) (Contract.arm n (view t))
  unfolding start_with Contract.arm
  start_with-Keeps n none t e v = ground arith
  start_with-Keeps n (some h) t e v = elim (Bool-cases (ltb n t.min_ticks)) [
    | inl short ↦ (ground arith, ground arith, λ k q. ground (arith, v k))
    | inr long ↦ (
      ground (arith, schedule-fsm n h (halt h t) (halt-fsm h t (v h e))),
      ground (arith, schedule-fsm n h (halt h t) (halt-fsm h t (v h e))),
      λ k q. ground (
        arith,
        schedule-fsm n h (halt h t) (halt-fsm h t (v h e)),
        handle-schedule n h (halt h t),
      ),
    )
  ]

  -- What `begin` leaves where it returns Ok.
  abbrev Opens : Config → HwTimer g → Status × HwTimer g → Type 0
  Opens cfg t r = (view r.1 ≡ opened cfg t.callback t.context) × FsmInv r.1

  adopt-Opens :
      (cfg : Config) (h : g.Handle) (t : HwTimer g)
      → laws.fsm h t.hw ≡ enabled
      → (adopt cfg h t).0 ≡ ok
      → Opens cfg t (adopt cfg h t)
  unfolding adopt
  adopt-Opens cfg h t v e = (ground (arith, e), λ k q. ground (arith, e))

  attach-Opens :
      (cfg : Config) (h : g.Handle) (t : HwTimer g)
      → laws.fsm h t.hw ≡ init
      → (attach cfg (some h) t).0 ≡ ok
      → Opens cfg t (attach cfg (some h) t)
  unfolding attach
  attach-Opens cfg h t v e =
      let (registered, w) = g.register_event_callbacks h t.hw in
      let (on, w') = g.enable h w in
      elim (Bool-cases registered) [
        | inl r ↦ elim (Bool-cases on) [
          | inl n ↦
              let state = laws.fsm-enable h w (laws.fsm-register h t.hw v r) n in
              rw (r, n) (adopt-Opens cfg h (record t { hw = w' }) state (ground (arith, e, r, n)))
          | inr n ↦ absurd (ground (arith, e, r, n))
        ]
        | inr r ↦ absurd (ground (arith, e, r))
      ]

  made-Opens :
      (cfg : Config) (o : Option g.Handle) (t : HwTimer g)
      → ((h : g.Handle) → o ≡ some h → laws.fsm h t.hw ≡ init)
      → (attach cfg o t).0 ≡ ok
      → Opens cfg t (attach cfg o t)
  unfolding attach
  made-Opens cfg none t v e = absurd (ground (arith, e))
  made-Opens cfg (some h) t v e = attach-Opens cfg h t (v h refl) e

  begin-attach :
      (cfg : Config) (t : HwTimer g)
      → (begin cfg t).0 ≡ ok
      → let (made, w) = g.new_timer cfg.resolution_hz t.hw in
        begin cfg t ≡ attach cfg made (record t { hw = w })
  unfolding begin
  begin-attach cfg t e = ground (arith, e)

  begin-Opens : (cfg : Config) (t : HwTimer g) → (begin cfg t).0 ≡ ok → Opens cfg t (begin cfg t)
  begin-Opens cfg t e =
      let (made, w) = g.new_timer cfg.resolution_hz t.hw in
      let same = begin-attach cfg t e in
      rw same (
        made-Opens cfg made (record t { hw = w })
          (λ h q. laws.fsm-new_timer cfg.resolution_hz h t.hw q) (ap (λ r. r.0) (sym same) ∙ e))

  begin-Keeps :
      (cfg : Config) (t : HwTimer g)
      → FsmInv t
      → (view t).begun || cfg.resolution_hz == 0 ≡ true
      → Keeps FsmInv view (begin cfg t) (Contract.decline (view t))
  unfolding begin Contract.decline
  begin-Keeps cfg t v e = (ground (arith, e), ground (arith, e), λ k q. ground (arith, e, v k))

  fire-KeepsFire :
      (C : Type 0) (calls : Callbacks C) (t : HwTimer g) (c : C)
      → FsmInv t
      → KeepsFire FsmInv view (fire_from_isr C calls t c) (Contract.fire C calls (view t) c)
  unfolding fire_from_isr Contract.fire
  fire-KeepsFire C calls t c v = elim (Bool-cases t.armed) [
    | inl armed ↦ rw armed (
        invoke-KeepsFire FsmInv view rearm_from_isr disarm_from_isr rearm-Keeps disarm-Keeps calls
          t.callback t.context (record t { armed = false }) c v)
    | inr idle ↦ rw idle (refl, refl, v)
  ]

  esp32-Refines : Refines (esp32 g)
  unfolding start_one_shot_ticks start_with stop stop_with
  esp32-Refines = record {
    Inv = FsmInv;
    view = view;
    begin = begin-Keeps;
    opens = begin-Opens;
    set_callback = set_callback-Keeps;
    start = λ n t v. start_with-Keeps n t.handle t refl v;
    rearm = rearm-Keeps;
    disarm = disarm-Keeps;
    stop = λ t v. stop_with-Keeps t.handle t refl v;
    fire = fire-KeepsFire;
  }

pub esp32-run :
    (g : Gptimer) (laws : IsGptimer g) {C : Type 0} (calls : Callbacks C) (cfg : Config)
    (ops : List Op) (t : HwTimer g) (c : C) (seen : List (Option Status) × C)
    → (begin cfg t).0 ≡ ok
    → Promise.run calls ops (begun cfg t.callback t.context) c ≡ some seen
    → Machine.run (esp32 g) calls ops (begin cfg t).1 c ≡ seen
unfolding esp32-Refines
esp32-run g laws calls cfg ops t c seen opened_ok h =
    let (same, v) = begin-Opens laws cfg t opened_ok in
    run_refines (esp32-Refines laws) calls ops (begin cfg t).1 (begun cfg t.callback t.context) c
      seen v same h

-- With a driver that refuses no call of a timer in the state that the call wants (`IsGptimer`), and from a
-- begun timer whose `started_` says whether the driver's state machine runs, `startOneShotTicks` of ticks
-- in range succeeds, also after a one-shot alarm has fired and left the counter running, and it
-- leaves the counter running with the alarm armed.
pub start_one_shot_ticks-ok :
    (g : Gptimer) (laws : IsGptimer g) (n : ℕ) (t : HwTimer g) (h : g.Handle)
    → FsmInv laws t
    → t.handle ≡ some h
    → t.min_ticks ≤ n
    → ((start_one_shot_ticks n t).0 ≡ ok)
      × ((start_one_shot_ticks n t).1.armed ≡ true)
      × (laws.fsm h (start_one_shot_ticks n t).1.hw ≡ run)
unfolding start_one_shot_ticks
start_one_shot_ticks-ok g laws n t h v e le =
    ground (arith, schedule-fsm laws n h (halt h t) (halt-fsm laws h t (v h e)))
