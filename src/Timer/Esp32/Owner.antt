-- ===== src/Timer/Esp32/Owner.antt =====
-- The driver's timer that an object of drivers/hwtimer.h owns: src/ungula/hal/timer/platforms/hwtimer_esp32.cpp
-- takes it in `begin` and gives it back in the destructor, in the states that the driver wants.
use ungula_hal.Base.{
  ℕ, ◌≡◌, ◌≢◌, ◌∙◌, ap, refl, Bool, true, false, List, [], ◌∷◌, none, some, arith, if◌then◌else◌,
  Bool-cases, Option-cases, ltb, inl, inr, ◌==◌, ◌||◌,
}
use ungula_hal.Timer.{Config, Status, ok, backend_error, invalid_config}
use ungula_hal.Timer.Gptimer.{Gptimer, Fsm, init, enabled, run}
use ungula_hal.Timer.Esp32.{
  HwTimer, begin, attach, adopt, schedule, halt, start_with, start_one_shot_ticks, stop, stop_with,
  destroy, destroy_with, outside, or_minus_one, one_shot,
}
use ungula_hal.Timer.Esp32.Ledger.{Laws}

-- What a client does with the timer before it goes.
pub data Use : Type 0 where
  starts_in : ℕ → Use
  stops_it : Use

pub use_all : {g : Gptimer} → List Use → HwTimer g → HwTimer g
use_all [] t = t
use_all (starts_in n ∷ us) t = (start_one_shot_ticks n (use_all us t)).1
use_all (stops_it ∷ us) t = (stop (use_all us t)).1

abbrev expected : Bool → Fsm
expected started = if started then run else enabled

module _ {g : Gptimer} (l : Laws g) where
  -- The object owns `h`, over the timers that others have.
  record Owns (h : g.Handle) (before : List g.Handle) (t : HwTimer g) : Type 0 where
    has : t.handle ≡ some h
    is_on : t.enabled ≡ true
    state : l.fsm h t.hw ≡ expected t.started
    held : l.taken t.hw ≡ h ∷ before

  halt-Owns :
      (h : g.Handle) (before : List g.Handle) (t : HwTimer g)
      → Owns h before t
      → Owns h before (halt h t)
  unfolding halt
  halt-Owns h before t v = elim (Bool-cases t.started) [
    | inl e ↦
        let (t1, f1) = l.stops h t.hw (v.state ∙ ap expected e) in
        record { has = v.has; is_on = v.is_on; state = rw e f1; held = rw e (t1 ∙ v.held) }
    | inr e ↦ record {
      has = v.has;
      is_on = v.is_on;
      state = rw e (v.state ∙ ap expected e);
      held = rw e v.held;
    }
  ]

  destroy-taken :
      (h : g.Handle) (before : List g.Handle) (t : HwTimer g)
      → Owns h before t
      → l.taken (destroy t).hw ≡ before
  unfolding destroy destroy_with
  destroy-taken h before t v = elim (Bool-cases t.started) [
    | inl e ↦
        let (t1, f1) = l.stops h t.hw (v.state ∙ ap expected e) in
        let (t2, f2) = l.disables h (g.stop h t.hw) f1 in
        rw (v.has, v.is_on, e) (l.deleted h before _ f2 (t2 ∙ t1 ∙ v.held))
    | inr e ↦
        let (t2, f2) = l.disables h t.hw (v.state ∙ ap expected e) in
        rw (v.has, v.is_on, e) (l.deleted h before _ f2 (t2 ∙ v.held))
  ]

  -- A step of the driver that leaves the timer's state.
  still-Owns :
      (h : g.Handle) (before : List g.Handle) (t : HwTimer g) (w : g.Hw)
      → Owns h before t
      → l.taken w ≡ l.taken t.hw
      → l.fsm h w ≡ l.fsm h t.hw
      → Owns h before (record t { hw = w })
  still-Owns h before t w v p q = record {
    has = v.has;
    is_on = v.is_on;
    state = q ∙ v.state;
    held = p ∙ v.held;
  }

  schedule-Owns :
      (n : ℕ) (h : g.Handle) (before : List g.Handle) (t : HwTimer g)
      → Owns h before t
      → t.started ≡ false
      → Owns h before (schedule n h t).1
  unfolding schedule
  schedule-Owns n h before t v e =
      let (zeroed, w1) = g.set_raw_count h 0 t.hw in
      let (set, w2) = g.set_alarm_action h (one_shot n) w1 in
      let (running, w3) = g.start h w2 in
      let (t1, f1) = l.counts h 0 t.hw in
      let (t2, f2) = l.alarms h (one_shot n) w1 in
      let (t3, f3) = l.starts h w2 in
      elim (Bool-cases zeroed) [
        | inr z ↦ rw z (still-Owns h before t w1 v t1 f1)
        | inl z ↦ elim (Bool-cases set) [
          | inr a ↦ rw (z, a) (still-Owns h before t w2 v (t2 ∙ t1) (f2 ∙ f1))
          | inl a ↦ elim (Bool-cases running) [
            | inr r ↦
                rw (z, a, r)
                  (still-Owns h before t w3 v (t3 ∙ t2 ∙ t1)
                    (f3 ∙ ap (λ b. if b then run else l.fsm h w2) r ∙ f2 ∙ f1))
            | inl r ↦
                rw (z, a, r)
                  (record {
                    has = v.has;
                    is_on = v.is_on;
                    state = f3 ∙ ap (λ b. if b then run else l.fsm h w2) r;
                    held = t3 ∙ t2 ∙ t1 ∙ v.held;
                  })
          ]
        ]
      ]

  halt-started : (h : g.Handle) (t : HwTimer g) → (halt h t).started ≡ false
  unfolding halt
  halt-started h t = refl

  -- The calls, on a timer that has its handle.
  start_lem :
      (n : ℕ) (h : g.Handle) (t : HwTimer g)
      → t.handle ≡ some h
      → start_one_shot_ticks n t ≡ start_with n (some h) t
  unfolding start_one_shot_ticks
  start_lem n h t e = ap (λ o. start_with n o t) e

  stop_lem : (h : g.Handle) (t : HwTimer g) → t.handle ≡ some h → stop t ≡ stop_with (some h) t
  unfolding stop
  stop_lem h t e = ap (λ o. stop_with o t) e

  start-Owns :
      (n : ℕ) (h : g.Handle) (before : List g.Handle) (t : HwTimer g)
      → Owns h before t
      → Owns h before (start_one_shot_ticks n t).1
  unfolding start_with
  start-Owns n h before t v = elim (Bool-cases (ltb n t.min_ticks)) [
    | inl e ↦ rw (start_lem n h t v.has, e) v
    | inr e ↦
        rw (start_lem n h t v.has, e)
          (schedule-Owns n h before (halt h t) (halt-Owns h before t v) (halt-started h t))
  ]

  stop-Owns :
      (h : g.Handle) (before : List g.Handle) (t : HwTimer g)
      → Owns h before t
      → Owns h before (stop t).1
  unfolding stop_with
  stop-Owns h before t v = rw (stop_lem h t v.has) (halt-Owns h before t v)

  use_all-Owns :
      (us : List Use) (h : g.Handle) (before : List g.Handle) (t : HwTimer g)
      → Owns h before t
      → Owns h before (use_all us t)
  unfolding use_all
  use_all-Owns [] h before t v = v
  use_all-Owns (starts_in n ∷ us) h before t v =
      start-Owns n h before (use_all us t) (use_all-Owns us h before t v)
  use_all-Owns (stops_it ∷ us) h before t v =
      stop-Owns h before (use_all us t) (use_all-Owns us h before t v)

  -- What `begin` leaves of the timers that were taken before.
  record Begun (before : List g.Handle) (r : Status × HwTimer g) : Type 0 where
    refused : r.0 ≢ ok → (r.1.handle ≡ none) × (l.taken r.1.hw ≡ before)
    accepted : r.0 ≡ ok → (h : g.Handle) × Owns h before r.1

  failed-Begun :
      (before : List g.Handle) (t : HwTimer g)
      → t.handle ≡ none
      → l.taken t.hw ≡ before
      → Begun before (backend_error, t)
  failed-Begun before t e p = record {
    refused = λ q. (e, p);
    accepted = λ q. absurd (ground (arith, q));
  }

  adopt-Begun :
      (cfg : Config) (h : g.Handle) (before : List g.Handle) (t : HwTimer g)
      → t.handle ≡ none
      → l.fsm h t.hw ≡ enabled
      → l.taken t.hw ≡ h ∷ before
      → Begun before (adopt cfg h t)
  unfolding adopt
  adopt-Begun cfg h before t e f p =
      let (p2, f2) = l.disables h t.hw f in
      elim (Bool-cases
        (outside (or_minus_one (g.group_id h t.hw)) || outside (g.timer_id h t.hw))) [
          | inl o ↦ rw o (
              failed-Begun before (record t { hw = g.del_timer h (g.disable h t.hw) }) e
                (l.deleted h before _ f2 (p2 ∙ p)))
          | inr o ↦ rw o (record {
            refused = λ q. absurd (q refl);
            accepted = λ q. (h, record { has = refl; is_on = refl; state = f; held = p });
          })
        ]

  attach-Begun :
      (cfg : Config) (h : g.Handle) (before : List g.Handle) (t : HwTimer g)
      → t.handle ≡ none
      → l.fsm h t.hw ≡ init
      → l.taken t.hw ≡ h ∷ before
      → Begun before (attach cfg (some h) t)
  unfolding attach
  attach-Begun cfg h before t e f p =
      let (registered, w1) = g.register_event_callbacks h t.hw in
      let (on, w2) = g.enable h w1 in
      let (p1, f1) = l.registers h t.hw in
      let (p2, f2) = l.enables h w1 in
      elim (Bool-cases registered) [
        | inr r ↦ rw r (
            failed-Begun before (record t { hw = g.del_timer h w1 }) e
              (l.deleted h before w1 (f1 ∙ f) (p1 ∙ p)))
        | inl r ↦ elim (Bool-cases on) [
          | inr o ↦
              rw (r, o)
                (failed-Begun before (record t { hw = g.del_timer h w2 }) e
                  (l.deleted h before w2
                    (f2 ∙ ap (λ b. if b then enabled else l.fsm h w1) o ∙ f1 ∙ f) (p2 ∙ p1 ∙ p)))
          | inl o ↦
              rw (r, o)
                (adopt-Begun cfg h before (record t { hw = w2 }) e
                  (f2 ∙ ap (λ b. if b then enabled else l.fsm h w1) o) (p2 ∙ p1 ∙ p))
        ]
      ]

  begin_lem :
      (cfg : Config) (t : HwTimer g)
      → t.handle ≡ none
      → let (made, w) = g.new_timer cfg.resolution_hz t.hw in
        begin cfg t ≡ (
          if cfg.resolution_hz == 0
          then (invalid_config, t)
          else attach cfg made (record t { hw = w }))
  unfolding begin
  begin_lem cfg t e = simp e

  begin-Begun :
      (cfg : Config) (t : HwTimer g) → t.handle ≡ none → Begun (l.taken t.hw) (begin cfg t)
  unfolding attach
  begin-Begun cfg t e =
      let (made, w) = g.new_timer cfg.resolution_hz t.hw in
      elim (Bool-cases (cfg.resolution_hz == 0)) [
        | inl z ↦
            rw (begin_lem cfg t e, z)
              (record { refused = λ q. (e, refl); accepted = λ q. absurd (ground (arith, q)) })
        | inr z ↦ elim (Option-cases made) [
          | inl o ↦
              rw (begin_lem cfg t e, z, o)
                (failed-Begun (l.taken t.hw) (record t { hw = w }) e
                  (l.not_made cfg.resolution_hz t.hw o))
          | inr (h, o) ↦
              let (p, f) = l.made cfg.resolution_hz h t.hw o in
              rw (begin_lem cfg t e, z, o)
                (attach-Begun cfg h (l.taken t.hw) (record t { hw = w }) e f p)
        ]
      ]

  -- With a driver that obeys `Laws`, `begin` on an object without a timer, whatever step of it fails: if it does not return Ok it leaves the
  -- object without one and has given back to the driver what it took. If it returns Ok, then after any
  -- calls of `startOneShotTicks` and `stop`, those that fail included, the destructor gives the timer
  -- back, stopped and disabled as the driver wants it.
  pub begin_then_destroy :
      (cfg : Config) (t : HwTimer g)
      → t.handle ≡ none
      → let (s, t') = begin cfg t in
        (s ≢ ok → (t'.handle ≡ none) × (l.taken t'.hw ≡ l.taken t.hw))
        × (s ≡ ok → (us : List Use) → l.taken (destroy (use_all us t')).hw ≡ l.taken t.hw)
  begin_then_destroy cfg t e =
      let b = begin-Begun cfg t e in
      (
        b.refused,
        λ q us.
            let (h, v) = b.accepted q in
            destroy-taken h (l.taken t.hw) (use_all us (begin cfg t).1)
              (use_all-Owns us h (l.taken t.hw) (begin cfg t).1 v),
      )
