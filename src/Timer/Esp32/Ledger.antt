-- ===== src/Timer/Esp32/Ledger.antt =====
-- What src/ungula/hal/timer/platforms/hwtimer_esp32.cpp relies on of the timers that the driver gives out.
use ungula_hal.Base.{ℕ, ◌≡◌, List, ◌∷◌, none, some, if◌then◌else◌}
use ungula_hal.Timer.Gptimer.{Gptimer, Alarm, Fsm, init, enabled, run}

-- The timers that the driver has given out and not taken back, the newest first, and their states. A call
-- that is refused leaves both; `gptimer_disable` wants a timer at rest, `gptimer_stop` one that runs, and
-- `gptimer_del_timer` one that is not enabled.
pub record Laws (g : Gptimer) : Type 0 where
  pub taken : g.Hw → List g.Handle
  pub fsm : g.Handle → g.Hw → Fsm
  pub made :
      (n : ℕ) (h : g.Handle) (w : g.Hw)
      → (g.new_timer n w).0 ≡ some h
      → (taken (g.new_timer n w).1 ≡ h ∷ taken w) × (fsm h (g.new_timer n w).1 ≡ init)
  pub not_made :
      (n : ℕ) (w : g.Hw) → (g.new_timer n w).0 ≡ none → taken (g.new_timer n w).1 ≡ taken w
  pub registers :
      (h : g.Handle) (w : g.Hw)
      → (taken (g.register_event_callbacks h w).1 ≡ taken w)
        × (fsm h (g.register_event_callbacks h w).1 ≡ fsm h w)
  pub enables :
      (h : g.Handle) (w : g.Hw)
      → (taken (g.enable h w).1 ≡ taken w)
        × (fsm h (g.enable h w).1 ≡ (if (g.enable h w).0 then enabled else fsm h w))
  pub disables :
      (h : g.Handle) (w : g.Hw)
      → fsm h w ≡ enabled
      → (taken (g.disable h w) ≡ taken w) × (fsm h (g.disable h w) ≡ init)
  pub starts :
      (h : g.Handle) (w : g.Hw)
      → (taken (g.start h w).1 ≡ taken w)
        × (fsm h (g.start h w).1 ≡ (if (g.start h w).0 then run else fsm h w))
  pub stops :
      (h : g.Handle) (w : g.Hw)
      → fsm h w ≡ run
      → (taken (g.stop h w) ≡ taken w) × (fsm h (g.stop h w) ≡ enabled)
  pub counts :
      (h : g.Handle) (n : ℕ) (w : g.Hw)
      → (taken (g.set_raw_count h n w).1 ≡ taken w) × (fsm h (g.set_raw_count h n w).1 ≡ fsm h w)
  pub alarms :
      (h : g.Handle) (a : Alarm) (w : g.Hw)
      → (taken (g.set_alarm_action h a w).1 ≡ taken w)
        × (fsm h (g.set_alarm_action h a w).1 ≡ fsm h w)
  pub deleted :
      (h : g.Handle) (hs : List g.Handle) (w : g.Hw)
      → fsm h w ≡ init
      → taken w ≡ h ∷ hs
      → taken (g.del_timer h w) ≡ hs
