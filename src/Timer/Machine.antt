-- ===== src/Timer/Machine.antt =====
-- `IHwTimer` of src/ungula/hal/timer/i_hwtimer.h as an interface: what a client can call, with the
-- firing of the alarm, which the hardware calls.
use ungula_hal.Base.{ℕ, Option, none, some, List, [], ◌∷◌}
use ungula_hal.Timer.{Status, Config, Isr, done, rearms, disarms, Callbacks}

-- A callback's calls, in order, on the timer that fired.
module _ {T C : Type 0} (rearm : ℕ → T → Status × T) (disarm : T → Status × T) where
  unfoldable pub run_isr : Isr C → T → T × C
  run_isr (done c) t = (t, c)
  run_isr (rearms n next) t = let (s, t') = rearm n t in run_isr (next s) t'
  run_isr (disarms next) t = let (s, t') = disarm t in run_isr (next s) t'

  -- `if (cb_) cb_(ctx_);`
  unfoldable pub invoke : Callbacks C → Option ℕ → ℕ → T → C → T × C
  unfolding run_isr
  invoke calls none ctx t c = (t, c)
  invoke calls (some f) ctx t c = run_isr (calls f ctx c) t

pub record Machine : Type 1 where
  pub T : Type 0
  pub begin : Config → T → Status × T
  pub set_callback : Option ℕ → ℕ → T → Status × T
  pub start : ℕ → T → Status × T
  pub rearm : ℕ → T → Status × T
  pub disarm : T → Status × T
  pub stop : T → Status × T
  pub fire : (C : Type 0) → Callbacks C → T → C → T × C

pub data Op : Type 0 where
  begins : Config → Op
  sets_callback : Option ℕ → ℕ → Op
  starts : ℕ → Op
  rearms_late : ℕ → Op
  disarms_late : Op
  stops : Op
  fires : Op

module _ (m : Machine) {C : Type 0} (calls : Callbacks C) where
  -- A call's status; the alarm returns nothing.
  unfoldable pub step : Op → m.T → C → Option Status × m.T × C
  step (begins cfg) t c = let (s, t') = m.begin cfg t in (some s, t', c)
  step (sets_callback cb ctx) t c = let (s, t') = m.set_callback cb ctx t in (some s, t', c)
  step (starts n) t c = let (s, t') = m.start n t in (some s, t', c)
  step (rearms_late n) t c = let (s, t') = m.rearm n t in (some s, t', c)
  step (disarms_late) t c = let (s, t') = m.disarm t in (some s, t', c)
  step (stops) t c = let (s, t') = m.stop t in (some s, t', c)
  step (fires) t c = let (t', c') = m.fire C calls t c in (none, t', c')

  -- What a client sees of any interleaving of calls and alarms: the statuses and its own state.
  unfoldable pub run : List Op → m.T → C → List (Option Status) × C
  unfolding step
  run [] t c = ([], c)
  run (op ∷ ops) t c =
      let (s, t', c') = step op t c in let (replies, end) = run ops t' c' in (s ∷ replies, end)
