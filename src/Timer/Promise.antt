-- ===== src/Timer/Promise.antt =====
-- Which calls src/ungula/hal/timer/i_hwtimer.h determines, and their answers. It is silent, `none` here, on
--   - a `begin` with a valid configuration of a timer that is not begun, which may want for a timer;
--   - a `begin` of a begun timer after a `stop`, since AlreadyInitialized is said of two calls without one
--     between them, and one of a begun timer with a resolution of 0, which has two answers;
--   - `rearmFromIsr` and `disarmFromIsr` before `begin`;
--   - `rearmFromIsr` after `disarmFromIsr`, which promises silence until `startOneShotTicks`, and after
--     `stop` or `begin`, when no alarm has fired since.
-- It answers `startOneShotTicks` as it does without a failure of the driver.
pub mod Calls
use ungula_hal.Base.{
  ℕ, Bool, true, false, Option, none, some, List, [], ◌∷◌, ltb, ◌==◌, if◌then◌else◌, not, ◌&&◌,
}
use ungula_hal.Timer.{Status, Config, Isr, done, rearms, disarms, Callbacks}
use ungula_hal.Timer.Machine.{
  Op, begins, sets_callback, starts, rearms_late, disarms_late, stops, fires,
}
use ungula_hal.Timer.Contract
use ungula_hal.Timer.Contract.{Timer, opened}

-- A timer with its past: a `stop` since `begin`, and no `startOneShotTicks` since `begin` or since the last
-- `disarmFromIsr` or `stop`.
pub record Situation : Type 0 where
  pub timer : Timer
  pub stopped : Bool
  pub silenced : Bool

-- After a `begin` that returned Ok.
abbrev pub begun : Config → Option ℕ → ℕ → Situation
begun cfg cb ctx = record { timer = opened cfg cb ctx; stopped = false; silenced = true }

abbrev pub when {ℓ} : {A : Type ℓ} → Bool → A → Option A
when true a = some a
when false a = none

infixl 5 ◌>>=◌
abbrev pub ◌>>=◌ {ℓ κ} : {A : Type ℓ} {B : Type κ} → Option A → (A → Option B) → Option B
none >>= f = none
some a >>= f = f a

abbrev pub Answer : Type 0
Answer = Status × Situation

unfoldable pub begin : Config → Situation → Option Answer
begin cfg s =
    let bad = cfg.resolution_hz == 0 in
    when (if s.timer.begun then not s.stopped && not bad else bad)
      ((Contract.decline s.timer).0, record s { timer = (Contract.decline s.timer).1 })

unfoldable pub set_callback : Option ℕ → ℕ → Situation → Option Answer
set_callback cb ctx s =
    let (a, t) = Contract.set_callback cb ctx s.timer in some (a, record s { timer = t })

-- One that is in range ends the silence.
unfoldable pub start : ℕ → Situation → Option Answer
start n s =
    let (a, t) = Contract.arm n s.timer in
    some (a, record s { timer = t; silenced = s.silenced && ltb n s.timer.min_ticks })

unfoldable pub rearm : ℕ → Situation → Option Answer
rearm n s =
    when (s.timer.begun && not s.silenced)
      ((Contract.arm n s.timer).0, record s { timer = (Contract.arm n s.timer).1 })

unfoldable pub disarm : Situation → Option Answer
disarm s =
    when s.timer.begun (
      (Contract.disarm s.timer).0,
      record s { timer = (Contract.disarm s.timer).1; silenced = true },
    )

unfoldable pub stop : Situation → Option Answer
stop s =
    let (a, t) = Contract.disarm s.timer in
    some (a, record s { timer = t; silenced = true; stopped = true })

-- The status of a call, none for an alarm, what the timer comes to, and the client's state.
abbrev pub Seen : Type 0 → Type 0
Seen C = Option Status × Situation × C

module _ {C : Type 0} where
  -- A callback's calls.
  unfoldable pub perform : Isr C → Situation → Option (Situation × C)
  perform (done c) s = some (s, c)
  perform (rearms n next) s = do (a, s') ← rearm n s; perform (next a) s'
  perform (disarms next) s = do (a, s') ← disarm s; perform (next a) s'

  unfoldable pub call_back : Callbacks C → Option ℕ → ℕ → Situation → C → Option (Situation × C)
  unfolding perform
  call_back calls none ctx s c = some (s, c)
  call_back calls (some f) ctx s c = perform (calls f ctx c) s

  -- The alarm is spent before the callback runs, and dropped where none is armed.
  unfoldable pub fire : Callbacks C → Situation → C → Option (Situation × C)
  unfolding call_back
  fire calls s c =
      let spent = record s { timer = record s.timer { armed = false } } in
      let called = call_back calls s.timer.callback s.timer.context spent c in
      if s.timer.armed then called else some (s, c)

  abbrev pub reply : C → Option Answer → Option (Seen C)
  reply c none = none
  reply c (some (a, s)) = some (some a, s, c)

  abbrev pub silent_reply : Option (Situation × C) → Option (Seen C)
  silent_reply none = none
  silent_reply (some (s, c)) = some (none, s, c)

  unfoldable pub step : Callbacks C → Op → Situation → C → Option (Seen C)
  step calls (begins cfg) s c = reply c (begin cfg s)
  step calls (sets_callback cb ctx) s c = reply c (set_callback cb ctx s)
  step calls (starts n) s c = reply c (start n s)
  step calls (rearms_late n) s c = reply c (rearm n s)
  step calls (disarms_late) s c = reply c (disarm s)
  step calls (stops) s c = reply c (stop s)
  step calls (fires) s c = silent_reply (fire calls s c)

  -- What a client sees, if the interface determines it all along.
  unfoldable pub run : Callbacks C → List Op → Situation → C → Option (List (Option Status) × C)
  unfolding step
  run calls [] s c = some ([], c)
  run calls (op ∷ ops) s c = do
    (a, s', c') ← step calls op s c
    (answers, end) ← run calls ops s' c'
    some (a ∷ answers, end)
