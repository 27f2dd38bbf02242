-- ===== src/Timer/StatusNames.antt =====
-- `hwTimerStatusToString` of src/ungula/hal/timer/i_hwtimer.h.
use Prim.Native.String.{String}
use text.Mathlib.Text.{◌==◌}
use ungula_hal.Base.{◌≡◌, refl, Option, none, some, List, [], ◌∷◌, if◌then◌else◌}
use ungula_hal.Timer
use ungula_hal.Timer.{Status}

hw_timer_status_to_string : Status → String
hw_timer_status_to_string Timer.ok = "Ok"
hw_timer_status_to_string Timer.not_initialized = "NotInitialized"
hw_timer_status_to_string Timer.already_initialized = "AlreadyInitialized"
hw_timer_status_to_string Timer.invalid_config = "InvalidConfig"
hw_timer_status_to_string Timer.invalid_ticks = "InvalidTicks"
hw_timer_status_to_string Timer.backend_error = "BackendError"
hw_timer_status_to_string Timer.unsupported = "Unsupported"
hw_timer_status_to_string Timer.busy = "Busy"

-- The status with a name, among all.
first_named : String → List Status → Option Status
first_named name [] = none
first_named name (s ∷ ss) =
    let rest = first_named name ss in if hw_timer_status_to_string s == name then some s else rest

all_statuses : List Status
all_statuses =
    Timer.ok ∷ Timer.not_initialized ∷ Timer.already_initialized ∷ Timer.invalid_config
    ∷ Timer.invalid_ticks ∷ Timer.backend_error ∷ Timer.unsupported ∷ Timer.busy ∷ []

-- No two statuses have the same name: a log line tells which one it was.
first_named-hw_timer_status_to_string :
    (s : Status) → first_named (hw_timer_status_to_string s) all_statuses ≡ some s
unfolding first_named all_statuses hw_timer_status_to_string
first_named-hw_timer_status_to_string Timer.ok = refl
first_named-hw_timer_status_to_string Timer.not_initialized = refl
first_named-hw_timer_status_to_string Timer.already_initialized = refl
first_named-hw_timer_status_to_string Timer.invalid_config = refl
first_named-hw_timer_status_to_string Timer.invalid_ticks = refl
first_named-hw_timer_status_to_string Timer.backend_error = refl
first_named-hw_timer_status_to_string Timer.unsupported = refl
first_named-hw_timer_status_to_string Timer.busy = refl
