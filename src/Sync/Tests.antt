-- ===== src/Sync/Tests.antt =====
-- Two callers that each add one to a counter, under the spinlock and under the stub of host builds, of
-- src/ungula/hal/sync, and the theorem at a concrete input.
use ungula_hal.Base.{
  ℕ, zero, suc, ◌+◌, ◌≡◌, ◌≢◌, refl, Option, none, some, List, [], ◌∷◌, ◌++◌, arith,
}
use ungula_hal.Sync
use ungula_hal.Sync.Host
use ungula_hal.Sync.Port.{Spinlock, Laws}
use ungula_hal.Sync.Threads.{inside, gone, run, start, play, step, move, try_lock, put}
use ungula_hal.Sync.Phases.{times, is_gone}
use ungula_hal.Sync.Serial.{run_serial}

abbrev taken_by : ℕ → Option ℕ → Option (Option ℕ)
taken_by t none = some (some t)
taken_by t (some u) = none

-- A lock that knows its holder.
abbrev spinlock : Spinlock
spinlock = record { Mux = Option ℕ; unlocked = none; enter = taken_by; exit = λ t m. none }

taken_by-none : (t : ℕ) (m : Option ℕ) → m ≡ none → taken_by t m ≡ some (some t)
taken_by-none t none e = refl
taken_by-none t (some u) e = absurd (ground (arith, e))

taken_by-some : (t u : ℕ) (m : Option ℕ) → m ≡ some u → taken_by t m ≡ none
taken_by-some t u none e = absurd (ground (arith, e))
taken_by-some t u (some v) e = refl

abbrev laws : Laws spinlock
laws = record {
  holder = λ m. m;
  unlocked_free = refl;
  granted = λ t m e. (some t, taken_by-none t m e, refl);
  refused = λ t u m e a. taken_by-some t u m e;
  freed = λ t m e. refl;
}

-- The stub as a lock.
abbrev stub : Spinlock
stub = record {
  Mux = Host.CriticalSection;
  unlocked = record {};
  enter = Host.enter;
  exit = Host.exit;
}

-- The counter, and what each caller has read of it.
abbrev Memory : Type 0
Memory = ℕ × ℕ × ℕ

abbrev increment : ℕ → List (Memory → Memory)
increment zero = (λ (c, a, b). (c, c, b)) ∷ (λ (c, a, b). (a + 1, a, b)) ∷ []
increment (suc n) = (λ (c, a, b). (c, a, c)) ∷ (λ (c, a, b). (b + 1, a, b)) ∷ []

-- The callers take turns.
abbrev turns : List ℕ
turns = 0 ∷ 1 ∷ 0 ∷ 1 ∷ 0 ∷ 1 ∷ 0 ∷ 1 ∷ 1 ∷ 1 ∷ 1 ∷ []

both_counted :
    (run spinlock increment turns (start spinlock increment (5, 0, 0))).shared ≡ (7, 5, 6)
unfolding run step move try_lock put Sync.scoped_lock Sync.enter Sync.leave_scope Sync.exit
both_counted = refl

one_lost : (run stub increment turns (start stub increment (5, 0, 0))).shared ≡ (6, 5, 5)
unfolding run step move try_lock put Sync.scoped_lock Sync.enter Sync.leave_scope Sync.exit
    Host.enter Host.exit
one_lost = refl

run_serial_example :
    let s = run spinlock increment turns (start spinlock increment (5, 0, 0)) in
    ((t u : ℕ) (fs gs : List (Memory → Memory))
      → s.phase t ≡ inside fs
      → s.phase u ≡ inside gs
      → t ≡ u)
    × ((order : List ℕ) × ((t : ℕ) → times t order ≡ is_gone (s.phase t))
        × (((t : ℕ) (fs : List (Memory → Memory)) → s.phase t ≢ inside fs)
            → s.shared ≡ play spinlock increment order (5, 0, 0)))
    × ((t : ℕ)
        → (more : List ℕ) × ((run spinlock increment
                (turns ++ more)
                (start spinlock increment (5, 0, 0))).phase
              t
            ≡ gone))
run_serial_example = run_serial laws increment (5, 0, 0) turns
