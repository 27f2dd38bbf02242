-- ===== src/Sync/Threads.antt =====
-- Callers that share a `CriticalSection` of src/ungula/hal/sync: each makes a `ScopedLock` of
-- src/ungula/hal/sync/critical_section.h, works on shared data in single steps, and leaves the scope.
use ungula_hal.Base.{ℕ, ◌==◌, Option, none, some, List, [], ◌∷◌, if◌then◌else◌}
use ungula_hal.Sync.Port.{Spinlock}
use ungula_hal.Sync.{CriticalSection, scoped_lock, leave_scope, fresh}

-- Where a caller stands: before the lock, in the scope with the work that is left, or past it.
pub data Phase (W : Type 0) : Type 0 where
  waiting : Phase W
  inside : List (W → W) → Phase W
  gone : Phase W

pub record State (p : Spinlock) (W : Type 0) : Type 0 where
  pub section : CriticalSection p
  pub phase : ℕ → Phase W
  pub shared : W

-- Work on the data, its first step first.
unfoldable pub apply : {W : Type 0} → List (W → W) → W → W
apply [] x = x
apply (f ∷ fs) x = apply fs (f x)

-- A caller's new place among those of all.
unfoldable pub put : {W : Type 0} → ℕ → Phase W → (ℕ → Phase W) → ℕ → Phase W
put t q phase u = if u == t then q else phase u

module _ (p : Spinlock) {W : Type 0} (body : ℕ → List (W → W)) where
  unfoldable pub try_lock :
      ℕ → Option (CriticalSection p) → CriticalSection p → W → Phase W × CriticalSection p × W
  try_lock t none c x = (waiting, c, x)
  try_lock t (some c') c x = (inside (body t), c', x)

  unfoldable pub move : ℕ → Phase W → CriticalSection p → W → Phase W × CriticalSection p × W
  unfolding try_lock
  move t waiting c x = try_lock t (scoped_lock p t c) c x
  move t (inside (f ∷ fs)) c x = (inside fs, c, f x)
  move t (inside []) c x = (gone, leave_scope p t c, x)
  move t gone c x = (gone, c, x)

  unfoldable pub step : ℕ → State p W → State p W
  unfolding move put
  step t s =
      let (q, c, x) = move t (s.phase t) s.section s.shared in
      record { section = c; phase = put t q s.phase; shared = x }

  -- A schedule: the callers in the order in which they move.
  unfoldable pub run : List ℕ → State p W → State p W
  unfolding step
  run [] s = s
  run (t ∷ ts) s = run ts (step t s)

  abbrev pub start : W → State p W
  start x = record { section = fresh p; phase = λ t. waiting; shared = x }

  -- The work of whole callers, the last one first.
  unfoldable pub play : List ℕ → W → W
  unfolding apply
  play [] x = x
  play (t ∷ ts) x = apply (body t) (play ts x)
