-- ===== src/Sync.antt =====
-- src/ungula/hal/sync: the class `CriticalSection` of platforms/critical_section_esp32.h over the spinlock of
-- FreeRTOS (`Port`), and `ScopedLock` of critical_section.h. A method takes the caller, and `none` is a try
-- that leaves it spinning. `Host` is platforms/critical_section_default.h.
pub mod Port
pub mod Host
pub mod Threads
pub mod Phases
pub mod Steps
pub mod Serial
mod Tests
use ungula_hal.Base.{ℕ, Option, none, some}
use ungula_hal.Sync.Port.{Spinlock}

pub record CriticalSection (p : Spinlock) : Type 0 where
  pub mux : p.Mux

module _ (p : Spinlock) where
  -- The constructor.
  abbrev pub fresh : CriticalSection p
  fresh = record { mux = p.unlocked }

  abbrev with_mux : Option p.Mux → Option (CriticalSection p)
  with_mux none = none
  with_mux (some m) = some (record { mux = m })

  unfoldable pub enter : ℕ → CriticalSection p → Option (CriticalSection p)
  enter caller c = with_mux (p.enter caller c.mux)

  unfoldable pub exit : ℕ → CriticalSection p → CriticalSection p
  exit caller c = record { mux = p.exit caller c.mux }

  -- `ScopedLock`: its constructor and its destructor.
  unfoldable pub scoped_lock : ℕ → CriticalSection p → Option (CriticalSection p)
  unfolding enter
  scoped_lock caller c = enter caller c

  unfoldable pub leave_scope : ℕ → CriticalSection p → CriticalSection p
  unfolding exit
  leave_scope caller c = exit caller c
