-- ===== src/Sync/Host.antt =====
-- src/ungula/hal/sync/platforms/critical_section_default.h: the stub of host builds, which has no state and
-- excludes nobody.
use ungula_hal.Base.{ℕ, Option, some}

pub record CriticalSection : Type 0 where

unfoldable pub enter : ℕ → CriticalSection → Option CriticalSection
enter caller c = some c

unfoldable pub exit : ℕ → CriticalSection → CriticalSection
exit caller c = c
