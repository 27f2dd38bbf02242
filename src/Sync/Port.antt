-- ===== src/Sync/Port.antt =====
-- The spinlock of FreeRTOS that src/ungula/hal/sync/platforms/critical_section_esp32.h wraps.
use ungula_hal.Base.{ℕ, ◌≡◌, ◌≢◌, Option, none, some}

-- `portMUX_TYPE` with its initialiser for an unlocked one. `enter`, as `portENTER_CRITICAL_SAFE`, is one try of
-- a caller, a task or an interrupt handler named by a number: `none` leaves it spinning. `exit` is
-- `portEXIT_CRITICAL_SAFE`.
pub record Spinlock : Type 1 where
  pub Mux : Type 0
  pub unlocked : Mux
  pub enter : ℕ → Mux → Option Mux
  pub exit : ℕ → Mux → Mux

-- What is documented of it: a free lock is granted to the caller that tries, one that another caller holds
-- is not, and its holder frees it.
pub record Laws (p : Spinlock) : Type 0 where
  pub holder : p.Mux → Option ℕ
  pub unlocked_free : holder p.unlocked ≡ none
  pub granted :
      (t : ℕ) (m : p.Mux)
      → holder m ≡ none
      → (m' : p.Mux) × (p.enter t m ≡ some m') × (holder m' ≡ some t)
  pub refused : (t u : ℕ) (m : p.Mux) → holder m ≡ some u → t ≢ u → p.enter t m ≡ none
  pub freed : (t : ℕ) (m : p.Mux) → holder m ≡ some t → holder (p.exit t m) ≡ none
