-- ===== src/Can/Twai.antt =====
-- What src/ungula/hal/can/platforms/can_esp32_twai.cpp calls of ESP-IDF's TWAI driver, over an abstract
-- state, and what the code relies on of it.
use ungula_hal.Base.{ℕ, ◌≡◌, ◌≢◌, Bool, true, false, Option, none, some, is_some}
use ungula_hal.Esp.{EspErr}
use ungula_hal.Can.Frame.{Message}
use ungula_hal.Can.Filter.{FilterConfig}

-- `twai_state_t`.
pub data TwaiState : Type 0 where
  stopped running bus_off recovering : TwaiState

-- The presets `TWAI_TIMING_CONFIG_25KBITS()` to `TWAI_TIMING_CONFIG_1MBITS()`.
pub data Timing : Type 0 where
  kbits_25 kbits_50 kbits_100 kbits_125 kbits_250 kbits_500 kbits_800 mbits_1 : Timing

-- A result of type `Bool` is `== ESP_OK`; `status` is `none` where `twai_get_status_info` fails.
pub record Driver : Type 1 where
  pub Hw : Type 0
  -- `TWAI_FILTER_CONFIG_ACCEPT_ALL()` and `pdMS_TO_TICKS`.
  pub accept_all : FilterConfig
  pub ms_to_ticks : ℕ → ℕ
  pub install : ℕ → ℕ → Timing → FilterConfig → Hw → Bool × Hw
  pub start : Hw → Bool × Hw
  pub stop : Hw → Bool × Hw
  pub uninstall : Hw → Bool × Hw
  pub transmit : Message → ℕ → Hw → Bool × Hw
  pub receive : ℕ → Hw → EspErr × Message × Hw
  pub status : Hw → Option TwaiState
  pub initiate_recovery : Hw → Bool × Hw

-- ESP-IDF's state machine of the driver: it is installed into `stopped`, started from there, stopped
-- only where it runs, and uninstalled only where it is stopped or off the bus; the status is refused
-- exactly where no driver is installed. `filter` is the filter in effect.
pub record Laws (d : Driver) : Type 0 where
  pub filter : d.Hw → FilterConfig
  pub install_ok :
      (tx rx : ℕ) (t : Timing) (f : FilterConfig) (w : d.Hw)
      → (d.install tx rx t f w).0 ≡ true
      → (d.status (d.install tx rx t f w).1 ≡ some stopped) × (filter (d.install tx rx t f w).1 ≡ f)
  pub install_failed :
      (tx rx : ℕ) (t : Timing) (f : FilterConfig) (w : d.Hw)
      → (d.install tx rx t f w).0 ≡ false
      → d.status (d.install tx rx t f w).1 ≡ d.status w
  pub start_ok :
      (w : d.Hw)
      → (d.start w).0 ≡ true
      → (d.status (d.start w).1 ≡ some running) × (filter (d.start w).1 ≡ filter w)
  pub start_failed : (w : d.Hw) → (d.start w).0 ≡ false → d.status (d.start w).1 ≡ d.status w
  pub stop_running : (w : d.Hw) → d.status w ≡ some running → d.status (d.stop w).1 ≡ some stopped
  pub stop_refused : (w : d.Hw) → d.status w ≢ some running → d.status (d.stop w).1 ≡ d.status w
  pub uninstall_stopped : (w : d.Hw) → d.status w ≡ some stopped → d.status (d.uninstall w).1 ≡ none
  pub uninstall_bus_off : (w : d.Hw) → d.status w ≡ some bus_off → d.status (d.uninstall w).1 ≡ none
  pub uninstall_refused :
      (w : d.Hw) → d.status w ≡ some recovering → d.status (d.uninstall w).1 ≡ some recovering
  pub transmit_keeps :
      (m : Message) (t : ℕ) (w : d.Hw)
      → is_some (d.status (d.transmit m t w).1) ≡ is_some (d.status w)
  pub receive_keeps :
      (t : ℕ) (w : d.Hw) → is_some (d.status (d.receive t w).2) ≡ is_some (d.status w)
  pub recovery_keeps :
      (w : d.Hw) → is_some (d.status (d.initiate_recovery w).1) ≡ is_some (d.status w)
