-- ===== src/Gpio/IsrService.antt =====
-- `installIsrService` of src/ungula/hal/gpio/platforms/gpio_esp32.h: one process-wide atomic guards a
-- driver call that must not be made twice. Here for one caller; `Threads` interleaves many.
pub mod Threads
pub mod Progress
use ungula_hal.Esp.{EspErr, ok, invalid_state, timeout}
use ungula_hal.Esp
use ungula_hal.Gpio.Driver.{Driver}
use ungula_hal.Gpio.{IsrServiceInstall, installed, already_installed, failed}

-- `kNotInstalled`, `kInstalling`, `kInstalled`.
pub data Guard : Type 0 where
  vacant installing settled : Guard

-- What the caller that won the exchange does with the driver's result.
unfoldable pub settle : EspErr → IsrServiceInstall × Guard
settle ok = (installed, settled)
settle invalid_state = (already_installed, settled)
settle timeout = (failed, vacant)
settle Esp.EspErr.failed = (failed, vacant)

-- A call that no other call overlaps, so that the guard is never found at `kInstalling`: there the
-- code waits for the call that set it, and does not return. The driver is called only where the guard
-- is vacant.
module _ (d : Driver) where
  unfoldable pub install : Guard → d.Hw → IsrServiceInstall × Guard × d.Hw
  unfolding settle
  install vacant w =
      let (err, w') = d.install_isr_service w in let (r, g) = settle err in (r, g, w')
  install installing w = (already_installed, installing, w)
  install settled w = (already_installed, settled, w)
