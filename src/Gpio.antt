-- ===== src/Gpio.antt =====
-- src/ungula/hal/gpio/platforms/gpio_esp32.h: the names that its parts share. `Host` is the stub of
-- platforms/gpio_default.h.
pub mod Driver
pub mod Config
pub mod Access
pub mod Sound
pub mod Pwm
pub mod IsrService
pub mod Host
mod Tests

pub data IsrServiceInstall : Type 0 where
  installed already_installed failed : IsrServiceInstall
