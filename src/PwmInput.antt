-- ===== src/PwmInput.antt =====
-- src/ungula/hal/pwm_input: single-pin PWM capture. `Edge` is the interrupt handler and `Measure` what
-- it measures; `Esp32` the object around it (platforms/pwm_input_esp32.cpp), `Fake`
-- drivers/pwm_input_fake.h and `Host` platforms/pwm_input_default.cpp.
pub mod Edge
pub mod Measure
pub mod Esp32
pub mod Fake
pub mod Host
mod Tests
