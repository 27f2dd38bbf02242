-- ===== src/Adc.antt =====
-- src/ungula/hal/adc: the ADC manager of platforms/adc_manager_esp32.cpp with the state of
-- platforms/adc_manager_esp32.h.
pub mod Oneshot
pub mod Convert
pub mod Manager
pub mod Host
mod Tests
