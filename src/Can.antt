-- ===== src/Can.antt =====
-- src/ungula/hal/can: the classic CAN controller. `Frame` holds the frames and their conversion to the
-- driver's messages, `Filter` the acceptance filter, `Twai` what is asked of ESP-IDF's driver, `Esp32`
-- the controller (platforms/can_esp32_twai.cpp), `Host` the stub (platforms/can_default.cpp).
pub mod Frame
pub mod Filter
pub mod Twai
pub mod Esp32
pub mod Host
mod Tests
