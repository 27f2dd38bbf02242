-- ===== src/Esp.antt =====
-- `esp_err_t` of ESP-IDF, as far as the repository tells its values apart.
use ungula_hal.Base.{Bool, true, false}

pub data EspErr : Type 0 where
  ok invalid_state timeout failed : EspErr

-- `err == ESP_OK`.
abbrev pub is_ok : EspErr → Bool
is_ok ok = true
is_ok invalid_state = false
is_ok timeout = false
is_ok failed = false
