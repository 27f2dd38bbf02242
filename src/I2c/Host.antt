-- ===== src/I2c/Host.antt =====
-- src/ungula/hal/i2c/platforms/i2c_master_default.cpp, the stub for host builds: no bytes move.
use ungula_hal.Base.{Bool, true, false, if◌then◌else◌}
use ungula_hal.I2c.{I2cMaster}

unfoldable pub begin : I2cMaster → Bool × I2cMaster
begin m = if m.installed then (false, m) else (true, record m { installed = true })

unfoldable pub write : I2cMaster → Bool
write m = m.installed

unfoldable pub read : I2cMaster → Bool
read m = m.installed

unfoldable pub write_read : I2cMaster → Bool
write_read m = m.installed
