-- ===== src/I2c/Link.antt =====
-- What src/ungula/hal/i2c/platforms/i2c_master_esp32.cpp calls of ESP-IDF's I2C driver, over an abstract
-- state.
use ungula_hal.Base.{ℕ, Bool, Option, List}

pub data Ack : Type 0 where
  ack nack : Ack

-- The calls that build a command link. A write says whether each byte must be acknowledged; a read says
-- where in the buffer its bytes go, and what the master answers to each.
pub data Command : Type 0 where
  start stop : Command
  write_byte : ℕ → Bool → Command
  write_bytes : List ℕ → Bool → Command
  read_bytes : ℕ → ℕ → Ack → Command
  read_byte : ℕ → Ack → Command

-- `param_config` takes the port, the pins SDA and SCL, both with their pull-ups, and the frequency of a
-- master; `install` makes a master of a port. `cmd_begin` runs a link, given the calls that built it in their order, and returns whether every byte was
-- acknowledged in time, with the read buffer. The bits are I2C_MASTER_WRITE and I2C_MASTER_READ.
pub record Driver : Type 1 where
  pub Hw : Type 0
  pub write_bit : ℕ
  pub read_bit : ℕ
  pub ms_to_ticks : ℕ → ℕ
  pub param_config : ℕ → ℕ → ℕ → ℕ → Hw → Bool × Hw
  pub install : ℕ → Hw → Bool × Hw
  pub delete : ℕ → Hw → Hw
  pub cmd_begin : ℕ → List Command → ℕ → Option (List ℕ) → Hw → Bool × Option (List ℕ) × Hw
