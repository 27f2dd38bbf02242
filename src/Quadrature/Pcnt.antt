-- ===== src/Quadrature/Pcnt.antt =====
-- What src/ungula/hal/quadrature/platforms/decoder_esp32.cpp calls of ESP-IDF's pulse counter, over an
-- abstract state.
use ungula_hal.Base.{ℕ, Bool, Option}
use ungula_hal.Base.Int.{ℤ}

-- `pcnt_channel_edge_action_t` and `pcnt_channel_level_action_t`, as far as the code uses them.
pub data EdgeAction : Type 0 where
  increase decrease : EdgeAction

pub data LevelAction : Type 0 where
  keep inverse : LevelAction

-- What a channel does on a rising and on a falling edge, and how a high and a low level change that.
pub record Actions : Type 0 where
  pub rise : EdgeAction
  pub fall : EdgeAction
  pub high : LevelAction
  pub low : LevelAction

-- An allocation returns its handle, or `none` where it fails. A unit is made with its high and its low
-- limit and with its accumulator on or off, a channel with its edge and its level pin.
pub record Driver : Type 1 where
  pub Hw : Type 0
  pub UnitHandle : Type 0
  pub Channel : Type 0
  pub new_unit : ℤ → ℤ → Bool → Hw → Option UnitHandle × Hw
  pub new_channel : UnitHandle → ℕ → ℕ → Hw → Option Channel × Hw
  pub set_edge_action : Channel → EdgeAction → EdgeAction → Hw → Hw
  pub set_level_action : Channel → LevelAction → LevelAction → Hw → Hw
  pub enable : UnitHandle → Hw → Hw
  pub disable : UnitHandle → Hw → Hw
  pub clear_count : UnitHandle → Hw → Hw
  pub start : UnitHandle → Hw → Hw
  pub stop : UnitHandle → Hw → Hw
  pub get_count : UnitHandle → Hw → ℤ
  pub del_channel : Channel → Hw → Hw
  pub del_unit : UnitHandle → Hw → Hw
