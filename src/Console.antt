-- ===== src/Console.antt =====
-- src/ungula/hal/console: the serial console of console.cpp over the UART. `Editor` is what a line is, as a
-- function of the keys, and `Refine` sets `readLine` against it.
pub mod Editor
pub mod Terminal
pub mod Refine
pub mod Typing
mod Tests
use ungula_hal.Base.{
  ℕ, zero, suc, ◌+◌, ◌-◌, Bool, true, false, List, [], ◌∷◌, ◌||◌, ltb, ◌==◌, if◌then◌else◌, get_or,
  set,
}
use ungula_hal.Base.Int.{ℤ, pos, negsuc}
use ungula_hal.Uart
use ungula_hal.Uart.{Driver, Uart}

pub record ConsoleConfig : Type 0 where
  pub port : ℕ
  pub tx_pin : ℕ
  pub rx_pin : ℕ
  pub baud : ℕ

pub record Console : Type 0 where
  pub cfg : ConsoleConfig
  pub uart : Uart
  pub line : List ℕ  -- char[DEFAULT_LINE_MAX + 1]
  pub line_len : ℕ

abbrev pub default_line_max : ℕ
default_line_max = 80

abbrev default_rx_buf : ℕ
default_rx_buf = 256

-- A text up to its terminating zero, as `strlen` measures it.
unfoldable pub up_to_zero : List ℕ → List ℕ
up_to_zero [] = []
up_to_zero (c ∷ cs) = if c == 0 then [] else c ∷ up_to_zero cs

abbrev pub new_line : List ℕ
new_line = 13 ∷ 10 ∷ []

abbrev pub rub_out : List ℕ
rub_out = 8 ∷ 32 ∷ 8 ∷ []

abbrev pub is_enter : ℕ → Bool
is_enter c = c == 13 || c == 10

abbrev pub is_erase : ℕ → Bool
is_erase c = c == 8 || c == 127

-- What `readLine` returns: a null pointer, or the line buffer. `out_of_fuel` is not a result of the
-- code: the loop was cut off.
pub data LineResult : Type 0 where
  out_of_fuel still_open : LineResult
  line_done : List ℕ → LineResult

abbrev pub byte_read : ℤ → List ℕ → ℤ
byte_read (pos n) bs = if n == 1 then pos (get_or bs 0 0) else negsuc 0
byte_read (negsuc n) bs = negsuc 0

module _ (d : Driver) where
  unfoldable pub begin : Console → d.Hw → Bool × Console × d.Hw
  begin c w =
      let (done, u, w') =
        Uart.begin d c.cfg.baud c.cfg.tx_pin c.cfg.rx_pin default_rx_buf 0 c.uart w in
      (done, record c { uart = u }, w')

  unfoldable pub read_char : Console → d.Hw → ℤ × d.Hw
  read_char c w = let (n, bs, w') = Uart.read d 1 0 c.uart w in (byte_read n bs, w')

  unfoldable pub echo : ℕ → Console → d.Hw → d.Hw
  echo ch c w = (Uart.write d (ch ∷ []) c.uart w).1

  unfoldable pub write : List ℕ → Console → d.Hw → d.Hw
  unfolding up_to_zero
  write str c w = (Uart.write d (up_to_zero str) c.uart w).1

  unfoldable pub flush_input : Console → d.Hw → d.Hw
  flush_input c w = Uart.flush_input d c.uart w

  -- The body of the loop for a key other than Enter.
  unfoldable pub take_key : ℕ → Console → d.Hw → Console × d.Hw
  take_key ch c w =
      if is_erase ch
      then (if ltb 0 c.line_len
          then (record c { line_len = c.line_len - 1 }, write rub_out c w)
          else (c, w))
      else if ltb c.line_len default_line_max
      then (record c { line = set c.line c.line_len ch; line_len = c.line_len + 1 }, echo ch c w)
      else (c, w)

  -- Enter.
  unfoldable pub end_line : Console → d.Hw → LineResult × Console × d.Hw
  end_line c w =
      let line = set c.line c.line_len 0 in
      (line_done line, record c { line = line; line_len = 0 }, write new_line c w)

  -- One turn of the loop; `again` is the rest of it.
  unfoldable pub on_char :
      (Console → d.Hw → LineResult × Console × d.Hw)
      → ℤ
      → Console
      → d.Hw
      → LineResult × Console × d.Hw
  unfolding take_key end_line
  on_char again (negsuc n) c w = (still_open, c, w)
  on_char again (pos ch) c w =
      if is_enter ch then end_line c w else (let (c', w') = take_key ch c w in again c' w')

  unfoldable pub read_line : ℕ → Console → d.Hw → LineResult × Console × d.Hw
  unfolding on_char
  read_line zero c w = (out_of_fuel, c, w)
  read_line (suc fuel) c w = let (ch, w') = read_char c w in on_char (read_line fuel) ch c w'
