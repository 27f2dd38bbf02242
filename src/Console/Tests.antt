-- ===== src/Console/Tests.antt =====
-- Tests of src/ungula/hal/console on a driver that holds its pending and its sent bytes, and the theorems
-- at concrete inputs.
use ungula_hal.Base.{
  ℕ, ◌≡◌, refl, true, List, [], ◌∷◌, ◌++◌, arith, length, take, get_or, replicate,
}
use ungula_hal.Base.Int.{ℤ, pos}
use ungula_hal.Uart
use ungula_hal.Uart.{Driver}
use ungula_hal.Console.{
  Console, LineResult, still_open, line_done, read_line, on_char, take_key, end_line, read_char,
  echo, write, up_to_zero,
}
use ungula_hal.Console.Editor.{edit}
use ungula_hal.Console.Refine.{Agrees, read_line-Agrees}
use ungula_hal.Console.Terminal.{IsTerminal, IsReady}
use ungula_hal.Console.Typing.{read_line-plain}

record Model : Type 0 where
  pub pending : List ℕ
  pub sent : List ℕ

abbrev take_byte : List ℕ → Model → ℤ × List ℕ × Model
take_byte [] w = (pos 0, [], record w { pending = [] })
take_byte (b ∷ bs) w = (pos 1, b ∷ [], record w { pending = bs })

abbrev model : Driver
model = record {
  Hw = Model;
  ms_to_ticks = λ n. n;
  param_config = λ p b w. (true, w);
  set_pin = λ p t r w. (true, w);
  install = λ p r t w. (true, w);
  uninstall = λ p w. w;
  write_bytes = λ p bs w. (pos (length bs), record w { sent = w.sent ++ bs });
  read_bytes = λ p n t w. take_byte w.pending w;
  wait_tx_done = λ p t w. w;
  flush_rx = λ p w. record w { pending = [] };
}

takes_none :
    (q : List ℕ) (w : Model)
    → q ≡ []
    → let (n, bs, w') = take_byte q w in (n ≡ pos 0) × (w'.pending ≡ []) × (w'.sent ≡ w.sent)
takes_none [] w h = (refl, refl, refl)
takes_none (b ∷ bs) w h = absurd (ground (arith, h))

takes_some :
    (q : List ℕ) (b : ℕ) (bs : List ℕ) (w : Model)
    → q ≡ b ∷ bs
    → let (n, got, w') = take_byte q w in
      (n ≡ pos 1) × (got ≡ b ∷ []) × (w'.pending ≡ bs) × (w'.sent ≡ w.sent)
takes_some [] b bs w h = absurd (ground (arith, h))
takes_some (c ∷ cs) b bs w h = ground (arith, h)

abbrev terminal : IsTerminal model 0
terminal = record {
  pending = λ w. w.pending;
  sent = λ w. w.sent;
  read_none = λ w h. takes_none w.pending w h;
  read_some = λ b bs w h. takes_some w.pending b bs w h;
  written = λ bs w. (refl, refl);
}

abbrev console : Console
console = record {
  cfg = record { port = 0; tx_pin = 1; rx_pin = 3; baud = 115200 };
  uart = record { port = 0; installed = true };
  line = replicate 81 0;
  line_len = 0;
}

-- "ab", backspace, "c", Enter, "d".
abbrev typing : Model
typing = record { pending = 97 ∷ 98 ∷ 8 ∷ 99 ∷ 13 ∷ 100 ∷ []; sent = [] }

abbrev line_of : LineResult → List ℕ
line_of (line_done buf) = buf
line_of r = []

corrects : take 3 (line_of (read_line model 10 console typing).0) ≡ 97 ∷ 99 ∷ 0 ∷ []
unfolding read_line on_char take_key end_line read_char echo write up_to_zero Uart.read Uart.write
corrects = refl

left_open : (read_line model 10 console (record typing { pending = 97 ∷ [] })).0 ≡ still_open
unfolding read_line on_char take_key end_line read_char echo write up_to_zero Uart.read Uart.write
left_open = refl

console-IsReady : IsReady 0 console
console-IsReady = record { has_uart = refl; at_port = refl; size = refl; fit = omega arith }

read_line-Agrees_example :
    Agrees terminal
      (edit [] (97 ∷ 98 ∷ 8 ∷ 99 ∷ 13 ∷ 100 ∷ []))
      typing
      (read_line model 10 console typing)
read_line-Agrees_example = read_line-Agrees terminal 10 console typing console-IsReady (omega arith)

abbrev plain : Model
plain = record { pending = 97 ∷ 98 ∷ 13 ∷ 100 ∷ []; sent = [] }

read_line-plain_example :
    let (r, c', w') = read_line model 10 console plain in
    ((buf : List ℕ) × (r ≡ line_done buf) × (take 2 buf ≡ 97 ∷ 98 ∷ []) × (get_or buf 2 1 ≡ 0))
    × (c'.line_len ≡ 0)
    × (w'.pending ≡ 100 ∷ [])
    × (w'.sent ≡ 97 ∷ 98 ∷ 13 ∷ 10 ∷ [])
read_line-plain_example =
    read_line-plain terminal 10 console plain (97 ∷ 98 ∷ []) (100 ∷ []) console-IsReady refl refl
      (refl, refl, (refl, refl, tt)) (omega arith) (omega arith)
