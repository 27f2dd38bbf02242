-- ===== src/Console/Terminal.antt =====
-- The terminal at the UART of src/ungula/hal/console/console.cpp: what is pending, what is sent, and what the
-- text of the line is.
use ungula_hal.Base.{
  ℕ, zero, suc, ◌-◌, ◌≤◌, ◌<◌, ◌≡◌, ap, sym, refl, true, List, [], ◌∷◌, ◌++◌, append-nil, arith,
  ltb, if◌then◌else◌, length, take, length-take,
}
use ungula_hal.Base.Int.{pos}
use ungula_hal.Uart
use ungula_hal.Uart.{Driver, Uart}
use ungula_hal.Console.{Console, echo, write, is_erase, new_line, rub_out, default_line_max}
use ungula_hal.Console.Editor.{press, drop_last}

-- What the console relies on of the driver at its port: a read of one byte that does not wait takes the
-- next byte, or reports 0 where none is pending, and a write sends its bytes.
pub record IsTerminal (d : Driver) (port : ℕ) : Type 0 where
  pub pending : d.Hw → List ℕ
  pub sent : d.Hw → List ℕ
  pub read_none :
      (w : d.Hw)
      → pending w ≡ []
      → let (n, bs, w') = d.read_bytes port 1 0 w in
        (n ≡ pos 0) × (pending w' ≡ []) × (sent w' ≡ sent w)
  pub read_some :
      (b : ℕ) (bs : List ℕ) (w : d.Hw)
      → pending w ≡ b ∷ bs
      → let (n, got, w') = d.read_bytes port 1 0 w in
        (n ≡ pos 1) × (got ≡ b ∷ []) × (pending w' ≡ bs) × (sent w' ≡ sent w)
  pub written :
      (bytes : List ℕ) (w : d.Hw)
      → let (n, w') = d.write_bytes port bytes w in
        (pending w' ≡ pending w) × (sent w' ≡ sent w ++ bytes)

-- The console has its UART, and its line within the buffer.
pub record IsReady (port : ℕ) (c : Console) : Type 0 where
  pub has_uart : c.uart.installed ≡ true
  pub at_port : c.uart.port ≡ port
  pub size : length c.line ≡ 81
  pub fit : c.line_len ≤ default_line_max

-- What is typed of the line.
abbrev pub typed : Console → List ℕ
typed c = take c.line_len c.line

drop_last-take : (n : ℕ) (xs : List ℕ) → n < length xs → drop_last (take (suc n) xs) ≡ take n xs
drop_last-take n [] h = absurd (omega arith)
drop_last-take zero (x ∷ xs) h = refl
drop_last-take (suc n) (x ∷ []) h = absurd (omega arith)
drop_last-take (suc n) (x ∷ y ∷ xs) h = ap (λ t. x ∷ t) (drop_last-take n (y ∷ xs) (omega arith))

-- A key on the first `n` bytes of a buffer, in the terms of the code.
pub press-take :
    (ch n : ℕ) (line : List ℕ)
    → length line ≡ 81
    → n ≤ default_line_max
    → press ch (take n line) ≡ (
        if is_erase ch
        then (if ltb 0 n then (take (n - 1) line, rub_out) else (take n line, []))
        else if ltb n default_line_max
        then (take n line ++ (ch ∷ []), ch ∷ [])
        else (take n line, []))
unfolding press
press-take ch zero line h k = refl
press-take ch (suc n) [] h k = absurd (omega arith)
press-take ch (suc n) (x ∷ xs) h k =
    let one_less : suc n - 1 ≡ n = omega arith in
    rw one_less
      (ground (arith, drop_last-take n (x ∷ xs) (omega arith), length-take n xs (omega arith)))

module _ {d : Driver} {port : ℕ} (t : IsTerminal d port) where
  -- A write of the console reaches the terminal, and takes nothing of the input.
  abbrev pub Sends : d.Hw → d.Hw → List ℕ → Type 0
  Sends w w' bytes = (t.pending w' ≡ t.pending w) × (t.sent w' ≡ t.sent w ++ bytes)

  uart_write-Sends :
      (bytes : List ℕ) (c : Console) (w : d.Hw)
      → IsReady port c
      → Sends w (Uart.write d bytes c.uart w).1 bytes
  unfolding Uart.write
  uart_write-Sends bytes c w v = rw (v.has_uart, v.at_port) (t.written bytes w)

  pub echo-Sends :
      (ch : ℕ) (c : Console) (w : d.Hw) → IsReady port c → Sends w (echo d ch c w) (ch ∷ [])
  unfolding echo
  echo-Sends ch c w v = uart_write-Sends (ch ∷ []) c w v

  pub rub_out-Sends :
      (c : Console) (w : d.Hw) → IsReady port c → Sends w (write d rub_out c w) rub_out
  unfolding write
  rub_out-Sends c w v = uart_write-Sends rub_out c w v

  pub new_line-Sends :
      (c : Console) (w : d.Hw) → IsReady port c → Sends w (write d new_line c w) new_line
  unfolding write
  new_line-Sends c w v = uart_write-Sends new_line c w v

  pub nothing-Sends : (w : d.Hw) → Sends w w []
  nothing-Sends w = (refl, sym (append-nil (t.sent w)))
