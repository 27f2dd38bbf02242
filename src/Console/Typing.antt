-- ===== src/Console/Typing.antt =====
-- A line that is typed without corrections, through `readLine` of src/ungula/hal/console/console.cpp.
use ungula_hal.Base.{
  ℕ, ◌+◌, ◌≤◌, ◌<◌, ◌≡◌, ap, refl, true, false, some, List, [], ◌∷◌, ◌++◌, append_assoc, append-nil,
  arith, ltb, length, take, get_or, length-append, length-take, length-take,
}
use ungula_hal.Uart.{Driver}
use ungula_hal.Console.{
  Console, LineResult, out_of_fuel, still_open, line_done, read_line, is_enter, is_erase, new_line,
  default_line_max,
}
use ungula_hal.Console.Editor.{edit, press}
use ungula_hal.Console.Refine.{Returns, Agrees, read_line-Agrees}
use ungula_hal.Console.Terminal.{IsTerminal, IsReady, typed}

-- Keys that are characters of the line.
abbrev pub ArePlain : List ℕ → Type 0
ArePlain [] = Unit {0}
ArePlain (c ∷ cs) = (is_enter c ≡ false) × (is_erase c ≡ false) × ArePlain cs

edit-plain :
    (text keys rest : List ℕ)
    → ArePlain keys
    → length text + length keys ≤ default_line_max
    → edit text (keys ++ (13 ∷ rest))
      ≡ record { line = some (text ++ keys); text = []; rest = rest; sent = keys ++ new_line }
unfolding edit press
edit-plain text [] rest h k = rw (append-nil text) refl
edit-plain text (c ∷ cs) rest h k =
    let ih =
      edit-plain (text ++ (c ∷ [])) cs rest h.2 (omega (arith, length-append text (c ∷ []), k)) in
    let room : ltb (length text) default_line_max ≡ true = ground (arith, k) in
    rw (h.0, h.1, room, ih, append_assoc text (c ∷ []) cs) refl

module _ {d : Driver} {port : ℕ} (t : IsTerminal d port) where
  Returns-done :
      (line : List ℕ) (x : LineResult)
      → Returns t (some line) x
      → (buf : List ℕ) × (x ≡ line_done buf)
        × (take (length line) buf ≡ line)
        × (get_or buf (length line) 1 ≡ 0)
  Returns-done line out_of_fuel h = absurd h
  Returns-done line still_open h = absurd h
  Returns-done line (line_done buf) h = (buf, refl, h.0, h.1)

  -- A line of at most 80 plain characters that is typed from an empty one, and ended by Enter, is what
  -- `readLine` returns, in front of a zero; the characters and a new line are echoed, the keys behind
  -- Enter stay pending, and the next line starts empty.
  pub read_line-plain :
      (fuel : ℕ) (c : Console) (w : d.Hw) (keys rest : List ℕ)
      → IsReady port c
      → c.line_len ≡ 0
      → t.pending w ≡ keys ++ (13 ∷ rest)
      → ArePlain keys
      → length keys ≤ default_line_max
      → length (t.pending w) < fuel
      → let (r, c', w') = read_line d fuel c w in
        ((buf : List ℕ) × (r ≡ line_done buf)
          × (take (length keys) buf ≡ keys)
          × (get_or buf (length keys) 1 ≡ 0))
        × (c'.line_len ≡ 0)
        × (t.pending w' ≡ rest)
        × (t.sent w' ≡ t.sent w ++ (keys ++ new_line))
  read_line-plain fuel c w keys rest v empty p plain short k =
      let nothing : typed c ≡ [] = ap (λ n. take n c.line) empty in
      let typed_keys : edit (typed c) (t.pending w)
          ≡ record { line = some keys; text = []; rest = rest; sent = keys ++ new_line } =
        rw (nothing, p) (edit-plain [] keys rest plain (omega (arith, short))) in
      let a : Agrees t
          (record { line = some keys; text = []; rest = rest; sent = keys ++ new_line }) w
          (read_line d fuel c w) =
        rw⁻¹ typed_keys (read_line-Agrees t fuel c w v k) in
      let n =
        length-take (read_line d fuel c w).1.line_len (read_line d fuel c w).1.line
          (omega (arith, a.ready.fit, a.ready.size)) in
      (
        Returns-done keys (read_line d fuel c w).0 a.result,
        omega (arith, n, ap length a.text),
        a.rest,
        a.sent,
      )
