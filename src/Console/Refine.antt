-- ===== src/Console/Refine.antt =====
-- `readLine` of src/ungula/hal/console/console.cpp does what the editor does, on a driver that hands out the
-- bytes that are pending when it is called.
use ungula_hal.Base.{
  ℕ, zero, suc, ◌+◌, ◌<◌, ◌≡◌, ◌∙◌, sym, refl, Option, none, some, List, [], ◌∷◌, ◌++◌, append-nil,
  append_assoc, arith, ltb, length, take, get_or, length-take, length-set, take-set, take-set_self,
  get_or-set_self, Bool-cases, inl, inr,
}
use ungula_hal.Base.Int.{pos, negsuc}
use ungula_hal.Uart
use ungula_hal.Uart.{Driver, Uart}
use ungula_hal.Console.{
  Console, LineResult, out_of_fuel, still_open, line_done, read_char, take_key, end_line, on_char,
  read_line, is_enter, is_erase, new_line, default_line_max,
}
use ungula_hal.Console.Editor.{Edited, edit, press}
use ungula_hal.Console.Terminal.{
  IsTerminal, IsReady, typed, press-take, Sends, echo-Sends, rub_out-Sends, new_line-Sends,
  nothing-Sends,
}

module _ {d : Driver} {port : ℕ} (t : IsTerminal d port) where
  -- A key does to the console what it does to the text.
  record Presses (ch : ℕ) (c : Console) (w : d.Hw) (r : Console × d.Hw) : Type 0 where
    ready : IsReady port r.0
    text : typed r.0 ≡ (press ch (typed c)).0
    sends : Sends t w r.1 (press ch (typed c)).1

  take_key-Presses :
      (ch : ℕ) (c : Console) (w : d.Hw) → IsReady port c → Presses ch c w (take_key d ch c w)
  unfolding take_key
  take_key-Presses ch c w v =
      let p = press-take ch c.line_len c.line v.size v.fit in
      elim (Bool-cases (is_erase ch)) [
        | inl e ↦ elim (Bool-cases (ltb 0 c.line_len)) [
          | inl q ↦
              rw (e, q)
                (record {
                  ready = record {
                    has_uart = v.has_uart;
                    at_port = v.at_port;
                    size = v.size;
                    fit = omega (arith, v.fit);
                  };
                  text = rw (p, e, q) refl;
                  sends = rw (p, e, q) (rub_out-Sends t c w v);
                })
          | inr q ↦
              rw (e, q)
                (record {
                  ready = v;
                  text = rw (p, e, q) refl;
                  sends = rw (p, e, q) (nothing-Sends t w);
                })
        ]
        | inr e ↦ elim (Bool-cases (ltb c.line_len default_line_max)) [
          | inl q ↦
              let room : c.line_len < length c.line = ground (arith, q, v.size) in
              let one_more : c.line_len + 1 ≡ suc c.line_len = omega arith in
              rw (e, q)
                (record {
                  ready = record {
                    has_uart = v.has_uart;
                    at_port = v.at_port;
                    size = length-set c.line c.line_len ch ∙ v.size;
                    fit = ground (arith, q);
                  };
                  text = rw (p, e, q, one_more) (take-set c.line c.line_len ch room);
                  sends = rw (p, e, q) (echo-Sends t ch c w v);
                })
          | inr q ↦
              rw (e, q)
                (record {
                  ready = v;
                  text = rw (p, e, q) refl;
                  sends = rw (p, e, q) (nothing-Sends t w);
                })
        ]
      ]

  -- What `readLine` may return for a line of the editor: a null pointer where none was ended, and
  -- otherwise the buffer with the line in front of a zero.
  abbrev pub Returns : Option (List ℕ) → LineResult → Type 0
  Returns none out_of_fuel = ⊥
  Returns none still_open = Unit {0}
  Returns none (line_done buf) = ⊥
  Returns (some line) out_of_fuel = ⊥
  Returns (some line) still_open = ⊥
  Returns (some line) (line_done buf) =
      (take (length line) buf ≡ line) × (get_or buf (length line) 1 ≡ 0)

  pub record Agrees (r : Edited) (w : d.Hw) (x : LineResult × Console × d.Hw) : Type 0 where
    pub result : Returns r.line x.0
    pub ready : IsReady port x.1
    pub text : typed x.1 ≡ r.text
    pub rest : t.pending x.2 ≡ r.rest
    pub sent : t.sent x.2 ≡ t.sent w ++ r.sent

  end_line-Agrees :
      (c : Console) (w : d.Hw) (cs : List ℕ)
      → IsReady port c
      → t.pending w ≡ cs
      → Agrees
          (record { line = some (typed c); text = []; rest = cs; sent = new_line })
          w
          (end_line d c w)
  unfolding end_line
  end_line-Agrees c w cs v h =
      let n : length (typed c) ≡ c.line_len =
        length-take c.line_len c.line (omega (arith, v.size, v.fit)) in
      let (p, q) = new_line-Sends t c w v in
      record {
        result = (
          rw n (take-set_self c.line_len c.line 0),
          rw n (get_or-set_self c.line c.line_len 0 1 (omega (arith, v.size, v.fit))),
        );
        ready = record {
          has_uart = v.has_uart;
          at_port = v.at_port;
          size = length-set c.line c.line_len 0 ∙ v.size;
          fit = omega arith;
        };
        text = refl;
        rest = p ∙ h;
        sent = q;
      }

  -- What `readChar` takes.
  read_char-none :
      (c : Console) (w : d.Hw)
      → IsReady port c
      → t.pending w ≡ []
      → let (ch, w') = read_char d c w in
        (ch ≡ negsuc 0) × (t.pending w' ≡ []) × (t.sent w' ≡ t.sent w)
  unfolding read_char Uart.read
  read_char-none c w v h = rw (v.has_uart, v.at_port) (ground (arith, t.read_none w h))

  read_char-some :
      (b : ℕ) (bs : List ℕ) (c : Console) (w : d.Hw)
      → IsReady port c
      → t.pending w ≡ b ∷ bs
      → let (ch, w') = read_char d c w in
        (ch ≡ pos b) × (t.pending w' ≡ bs) × (t.sent w' ≡ t.sent w)
  unfolding read_char Uart.read
  read_char-some b bs c w v h = rw (v.has_uart, v.at_port) (ground (arith, t.read_some b bs w h))

  -- The loop, with the keys that are pending.
  loop :
      (keys : List ℕ) (fuel : ℕ) (c : Console) (w : d.Hw)
      → IsReady port c
      → t.pending w ≡ keys
      → length keys < fuel
      → Agrees (edit (typed c) keys) w (read_line d fuel c w)
  unfolding edit read_line on_char
  loop keys zero c w v h k = absurd (omega arith)
  loop [] (suc fuel) c w v h k =
      let (ch, p, q) = read_char-none c w v h in
      rw ch (record {
        result = tt;
        ready = v;
        text = refl;
        rest = p;
        sent = q ∙ sym (append-nil (t.sent w));
      })
  loop (b ∷ bs) (suc fuel) c w v h k =
      let (ch, p, q) = read_char-some b bs c w v h in
      let w1 = (read_char d c w).1 in
      elim (Bool-cases (is_enter b)) [
        | inl e ↦
            let a = end_line-Agrees c w1 bs v p in
            rw (ch, e)
              (record {
                result = a.result;
                ready = a.ready;
                text = a.text;
                rest = a.rest;
                sent = rw⁻¹ q a.sent;
              })
        | inr e ↦
            let a = take_key-Presses b c w1 v in
            let (c2, w2) = take_key d b c w1 in
            let ih : Agrees (edit (press b (typed c)).0 bs) w2 (read_line d fuel c2 w2) =
              rw⁻¹ a.text (loop bs fuel c2 w2 a.ready (a.sends.0 ∙ p) (omega (arith, k))) in
            rw (ch, e)
              (record {
                result = ih.result;
                ready = ih.ready;
                text = ih.text;
                rest = ih.rest;
                sent = rw (ih.sent, a.sends.1, q) (append_assoc (t.sent w) _ _);
              })
      ]

  -- `readLine` returns, given one turn more than there are pending bytes, and then it has done what the
  -- editor does to the text with those bytes: it returns a null pointer where none of them is Enter, and
  -- otherwise the buffer with the text in front of a zero; it has taken the bytes up to the first Enter,
  -- sent their echo, and keeps what is typed of the next line within its 80 characters.
  pub read_line-Agrees :
      (fuel : ℕ) (c : Console) (w : d.Hw)
      → IsReady port c
      → length (t.pending w) < fuel
      → Agrees (edit (typed c) (t.pending w)) w (read_line d fuel c w)
  read_line-Agrees fuel c w v k = loop (t.pending w) fuel c w v refl k
