-- ===== src/I2c/Wire.antt =====
-- What a command link of src/ungula/hal/i2c/platforms/i2c_master_esp32.cpp says on the bus, by the rules of
-- I2C and not by the code that built it.
use ungula_hal.Base.{
  ℕ, zero, suc, ◌+◌, ◌-◌, ◌*◌, ◌/◌, ◌%◌, ◌<◌, ◌≡◌, ◌∙◌, ap, refl, true, false, Option, none, some,
  List, [], ◌∷◌, ◌++◌, arith, ◌==◌, if◌then◌else◌, take, u8, Bool-cases, inl, inr, ltb,
}
use ungula_hal.I2c.Link.{Driver, Command, stop, read_bytes, read_byte, ack, nack}
use ungula_hal.I2c.{I2cMaster, write, read, write_read, write_phase, read_phase, payload, send}
use ungula_hal.I2c.Protocol.{
  Phase, sends, fetches, Mode, idle, sending, fetching, fetched, ended, on_command, ahead, hear,
  ahead-nil,
}

-- The bytes that a call names.
abbrev pub given : ℕ → Option (List ℕ) → List ℕ
given length none = []
given length (some ds) = take length ds

module _ (d : Driver) where
  -- I2C_MASTER_WRITE and I2C_MASTER_READ are the direction bits of the bus.
  pub record HasBits : Type 0 where
    pub write_bit_lem : d.write_bit ≡ 0
    pub read_bit_lem : d.read_bit ≡ 1

  -- The driver keeps what it was told to run, the newest first.
  pub record Laws : Type 0 where
    pub bits : HasBits
    pub log : d.Hw → List (List Command)
    pub runs :
        (port : ℕ) (cs : List Command) (ticks : ℕ) (b : Option (List ℕ)) (w : d.Hw)
        → log (d.cmd_begin port cs ticks b w).2 ≡ cs ∷ log w

address_even : (a : ℕ) → a < 128 → u8 (a * 2 + 0) % 2 ≡ 0
address_even a h = omega arith

address_odd : (a : ℕ) → a < 128 → u8 (a * 2 + 1) % 2 ≡ 1
address_odd a h = omega arith

address_half : (a b : ℕ) → a < 128 → b < 2 → u8 (a * 2 + b) / 2 ≡ a
address_half a b h k = omega arith

pred_suc : (n : ℕ) → 0 < n → n - 1 + 1 ≡ n
pred_suc n h = omega arith

last_read :
    (a n : ℕ)
    → 0 < n
    → on_command (read_byte (n - 1) nack) (fetching a (0 + (n - 1))) ≡ some (fetched a n, [])
last_read a n h = ground (arith, h, pred_suc n h)

positive : (n : ℕ) → 0 < n → (n == 0) ≡ false
positive n h = ground (arith, h)

last_one : (n : ℕ) → 0 < n → ltb 1 n ≡ false → n ≡ 1
last_one n h e = ground (arith, h, e)

hear-payload :
    (d : Driver) (a length : ℕ) (bytes : Option (List ℕ)) (cs : List Command)
    → hear (payload d length bytes ++ cs) (sending a []) ≡ hear cs (sending a (given length bytes))
unfolding hear
hear-payload d a zero none cs = refl
hear-payload d a zero (some ds) cs = refl
hear-payload d a (suc n) none cs = refl
hear-payload d a (suc n) (some ds) cs = ahead-nil (hear cs (sending a (take (suc n) ds)))

-- The bytes of a read, all but the last with an acknowledgement.
hear-fetches :
    (a n : ℕ) (cs : List Command)
    → 0 < n
    → hear
        ((if ltb 1 n then read_bytes 0 (n - 1) ack ∷ [] else [])
          ++ (read_byte (n - 1) nack ∷ [])
          ++ cs)
        (fetching a 0)
      ≡ hear cs (fetched a n)
unfolding hear
hear-fetches a n cs h = elim (Bool-cases (ltb 1 n)) [
  | inl e ↦ rw (e, ahead-nil, last_read a n h, ahead-nil) refl
  | inr e ↦ rw (e, last_one n h e, ahead-nil) refl
]

module _ {d : Driver} where
  hear-write_phase :
      (b : HasBits d) (a length : ℕ) (bytes : Option (List ℕ)) (cs : List Command) (m : Mode)
      (ps : List Phase)
      → a < 128
      → ended m ≡ some ps
      → hear (write_phase d a bytes length ++ cs) m
        ≡ ahead ps (hear cs (sending a (given length bytes)))
  unfolding hear write_phase
  hear-write_phase b a length bytes cs m ps h e =
      rw
        (
          e,
          b.write_bit_lem,
          address_even a h,
          address_half a 0 h (omega arith),
          ahead-nil,
          hear-payload d a length bytes cs,
        )
        refl

  hear-read_phase :
      (b : HasBits d) (a n : ℕ) (cs : List Command) (m : Mode) (ps : List Phase)
      → a < 128
      → 0 < n
      → ended m ≡ some ps
      → hear (read_phase d a n ++ cs) m ≡ ahead ps (hear cs (fetched a n))
  unfolding hear read_phase
  hear-read_phase b a n cs m ps h k e =
      rw
        (
          e,
          b.read_bit_lem,
          address_odd a h,
          address_half a 1 h (omega arith),
          ahead-nil,
          hear-fetches a n cs k,
        )
        refl

  -- What `write` runs, for those who know the driver by what is said on the bus.
  pub write_lem :
      (b : HasBits d) (a len : ℕ) (bytes : Option (List ℕ)) (timeout_ms : ℕ) (m : I2cMaster)
      (w : d.Hw)
      → a < 128
      → m.installed ≡ true
      → (cs : List Command) × (hear cs idle ≡ some (sends a (given len bytes) ∷ []))
        × (write d a bytes len timeout_ms m w ≡ send d cs timeout_ms none m w)
  unfolding write hear
  write_lem b a len bytes timeout_ms m w h e = (
    write_phase d a bytes len ++ (stop ∷ []),
    hear-write_phase b a len bytes (stop ∷ []) idle [] h refl,
    simp e,
  )

  pub write-off :
      (a len : ℕ) (bytes : Option (List ℕ)) (timeout_ms : ℕ) (m : I2cMaster) (w : d.Hw)
      → m.installed ≡ false
      → write d a bytes len timeout_ms m w ≡ record { ok = false; buffer = none; hw = w }
  unfolding write
  write-off a len bytes timeout_ms m w e = simp e

module _ {d : Driver} (l : Laws d) where
  -- The link that the driver was told to run since `w` says these phases.
  pub Says : List Phase → d.Hw → d.Hw → Type 0
  Says ps w w' = (cs : List Command) × (l.log w' ≡ cs ∷ l.log w) × (hear cs idle ≡ some ps)

  said :
      (ps : List Phase) (cs : List Command) (port ticks : ℕ) (b : Option (List ℕ)) (w : d.Hw)
      → hear cs idle ≡ some ps
      → Says ps w (d.cmd_begin port cs ticks b w).2
  unfolding Says
  said ps cs port ticks b w h = (cs, l.runs port cs ticks b w, h)

  -- For a 7-bit address and at least one byte to read, on an installed master: the link that `write` runs
  -- says on the bus that the given bytes are sent to that address; that of `read`, that the bytes asked for
  -- are fetched from it, the last one refused; and that of `writeRead` the one after the other, in one
  -- transaction with a repeated START. The read buffer is filled from its start without a gap.
  pub transactions :
      (a n len : ℕ) (bytes : Option (List ℕ)) (buffer : List ℕ) (timeout_ms : ℕ) (m : I2cMaster)
      (w : d.Hw)
      → a < 128
      → 0 < n
      → m.installed ≡ true
      → Says (sends a (given len bytes) ∷ []) w (write d a bytes len timeout_ms m w).hw
        × Says (fetches a n ∷ []) w (read d a (some buffer) n timeout_ms m w).hw
        × Says
            (sends a (given len bytes) ∷ fetches a n ∷ [])
            w
            (write_read d a bytes len (some buffer) n timeout_ms m w).hw
  unfolding hear write read write_read
  transactions a n len bytes buffer timeout_ms m w h k e =
      let heard_write = hear-write_phase l.bits a len bytes (stop ∷ []) idle [] h refl in
      let heard_read = hear-read_phase l.bits a n (stop ∷ []) idle [] h k refl in
      let then_read =
        hear-read_phase l.bits a n (stop ∷ []) (sending a (given len bytes)) _ h k refl in
      let heard_both =
        hear-write_phase l.bits a len bytes (read_phase d a n ++ (stop ∷ [])) idle [] h refl
        ∙ ap (ahead []) then_read in
      rw (e, positive n k)
        (
          said _ _ m.port _ none w heard_write,
          said _ _ m.port _ (some buffer) w heard_read,
          said _ _ m.port _ (some buffer) w heard_both,
        )
