-- ===== src/Spi/Exchange.antt =====
-- `writeRead` of src/ungula/hal/spi/platforms/spi_master_esp32.cpp, as the device on the bus sees it.
use ungula_hal.Base.{
  ℕ, ◌+◌, ◌*◌, ◌^◌, ◌≤◌, ◌<◌, ◌≡◌, ◌∙◌, ap, refl, Bool, true, false, some, List, ◌∷◌, ◌++◌, arith,
  Bool-cases, inl, inr, ◌&&◌, if◌then◌else◌, take, drop, length,
}
use ungula_hal.Spi.Bus.{Driver}
use ungula_hal.Spi.{SpiMaster, Outcome, write_read, exchange, hand_over}
use ungula_hal.Spi.Buffers.{
  command, fits, received_lem, send_buffer, length-send_buffer, take-send_buffer, length-command,
  small_total, small_bits, fits_lem, misfits, fits_guard, send_buffer_fits,
}

-- A device on the bus: whether a transmission of these bytes is done, what the device answers to them, one
-- byte for each, and what it has seen of each transmission, the newest first. A transmission of whole
-- bytes clocks out that many bytes of the send buffer.
pub record Laws (d : Driver) : Type 0 where
  pub ready : d.Hw → List ℕ → Bool
  pub reply : d.Hw → List ℕ → List ℕ
  pub reply_length : (w : d.Hw) (bs : List ℕ) → length (reply w bs) ≡ length bs
  pub seen : d.Hw → List (List ℕ)
  pub answers :
      (h : d.Handle) (n : ℕ) (tx : List ℕ) (w : d.Hw)
      → n ≤ length tx
      → (d.transmit (some h) (n * 8) (some tx) w).0 ≡ ready w (take n tx)
  pub sends :
      (h : d.Handle) (n : ℕ) (tx : List ℕ) (w : d.Hw)
      → n ≤ length tx
      → ready w (take n tx) ≡ true
      → ((d.transmit (some h) (n * 8) (some tx) w).1 ≡ reply w (take n tx))
        × (seen (d.transmit (some h) (n * 8) (some tx) w).2 ≡ take n tx ∷ seen w)

module _ {d : Driver} (l : Laws d) where
  -- What a call has done, whether it was refused or not.
  pub Exchanged : ℕ → ℕ → List ℕ → List ℕ → Bool → d.Hw → Outcome d → Type 0
  Exchanged n m tx rx may w r =
      (r.done ≡ (may && l.ready w (command n m tx)))
      × (r.buffer ≡ some (if r.done then drop n (l.reply w (command n m tx)) ++ drop m rx else rx))
      × (r.done ≡ true → l.seen r.hw ≡ command n m tx ∷ l.seen w)

  exchange-Exchanged :
      (h : d.Handle) (n m : ℕ) (tx rx : List ℕ) (s : SpiMaster d) (w : d.Hw)
      → s.device ≡ some h
      → n ≤ length tx
      → m ≤ length rx
      → n + m ≤ 64
      → (r : Outcome d) × (exchange d (n + m) n m (some (send_buffer n tx)) rx s w ≡ some r)
        × Exchanged n m tx rx true w r
  unfolding exchange hand_over Exchanged
  exchange-Exchanged h n m tx rx s w e p q k =
      let bytes = send_buffer n tx in
      let long : n + m ≤ length bytes = omega (arith, length-send_buffer n tx p (omega arith), k) in
      let taken = take-send_buffer n m tx p k in
      let answer = l.answers h (n + m) bytes w long in
      let (sent, got, w') = d.transmit (some h) ((n + m) * 8) (some bytes) w in
      elim (Bool-cases (l.ready w (command n m tx))) [
        | inl y ↦
            let (came, saw) = l.sends h (n + m) bytes w long (ap (l.ready w) taken ∙ y) in
            let reply = l.reply w (command n m tx) in
            let here : got ≡ reply = came ∙ ap (l.reply w) taken in
            let room : length reply ≡ n + m =
              l.reply_length w (command n m tx) ∙ length-command n m tx p in
            (
              record { done = true; buffer = some (drop n reply ++ drop m rx); hw = w' },
              rw (e, small_bits (n + m) k, answer, taken, y, here, received_lem n m reply rx room q)
                  refl,
              (rw y refl, refl, λ z. saw ∙ ap (λ t. t ∷ l.seen w) taken),
            )
        | inr y ↦ (
          record { done = false; buffer = some rx; hw = w' },
          rw (e, small_bits (n + m) k, answer, taken, y) refl,
          (rw y refl, refl, λ z. absurd (ground (arith, z))),
        )
      ]

  refused-Exchanged :
      (n m : ℕ) (tx rx : List ℕ) (w : d.Hw)
      → Exchanged n m tx rx false w (record { done = false; buffer = some rx; hw = w })
  unfolding Exchanged
  refused-Exchanged n m tx rx w = (refl, refl, λ z. absurd (ground (arith, z)))

  may_lem :
      (n m : ℕ) (tx rx : List ℕ) (a b : Bool) (w : d.Hw) (r : Outcome d)
      → a ≡ b
      → Exchanged n m tx rx b w r
      → Exchanged n m tx rx a w r
  may_lem n m tx rx a b w r e h = rw e h

  write_read-off :
      (n m : ℕ) (tx rx : List ℕ) (s : SpiMaster d) (w : d.Hw)
      → s.installed ≡ false
      → write_read d tx n rx m s w ≡ some (record { done = false; buffer = some rx; hw = w })
  unfolding write_read
  write_read-off n m tx rx s w i = simp i

  write_read-misfit :
      (n m : ℕ) (tx rx : List ℕ) (s : SpiMaster d) (w : d.Hw)
      → n + m < 2 ^ 32
      → fits n m ≡ false
      → s.installed ≡ true
      → write_read d tx n rx m s w ≡ some (record { done = false; buffer = some rx; hw = w })
  unfolding write_read
  write_read-misfit n m tx rx s w k f i = simp (i, small_total n m k, misfits n m f)

  write_read-sends :
      (n m : ℕ) (tx rx : List ℕ) (s : SpiMaster d) (w : d.Hw)
      → n ≤ length tx
      → n + m < 2 ^ 32
      → fits n m ≡ true
      → s.installed ≡ true
      → write_read d tx n rx m s w ≡ exchange d (n + m) n m (some (send_buffer n tx)) rx s w
  unfolding write_read
  write_read-sends n m tx rx s w p k f i = simp (
    i,
    small_total n m k,
    fits_guard n m f,
    send_buffer_fits n tx p (omega (arith, fits_lem n m f)),
  )

  -- `writeRead` on a master with a device, with buffers of the sizes that it is told and sizes whose sum does
  -- not wrap, stays within all buffers. It is done if the master is installed, the sizes add up to 1 to 64
  -- and the device takes the bytes; the device has then seen the bytes to write and a zero for each byte
  -- to read, and the read buffer starts with its answer to those zeros. Otherwise the read buffer is as
  -- it was.
  pub write_read-Exchanged :
      (h : d.Handle) (n m : ℕ) (tx rx : List ℕ) (s : SpiMaster d) (w : d.Hw)
      → s.device ≡ some h
      → n ≤ length tx
      → m ≤ length rx
      → n + m < 2 ^ 32
      → (r : Outcome d) × (write_read d tx n rx m s w ≡ some r)
        × Exchanged n m tx rx (s.installed && fits n m) w r
  write_read-Exchanged h n m tx rx s w e p q k =
      let refused : Outcome d = record { done = false; buffer = some rx; hw = w } in
      elim (Bool-cases s.installed) [
        | inr i ↦ (refused, write_read-off n m tx rx s w i, rw i (refused-Exchanged n m tx rx w))
        | inl i ↦ elim (Bool-cases (fits n m)) [
          | inr f ↦ (
            refused,
            write_read-misfit n m tx rx s w k f i,
            rw (i, f) (refused-Exchanged n m tx rx w),
          )
          | inl f ↦
              let (r, made, sound) = exchange-Exchanged h n m tx rx s w e p q (fits_lem n m f) in
              (
                r,
                write_read-sends n m tx rx s w p k f i ∙ made,
                may_lem n m tx rx _ true w r (rw (i, f) refl) sound,
              )
        ]
      ]
