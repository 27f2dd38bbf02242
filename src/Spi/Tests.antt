-- ===== src/Spi/Tests.antt =====
-- The theorem on src/ungula/hal/spi at a concrete input, on a bus with its two data lines joined, and runs of
-- `writeRead`.
use ungula_hal.Base.{
  ℕ, ◌*◌, ◌/◌, ◌≡◌, ap, refl, true, Option, none, some, List, [], ◌∷◌, arith, take, ◌&&◌, leb,
  length, Bool-cases, inl, inr,
}
use ungula_hal.Esp.{ok}
use ungula_hal.Spi.Bus.{Driver}
use ungula_hal.Spi.{SpiMaster, Outcome, write_read, exchange, memcpy, zeros, hand_over}
use ungula_hal.Spi.Exchange.{Laws, Exchanged, write_read-Exchanged}
use ungula_hal.Spi.Buffers.{fits}

abbrev clocked : ℕ → Option (List ℕ) → List ℕ
clocked bits none = []
clocked bits (some tx) = take (bits / 8) tx

abbrev model : Driver
model = record {
  Hw = List (List ℕ);
  Handle = ℕ;
  initialize = λ h a b c n w. (ok, w);
  add_device = λ h f m c q w. (some 0, w);
  remove_device = λ h w. w;
  transmit = λ h bits tx w. (true, clocked bits tx, clocked bits tx ∷ w);
}

clocked-some : (n : ℕ) (tx : List ℕ) → clocked (n * 8) (some tx) ≡ take n tx
clocked-some n tx = ap (λ k. take k tx) {x = n * 8 / 8} {y = n} (omega arith)

abbrev laws : Laws model
laws = record {
  ready = λ w bs. true;
  reply = λ w bs. bs;
  reply_length = λ w bs. refl;
  seen = λ w. w;
  answers = λ h n tx w k. refl;
  sends = λ h n tx w k r. (clocked-some n tx, ap (λ t. t ∷ w) (clocked-some n tx));
}

abbrev master : SpiMaster model
master = record { installed = true; device = some 0 }

-- A command byte, and three bytes to read.
run_of_write_read :
    write_read model (159 ∷ []) 1 (7 ∷ 7 ∷ 7 ∷ 7 ∷ []) 3 master []
    ≡ some (record {
      done = true;
      buffer = some (0 ∷ 0 ∷ 0 ∷ 7 ∷ []);
      hw = (159 ∷ 0 ∷ 0 ∷ 0 ∷ []) ∷ [];
    })
unfolding write_read exchange hand_over
run_of_write_read = refl

too_long : (tx : List ℕ) → memcpy 4294967295 tx zeros ≡ none
too_long tx = elim (Bool-cases (leb 4294967295 (length tx))) [
  | inl e ↦ rw e refl
  | inr e ↦ rw e refl
]

-- Sizes whose sum wraps to 1 pass the guard, and the copy into the send buffer leaves it, whatever the bytes
-- to write.
wrapped_sizes : (tx : List ℕ) → write_read model tx 4294967295 (7 ∷ 7 ∷ []) 2 master [] ≡ none
unfolding write_read exchange
wrapped_sizes tx = rw (too_long tx) refl

write_read-Exchanged_example :
    (r : Outcome model) × (write_read model (159 ∷ []) 1 (7 ∷ 7 ∷ 7 ∷ 7 ∷ []) 3 master [] ≡ some r)
    × Exchanged laws 1 3 (159 ∷ []) (7 ∷ 7 ∷ 7 ∷ 7 ∷ []) (true && fits 1 3) [] r
write_read-Exchanged_example =
    write_read-Exchanged laws 0 1 3 (159 ∷ []) (7 ∷ 7 ∷ 7 ∷ 7 ∷ []) master [] refl (omega arith)
      (omega arith) (omega arith)
