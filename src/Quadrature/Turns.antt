-- ===== src/Quadrature/Turns.antt =====
-- The shaft that the encoder of src/ungula/hal/quadrature sits on, and what a client that counts its moves
-- expects of a decoder.
use ungula_hal.Base.{
  ℕ, ◌+◌, ◌<◌, ◌≤◌, ◌≡◌, Bool, true, false, List, [], ◌∷◌, ◌==◌, if◌then◌else◌, arith,
}
use ungula_hal.Base.Int.{ℤ, pos, negsuc, pos_part, neg_part, ◌+ℤ◌, int_laws}

-- The encoder's two pins over one period of its pattern, a quarter turn of it apart.
pub data Quarter : Type 0 where
  low_low high_low high_high low_high : Quarter

abbrev pub pin_a : Quarter → Bool
pin_a low_low = false
pin_a high_low = true
pin_a high_high = true
pin_a low_high = false

abbrev pub pin_b : Quarter → Bool
pin_b low_low = false
pin_b high_low = false
pin_b high_high = true
pin_b low_high = true

pub data Move : Type 0 where
  forward back : Move

abbrev pub turn : Move → Quarter → Quarter
turn forward low_low = high_low
turn forward high_low = high_high
turn forward high_high = low_high
turn forward low_high = low_low
turn back low_low = low_high
turn back high_low = low_low
turn back high_high = high_low
turn back low_high = high_high

abbrev pub differ : Bool → Bool → Bool
differ true true = false
differ true false = true
differ false true = true
differ false false = false

-- A move is an edge of one pin, with the levels of both after it.
abbrev pub levels : ℕ → Quarter → ℕ → Bool
levels pa q pin = if pin == pa then pin_a q else pin_b q

abbrev pub signed : Move → ℤ
signed forward = pos 1
signed back = negsuc 0

-- What happens after `begin`, the last first: moves of the shaft and calls of `reset`.
pub data Event : Type 0 where
  moved : Move → Event
  reset_to : ℤ → Event

-- The seed, the moves since it was set, and their number.
abbrev pub base : ℤ → List Event → ℤ
base i [] = i
base i (moved m ∷ es) = base i es
base i (reset_to v ∷ es) = v

abbrev pub net : List Event → ℤ
net [] = pos 0
net (moved m ∷ es) = net es +ℤ signed m
net (reset_to v ∷ es) = pos 0

abbrev pub since : List Event → ℕ
since [] = 0
since (moved m ∷ es) = since es + 1
since (reset_to v ∷ es) = 0

-- Fewer than 32767 moves between resets.
abbrev pub IsShort : List Event → Type 0
IsShort [] = Unit {0}
IsShort (e ∷ es) = (since (e ∷ es) < 32767) × IsShort es

-- What a client counts: from the initial count or the last reset, one for every move.
abbrev pub expected : ℤ → List Event → ℤ
expected i [] = i
expected i (moved m ∷ es) = expected i es +ℤ signed m
expected i (reset_to v ∷ es) = v

pub expected-base : (i : ℤ) (es : List Event) → expected i es ≡ base i es +ℤ net es
expected-base i [] = omega int_laws
expected-base i (moved m ∷ es) = rw (expected-base i es) (omega int_laws)
expected-base i (reset_to v ∷ es) = omega int_laws

signed_bound :
    (n : ℤ) (m : Move)
    → (pos_part (n +ℤ signed m) ≤ pos_part n + 1) × (neg_part (n +ℤ signed m) ≤ neg_part n + 1)
unfolding ◌+ℤ◌
signed_bound n forward = (ground arith, ground arith)
signed_bound n back = (ground arith, ground arith)

pub net-bound : (es : List Event) → (pos_part (net es) ≤ since es) × (neg_part (net es) ≤ since es)
net-bound [] = (omega arith, omega arith)
net-bound (moved m ∷ es) = (
  omega (arith, signed_bound (net es) m, net-bound es),
  omega (arith, signed_bound (net es) m, net-bound es),
)
net-bound (reset_to v ∷ es) = (omega arith, omega arith)
