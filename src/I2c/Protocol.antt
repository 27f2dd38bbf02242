-- ===== src/I2c/Protocol.antt =====
-- The rules of I2C, by which a command link of src/ungula/hal/i2c/platforms/i2c_master_esp32.cpp is read.
use ungula_hal.Base.{
  ℕ, ◌+◌, ◌/◌, ◌%◌, ◌≡◌, refl, Option, none, some, List, [], ◌∷◌, ◌++◌, ◌==◌, ◌&&◌, if◌then◌else◌,
}
use ungula_hal.I2c.Link.{
  Command, start, stop, write_byte, write_bytes, read_bytes, read_byte, Ack, ack, nack,
}

-- One addressed part of a transaction: bytes sent to a device, or a number of bytes read from it into the
-- buffer, from its start on.
pub data Phase : Type 0 where
  sends : ℕ → List ℕ → Phase
  fetches : ℕ → ℕ → Phase

-- Where the bus is. After the byte that the master does not acknowledge a device sends no more.
pub data Mode : Type 0 where
  idle selecting : Mode
  sending : ℕ → List ℕ → Mode
  fetching : ℕ → ℕ → Mode
  fetched : ℕ → ℕ → Mode

-- What a START or a STOP ends. Neither may cut off a read that was not told its last byte.
abbrev pub ended : Mode → Option (List Phase)
ended idle = some []
ended selecting = none
ended (sending a ds) = some (sends a ds ∷ [])
ended (fetching a n) = none
ended (fetched a n) = some (fetches a n ∷ [])

-- The first byte after START is the address and the direction, its lowest bit.
abbrev pub on_byte : ℕ → Mode → Option Mode
on_byte b idle = none
on_byte b selecting = some (if b % 2 == 0 then sending (b / 2) [] else fetching (b / 2) 0)
on_byte b (sending a ds) = some (sending a (ds ++ (b ∷ [])))
on_byte b (fetching a n) = none
on_byte b (fetched a n) = none

abbrev on_bytes : List ℕ → Mode → Option Mode
on_bytes bs idle = none
on_bytes bs selecting = none
on_bytes bs (sending a ds) = some (sending a (ds ++ bs))
on_bytes bs (fetching a n) = none
on_bytes bs (fetched a n) = none

-- Bytes read follow each other in the buffer, and only one byte may be refused.
abbrev pub on_fetch : ℕ → ℕ → Ack → Mode → Option Mode
on_fetch at n k idle = none
on_fetch at n k selecting = none
on_fetch at n k (sending a ds) = none
on_fetch at n ack (fetching a m) = if at == m then some (fetching a (m + n)) else none
on_fetch at n nack (fetching a m) = if at == m && n == 1 then some (fetched a (m + 1)) else none
on_fetch at n k (fetched a m) = none

-- The mode after a command with the phases it ends.
abbrev in_mode : Option Mode → Option (Mode × List Phase)
in_mode none = none
in_mode (some m) = some (m, [])

abbrev in_phase : Mode → Option (List Phase) → Option (Mode × List Phase)
in_phase m none = none
in_phase m (some ps) = some (m, ps)

abbrev pub on_command : Command → Mode → Option (Mode × List Phase)
on_command start m = in_phase selecting (ended m)
on_command stop m = in_phase idle (ended m)
on_command (write_byte b checked) m = if checked then in_mode (on_byte b m) else none
on_command (write_bytes bs checked) m = if checked then in_mode (on_bytes bs m) else none
on_command (read_bytes at n k) m = in_mode (on_fetch at n k m)
on_command (read_byte at k) m = in_mode (on_fetch at 1 k m)

-- The phases of a link that leaves the bus idle.
abbrev pub ahead : List Phase → Option (List Phase) → Option (List Phase)
ahead ps none = none
ahead ps (some qs) = some (ps ++ qs)

abbrev go_on : (Mode → Option (List Phase)) → Option (Mode × List Phase) → Option (List Phase)
go_on rest none = none
go_on rest (some (m, ps)) = ahead ps (rest m)

abbrev at_end : Mode → Option (List Phase)
at_end idle = some []
at_end selecting = none
at_end (sending a ds) = none
at_end (fetching a n) = none
at_end (fetched a n) = none

unfoldable pub hear : List Command → Mode → Option (List Phase)
hear [] m = at_end m
hear (c ∷ cs) m = go_on (hear cs) (on_command c m)

pub ahead-nil : (o : Option (List Phase)) → ahead [] o ≡ o
ahead-nil none = refl
ahead-nil (some qs) = refl
