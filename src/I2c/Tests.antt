-- ===== src/I2c/Tests.antt =====
-- The theorem on src/ungula/hal/i2c at a concrete input: a register read of a device that answers with
-- zeros.
use ungula_hal.Base.{◌≡◌, refl, true, false, none, some, List, [], ◌∷◌, arith, replicate}
use ungula_hal.I2c.Link.{
  Driver, Command, start, stop, write_byte, write_bytes, read_bytes, read_byte, ack, nack,
}
use ungula_hal.I2c.Wire.{Laws, Says, transactions}
use ungula_hal.I2c.Protocol.{sends, fetches, hear, idle}
use ungula_hal.I2c.{I2cMaster, write, read, write_read, write_phase, read_phase}

abbrev model : Driver
model = record {
  Hw = List (List Command);
  write_bit = 0;
  read_bit = 1;
  ms_to_ticks = λ n. n;
  param_config = λ p a b f w. (true, w);
  install = λ p w. (true, w);
  delete = λ p w. w;
  cmd_begin = λ p cs t b w. (true, b, cs ∷ w);
}

abbrev laws : Laws model
laws = record {
  bits = record { write_bit_lem = refl; read_bit_lem = refl };
  log = λ w. w;
  runs = λ p cs t b w. refl;
}

abbrev master : I2cMaster
master = record { port = 0; installed = true }

link_of_read :
    (write_read model 104 (some (59 ∷ [])) 1 (some (replicate 6 0)) 6 50 master []).hw
    ≡ (start
        ∷ write_byte 208 true
        ∷ write_bytes (59 ∷ []) true
        ∷ start
        ∷ write_byte 209 true
        ∷ read_bytes 0 5 ack
        ∷ read_byte 5 nack
        ∷ stop
        ∷ [])
      ∷ []
unfolding write_read write_phase read_phase
link_of_read = refl

unchecked_byte : hear (start ∷ write_byte 208 false ∷ stop ∷ []) idle ≡ none
unfolding hear
unchecked_byte = refl

cut_off_read : hear (start ∷ write_byte 209 true ∷ read_bytes 0 5 ack ∷ stop ∷ []) idle ≡ none
unfolding hear
cut_off_read = refl

transactions_example :
    Says laws (sends 104 (59 ∷ []) ∷ []) [] (write model 104 (some (59 ∷ [])) 1 50 master []).hw
    × Says laws (fetches 104 6 ∷ []) [] (read model 104 (some (replicate 6 0)) 6 50 master []).hw
    × Says laws
        (sends 104 (59 ∷ []) ∷ fetches 104 6 ∷ [])
        []
        (write_read model 104 (some (59 ∷ [])) 1 (some (replicate 6 0)) 6 50 master []).hw
transactions_example =
    transactions laws 104 6 1 (some (59 ∷ [])) (replicate 6 0) 50 master [] (omega arith)
      (omega arith) refl
