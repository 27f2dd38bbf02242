-- ===== src/Multiplexer/Tests.antt =====
-- Tests of src/ungula/hal/multiplexer on a bus whose chips acknowledge every write, and the theorems at
-- concrete inputs.
use ungula_hal.Base.{
  ℕ, ◌^◌, ◌<◌, ◌≡◌, ◌≢◌, ap, ◌∙◌, refl, true, false, Option, some, List, [], ◌∷◌, ◌==◌,
  if◌then◌else◌, Bool-cases, inl, inr, arith,
}
use ungula_hal.I2c
use ungula_hal.I2c.{I2cMaster}
use ungula_hal.I2c.Link.{Driver}
use ungula_hal.I2c.Protocol.{Phase, sends, hear, idle}
use ungula_hal.Multiplexer.{
  Mux, begin, restart_bus, is_responding, select_on_chip, select, attempts, select_channel,
}
use ungula_hal.Multiplexer.Fake
use ungula_hal.Multiplexer.Retries.{select-retries}
use ungula_hal.Multiplexer.Cache.{HasChips}
use ungula_hal.Multiplexer.Shared.{Call, selects, restarts, run, step, boot, run_selects}

-- The registers of the chips after what was said on the bus.
unfoldable after : Option (List Phase) → (ℕ → ℕ) → ℕ → ℕ
after (some (sends a (x ∷ []) ∷ [])) w c = if c == a then x else w c
after said w c = w c

abbrev bus_model : Driver
bus_model = record {
  Hw = ℕ → ℕ;
  write_bit = 0;
  read_bit = 1;
  ms_to_ticks = λ n. n;
  param_config = λ p a b f w. (true, w);
  install = λ p w. (true, w);
  delete = λ p w. w;
  cmd_begin = λ p cs t b w. (true, b, after (hear cs idle) w);
}

after-own : (a x : ℕ) (w : ℕ → ℕ) → after (some (sends a (x ∷ []) ∷ [])) w a ≡ x
unfolding after
after-own a x w = ground arith

after-other :
    (a c : ℕ) (bytes : List ℕ) (w : ℕ → ℕ) → c ≢ a → after (some (sends a bytes ∷ [])) w c ≡ w c
unfolding after
after-other a c [] w h = refl
after-other a c (x ∷ []) w h = elim (Bool-cases (c == a)) [
  | inl e ↦ absurd (h (ground (arith, e)))
  | inr e ↦ rw e refl
]
after-other a c (x ∷ y ∷ ys) w h = refl

abbrev bus : I2cMaster
bus = record { port = 0; installed = true }

abbrev chips : HasChips bus_model 0
chips = record {
  bits = record { write_bit_lem = refl; read_bit_lem = refl };
  register = λ a w. w a;
  taken = λ a x cs ticks w h k. ap (λ s. after s w a) h ∙ after-own a x w;
  elsewhere = λ a c bytes cs ticks w h k. ap (λ s. after s w c) h ∙ after-other a c bytes w k;
}

abbrev ready : Mux
ready = record {
  i2c_address = 112;
  initiated = true;
  is_functional = true;
  current_channel = 3;
  logging_enabled = false;
}

abbrev eights : ℕ → ℕ
eights a = 8

select_result : (select bus_model bus 5 ready eights).2 112 ≡ 32
unfolding select select_channel attempts select_on_chip I2c.write I2c.write_phase hear after
select_result = refl

-- Before any channel was selected, 255 stands for none: a request for 255 is answered from the cache.
select_none :
    select bus_model bus 255 (record ready { current_channel = 255 }) eights
    ≡ (true, record ready { current_channel = 255 }, eights)
unfolding select select_channel
select_none = refl

-- The fake, initialised, on channel 3.
abbrev ready_fake : Fake.MultiplexerFake
ready_fake = record Fake.fresh { base = ready }

fake_gives_up : (Fake.select 5 (Fake.fail_next_selects 3 ready_fake)).1.select_failure_count ≡ 3
unfolding Fake.select Fake.fail_next_selects Fake.select_hook select_channel attempts
fake_gives_up = refl

select-retries_example :
    let (done, f') = Fake.select 5 (Fake.fail_next_selects 2 ready_fake) in
    (done ≡ true) × (f'.base.is_functional ≡ true) × (f'.base.current_channel ≡ 5)
select-retries_example = select-retries 2 5 ready_fake refl refl refl

-- The second chip is selected in between, and the first restarted.
abbrev history : List Call
history = selects true 3 ∷ selects false 6 ∷ restarts true ∷ selects true 5 ∷ []

both_selected :
    let p = run bus_model bus history (boot bus_model bus 112 113 eights) in
    (p.hw 112 ≡ 32) × (p.hw 113 ≡ 64)
unfolding run step boot begin restart_bus is_responding select select_channel attempts
    select_on_chip I2c.write I2c.write_phase hear after
both_selected = (refl, refl)

run_selects_example :
    let p = run bus_model bus history (boot bus_model bus 112 113 eights) in
    let (done, m, w') = select bus_model bus 2 p.first p.hw in
    (done ≡ true → 2 < 8 → chips.register 112 w' ≡ 2 ^ 2)
    × (done ≡ false → p.first.initiated ≡ true → m.is_functional ≡ false)
    × (chips.register 113 w' ≡ chips.register 113 p.hw)
    × (p.second.is_functional ≡ true
        → p.second.current_channel < 8
        → chips.register 113 w' ≡ 2 ^ p.second.current_channel)
run_selects_example =
    run_selects bus chips 112 113 history 2 eights (omega arith) (omega arith)
      (λ e. absurd (ground (arith, e)))
