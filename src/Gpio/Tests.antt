-- ===== src/Gpio/Tests.antt =====
-- Tests of src/ungula/hal/gpio on small drivers, and the theorems at concrete inputs.
use ungula_hal.Base.{
  ℕ, zero, suc, ◌^◌, ◌≤◌, ◌<◌, ◌≡◌, refl, ◌++◌, length, true, false, List, [], ◌∷◌, arith, ltb,
  get_or,
}
use ungula_hal.Esp.{EspErr, ok}
use ungula_hal.Gpio.Driver.{Driver}
use ungula_hal.Gpio.Config.{
  active_low, active_high, edge_any, pull_down, config_output_relay, config_input_pullup,
  supports_internal_pullup,
}
use ungula_hal.Gpio.Sound.{handle, handle-keeps, interrupt_request}
use ungula_hal.Gpio.IsrService.Threads.{
  Event, run, start, total, is_inside, is_installer, is_installing, run_excludes,
}
use ungula_hal.Gpio.IsrService.Progress.{turn, turns, has_returned, phase_of, run_can_return}
use ungula_hal.Gpio.Host
use ungula_hal.Gpio.Pwm.{
  find_channel_in, find_timer_in, Ledc, PwmState, config_pwm, write_pwm, find_or_create_timer,
  assign, find_channel, slot_unused, no_channel, no_timer,
}
use ungula_hal.Gpio.Pwm.Timers.{IsSoc, IsWf}
use ungula_hal.Gpio.Pwm.Sound.{IsAssigned, config_pwm-IsWf}
use ungula_hal.Gpio.Pwm.Stays.{config_all, config_pwm-for_good}
use ungula_hal.Gpio.Pwm.Duty.{write_pwm-keeps}

-- A chip with pins 0 to 39, of which those below 34 drive; it remembers the highest pin that it was
-- told to drive, and reads the relay's level back.
abbrev model : Driver
model = record {
  Hw = ℕ;
  is_valid_gpio = λ p. ltb p 40;
  is_valid_output_gpio = λ p. ltb p 34;
  config = λ c w. (true, w);
  set_level = λ p b w. (true, p);
  get_level = λ p w. true;
  ll_set_level = λ p b w. p;
  ll_get_level = λ p w. true;
  install_isr_service = λ w. (ok, w);
  isr_handler_add = λ p f ctx w. (true, w);
  isr_handler_remove = λ p w. (true, w);
}

relay_result : (config_output_relay model 12 active_low 0).0 ≡ true
unfolding config_output_relay
relay_result = refl

relay_refused : config_output_relay model 36 active_low 0 ≡ (false, 0)
unfolding config_output_relay
relay_refused = refl

relay_stuck : config_output_relay model 12 active_high 0 ≡ (false, 12)
unfolding config_output_relay
relay_stuck = refl

pullup_refused : config_input_pullup model 36 0 ≡ (false, 0)
unfolding config_input_pullup supports_internal_pullup
pullup_refused = refl

-- Only pins below 34 are ever driven.
handle-keeps_example : (handle model (interrupt_request 36 edge_any pull_down) 3).1 < 34
handle-keeps_example =
    handle-keeps model (λ w. w < 34) (λ pin c w v g. g)
      (λ pin b w e g. (driven pin e, driven pin e)) (interrupt_request 36 edge_any pull_down) 3
      (omega arith)
  where
    driven : (pin : ℕ) → ltb pin 34 ≡ true → pin < 34
    driven pin e = ground (arith, e)

-- Two threads: the first wins the exchange, the second waits for it.
abbrev schedule : List Event
schedule =
    record { thread = 1; spurious = false; result = ok }
    ∷ record { thread = 0; spurious = false; result = ok }
    ∷ record { thread = 1; spurious = false; result = ok }
    ∷ record { thread = 0; spurious = true; result = ok }
    ∷ record { thread = 0; spurious = false; result = ok }
    ∷ []

run_excludes_example :
    let s = run (start 2) schedule in
    (total is_inside s.threads ≡ is_installing s.guard)
    × (total is_inside s.threads ≤ 1)
    × (total is_installer s.threads ≤ 1)
run_excludes_example = run_excludes 2 schedule

-- An LEDC with two channels and one timer that remembers the last duty.
abbrev ledc : Ledc
ledc = record {
  Hw = ℕ;
  max_pwm_channels = 2;
  max_pwm_timers = 1;
  max_resolution_bits = 14;
  is_valid_output_gpio = λ p. ltb p 34;
  timer_config = λ t res freq w. (true, w);
  channel_config = λ ch t pin w. (true, 0);
  set_duty = λ ch duty w. (true, duty);
  update_duty = λ ch w. (true, w);
}

soc : IsSoc ledc
soc = record { few_channels = omega arith }

abbrev boot : PwmState
boot = record {
  channels = no_channel ∷ no_channel ∷ [];
  timers = no_timer ∷ [];
  channel_count = 0;
  timer_count = 0;
}

boot-IsWf : IsWf ledc boot
boot-IsWf = record {
  channels_size = refl;
  timers_size = refl;
  channels_fit = omega arith;
  timers_fit = omega arith;
  sound = tt;
}

config_result : (config_pwm ledc 12 1000 10 boot 7).0 ≡ true
unfolding config_pwm find_channel find_or_create_timer assign find_channel_in find_timer_in
config_result = refl

config_refused : config_pwm ledc 36 1000 10 boot 7 ≡ (false, boot, 7)
unfolding config_pwm
config_refused = refl

abbrev one : PwmState
one = record {
  channels =
      record { pin = 12; timer = 0; resolution_bits = 10; configured = true } ∷ no_channel ∷ [];
  timers = record { freq_hz = 1000; res_bits = 10; configured = true } ∷ [];
  channel_count = 1;
  timer_count = 1;
}

-- A second frequency finds no timer left.
timers_spent : config_pwm ledc 13 2000 10 one 7 ≡ (false, one, 7)
unfolding config_pwm find_channel find_or_create_timer assign find_channel_in find_timer_in
timers_spent = refl

one-IsWf : IsWf ledc one
one-IsWf = record {
  channels_size = refl;
  timers_size = refl;
  channels_fit = omega arith;
  timers_fit = omega arith;
  sound = (refl, (omega arith, omega arith), omega arith, tt, tt);
}

write_clamps : write_pwm ledc 12 5000 one 7 ≡ (true, 1023)
unfolding write_pwm find_channel find_channel_in
write_clamps = refl

-- On the host, `read` honours the level that a test sets, also at the pins that share its slot, and `isHigh`
-- does not.
host_read : Host.read 68 (Host.set_host_read_value 4 true Host.fresh) ≡ true
unfolding Host.read Host.set_host_read_value
host_read = refl

host_is_high : Host.is_high 4 ≡ false
unfolding Host.is_high
host_is_high = refl

host_reset :
    Host.reset_all_host_read_values (Host.set_host_read_value 4 true Host.fresh) ≡ Host.fresh
unfolding Host.reset_all_host_read_values Host.set_host_read_value Host.reset_values
host_reset = refl

run_can_return_example :
    (is : List ℕ) × (length is ≤ 4)
    × ((answers : ℕ → EspErr)
        → has_returned (
            phase_of 1
              (run (start 3) (turns is answers ++ (turn 0 ok ∷ turn 0 ok ∷ turn 1 ok ∷ []))))
          ≡ true)
run_can_return_example = run_can_return 3 1 (turn 0 ok ∷ turn 0 ok ∷ turn 1 ok ∷ []) (omega arith)

config_pwm-IsWf_example :
    let (done, s', w') = config_pwm ledc 12 1000 10 boot 7 in
    IsWf ledc s' × (done ≡ true → (find_channel 12 boot ≡ slot_unused) × IsAssigned 12 1000 10 s')
config_pwm-IsWf_example = config_pwm-IsWf soc 12 1000 10 boot 7 boot-IsWf

-- Another pin with the same frequency, the pin again, and a third one for which there is no channel.
abbrev later_pins : List (ℕ × ℕ × ℕ)
later_pins = (13, 1000, 10) ∷ (12, 50, 10) ∷ (14, 1000, 10) ∷ []

config_pwm-for_good_example :
    let (done, s1, w1) = config_pwm ledc 12 1000 10 boot 7 in
    let (s2, w2) = config_all ledc later_pins s1 w1 in
    IsAssigned 12 1000 10 s2
    × (find_channel 12 s2 ≡ find_channel 12 s1)
    × (config_pwm ledc 12 2000 8 s2 w2 ≡ (false, s2, w2))
config_pwm-for_good_example =
    config_pwm-for_good soc 12 1000 10 later_pins 2000 8 boot 7 boot-IsWf config_result

write_pwm-keeps_example : (write_pwm ledc 12 5000 one 7).1 < 1024
write_pwm-keeps_example =
    write_pwm-keeps ledc one (λ w. w < 1024) one-IsWf (λ ch duty w c d g. ten_bits ch duty c d)
      (λ ch w c g. g) 12 5000 7 (omega arith)
  where
    ten_bits :
        (ch duty : ℕ)
        → ch < 1
        → duty < 2 ^ (get_or one.channels ch no_channel).resolution_bits
        → duty < 1024
    ten_bits zero duty c d = d
    ten_bits (suc ch) duty c d = absurd (omega (arith, c))
