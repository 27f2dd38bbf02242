-- ===== src/PwmInput/Esp32.antt =====
-- src/ungula/hal/pwm_input/platforms/pwm_input_esp32.cpp: the capture object of drivers/pwm_input.h
-- over the file's slots, the process-wide guard of the ISR service, and the GPIO driver.
pub mod Delivery
pub mod Wiring
pub mod Life
pub mod Owner
use ungula_hal.Base.{
  ℕ, ◌+◌, ◌-◌, ◌^◌, Bool, true, false, Option, none, ◌||◌, ltb, leb, ◌==◌, if◌then◌else◌, u32, u64,
  get_or, set,
}
use ungula_hal.Gpio.{IsrServiceInstall, installed, already_installed, failed}
use ungula_hal.Gpio.Driver.{Driver, GpioConfig, input, anyedge}
use ungula_hal.Gpio.IsrService.{Guard, install}
use ungula_hal.PwmInput.Edge.{CaptureState, cleared, Slots, max_gpio, elapsed}

-- What the objects of the process share.
pub record World (d : Driver) : Type 0 where
  pub slots : Slots
  pub guard : Guard
  pub hw : d.Hw

pub record PwmInput : Type 0 where
  pub installed : Bool
  pub pin : ℕ

abbrev is_failed : IsrServiceInstall → Bool
is_failed failed = true
is_failed installed = false
is_failed already_installed = false

-- The address of `onEdge`, as the driver is given it.
abbrev pub on_edge_address : ℕ
on_edge_address = 1

abbrev pub edge_config : ℕ → GpioConfig
edge_config pin = record {
  pin_bit_mask = 2 ^ pin;
  mode = input;
  pull_up_en = false;
  pull_down_en = false;
  intr_type = anyedge;
}

-- The fields of a `World` are updated through these.
abbrev pub mark : ℕ → Bool → Slots → Slots
mark pin b slots = set slots pin (record (get_or slots pin cleared) { in_use = b })

module _ {d : Driver} where
  -- The last step of `begin`: claim the slot and add the handler.
  unfoldable pub claim : ℕ → PwmInput → World d → Bool × PwmInput × World d
  claim pin p w =
      let slots = mark pin true (set w.slots pin cleared) in
      let (added, hw) = d.isr_handler_add pin on_edge_address pin w.hw in
      if added
      then (true, record p { pin = pin; installed = true }, record w { slots = slots; hw = hw })
      else (false, p, record w { slots = mark pin false slots; hw = hw })

  unfoldable pub begin : ℕ → PwmInput → World d → Bool × PwmInput × World d
  unfolding claim
  begin pin p w =
      let (configured, hw) = d.config (edge_config pin) w.hw in
      let (service, guard, hw') = install d w.guard hw in
      if p.installed || leb max_gpio pin
      then (false, p, w)
      else (if configured
          then (if is_failed service
              then (false, p, record w { guard = guard; hw = hw' })
              else claim pin p (record w { guard = guard; hw = hw' }))
          else (false, p, record w { hw = hw }))

  unfoldable pub stop : PwmInput → World d → Bool × PwmInput × World d
  stop p w =
      if p.installed
      then (
        true,
        record p { installed = false },
        record w { slots = mark p.pin false w.slots; hw = (d.isr_handler_remove p.pin w.hw).1 },
      )
      else (true, p, w)

  abbrev slot_of : PwmInput → World d → CaptureState
  slot_of p w = get_or w.slots p.pin cleared

  unfoldable pub last_high_time_us : PwmInput → World d → ℕ
  last_high_time_us p w = if p.installed then (slot_of p w).high_time_us else 0

  unfoldable pub last_period_us : PwmInput → World d → ℕ
  last_period_us p w = if p.installed then (slot_of p w).period_us else 0

  unfoldable pub has_sample : PwmInput → World d → Bool
  has_sample p w = if p.installed then (slot_of p w).has_sample else false

  -- `now` is what `esp_timer_get_time` returns.
  unfoldable pub sample_age_us : ℕ → PwmInput → World d → ℕ
  sample_age_us now p w =
      let edge = (slot_of p w).last_edge_us in
      if p.installed then (if (edge == 0) || ltb now edge then 0 else elapsed now edge) else 0

  unfoldable pub set_sample_callback : Option ℕ → ℕ → PwmInput → World d → World d
  set_sample_callback cb ctx p w =
      let s = record (slot_of p w) { context = ctx; callback = cb } in
      if p.installed then record w { slots = set w.slots p.pin s } else w

  -- The destructor.
  unfoldable pub destroy : PwmInput → World d → World d
  unfolding stop
  destroy p w = if p.installed then (stop p w).2 else w
