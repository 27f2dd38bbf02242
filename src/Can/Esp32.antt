-- ===== src/Can/Esp32.antt =====
-- The class `Can` of src/ungula/hal/can/can.h, as src/ungula/hal/can/platforms/can_esp32_twai.cpp
-- implements it over the TWAI driver. The constants are those of src/ungula/hal/can/can_frame.h.
pub mod Owner
pub mod Life
pub mod Filtering
use ungula_hal.Base.{ℕ, suc, Bool, true, false, Option, none, some, ◌==◌, if◌then◌else◌}
use ungula_hal.Base.Int.{ℤ, pos, negsuc}
use ungula_hal.Esp.{EspErr, ok, invalid_state, timeout, failed}
use ungula_hal.Can.Frame.{CanFrame, Message, frame_to_message, message_to_frame}
use ungula_hal.Can.Filter.{FilterConfig, make_filter}
use ungula_hal.Can.Twai.{
  Driver, TwaiState, stopped, running, bus_off, recovering, Timing, kbits_25, kbits_50, kbits_100,
  kbits_125, kbits_250, kbits_500, kbits_800, mbits_1,
}

pub record Can : Type 0 where
  pub port : ℕ
  pub installed : Bool
  pub tx_pin : ℕ
  pub rx_pin : ℕ
  pub bitrate_bps : ℕ
  pub filter_id : ℕ
  pub filter_mask : ℕ
  pub filter_extended : Bool
  pub filter_enabled : Bool

-- A new controller.
abbrev pub fresh : ℕ → Can
fresh port = record {
  port = port;
  installed = false;
  tx_pin = 0;
  rx_pin = 0;
  bitrate_bps = 0;
  filter_id = 0;
  filter_mask = 0;
  filter_extended = false;
  filter_enabled = false;
}

unfoldable pub resolve_timing : ℕ → Option Timing
resolve_timing bitrate_bps =
    if bitrate_bps == 25000
    then some kbits_25
    else if bitrate_bps == 50000
    then some kbits_50
    else if bitrate_bps == 100000
    then some kbits_100
    else if bitrate_bps == 125000
    then some kbits_125
    else if bitrate_bps == 250000
    then some kbits_250
    else if bitrate_bps == 500000
    then some kbits_500
    else if bitrate_bps == 800000
    then some kbits_800
    else if bitrate_bps == 1000000
    then some mbits_1
    else none

abbrev pub is_bus_off_state : Option TwaiState → Bool
is_bus_off_state none = false
is_bus_off_state (some stopped) = false
is_bus_off_state (some running) = false
is_bus_off_state (some bus_off) = true
is_bus_off_state (some recovering) = false

-- `receive` on the driver's result; `out` is what the caller's frame holds.
unfoldable pub received : EspErr → Message → CanFrame → ℤ × CanFrame
received ok m out = (pos 1, message_to_frame m)
received timeout m out = (pos 0, out)
received invalid_state m out = (negsuc 0, out)
received failed m out = (negsuc 0, out)

module _ (d : Driver) where
  unfoldable pub install_with : ℕ → ℕ → Option Timing → FilterConfig → d.Hw → Bool × d.Hw
  install_with tx rx none f w = (false, w)
  install_with tx rx (some timing) f w =
      let (is_in, w1) = d.install tx rx timing f w in
      let (started, w2) = d.start w1 in
      if is_in then (if started then (true, w2) else (false, (d.uninstall w2).1)) else (false, w1)

  unfoldable pub install_and_start : ℕ → ℕ → ℕ → FilterConfig → d.Hw → Bool × d.Hw
  install_and_start tx rx bitrate_bps f w = install_with tx rx (resolve_timing bitrate_bps) f w

  -- `twai_stop(); twai_driver_uninstall();`
  unfoldable pub tear_down : d.Hw → d.Hw
  tear_down w = (d.uninstall (d.stop w).1).1

  unfoldable pub begin : ℕ → ℕ → ℕ → Can → d.Hw → Bool × Can × d.Hw
  begin tx rx bitrate_bps c w =
      let (done, w') = install_and_start tx rx bitrate_bps d.accept_all w in
      if c.installed
      then (false, c, w)
      else if done
      then (
        true,
        record c {
          tx_pin = tx;
          rx_pin = rx;
          bitrate_bps = bitrate_bps;
          filter_enabled = false;
          installed = true;
        },
        w',
      )
      else (false, c, w')

  unfoldable pub stop : Can → d.Hw → Bool × Can × d.Hw
  stop c w =
      if c.installed then (true, record c { installed = false }, tear_down w) else (true, c, w)

  unfoldable pub send : CanFrame → ℕ → Can → d.Hw → Bool × d.Hw
  send frame timeout_ms c w =
      if c.installed
      then d.transmit (frame_to_message frame) (d.ms_to_ticks timeout_ms) w
      else (false, w)

  unfoldable pub receive : CanFrame → ℕ → Can → d.Hw → (ℤ × CanFrame) × d.Hw
  receive out timeout_ms c w =
      let (err, m, w') = d.receive (d.ms_to_ticks timeout_ms) w in
      if c.installed then (received err m out, w') else ((negsuc 0, out), w)

  unfoldable pub set_acceptance_filter : ℕ → ℕ → Bool → Can → d.Hw → Bool × Can × d.Hw
  set_acceptance_filter id mask extended_id c w =
      let (done, w') =
        install_and_start c.tx_pin c.rx_pin c.bitrate_bps (make_filter id mask extended_id)
          (tear_down w) in
      if c.installed
      then (if done
          then (
            true,
            record c {
              filter_id = id;
              filter_mask = mask;
              filter_extended = extended_id;
              filter_enabled = true;
              installed = true;
            },
            w',
          )
          else (false, record c { installed = false }, w'))
      else (false, c, w)

  unfoldable pub clear_acceptance_filter : Can → d.Hw → Bool × Can × d.Hw
  clear_acceptance_filter c w =
      let (done, w') =
        install_and_start c.tx_pin c.rx_pin c.bitrate_bps d.accept_all (tear_down w) in
      if c.installed
      then (if done
          then (true, record c { filter_enabled = false; installed = true }, w')
          else (false, record c { installed = false }, w'))
      else (false, c, w)

  unfoldable pub is_bus_off : Can → d.Hw → Bool
  is_bus_off c w = if c.installed then is_bus_off_state (d.status w) else false

  unfoldable pub recover_from_bus_off : Can → d.Hw → Bool × d.Hw
  recover_from_bus_off c w = if c.installed then d.initiate_recovery w else (false, w)

  -- The destructor.
  unfoldable pub destroy : Can → d.Hw → d.Hw
  destroy c w = if c.installed then tear_down w else w
