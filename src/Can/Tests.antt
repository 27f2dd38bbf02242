-- ===== src/Can/Tests.antt =====
-- Tests of src/ungula/hal/can on a small TWAI driver, and the theorems at concrete inputs.
use ungula_hal.Base.{
  ◌≡◌, ◌≢◌, ◌⊎◌, refl, Bool, true, false, Option, none, some, is_some, [], ◌∷◌, arith,
}
use ungula_hal.Base.Int.{pos, negsuc}
use ungula_hal.Esp.{ok}
use ungula_hal.Can.Frame.{
  CanFrame, Message, IsFrame, frame_to_message, message_to_frame, message_to_frame-frame_to_message,
}
use ungula_hal.Can.Filter.{
  FilterConfig, make_filter, make_filter-passes, passes, agrees, id_register, id_bits,
}
use ungula_hal.Can.Twai.{Driver, Laws, TwaiState, stopped, running, bus_off, recovering}
use ungula_hal.Can.Esp32.{
  Can, fresh, destroy, recover_from_bus_off, resolve_timing, install_with, install_and_start,
  tear_down, begin, stop, receive, set_acceptance_filter, clear_acceptance_filter, is_bus_off,
}
use ungula_hal.Can.Esp32.Owner.{step, begin_call, recover_call, set_filter_call, stop-recovering}
use ungula_hal.Can.Esp32.Life.{Reaches, made, called, drifted, Reaches-lives}
use ungula_hal.Can.Esp32.Filtering.{set_acceptance_filter-active, receive-IsFrame}

record Model : Type 0 where
  pub state : Option TwaiState
  pub filter : FilterConfig

abbrev all_pass : FilterConfig
all_pass = record { acceptance_code = 0; acceptance_mask = 4294967295; single_filter = true }

abbrev installs : Option TwaiState → Bool
installs none = true
installs (some s) = false

abbrev install_into : FilterConfig → Model → Bool → Bool × Model
install_into f w true = (true, record { state = some stopped; filter = f })
install_into f w false = (false, w)

abbrev start_from : Option TwaiState → Bool × Option TwaiState
start_from none = (false, none)
start_from (some stopped) = (true, some running)
start_from (some running) = (false, some running)
start_from (some bus_off) = (false, some bus_off)
start_from (some recovering) = (false, some recovering)

abbrev stop_from : Option TwaiState → Bool × Option TwaiState
stop_from none = (false, none)
stop_from (some stopped) = (false, some stopped)
stop_from (some running) = (true, some stopped)
stop_from (some bus_off) = (false, some bus_off)
stop_from (some recovering) = (false, some recovering)

abbrev uninstall_from : Option TwaiState → Bool × Option TwaiState
uninstall_from none = (false, none)
uninstall_from (some stopped) = (true, none)
uninstall_from (some running) = (false, some running)
uninstall_from (some bus_off) = (true, none)
uninstall_from (some recovering) = (false, some recovering)

abbrev recover_from : Option TwaiState → Bool × Option TwaiState
recover_from none = (false, none)
recover_from (some stopped) = (false, some stopped)
recover_from (some running) = (false, some running)
recover_from (some bus_off) = (true, some recovering)
recover_from (some recovering) = (false, some recovering)

abbrev by_state : (Option TwaiState → Bool × Option TwaiState) → Model → Bool × Model
by_state f w = ((f w.state).0, record w { state = (f w.state).1 })

abbrev echo : Message
echo = frame_to_message (record {
  id = 291;
  extended_id = false;
  remote = false;
  dlc = 2;
  bytes = 7 ∷ 8 ∷ 0 ∷ 0 ∷ 0 ∷ 0 ∷ 0 ∷ 0 ∷ [];
})

-- A controller that always has the same frame waiting.
abbrev model : Driver
model = record {
  Hw = Model;
  accept_all = all_pass;
  ms_to_ticks = λ n. n;
  install = λ tx rx t f w. install_into f w (installs w.state);
  start = by_state start_from;
  stop = by_state stop_from;
  uninstall = by_state uninstall_from;
  transmit = λ m t w. (is_some w.state, w);
  receive = λ t w. (ok, echo, w);
  status = λ w. w.state;
  initiate_recovery = by_state recover_from;
}

abbrev laws : Laws model
laws = record {
  filter = λ w. w.filter;
  install_ok = λ tx rx t f w h. install_ok_lem f w (installs w.state) h;
  install_failed = λ tx rx t f w h. install_failed_lem f w (installs w.state) h;
  start_ok = λ w h. (start_ok_lem w.state h, refl);
  start_failed = λ w h. start_failed_lem w.state h;
  stop_running = λ w h. stop_running_lem w.state h;
  stop_refused = λ w h. stop_refused_lem w.state h;
  uninstall_stopped = λ w h. uninstall_stopped_lem w.state h;
  uninstall_bus_off = λ w h. uninstall_bus_off_lem w.state h;
  uninstall_refused = λ w h. uninstall_refused_lem w.state h;
  transmit_keeps = λ m t w. refl;
  receive_keeps = λ t w. refl;
  recovery_keeps = λ w. recovery_keeps_lem w.state;
}
  where
    install_ok_lem :
        (f : FilterConfig) (w : Model) (b : Bool)
        → (install_into f w b).0 ≡ true
        → ((install_into f w b).1.state ≡ some stopped) × ((install_into f w b).1.filter ≡ f)
    install_ok_lem f w true h = (refl, refl)
    install_ok_lem f w false h = absurd (ground (arith, h))

    install_failed_lem :
        (f : FilterConfig) (w : Model) (b : Bool)
        → (install_into f w b).0 ≡ false
        → (install_into f w b).1.state ≡ w.state
    install_failed_lem f w true h = absurd (ground (arith, h))
    install_failed_lem f w false h = refl

    start_ok_lem :
        (s : Option TwaiState) → (start_from s).0 ≡ true → (start_from s).1 ≡ some running
    start_ok_lem s h = ground (arith, h)

    start_failed_lem : (s : Option TwaiState) → (start_from s).0 ≡ false → (start_from s).1 ≡ s
    start_failed_lem s h = ground (arith, h)

    stop_running_lem : (s : Option TwaiState) → s ≡ some running → (stop_from s).1 ≡ some stopped
    stop_running_lem s h = ground (arith, h)

    stop_refused_lem : (s : Option TwaiState) → s ≢ some running → (stop_from s).1 ≡ s
    stop_refused_lem s h = ground (arith, h)

    uninstall_stopped_lem : (s : Option TwaiState) → s ≡ some stopped → (uninstall_from s).1 ≡ none
    uninstall_stopped_lem s h = ground (arith, h)

    uninstall_bus_off_lem : (s : Option TwaiState) → s ≡ some bus_off → (uninstall_from s).1 ≡ none
    uninstall_bus_off_lem s h = ground (arith, h)

    uninstall_refused_lem :
        (s : Option TwaiState) → s ≡ some recovering → (uninstall_from s).1 ≡ some recovering
    uninstall_refused_lem s h = ground (arith, h)

    recovery_keeps_lem : (s : Option TwaiState) → is_some (recover_from s).1 ≡ is_some s
    recovery_keeps_lem s = ground arith

abbrev idle : Can
idle = record {
  port = 0;
  installed = false;
  tx_pin = 0;
  rx_pin = 0;
  bitrate_bps = 0;
  filter_id = 0;
  filter_mask = 0;
  filter_extended = false;
  filter_enabled = false;
}

abbrev off : Model
off = record { state = none; filter = all_pass }

abbrev up : Can
up = record idle { installed = true; tx_pin = 5; rx_pin = 4; bitrate_bps = 500000 }

abbrev on : Model
on = record { state = some running; filter = all_pass }

begin_result : begin model 5 4 500000 idle off ≡ (true, up, on)
unfolding begin install_and_start install_with resolve_timing
begin_result = refl

begin_unsupported : begin model 5 4 123456 idle off ≡ (false, idle, off)
unfolding begin install_and_start install_with resolve_timing
begin_unsupported = refl

begin_twice : begin model 5 4 500000 up on ≡ (false, up, on)
unfolding begin
begin_twice = refl

is_bus_off_result : is_bus_off model up (record on { state = some bus_off }) ≡ true
unfolding is_bus_off
is_bus_off_result = refl

clear_result : (clear_acceptance_filter model up on).0 ≡ true
unfolding clear_acceptance_filter tear_down install_and_start install_with resolve_timing
clear_result = refl

abbrev frame : CanFrame
frame = record {
  id = 291;
  extended_id = false;
  remote = false;
  dlc = 2;
  bytes = 7 ∷ 8 ∷ 0 ∷ 0 ∷ 0 ∷ 0 ∷ 0 ∷ 0 ∷ [];
}

message_to_frame-frame_to_message_example : message_to_frame (frame_to_message frame) ≡ frame
message_to_frame-frame_to_message_example = message_to_frame-frame_to_message frame (record {
  short = omega arith;
  eight = refl;
  padded = (refl, (refl, (refl, (refl, (refl, (refl, tt))))));
})

make_filter-passes_example :
    passes 32
      (make_filter 291 2032 false).acceptance_code
      (make_filter 291 2032 false).acceptance_mask
      (id_register false 300 77)
    ≡ agrees (id_bits false) 291 2032 300
make_filter-passes_example = make_filter-passes 291 2032 300 77 false (omega arith)

-- Started, off the bus, told to recover, back on the bus, and given a filter.
abbrev started : Can × Model
started = step model (begin_call 5 4 500000) (fresh 0) off

abbrev off_bus : Model
off_bus = record started.1 { state = some bus_off }

abbrev on_bus : Model
on_bus = record off_bus { state = some stopped }

history : Reaches model off started.0 on_bus
unfolding step begin install_and_start install_with resolve_timing recover_from_bus_off
history =
    drifted on_bus
      (called recover_call
        (drifted off_bus (called (begin_call 5 4 500000) (made 0) (λ e. absurd (ground (arith, e))))
          refl)
        (λ e. absurd (ground (arith, e))))
      refl

abbrev filtered : Can × Model
filtered = step model (set_filter_call 291 2032 false) started.0 on_bus

Reaches-lives_example :
    (filtered.0.installed ≡ is_some filtered.1.state)
    × (filtered.1.state ≡ some bus_off → is_bus_off model filtered.0 filtered.1 ≡ true)
    × (filtered.1.state ≢ some recovering → (destroy model filtered.0 filtered.1).state ≡ none)
Reaches-lives_example =
    Reaches-lives laws refl
      (called (set_filter_call 291 2032 false) history (λ e. λ q. absurd (ground (arith, q))))

stop-recovering_example :
    ((stop model up (record on { state = some recovering })).0 ≡ true)
    × ((stop model up (record on { state = some recovering })).1.installed ≡ false)
    × ((stop model up (record on { state = some recovering })).2.state ≡ some recovering)
stop-recovering_example = stop-recovering laws up (record on { state = some recovering }) refl refl

set_filter_result : (set_acceptance_filter model 291 2032 false up on).0 ≡ true
unfolding set_acceptance_filter tear_down install_and_start install_with resolve_timing
set_filter_result = refl

set_acceptance_filter-active_example :
    (set_acceptance_filter model 291 2032 false up on).2.state ≡ some running
set_acceptance_filter-active_example =
    (set_acceptance_filter-active laws 291 2032 false up on set_filter_result).0

receive-IsFrame_example :
    (((receive model frame 0 up on).0.0 ≡ pos 1) × IsFrame (receive model frame 0 up on).0.1)
    ⊎ ((((receive model frame 0 up on).0.0 ≡ pos 0)
          ⊎ ((receive model frame 0 up on).0.0 ≡ negsuc 0))
        × ((receive model frame 0 up on).0.1 ≡ frame))
receive-IsFrame_example = receive-IsFrame laws frame 0 up on
