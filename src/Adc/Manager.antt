-- ===== src/Adc/Manager.antt =====
-- `AdcManager` of src/ungula/hal/adc/platforms/adc_manager_esp32.cpp. The tables are lists; the two
-- dimensions of `cali_` are one, row by row.
pub mod Deinit
pub mod Table
pub mod Read
pub mod Ledger
pub mod Release
pub mod Balance
pub mod Lifetime
mod Tests
use ungula_hal.Base.{
  ℕ, zero, suc, ◌+◌, ◌-◌, ◌*◌, Bool, true, false, Option, none, some, List, [], ◌∷◌, ◌&&◌, ◌||◌,
  not, leb, ◌==◌, if◌then◌else◌, get_or, set, replicate, is_some, u32,
}
use ungula_hal.Base.Int.{ℤ, pos, negsuc}
use ungula_hal.Adc.Oneshot.{Oneshot, AdcUnit, unit_1, AdcAtten, atten_db_0}
use ungula_hal.Adc.Convert.{
  Attenuation, unit_to_index, atten_to_index, to_idf_attenuation, raw_to_mv_fallback,
}

pub data CaliScheme : Type 0 where
  no_scheme curve_fitting line_fitting : CaliScheme

pub record ChannelInfo : Type 0 where
  pub pin : ℕ
  pub unit : AdcUnit
  pub channel : ℕ
  pub atten : AdcAtten
  pub configured : Bool

pub record CaliEntry (d : Oneshot) : Type 0 where
  pub handle : Option d.Cali
  pub scheme : CaliScheme

pub record AdcManager (d : Oneshot) : Type 0 where
  pub channels : List ChannelInfo
  pub channel_count : ℕ
  pub units : List (Option d.UnitHandle)
  pub cali : List (CaliEntry d)

abbrev pub max_channels : ℕ
max_channels = 16

abbrev pub no_channel : ChannelInfo
no_channel = record { pin = 0; unit = unit_1; channel = 0; atten = atten_db_0; configured = false }

unfoldable pub find_channel_in : ℕ → List ChannelInfo → ℕ → ℕ → ℕ
find_channel_in pin [] n idx = max_channels
find_channel_in pin (c ∷ cs) zero idx = max_channels
find_channel_in pin (c ∷ cs) (suc n) idx =
    let rest = find_channel_in pin cs n (suc idx) in
    if c.configured && c.pin == pin then idx else rest

abbrev index_or_zero : Option ℕ → ℕ
index_or_zero none = 0
index_or_zero (some i) = i

module _ (d : Oneshot) where
  abbrev pub no_cali : CaliEntry d
  no_cali = record { handle = none; scheme = no_scheme }

  -- The initialisers of the fields.
  abbrev pub fresh : AdcManager d
  fresh = record {
    channels = replicate max_channels no_channel;
    channel_count = 0;
    units = replicate 2 none;
    cali = replicate 8 no_cali;
  }

  unfoldable pub find_channel : ℕ → AdcManager d → ℕ
  find_channel pin m = find_channel_in pin m.channels m.channel_count 0

  -- The deletion of one calibration entry, and of one unit.
  delete_cali : CaliScheme → d.Cali → d.Hw → d.Hw
  delete_cali no_scheme h w = w
  delete_cali curve_fitting h w =
      if d.curve_fitting_supported then d.delete_curve_fitting h w else w
  delete_cali line_fitting h w = if d.line_fitting_supported then d.delete_line_fitting h w else w

  release_cali : Option d.Cali → CaliEntry d → d.Hw → CaliEntry d × d.Hw
  unfolding delete_cali
  release_cali none e w = (e, w)
  release_cali (some h) e w = (no_cali, delete_cali e.scheme h w)

  pub delete_calis : List (CaliEntry d) → d.Hw → List (CaliEntry d) × d.Hw
  unfolding release_cali
  delete_calis [] w = ([], w)
  delete_calis (e ∷ es) w =
      let (e', w1) = release_cali e.handle e w in
      let (es', w2) = delete_calis es w1 in (e' ∷ es', w2)

  release_unit : Option d.UnitHandle → d.Hw → d.Hw
  release_unit none w = w
  release_unit (some h) w = d.del_unit h w

  pub delete_units : List (Option d.UnitHandle) → d.Hw → List (Option d.UnitHandle) × d.Hw
  unfolding release_unit
  delete_units [] w = ([], w)
  delete_units (u ∷ us) w = let (us', w') = delete_units us (release_unit u w) in (none ∷ us', w')

  unfoldable pub deinit : AdcManager d → d.Hw → AdcManager d × d.Hw
  unfolding delete_calis delete_units
  deinit m w =
      let (es, w1) = delete_calis m.cali w in
      let (us, w2) = delete_units m.units w1 in
      (
        record {
          channels = replicate max_channels no_channel;
          channel_count = 0;
          units = us;
          cali = es;
        },
        w2,
      )

  new_unit_at : ℕ → Option d.UnitHandle → AdcManager d → d.Hw → Bool × AdcManager d × d.Hw
  new_unit_at idx none m w = (false, m, w)
  new_unit_at idx (some h) m w = (true, record m { units = set m.units idx (some h) }, w)

  ensure_unit_at : AdcUnit → Option ℕ → AdcManager d → d.Hw → Bool × AdcManager d × d.Hw
  unfolding new_unit_at
  ensure_unit_at unit none m w = (false, m, w)
  ensure_unit_at unit (some idx) m w =
      let (made, w') = d.new_unit unit w in
      if is_some (get_or m.units idx none) then (true, m, w) else new_unit_at idx made m w'

  unfoldable pub ensure_unit : AdcUnit → AdcManager d → d.Hw → Bool × AdcManager d × d.Hw
  unfolding ensure_unit_at
  ensure_unit unit m w = ensure_unit_at unit (unit_to_index unit) m w

  -- One attempt at a scheme; `none` leaves the entry to the next.
  entry_of : CaliScheme → Option d.Cali → CaliEntry d
  entry_of s none = no_cali
  entry_of s (some h) = record { handle = some h; scheme = s }

  calibrate : AdcUnit → AdcAtten → d.Hw → CaliEntry d × d.Hw
  unfolding entry_of
  calibrate unit atten w =
      let (curve, w1) =
        if d.curve_fitting_supported then d.create_curve_fitting unit atten w else (none, w) in
      let (line, w2) =
        if d.line_fitting_supported then d.create_line_fitting unit atten w1 else (none, w1) in
      if is_some curve then (entry_of curve_fitting curve, w1) else (entry_of line_fitting line, w2)

  ensure_calibration_at : AdcUnit → AdcAtten → Option ℕ → AdcManager d → d.Hw → AdcManager d × d.Hw
  unfolding calibrate
  ensure_calibration_at unit atten none m w = (m, w)
  ensure_calibration_at unit atten (some idx) m w =
      let at = idx * 4 + atten_to_index atten in
      let (e, w') = calibrate unit atten w in
      if is_some ((get_or m.cali at no_cali).handle)
      then (m, w)
      else (record m { cali = set m.cali at e }, w')

  unfoldable pub ensure_calibration : AdcUnit → AdcAtten → AdcManager d → d.Hw → AdcManager d × d.Hw
  unfolding ensure_calibration_at
  ensure_calibration unit atten m w = ensure_calibration_at unit atten (unit_to_index unit) m w

  -- The end of `configure`, with the unit at hand.
  enroll : ℕ → AdcUnit → ℕ → AdcAtten → AdcManager d → d.Hw → Bool × AdcManager d × d.Hw
  enroll pin unit channel atten m w =
      let (m', w') = ensure_calibration unit atten m w in
      (
        true,
        record m' {
          channels = set m'.channels m'.channel_count (record {
            pin = pin;
            unit = unit;
            channel = channel;
            atten = atten;
            configured = true;
          });
          channel_count = m'.channel_count + 1;
        },
        w',
      )

  attach : ℕ → AdcUnit → ℕ → AdcAtten → Option ℕ → AdcManager d → d.Hw → Bool × AdcManager d × d.Hw
  unfolding enroll
  attach pin unit channel atten none m w = (false, m, w)
  attach pin unit channel atten (some idx) m w =
      let (done, w') = d.config_channel (get_or m.units idx none) channel atten w in
      if done then enroll pin unit channel atten m w' else (false, m, w')

  configure_at :
      ℕ → Attenuation → Option (AdcUnit × ℕ) → AdcManager d → d.Hw → Bool × AdcManager d × d.Hw
  unfolding attach
  configure_at pin atten none m w = (false, m, w)
  configure_at pin atten (some (unit, channel)) m w =
      let (ready, m', w') = ensure_unit unit m w in
      if not (find_channel pin m == max_channels) || leb max_channels m.channel_count
      then (false, m, w)
      else (if ready
          then attach pin unit channel (to_idf_attenuation atten) (unit_to_index unit) m' w'
          else (false, m', w'))

  unfoldable pub configure : ℕ → Attenuation → AdcManager d → d.Hw → Bool × AdcManager d × d.Hw
  unfolding configure_at
  configure pin atten m w = configure_at pin atten (d.io_to_channel pin) m w

  -- A result with the value that the caller's variable then holds.
  sample : Option ℤ → d.Hw → Bool × ℤ × d.Hw
  sample none w = (false, pos 0, w)
  sample (some (pos n)) w = (true, pos n, w)
  sample (some (negsuc n)) w = (true, pos 0, w)

  read_unit : ℕ → Option ℕ → AdcManager d → d.Hw → Bool × ℤ × d.Hw
  unfolding sample
  read_unit channel none m w = (false, pos 0, w)
  read_unit channel (some idx) m w =
      let (r, w') = d.read (get_or m.units idx none) channel w in sample r w'

  unfoldable pub read_raw : ℕ → AdcManager d → d.Hw → Bool × ℤ × d.Hw
  unfolding read_unit
  read_raw pin m w =
      let idx = find_channel pin m in
      let info = get_or m.channels idx no_channel in
      if idx == max_channels
      then (false, pos 0, w)
      else read_unit info.channel (unit_to_index info.unit) m w

  -- `static_cast<uint32_t>` of an `int`.
  abbrev pub to_u32 : ℤ → ℕ
  to_u32 (pos n) = u32 n
  to_u32 (negsuc n) = 4294967295 - u32 n

  millivolts : Option ℤ → ℤ → AdcAtten → ℕ
  millivolts none raw atten = raw_to_mv_fallback raw atten
  millivolts (some mv) raw atten = to_u32 mv

  convert : Option d.Cali → ℤ → AdcAtten → ℕ
  unfolding millivolts
  convert none raw atten = raw_to_mv_fallback raw atten
  convert (some h) raw atten = millivolts (d.raw_to_voltage h raw) raw atten

  unfoldable pub read_mv : ℕ → AdcManager d → d.Hw → Bool × ℕ × d.Hw
  unfolding convert
  read_mv pin m w =
      let (done, raw, w') = read_raw pin m w in
      let info = get_or m.channels (find_channel pin m) no_channel in
      let at = index_or_zero (unit_to_index info.unit) * 4 + atten_to_index info.atten in
      if done
      then (true, convert ((get_or m.cali at no_cali).handle) raw info.atten, w')
      else (false, 0, w')
