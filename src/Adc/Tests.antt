-- ===== src/Adc/Tests.antt =====
-- Tests of src/ungula/hal/adc on a small driver, and the theorems at concrete inputs.
use ungula_hal.Adc.Host
use ungula_hal.Base.{
  ℕ, suc, ◌+◌, ◌*◌, ◌≤◌, ◌<◌, ◌≡◌, refl, true, false, none, some, [], ◌∷◌, arith, ltb, ◌++◌,
  if◌then◌else◌, replicate,
}
use ungula_hal.Base.Int.{pos, negsuc}
use ungula_hal.Adc.Oneshot.{Oneshot, unit_1, atten_db_12}
use ungula_hal.Adc.Convert.{db_12, db_0, raw_to_mv_fallback, raw_to_mv_fallback-bounds}
use ungula_hal.Adc.Manager.{
  AdcManager, no_channel, configure, find_channel, max_channels, read_raw, read_mv, no_scheme,
  curve_fitting,
}
use ungula_hal.Adc.Manager.Table.{IsTable, configure-IsTable}
use ungula_hal.Adc.Manager.Read.{read_mv-result}

-- Pins below 10 are channels of the first unit; the driver counts the handles that are made.
abbrev model : Oneshot
model = record {
  Hw = ℕ;
  UnitHandle = ℕ;
  Cali = ℕ;
  curve_fitting_supported = true;
  line_fitting_supported = false;
  io_to_channel = λ p. if ltb p 10 then some (unit_1, p) else none;
  new_unit = λ u w. (some 7, suc w);
  del_unit = λ u w. w;
  config_channel = λ u c a w. (true, w);
  read = λ u c w. (some (negsuc 2), w);
  create_curve_fitting = λ u a w. (some 3, suc w);
  create_line_fitting = λ u a w. (none, w);
  delete_curve_fitting = λ h w. w;
  delete_line_fitting = λ h w. w;
  raw_to_voltage = λ h r. some (pos 1234);
}

abbrev fresh : AdcManager model
fresh = record {
  channels = replicate 16 no_channel;
  channel_count = 0;
  units = replicate 2 none;
  cali = replicate 8 (record { handle = none; scheme = no_scheme });
}

abbrev in_use : AdcManager model
in_use = record {
  channels =
      record { pin = 4; unit = unit_1; channel = 4; atten = atten_db_12; configured = true }
      ∷ replicate 15 no_channel;
  channel_count = 1;
  units = some 7 ∷ none ∷ [];
  cali =
      replicate 3 (record { handle = none; scheme = no_scheme })
      ++ (record { handle = some 3; scheme = curve_fitting }
          ∷ replicate 4 (record { handle = none; scheme = no_scheme }));
}

fresh-IsTable : IsTable fresh
fresh-IsTable = record { size = refl; fit = omega arith }

configure-IsTable_example :
    let (done, m', w') = configure model 4 db_12 fresh 0 in
    IsTable m'
    × (done ≡ false → (m'.channels ≡ fresh.channels) × (m'.channel_count ≡ fresh.channel_count))
    × (done ≡ true
        → (find_channel model 4 fresh ≡ max_channels)
          × (find_channel model 4 m' ≡ 0)
          × (0 < max_channels)
          × (m'.channel_count ≡ fresh.channel_count + 1)
          × (configure model 4 db_0 m' w' ≡ (false, m', w')))
configure-IsTable_example = configure-IsTable 4 db_12 db_0 fresh 0 fresh-IsTable

-- The driver reads 1000 and converts it to 1234 mV.
abbrev good : Oneshot
good = record model { read = λ u c w. (some (pos 1000), w) }

abbrev good_in_use : AdcManager good
good_in_use = record {
  channels = in_use.channels;
  channel_count = 1;
  units = in_use.units;
  cali =
      replicate 3 (record { handle = none; scheme = no_scheme })
      ++ (record { handle = some 3; scheme = curve_fitting }
          ∷ replicate 4 (record { handle = none; scheme = no_scheme }));
}

read_mv-result_example : (read_mv good 4 good_in_use 2).1 ≡ 1234
unfolding read_raw find_channel ungula_hal.Adc.Manager.find_channel_in
read_mv-result_example =
    ((read_mv-result good 4 good_in_use 2).5 refl 0 refl).conversion 3 1234 refl refl (omega arith)

raw_to_mv_fallback-bounds_example :
    (raw_to_mv_fallback (pos 2048) atten_db_12 * 4095 ≤ 2048 * 3100)
    × (2048 * 3100 < (raw_to_mv_fallback (pos 2048) atten_db_12 + 1) * 4095)
    × (raw_to_mv_fallback (pos 2048) atten_db_12 ≤ raw_to_mv_fallback (pos 4095) atten_db_12)
    × (raw_to_mv_fallback (pos 4095) atten_db_12 ≤ 3100)
raw_to_mv_fallback-bounds_example =
    raw_to_mv_fallback-bounds 2048 4095 atten_db_12 (omega arith) (omega arith)

-- On the host too a pin is assigned once, and a pin that was not is not read.
abbrev with_pin : Host.HostAdc
with_pin = (Host.configure 34 Host.fresh).1

host_once : (Host.configure 34 with_pin).0 ≡ false
unfolding Host.configure Host.find_slot
host_once = refl

host_unknown : Host.read_mv 35 with_pin ≡ (false, 0)
unfolding Host.configure Host.find_slot Host.read_mv
host_unknown = refl
