-- ===== src/Adc/Convert.antt =====
-- The pure helpers of src/ungula/hal/adc/platforms/adc_manager_esp32.cpp: indices of units and
-- attenuations, and the conversion that stands in for a missing calibration.
use ungula_hal.Base.{ℕ, ◌+◌, ◌*◌, ◌/◌, ◌≤◌, ◌<◌, arith, Option, none, some, u32}
use ungula_hal.Base.Int.{ℤ, pos, negsuc}
use ungula_hal.Adc.Oneshot.{
  AdcUnit, unit_1, unit_2, unit_other, AdcAtten, atten_db_0, atten_db_2_5, atten_db_6, atten_db_12,
  atten_other,
}

pub data Attenuation : Type 0 where
  db_0 db_2_5 db_6 db_12 : Attenuation

-- The index, or `none` where the code returns false.
abbrev pub unit_to_index : AdcUnit → Option ℕ
unit_to_index unit_1 = some 0
unit_to_index unit_2 = some 1
unit_to_index unit_other = none

abbrev pub atten_to_index : AdcAtten → ℕ
atten_to_index atten_db_0 = 0
atten_to_index atten_db_2_5 = 1
atten_to_index atten_db_6 = 2
atten_to_index atten_db_12 = 3
atten_to_index atten_other = 3

abbrev pub to_idf_attenuation : Attenuation → AdcAtten
to_idf_attenuation db_0 = atten_db_0
to_idf_attenuation db_2_5 = atten_db_2_5
to_idf_attenuation db_6 = atten_db_6
to_idf_attenuation db_12 = atten_db_12

abbrev pub fallback_full_scale_mv : AdcAtten → ℕ
fallback_full_scale_mv atten_db_0 = 950
fallback_full_scale_mv atten_db_2_5 = 1250
fallback_full_scale_mv atten_db_6 = 1750
fallback_full_scale_mv atten_db_12 = 3100
fallback_full_scale_mv atten_other = 3100

abbrev pub clamp_raw : ℤ → ℕ
clamp_raw (pos n) = n
clamp_raw (negsuc n) = 0

unfoldable pub raw_to_mv_fallback : ℤ → AdcAtten → ℕ
raw_to_mv_fallback raw atten = u32 (u32 (clamp_raw raw) * fallback_full_scale_mv atten) / 4095

-- On a 12-bit sample the conversion does not wrap: it is the sample's share of the full scale, rounded
-- down, at most the full scale, and no smaller for a larger sample.
pub raw_to_mv_fallback-bounds :
    (raw more : ℕ) (a : AdcAtten)
    → raw ≤ more
    → more ≤ 4095
    → (raw_to_mv_fallback (pos raw) a * 4095 ≤ raw * fallback_full_scale_mv a)
      × (raw * fallback_full_scale_mv a < (raw_to_mv_fallback (pos raw) a + 1) * 4095)
      × (raw_to_mv_fallback (pos raw) a ≤ raw_to_mv_fallback (pos more) a)
      × (raw_to_mv_fallback (pos more) a ≤ fallback_full_scale_mv a)
unfolding raw_to_mv_fallback
raw_to_mv_fallback-bounds raw more atten_db_0 h k = omega arith
raw_to_mv_fallback-bounds raw more atten_db_2_5 h k = omega arith
raw_to_mv_fallback-bounds raw more atten_db_6 h k = omega arith
raw_to_mv_fallback-bounds raw more atten_db_12 h k = omega arith
raw_to_mv_fallback-bounds raw more atten_other h k = omega arith
