-- ===== src/Adc/Host.antt =====
-- src/ungula/hal/adc/platforms/adc_manager_default.h, the stub for host builds: it keeps the pins it is given and
-- reads zeros.
use ungula_hal.Base.{
  ℕ, zero, suc, ◌+◌, Bool, true, false, List, [], ◌∷◌, ◌&&◌, leb, not, ◌==◌, if◌then◌else◌, get_or,
  set, replicate,
}
use ungula_hal.Adc.Manager.{max_channels}

pub record HostAdc : Type 0 where
  pub pins : List ℕ
  pub configured : List Bool
  pub count : ℕ

abbrev pub fresh : HostAdc
fresh = record {
  pins = replicate max_channels 0;
  configured = replicate max_channels false;
  count = 0;
}

-- The loop from `i` on, with the turns that are left.
abbrev pub find_from : ℕ → ℕ → ℕ → HostAdc → ℕ
find_from pin zero i a = max_channels
find_from pin (suc n) i a =
    let rest = find_from pin n (i + 1) a in
    if get_or a.configured i false && get_or a.pins i 0 == pin then i else rest

unfoldable pub find_slot : ℕ → HostAdc → ℕ
find_slot pin a = find_from pin a.count 0 a

unfoldable pub configure : ℕ → HostAdc → Bool × HostAdc
unfolding find_slot
configure pin a =
    if not (find_slot pin a == max_channels)
    then (false, a)
    else if leb max_channels a.count
    then (false, a)
    else (
      true,
      record {
        pins = set a.pins a.count pin;
        configured = set a.configured a.count true;
        count = a.count + 1;
      },
    )

-- The reading comes after the result.
unfoldable pub read_mv : ℕ → HostAdc → Bool × ℕ
unfolding find_slot
read_mv pin a = (not (find_slot pin a == max_channels), 0)

unfoldable pub read_raw : ℕ → HostAdc → Bool × ℕ
unfolding find_slot
read_raw pin a = (not (find_slot pin a == max_channels), 0)

abbrev all_to {ℓ} : {A : Type ℓ} → A → List A → List A
all_to v [] = []
all_to v (x ∷ xs) = v ∷ all_to v xs

unfoldable pub deinit : HostAdc → HostAdc
deinit a = record { pins = all_to 0 a.pins; configured = all_to false a.configured; count = 0 }
