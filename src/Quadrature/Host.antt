-- ===== src/Quadrature/Host.antt =====
-- src/ungula/hal/quadrature/platforms/decoder_default.cpp, the stub for host builds: it does not move on its
-- own.
use ungula_hal.Base.{ℕ, Bool, true, false, if◌then◌else◌}
use ungula_hal.Base.Int.{ℤ}

pub record HostDecoder : Type 0 where
  pub installed : Bool
  pub pin_a : ℕ
  pub pin_b : ℕ
  pub count : ℤ

unfoldable pub begin : ℕ → ℕ → ℤ → HostDecoder → Bool × HostDecoder
begin a b initial s =
    if s.installed
    then (false, s)
    else (true, record { installed = true; pin_a = a; pin_b = b; count = initial })

unfoldable pub stop : HostDecoder → Bool × HostDecoder
stop s = (true, record s { installed = false })

unfoldable pub reset : ℤ → HostDecoder → Bool × HostDecoder
reset value s = (true, record s { count = value })
