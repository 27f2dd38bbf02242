-- ===== src/Spi/Host.antt =====
-- src/ungula/hal/spi/platforms/spi_master_default.cpp, the stub for host builds: a read brings zeros, on a
-- master that is not installed too.
use ungula_hal.Base.{ℕ, Bool, true, Option, none, some, List, ◌++◌, replicate, drop}

-- `memset` of `n` bytes to zero.
abbrev clear : ℕ → Option (List ℕ) → Option (List ℕ)
clear n none = none
clear n (some b) = some (replicate n 0 ++ drop n b)

-- `begin`, on the flag `installed_`.
unfoldable pub begin : Bool → Bool × Bool
begin installed = (true, true)

unfoldable pub transfer : Option (List ℕ) → ℕ → Bool → Bool × Option (List ℕ)
transfer rx len installed = (installed, clear len rx)

unfoldable pub write : Bool → Bool
write installed = installed

unfoldable pub read : Option (List ℕ) → ℕ → Bool → Bool × Option (List ℕ)
read buffer len installed = (installed, clear len buffer)

unfoldable pub write_read : Option (List ℕ) → ℕ → Bool → Bool × Option (List ℕ)
write_read rx read_len installed = (installed, clear read_len rx)
