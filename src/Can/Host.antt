-- ===== src/Can/Host.antt =====
-- src/ungula/hal/can/platforms/can_default.cpp, the stub for host builds: it accepts what it is sent while it is
-- installed, and receives nothing. The state is the flag `installed_`.
use ungula_hal.Base.{Bool, true, false, if◌then◌else◌}
use ungula_hal.Base.Int.{ℤ, pos, negsuc}

unfoldable pub begin : Bool → Bool × Bool
begin installed = if installed then (false, installed) else (true, true)

unfoldable pub stop : Bool → Bool × Bool
stop installed = (true, false)

unfoldable pub send : Bool → Bool
send installed = installed

unfoldable pub receive : Bool → ℤ
receive installed = if installed then pos 0 else negsuc 0

unfoldable pub set_acceptance_filter : Bool → Bool
set_acceptance_filter installed = installed

unfoldable pub clear_acceptance_filter : Bool → Bool
clear_acceptance_filter installed = installed

unfoldable pub is_bus_off : Bool → Bool
is_bus_off installed = false

unfoldable pub recover_from_bus_off : Bool → Bool
recover_from_bus_off installed = installed
