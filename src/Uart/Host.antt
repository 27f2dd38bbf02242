-- ===== src/Uart/Host.antt =====
-- src/ungula/hal/uart/platforms/uart_default.cpp, the stub for host builds. Its `flush` and `flushInput` are
-- empty.
use ungula_hal.Base.{ℕ, ◌-◌, Bool, true, false, List, ltb, if◌then◌else◌, u32, set}
use ungula_hal.Base.Int.{ℤ, pos, negsuc}
use ungula_hal.Uart.{Uart}

unfoldable pub begin : Uart → Bool × Uart
begin u = if u.installed then (false, u) else (true, record u { installed = true })

-- The length of what is written, as an `int32_t`.
abbrev to_i32 : ℕ → ℤ
to_i32 n = if ltb (u32 n) 2147483648 then pos (u32 n) else negsuc (4294967295 - u32 n)

unfoldable pub write : ℕ → Uart → ℤ
write length u = if u.installed then to_i32 length else negsuc 0

-- With the caller's buffer, unless it is null, after the call.
unfoldable pub read : List ℕ → ℕ → Uart → ℤ × List ℕ
read buffer max_length u =
    if u.installed
    then (pos 0, if ltb 0 max_length then set buffer 0 0 else buffer)
    else (negsuc 0, buffer)
