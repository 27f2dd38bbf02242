-- ===== src/Lib.antt =====
-- A verification library of UngulaHal, the hardware abstraction layer under src/ungula/hal: peripherals
-- of the ESP32 behind small C++ classes, each with a backend over ESP-IDF, a stub for host builds and,
-- for some, a fake that tests drive by hand. Paths below are from the repository's root.
--
-- The parts:
--   Timer     one-shot hardware timers. `Machine` is the interface of src/ungula/hal/timer/i_hwtimer.h,
--             `Contract` what its calls do to what a client knows of a timer, `Promise` which calls
--             its comments determine, and `Refine` what keeping to that means; `Gptimer` is the driver of
--             ESP-IDF and what is relied on of it; `Esp32` platforms/hwtimer_esp32.cpp, with
--             `Esp32.Ledger` and `Esp32.Owner` for what it holds of the driver; `Host`
--             platforms/hwtimer_default.cpp; `Fake` drivers/hwtimer_fake.h. A method such as
--             `startOneShotTicks` is `start_one_shot_ticks`, and a field such as `lastAlarmCount_` is
--             `last_alarm_count`.
--   Gpio      src/ungula/hal/gpio: `Config` and `Access` are the functions of platforms/gpio_esp32.h and
--             `Sound` what they ask of the driver (`Driver`); `IsrService` is `installIsrService` for
--             one caller, `IsrService.Threads` for many that interleave and `IsrService.Progress` how
--             they come back; `Pwm` is platforms/gpio_pwm_esp32.cpp, whose `s_pwmState` is the record
--             `PwmState`; `Host` is platforms/gpio_default.h.
--   PwmInput  src/ungula/hal/pwm_input: `Edge` is the interrupt handler `onEdge` of
--             platforms/pwm_input_esp32.cpp and its slots, `Measure` what the handler measures, `Esp32`
--             the object, whose `begin` goes through the guard of Gpio.IsrService: `Esp32.Wiring` and
--             `Esp32.Delivery` are the handlers that the GPIO driver holds and the interrupts that go
--             through them, `Esp32.Life` and `Esp32.Owner` what the object reports and what it holds;
--             `Fake` is drivers/pwm_input_fake.h and `Host` platforms/pwm_input_default.cpp.
--   Can       src/ungula/hal/can: `Frame` and `Filter` are the conversions of
--             platforms/can_esp32_twai.cpp, `Twai` the driver, `Esp32` the class `Can`, with
--             `Esp32.Life` for what it comes to between construction and destruction; `Host` is
--             platforms/can_default.cpp.
--   Adc       src/ungula/hal/adc: `Oneshot` is what is asked of the ADC drivers, `Convert` the pure helpers
--             of platforms/adc_manager_esp32.cpp, `Manager` the class `AdcManager` with its default of 16
--             channels; an out-parameter is a part of the result. `Host` is
--             platforms/adc_manager_default.h.
--   Multiplexer  src/ungula/hal/multiplexer: the channel cache of i_multiplexer.cpp with the TCA9548 of
--             drivers/multiplexer_tca9548.cpp, over the class of I2c; `Cache` sets it against the chips of
--             a bus and `Shared` has two on one bus, `Fake` is drivers/multiplexer_fake.h and `Retries`
--             what the cache does with it.
--   Uart      src/ungula/hal/uart: the class of platforms/uart_esp32.cpp over an abstract UART driver;
--             `Owner` sets `installed_` against the driver, `Host` is platforms/uart_default.cpp.
--   Console   src/ungula/hal/console: console.cpp over Uart; `Editor` is the line as a function of the
--             keys, `Terminal` what is at the other end of the UART, `Refine` sets `readLine` against
--             the editor and `Typing` is a line without corrections.
--   Quadrature  src/ungula/hal/quadrature: the decoder of platforms/decoder_esp32.cpp over the pulse
--             counter (`Pcnt`); `Handles` is what it holds of the driver, by the laws of `Ledger`;
--             `Setup` is how `begin` sets up the counter, by the laws of `Counter`, and `Shaft` what
--             it counts of the moves of `Turns`; `Fake` drivers/decoder_fake.h and `Host`
--             platforms/decoder_default.cpp.
--   I2c       src/ungula/hal/i2c: the class of platforms/i2c_master_esp32.cpp, which builds a command
--             link (`Link`) for each call; `Wire` reads the link by the rules of the bus (`Protocol`),
--             `Owner` sets `installed_` against the driver, `Host` is platforms/i2c_master_default.cpp.
--   Spi       src/ungula/hal/spi: the class of platforms/spi_master_esp32.cpp over a driver (`Bus`);
--             `Buffers` are those of `writeRead` and `Exchange` what the device sees of it, `Owner`
--             the devices that several objects hold, `Host` is platforms/spi_master_default.cpp.
--   Sync      src/ungula/hal/sync: the class of platforms/critical_section_esp32.h over FreeRTOS's spinlock
--             (`Port`) and `ScopedLock` of critical_section.h; `Threads` are callers that share one,
--             `Phases`, `Steps` and `Serial` what becomes of the data that they share, `Host` is
--             platforms/critical_section_default.h.
--   Base, Esp names and lemmas that the parts share, and the results of ESP-IDF's calls.
--
-- How the model stands to the code. ESP-IDF is not in the repository: each of its drivers is a record
-- of functions over an abstract state, an argument of every definition that calls it, and what the code
-- relies on is a record of laws. A method returns its result with the new state of the object and of the
-- driver; an object that shares state with others (the capture slots, the guard of the ISR service)
-- takes that state as an argument. Unsigned integers of the code are natural numbers with the wrap
-- written out where the code can reach it. Interrupts and callbacks are events of a sequence, and
-- threads are interleaved step by step, in one order that all see: the effects of weak memory orders
-- are not modelled.
--
-- Loops over tables are structural recursion and need no fuel. `fireMany` recurses on the number of
-- fires that it is asked for, and the wait for the guard of the ISR service is a step of a schedule.
-- `readLine` runs on fuel: one turn more than the bytes that are pending is enough.
--
-- Not modelled: the masking of interrupts by the critical section and nested scopes of one lock, the
-- umbrella headers, the compiler attributes, the tests and sketches, and the log helpers of the
-- multiplexer with its settling pause.
mod Base
mod Esp
pub mod Timer
pub mod Gpio
pub mod PwmInput
pub mod Can
pub mod Adc
pub mod Multiplexer
pub mod Uart
pub mod Console
pub mod Quadrature
pub mod I2c
pub mod Spi
pub mod Sync
