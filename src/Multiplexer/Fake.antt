-- ===== src/Multiplexer/Fake.antt =====
-- src/ungula/hal/multiplexer/drivers/multiplexer_fake.h: the driver that tests script, with the state of the base
-- class in `base`.
use ungula_hal.Base.{ℕ, ◌+◌, ◌-◌, Bool, true, false, ◌||◌, ltb, if◌then◌else◌, u32}
use ungula_hal.Multiplexer.{Mux, select_channel}

pub record MultiplexerFake : Type 0 where
  pub base : Mux
  pub begin_result : Bool
  pub is_responding_result : Bool
  pub select_always_fails : Bool
  pub failures_remaining : ℕ
  pub last_channel_requested : ℕ
  pub select_call_count : ℕ
  pub select_failure_count : ℕ
  pub begin_call_count : ℕ
  pub restart_call_count : ℕ
  pub is_responding_call_count : ℕ

abbrev pub fresh : MultiplexerFake
fresh = record {
  base = record {
    i2c_address = 112;
    initiated = false;
    is_functional = false;
    current_channel = 255;
    logging_enabled = false;
  };
  begin_result = true;
  is_responding_result = true;
  select_always_fails = false;
  failures_remaining = 0;
  last_channel_requested = 255;
  select_call_count = 0;
  select_failure_count = 0;
  begin_call_count = 0;
  restart_call_count = 0;
  is_responding_call_count = 0;
}

unfoldable pub begin : MultiplexerFake → Bool × MultiplexerFake
begin f = (
  f.begin_result,
  record f {
    base = record f.base { initiated = true; is_functional = f.begin_result };
    begin_call_count = u32 (f.begin_call_count + 1);
  },
)

unfoldable pub restart_bus : MultiplexerFake → MultiplexerFake
restart_bus f = record f {
  restart_call_count = u32 (f.restart_call_count + 1);
  base = record f.base { is_functional = false; current_channel = 255 };
}

unfoldable pub is_responding : MultiplexerFake → Bool × MultiplexerFake
is_responding f = (
  f.is_responding_result,
  record f {
    is_responding_call_count = u32 (f.is_responding_call_count + 1);
    base = record f.base { is_functional = f.is_responding_result };
  },
)

unfoldable pub set_begin_result : Bool → MultiplexerFake → MultiplexerFake
set_begin_result b f = record f { begin_result = b }

unfoldable pub set_is_responding_result : Bool → MultiplexerFake → MultiplexerFake
set_is_responding_result b f = record f { is_responding_result = b }

unfoldable pub fail_next_selects : ℕ → MultiplexerFake → MultiplexerFake
fail_next_selects n f = record f { failures_remaining = n }

unfoldable pub set_select_always_fails : Bool → MultiplexerFake → MultiplexerFake
set_select_always_fails b f = record f { select_always_fails = b }

unfoldable pub reset_counters : MultiplexerFake → MultiplexerFake
reset_counters f = record f {
  select_call_count = 0;
  select_failure_count = 0;
  begin_call_count = 0;
  restart_call_count = 0;
  is_responding_call_count = 0;
  failures_remaining = 0;
  select_always_fails = false;
}

-- `selectChannel_`. Subtraction stops at 0, which is what the code tests for.
unfoldable pub select_hook : ℕ → MultiplexerFake → Bool × MultiplexerFake
select_hook channel f =
    let asked = record f {
      select_call_count = u32 (f.select_call_count + 1);
      last_channel_requested = channel;
    } in
    if f.select_always_fails || ltb 0 f.failures_remaining
    then (
      false,
      record asked {
        failures_remaining = f.failures_remaining - 1;
        select_failure_count = u32 (f.select_failure_count + 1);
      },
    )
    else (true, asked)

-- The base class with this driver.
unfoldable pub select : ℕ → MultiplexerFake → Bool × MultiplexerFake
unfolding select_hook
select channel f =
    let (done, m, f') = select_channel select_hook channel f.base f in
    (done, record f' { base = m })
