-- ===== src/Quadrature/Fake.antt =====
-- src/ungula/hal/quadrature/drivers/decoder_fake.h: the decoder that tests move by hand.
use ungula_hal.Base.{ℕ, ◌+◌, Bool, true, false, if◌then◌else◌, u32}
use ungula_hal.Base.Int.{ℤ, pos, ◌+ℤ◌}

pub record DecoderFake : Type 0 where
  pub installed : Bool
  pub pin_a : ℕ
  pub pin_b : ℕ
  pub count : ℤ
  pub has_index : Bool
  pub at_index : Bool
  pub begin_call_count : ℕ
  pub stop_call_count : ℕ
  pub reset_call_count : ℕ

abbrev pub fresh : DecoderFake
fresh = record {
  installed = false;
  pin_a = 255;
  pin_b = 255;
  count = pos 0;
  has_index = false;
  at_index = false;
  begin_call_count = 0;
  stop_call_count = 0;
  reset_call_count = 0;
}

unfoldable pub begin : ℕ → ℕ → ℤ → DecoderFake → Bool × DecoderFake
begin a b initial f = if f.installed then (false, f) else (
  true,
  record f {
    pin_a = a;
    pin_b = b;
    count = initial;
    installed = true;
    begin_call_count = u32 (f.begin_call_count + 1);
  },
)

unfoldable pub stop : DecoderFake → Bool × DecoderFake
stop f = (true, record f { installed = false; stop_call_count = u32 (f.stop_call_count + 1) })

unfoldable pub reset : ℤ → DecoderFake → Bool × DecoderFake
reset value f = (true, record f { count = value; reset_call_count = u32 (f.reset_call_count + 1) })

unfoldable pub set_count : ℤ → DecoderFake → DecoderFake
set_count v f = record f { count = v }

unfoldable pub tick : ℤ → DecoderFake → DecoderFake
tick delta f = record f { count = f.count +ℤ delta }

unfoldable pub set_has_index : Bool → DecoderFake → DecoderFake
set_has_index v f = record f { has_index = v }

unfoldable pub mark_index : Bool → DecoderFake → DecoderFake
mark_index v f = record f { at_index = v }
