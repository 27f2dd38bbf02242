-- ===== src/Gpio/Pwm/Duty.antt =====
-- The duties that `writePwm` of src/ungula/hal/gpio/platforms/gpio_pwm_esp32.cpp asks for.
use ungula_hal.Base.{ℕ, ◌^◌, ◌<◌, arith, ◌==◌, get_or, pow2_pos, Bool-cases, inl, inr}
use ungula_hal.Gpio.Pwm.{
  Ledc, PwmState, find_channel_in, find_channel, write_pwm, clamp_duty, slot_unused, no_channel,
}
use ungula_hal.Gpio.Pwm.Find.{find_channel_in-found}
use ungula_hal.Gpio.Pwm.Timers.{IsWf}

clamp_duty_lem : (g : Ledc) (res duty : ℕ) → clamp_duty g res duty < 2 ^ res
clamp_duty_lem g res duty = ground (arith, pow2_pos res)

-- Any property of the driver's state that duties within a channel's resolution keep, on a channel in
-- use, is kept by `writePwm`, whatever pin and duty it is given.
pub write_pwm-keeps :
    (g : Ledc) (s : PwmState) (Good : g.Hw → Type 0)
    → IsWf g s
    → ((ch duty : ℕ) (w : g.Hw)
        → ch < s.channel_count
        → duty < 2 ^ (get_or s.channels ch no_channel).resolution_bits
        → Good w
        → Good (g.set_duty ch duty w).1)
    → ((ch : ℕ) (w : g.Hw) → ch < s.channel_count → Good w → Good (g.update_duty ch w).1)
    → (pin duty : ℕ) (w : g.Hw) → Good w
    → Good (write_pwm g pin duty s w).1
unfolding write_pwm find_channel
write_pwm-keeps g s Good v on_set on_update pin duty w h =
    let ch = find_channel_in pin s.channels s.channel_count 0 in
    let bits = (get_or s.channels ch no_channel).resolution_bits in
    let asked = clamp_duty g bits duty in
    elim (Bool-cases (ch == slot_unused)) [
      | inl e ↦ rw e h
      | inr e ↦
          let (j, i, k, _, _) =
            find_channel_in-found pin s.channels s.channel_count 0 (ground (arith, e)) in
          let in_use : ch < s.channel_count = omega (arith, i, k) in
          let kept = on_set ch asked w in_use (clamp_duty_lem g bits duty) h in
          elim (Bool-cases (g.set_duty ch asked w).0) [
            | inl o ↦ rw (e, o) (on_update ch _ in_use kept)
            | inr o ↦ rw (e, o) kept
          ]
    ]
