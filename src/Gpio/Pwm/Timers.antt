-- ===== src/Gpio/Pwm/Timers.antt =====
-- The invariant of the tables of src/ungula/hal/gpio/platforms/gpio_pwm_esp32.cpp, and the timer table after
-- `findOrCreateTimer`.
use ungula_hal.Base.{
  ℕ, ◌≤◌, ◌<◌, ◌≡◌, ◌≢◌, refl, true, arith, leb, ◌==◌, length, take, get_or, length-set,
  get_or-set_self, Bool-cases, inl, inr,
}
use ungula_hal.Gpio.Pwm.{Ledc, PwmState, find_timer_in, find_or_create_timer, slot_unused, no_timer}
use ungula_hal.Gpio.Pwm.Find.{IsSound, find_timer_in-found}

-- Slot numbers are bytes below `SLOT_UNUSED`.
pub record IsSoc (g : Ledc) : Type 0 where
  pub few_channels : g.max_pwm_channels < slot_unused

pub record IsWf (g : Ledc) (s : PwmState) : Type 0 where
  pub channels_size : length s.channels ≡ g.max_pwm_channels
  pub timers_size : length s.timers ≡ g.max_pwm_timers
  pub channels_fit : s.channel_count ≤ g.max_pwm_channels
  pub timers_fit : s.timer_count ≤ g.max_pwm_timers
  pub sound : IsSound g.max_resolution_bits s.timer_count (take s.channel_count s.channels)

module _ (g : Ledc) where
  -- The timer table after `findOrCreateTimer`; the channels stay.
  pub record HasTimer (freq res : ℕ) (s : PwmState) (r : ℕ × PwmState × g.Hw) : Type 0 where
    pub same_channels : r.1.channels ≡ s.channels
    pub same_count : r.1.channel_count ≡ s.channel_count
    pub size : length r.1.timers ≡ length s.timers
    pub grows : s.timer_count ≤ r.1.timer_count
    pub fit : r.1.timer_count ≤ g.max_pwm_timers
    pub found :
        r.0 ≢ slot_unused
        → (r.0 < r.1.timer_count)
          × (get_or r.1.timers r.0 no_timer
              ≡ record { freq_hz = freq; res_bits = res; configured = true })

  pub find_or_create_timer-HasTimer :
      (freq res : ℕ) (s : PwmState) (w : g.Hw)
      → IsWf g s
      → HasTimer freq res s (find_or_create_timer g freq res s w)
  unfolding find_or_create_timer
  find_or_create_timer-HasTimer freq res s w v =
      elim (Bool-cases (find_timer_in freq res s.timers s.timer_count 0 == slot_unused)) [
        | inl e ↦ elim (Bool-cases (leb g.max_pwm_timers s.timer_count)) [
          | inl f ↦
              rw (e, f)
                (record {
                  same_channels = refl;
                  same_count = refl;
                  size = refl;
                  grows = omega arith;
                  fit = v.timers_fit;
                  found = λ h. absurd (h refl);
                })
          | inr f ↦ elim (Bool-cases (g.timer_config s.timer_count res freq w).0) [
            | inl o ↦
                rw (e, f, o)
                  (record {
                    same_channels = refl;
                    same_count = refl;
                    size = length-set s.timers s.timer_count _;
                    grows = omega arith;
                    fit = ground (arith, f);
                    found = λ h. (
                      omega arith,
                      get_or-set_self s.timers s.timer_count _ no_timer
                          (ground (arith, f, v.timers_size)),
                    );
                  })
            | inr o ↦
                rw (e, f, o)
                  (record {
                    same_channels = refl;
                    same_count = refl;
                    size = refl;
                    grows = omega arith;
                    fit = v.timers_fit;
                    found = λ h. absurd (h refl);
                  })
          ]
        ]
        | inr e ↦
            let (j, i, k, p) =
              find_timer_in-found freq res s.timers s.timer_count 0 (ground (arith, e)) in
            let at : find_timer_in freq res s.timers s.timer_count 0 ≡ j = omega (arith, i) in
            rw e (record {
              same_channels = refl;
              same_count = refl;
              size = refl;
              grows = omega arith;
              fit = v.timers_fit;
              found = λ h. rw at (k, p);
            })
      ]
