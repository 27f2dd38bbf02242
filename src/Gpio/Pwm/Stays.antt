-- ===== src/Gpio/Pwm/Stays.antt =====
-- A pin that `configPwm` of src/ungula/hal/gpio/platforms/gpio_pwm_esp32.cpp assigned keeps what it got, whatever is
-- configured later.
use ungula_hal.Base.{
  ℕ, zero, suc, ◌+◌, ◌<◌, ◌≡◌, ◌≢◌, ◌∙◌, ap, sym, refl, true, false, List, [], ◌∷◌, arith, ◌||◌,
  not, ltb, leb, ◌==◌, length, take, get_or, get_or-set_ne, Bool-cases, inl, inr,
}
use ungula_hal.Gpio.Pwm.{
  Ledc, PwmState, PwmChannelInfo, find_channel, find_channel_in, find_timer_in,
  find_or_create_timer, assign, config_pwm, slot_unused, no_channel, no_timer,
}
use ungula_hal.Gpio.Pwm.Find.{IsSound, find_channel_in-found, find_channel_in-set_ne}
use ungula_hal.Gpio.Pwm.Timers.{IsSoc, IsWf, find_or_create_timer-HasTimer}
use ungula_hal.Gpio.Pwm.Sound.{IsAssigned, config_pwm-IsWf, rejected}

-- A channel in use has one of the timers.
sound-timer :
    (bits timers : ℕ) (cs : List PwmChannelInfo) (n j : ℕ)
    → IsSound bits timers (take n cs)
    → j < n
    → j < length cs
    → (get_or cs j no_channel).timer < timers
sound-timer bits timers [] n j v h k = absurd (omega arith)
sound-timer bits timers (c ∷ cs) zero j v h k = absurd (omega arith)
sound-timer bits timers (c ∷ cs) (suc n) zero v h k = v.2
sound-timer bits timers (c ∷ cs) (suc n) (suc j) v h k =
    sound-timer bits timers cs n j v.4 (omega arith) (omega arith)

-- The pin's channel is found where it was, and it and its timer are as they were.
record Stays (pin : ℕ) (s s' : PwmState) : Type 0 where
  found_there : find_channel pin s' ≡ find_channel pin s
  same_channel :
      get_or s'.channels (find_channel pin s) no_channel
      ≡ get_or s.channels (find_channel pin s) no_channel
  same_timer :
      let t = (get_or s.channels (find_channel pin s) no_channel).timer in
      get_or s'.timers t no_timer ≡ get_or s.timers t no_timer

Stays-IsAssigned :
    (pin freq res : ℕ) (s s' : PwmState)
    → Stays pin s s'
    → IsAssigned pin freq res s
    → IsAssigned pin freq res s'
Stays-IsAssigned pin freq res s s' k a = record {
  found = λ e. a.found (sym k.found_there ∙ e);
  resolution = rw (k.found_there, k.same_channel) a.resolution;
  timer = rw (k.found_there, k.same_channel, k.same_timer) a.timer;
}

same_search :
    (pin : ℕ) (s s' : PwmState)
    → s'.channels ≡ s.channels
    → s'.channel_count ≡ s.channel_count
    → find_channel pin s' ≡ find_channel pin s
unfolding find_channel
same_search pin s s' e c = rw (e, c) refl

module _ (g : Ledc) where
  timers-stay :
      (freq res t : ℕ) (s : PwmState) (w : g.Hw)
      → t < s.timer_count
      → get_or (find_or_create_timer g freq res s w).1.timers t no_timer
        ≡ get_or s.timers t no_timer
  unfolding find_or_create_timer
  timers-stay freq res t s w h =
      elim (Bool-cases (find_timer_in freq res s.timers s.timer_count 0 == slot_unused)) [
        | inl e ↦ elim (Bool-cases (leb g.max_pwm_timers s.timer_count)) [
          | inl f ↦ rw (e, f) refl
          | inr f ↦ elim (Bool-cases (g.timer_config s.timer_count res freq w).0) [
            | inl o ↦
                rw (e, f, o)
                  (get_or-set_ne s.timers s.timer_count t _ no_timer
                    (λ q. absurd (omega (arith, q, h))))
            | inr o ↦ rw (e, f, o) refl
          ]
        ]
        | inr e ↦ rw e refl
      ]

  -- `configPwm` with each pin, frequency and resolution of a list.
  unfoldable pub config_all : List (ℕ × ℕ × ℕ) → PwmState → g.Hw → PwmState × g.Hw
  config_all [] s w = (s, w)
  config_all ((pin, freq, res) ∷ cs) s w =
      let (done, s', w') = config_pwm g pin freq res s w in config_all cs s' w'

module _ {g : Ledc} (soc : IsSoc g) where
  -- The slot of a pin that is found.
  slot-bounds :
      (pin : ℕ) (s : PwmState)
      → IsWf g s
      → find_channel pin s ≢ slot_unused
      → (find_channel pin s < s.channel_count)
        × ((get_or s.channels (find_channel pin s) no_channel).timer < s.timer_count)
  unfolding find_channel
  slot-bounds pin s v f =
      let (j, i, k, m, p) = find_channel_in-found pin s.channels s.channel_count 0 f in
      let here : find_channel_in pin s.channels s.channel_count 0 ≡ j = omega (arith, i) in
      rw here (
        k,
        sound-timer g.max_resolution_bits s.timer_count s.channels s.channel_count j v.sound k m,
      )

  assign-Stays :
      (pin pin' freq res timr : ℕ) (s s' : PwmState) (w : g.Hw)
      → Stays pin s s'
      → s'.channel_count ≡ s.channel_count
      → find_channel pin s < s.channel_count
      → pin' ≢ pin
      → Stays pin s (assign g pin' res timr s' w).1
  unfolding assign find_channel
  assign-Stays pin pin' freq res timr s s' w k c b n =
      elim (Bool-cases ((timr == slot_unused) || leb g.max_pwm_channels s'.channel_count)) [
        | inl e ↦ rw e k
        | inr e ↦ elim (Bool-cases (g.channel_config s'.channel_count timr pin' w).0) [
          | inl o ↦
              let ch : PwmChannelInfo = record {
                pin = pin';
                timer = timr;
                resolution_bits = res;
                configured = true;
              } in
              let apart : (pin' == pin) ≡ false = ground (arith, n) in
              let one_more : s'.channel_count + 1 ≡ suc s'.channel_count = omega arith in
              rw (e, o, one_more)
                (record {
                  found_there =
                      find_channel_in-set_ne pin s'.channels s'.channel_count 0 ch apart
                      ∙ k.found_there;
                  same_channel =
                      get_or-set_ne s'.channels s'.channel_count (find_channel pin s) ch no_channel
                        (λ q. absurd (omega (arith, q, b, c)))
                      ∙ k.same_channel;
                  same_timer = k.same_timer;
                })
          | inr o ↦ rw (e, o) k
        ]
      ]

  timer-Stays :
      (pin freq res : ℕ) (s : PwmState) (w : g.Hw)
      → IsWf g s
      → find_channel pin s ≢ slot_unused
      → Stays pin s (find_or_create_timer g freq res s w).1
  timer-Stays pin freq res s w v f =
      let h = find_or_create_timer-HasTimer g freq res s w v in
      let (b, t) = slot-bounds pin s v f in
      record {
        found_there =
            same_search pin s (find_or_create_timer g freq res s w).1 h.same_channels h.same_count;
        same_channel = ap (λ cs. get_or cs (find_channel pin s) no_channel) h.same_channels;
        same_timer = timers-stay g freq res _ s w t;
      }

  config_pwm-Stays :
      (pin pin' freq res : ℕ) (s : PwmState) (w : g.Hw)
      → IsWf g s
      → find_channel pin s ≢ slot_unused
      → Stays pin s (config_pwm g pin' freq res s w).1
  unfolding config_pwm
  config_pwm-Stays pin pin' freq res s w v f =
      elim (Bool-cases (
        not (g.is_valid_output_gpio pin')
        || ltb res 1
        || ltb g.max_resolution_bits res
        || not (find_channel pin' s == slot_unused))) [
          | inl e ↦ rw e (record { found_there = refl; same_channel = refl; same_timer = refl })
          | inr e ↦
              let free : find_channel pin' s ≡ slot_unused = ground (arith, e) in
              let r = find_or_create_timer g freq res s w in
              let h = find_or_create_timer-HasTimer g freq res s w v in
              rw e (
                assign-Stays pin pin' freq res r.0 s r.1 r.2 (timer-Stays pin freq res s w v f)
                  h.same_count (slot-bounds pin s v f).0
                  (λ q. f (ap (λ x. find_channel x s) (sym q) ∙ free)))
        ]

  config_all-stays :
      (cs : List (ℕ × ℕ × ℕ)) (pin freq res : ℕ) (s : PwmState) (w : g.Hw)
      → IsWf g s
      → IsAssigned pin freq res s
      → let (s', w') = config_all g cs s w in
        IsAssigned pin freq res s' × (find_channel pin s' ≡ find_channel pin s)
  unfolding config_all
  config_all-stays [] pin freq res s w v a = (a, refl)
  config_all-stays ((pin', freq', res') ∷ cs) pin freq res s w v a =
      let s' = (config_pwm g pin' freq' res' s w).1 in
      let k = config_pwm-Stays pin pin' freq' res' s w v a.found in
      let (kept, same) =
        config_all-stays cs pin freq res s' (config_pwm g pin' freq' res' s w).2
          (config_pwm-IsWf soc pin' freq' res' s w v).0 (Stays-IsAssigned pin freq res s s' k a) in
      (kept, same ∙ k.found_there)

  -- A pin is assigned once and for all: after a `configPwm` of a pin that returned true, whatever is then
  -- configured, with success or not, the pin keeps its channel, its resolution and a timer with its
  -- frequency, and another `configPwm` of it returns false and changes nothing.
  pub config_pwm-for_good :
      (pin freq res : ℕ) (cs : List (ℕ × ℕ × ℕ)) (freq' res' : ℕ) (s : PwmState) (w : g.Hw)
      → IsWf g s
      → (config_pwm g pin freq res s w).0 ≡ true
      → let (done, s1, w1) = config_pwm g pin freq res s w in
        let (s2, w2) = config_all g cs s1 w1 in
        IsAssigned pin freq res s2
        × (find_channel pin s2 ≡ find_channel pin s1)
        × (config_pwm g pin freq' res' s2 w2 ≡ (false, s2, w2))
  config_pwm-for_good pin freq res cs freq' res' s w v h =
      let (v1, a) = config_pwm-IsWf soc pin freq res s w v in
      let r = config_pwm g pin freq res s w in
      let (kept, same) = config_all-stays cs pin freq res r.1 r.2 v1 (a h).1 in
      (kept, same, rejected soc pin freq' res' _ _ kept.found)
