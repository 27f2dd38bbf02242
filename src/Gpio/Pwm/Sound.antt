-- ===== src/Gpio/Pwm/Sound.antt =====
-- What `configPwm` of src/ungula/hal/gpio/platforms/gpio_pwm_esp32.cpp leaves in the tables.
use ungula_hal.Base.{
  ℕ, suc, ◌+◌, ◌≤◌, ◌<◌, ◌≡◌, ◌≢◌, ◌∙◌, ap, refl, true, false, arith, ◌||◌, not, ltb, leb, ◌==◌,
  length, take, get_or, set, length-set, take-set, get_or-set_self, Bool-cases, inl, inr,
}
use ungula_hal.Gpio.Pwm.{
  Ledc, PwmState, PwmChannelInfo, find_channel, find_or_create_timer, assign, config_pwm,
  slot_unused, no_channel, no_timer,
}
use ungula_hal.Gpio.Pwm.Find.{
  IsFree, find_channel_in-unused, find_channel_in-set, IsSound-append, IsSound-more,
}
use ungula_hal.Gpio.Pwm.Timers.{IsSoc, IsWf, HasTimer, find_or_create_timer-HasTimer}

module _ (g : Ledc) where
  -- What `configPwm` has when it reaches its last part: a pin that no channel has, and a resolution that
  -- the SoC has.
  record IsReady (pin freq res timr : ℕ) (s : PwmState) : Type 0 where
    free : IsFree pin (take s.channel_count s.channels)
    low : 1 ≤ res
    high : res ≤ g.max_resolution_bits
    found :
        timr ≢ slot_unused
        → (timr < s.timer_count)
          × (get_or s.timers timr no_timer
              ≡ record { freq_hz = freq; res_bits = res; configured = true })

-- The pin's channel is the one that a search finds, with the resolution, on a timer with the frequency.
pub record IsAssigned (pin freq res : ℕ) (s : PwmState) : Type 0 where
  pub found : find_channel pin s ≢ slot_unused
  pub resolution : (get_or s.channels (find_channel pin s) no_channel).resolution_bits ≡ res
  pub timer :
      get_or s.timers (get_or s.channels (find_channel pin s) no_channel).timer no_timer
      ≡ record { freq_hz = freq; res_bits = res; configured = true }

module _ {g : Ledc} (soc : IsSoc g) where
  HasTimer-IsWf :
      (freq res : ℕ) (s : PwmState) (r : ℕ × PwmState × g.Hw)
      → IsWf g s
      → HasTimer g freq res s r
      → IsWf g r.1
  HasTimer-IsWf freq res s r v h = record {
    channels_size = ap length h.same_channels ∙ v.channels_size;
    timers_size = h.size ∙ v.timers_size;
    channels_fit = omega (arith, h.same_count, v.channels_fit);
    timers_fit = h.fit;
    sound =
        rw (h.same_count, h.same_channels)
          (IsSound-more g.max_resolution_bits s.timer_count r.1.timer_count _ h.grows v.sound);
  }

  -- The state that `assign` leaves when the driver accepts the channel.
  abbrev placed : PwmState → PwmChannelInfo → PwmState
  placed s c = record s {
    channels = set s.channels s.channel_count c;
    channel_count = s.channel_count + 1;
  }

  one_more : (n : ℕ) → n + 1 ≡ suc n
  one_more n = omega arith

  module _ (pin freq res timr : ℕ) (s : PwmState) (v : IsWf g s) (a : IsReady g pin freq res timr s)
      (room : s.channel_count < g.max_pwm_channels) (used : timr ≢ slot_unused) where
    abbrev channel : PwmChannelInfo
    channel = record { pin = pin; timer = timr; resolution_bits = res; configured = true }

    within : s.channel_count < length s.channels
    within = omega (arith, room, v.channels_size)

    placed-IsWf : IsWf g (placed s channel)
    placed-IsWf = record {
      channels_size = length-set s.channels s.channel_count channel ∙ v.channels_size;
      timers_size = v.timers_size;
      channels_fit = omega (arith, room);
      timers_fit = v.timers_fit;
      sound =
          rw (one_more s.channel_count, take-set s.channels s.channel_count channel within)
            (IsSound-append g.max_resolution_bits s.timer_count _ channel v.sound refl a.low a.high
              (a.found used).0 a.free);
    }

    find-placed : find_channel pin (placed s channel) ≡ s.channel_count
    unfolding find_channel
    find-placed =
        rw (one_more s.channel_count) (
          find_channel_in-set s.channels s.channel_count 0 channel within refl a.free ∙ omega arith)

    placed-channel :
        get_or (placed s channel).channels (find_channel pin (placed s channel)) no_channel
        ≡ channel
    placed-channel =
        rw find-placed (get_or-set_self s.channels s.channel_count channel no_channel within)

    placed-IsAssigned : IsAssigned pin freq res (placed s channel)
    placed-IsAssigned = record {
      found = λ h. absurd (omega (arith, h, find-placed, room, soc.few_channels));
      resolution = ap (λ c. c.resolution_bits) placed-channel;
      timer = ap (λ c. get_or s.timers c.timer no_timer) placed-channel ∙ (a.found used).1;
    }

  assign_lem :
      (pin freq res timr : ℕ) (s : PwmState) (w : g.Hw)
      → IsWf g s
      → IsReady g pin freq res timr s
      → IsWf g (assign g pin res timr s w).1
        × ((assign g pin res timr s w).0 ≡ true
            → IsAssigned pin freq res (assign g pin res timr s w).1)
  unfolding assign
  assign_lem pin freq res timr s w v a =
      elim (Bool-cases ((timr == slot_unused) || leb g.max_pwm_channels s.channel_count)) [
        | inl e ↦ rw e (v, λ h. absurd (ground (arith, h)))
        | inr e ↦
            let room : s.channel_count < g.max_pwm_channels = ground (arith, e) in
            let used : timr ≢ slot_unused = ground (arith, e) in
            elim (Bool-cases (g.channel_config s.channel_count timr pin w).0) [
              | inl o ↦
                  rw (e, o)
                    (
                      placed-IsWf pin freq res timr s v a room used,
                      λ h. placed-IsAssigned pin freq res timr s v a room used,
                    )
              | inr o ↦ rw (e, o) (v, λ h. absurd (ground (arith, h)))
            ]
      ]

  -- What `configPwm` leaves when it goes past its guards.
  guarded :
      (pin freq res : ℕ) (s : PwmState) (w : g.Hw)
      → IsWf g s
      → 1 ≤ res
      → res ≤ g.max_resolution_bits
      → find_channel pin s ≡ slot_unused
      → let (timr, s', w') = find_or_create_timer g freq res s w in
        IsWf g (assign g pin res timr s' w').1
        × ((assign g pin res timr s' w').0 ≡ true
            → IsAssigned pin freq res (assign g pin res timr s' w').1)
  unfolding find_channel
  guarded pin freq res s w v low high free =
      let r = find_or_create_timer g freq res s w in
      let h = find_or_create_timer-HasTimer g freq res s w v in
      let is_free =
        find_channel_in-unused g.max_resolution_bits s.timer_count pin s.channels s.channel_count 0
          v.sound (omega (arith, v.channels_fit, soc.few_channels)) free in
      assign_lem pin freq res r.0 r.1 r.2 (HasTimer-IsWf freq res s r v h) (record {
        free = rw (h.same_count, h.same_channels) is_free;
        low = low;
        high = high;
        found = h.found;
      })

  -- `configPwm` keeps the tables well-formed, on every path: the counts stay within the tables, and the
  -- channels in use are configured, on different pins, with resolutions that the SoC has, on timers in
  -- use. When it returns true, no channel had the pin before, and the channel that a search for the pin
  -- now finds has the resolution and a timer with the frequency and the resolution asked for.
  pub config_pwm-IsWf :
      (pin freq res : ℕ) (s : PwmState) (w : g.Hw)
      → IsWf g s
      → let (done, s', w') = config_pwm g pin freq res s w in
        IsWf g s' × (done ≡ true → (find_channel pin s ≡ slot_unused) × IsAssigned pin freq res s')
  unfolding config_pwm
  config_pwm-IsWf pin freq res s w v =
      elim (Bool-cases (
        not (g.is_valid_output_gpio pin)
        || ltb res 1
        || ltb g.max_resolution_bits res
        || not (find_channel pin s == slot_unused))) [
          | inl e ↦ rw e (v, λ h. absurd (ground (arith, h)))
          | inr e ↦
              let free : find_channel pin s ≡ slot_unused = ground (arith, e) in
              let k = guarded pin freq res s w v (ground (arith, e)) (ground (arith, e)) free in
              rw e (k.0, λ h. (free, k.1 h))
        ]

  pub rejected :
      (pin freq res : ℕ) (s : PwmState) (w : g.Hw)
      → find_channel pin s ≢ slot_unused
      → config_pwm g pin freq res s w ≡ (false, s, w)
  unfolding config_pwm
  rejected pin freq res s w found = ground (arith, found)

  -- A pin is assigned once: after a `configPwm` of a pin that returned true, another one of the same pin
  -- returns false and changes nothing, whatever its frequency and its resolution.
  pub config_pwm-once :
      (pin freq res freq' res' : ℕ) (s : PwmState) (w : g.Hw)
      → IsWf g s
      → (config_pwm g pin freq res s w).0 ≡ true
      → let (_, s', w') = config_pwm g pin freq res s w in
        config_pwm g pin freq' res' s' w' ≡ (false, s', w')
  config_pwm-once pin freq res freq' res' s w v h =
      let found = ((config_pwm-IsWf pin freq res s w v).1 h).1.found in
      rejected pin freq' res' (config_pwm g pin freq res s w).1 (config_pwm g pin freq res s w).2
        found
