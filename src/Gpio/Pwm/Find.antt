-- ===== src/Gpio/Pwm/Find.antt =====
-- What the two searches of src/ungula/hal/gpio/platforms/gpio_pwm_esp32.cpp find.
use ungula_hal.Base.{
  ℕ, zero, suc, ◌+◌, ◌≤◌, ◌<◌, ◌≡◌, ◌≢◌, refl, true, false, List, [], ◌∷◌, ◌++◌, arith, ◌&&◌, ◌==◌,
  length, take, get_or, set, Bool-cases, inl, inr,
}
use ungula_hal.Gpio.Pwm.{
  PwmChannelInfo, PwmTimerInfo, find_channel_in, find_timer_in, slot_unused, no_channel, no_timer,
}

-- No channel in use has the pin.
abbrev pub IsFree : ℕ → List PwmChannelInfo → Type 0
IsFree pin [] = Unit {0}
IsFree pin (c ∷ cs) = ((c.pin == pin) ≡ false) × IsFree pin cs

-- The channels in use: configured, each on a pin of its own, with a resolution that the SoC has and
-- one of the `timers` timers.
abbrev pub IsSound : ℕ → ℕ → List PwmChannelInfo → Type 0
IsSound bits timers [] = Unit {0}
IsSound bits timers (c ∷ cs) =
    (c.configured ≡ true)
    × ((1 ≤ c.resolution_bits) × (c.resolution_bits ≤ bits))
    × (c.timer < timers)
    × IsFree c.pin cs
    × IsSound bits timers cs

pub find_channel_in-unused :
    (bits timers pin : ℕ) (cs : List PwmChannelInfo) (n idx : ℕ)
    → IsSound bits timers (take n cs)
    → n + idx < slot_unused
    → find_channel_in pin cs n idx ≡ slot_unused
    → IsFree pin (take n cs)
unfolding find_channel_in
find_channel_in-unused bits timers pin [] zero idx v b h = tt
find_channel_in-unused bits timers pin [] (suc n) idx v b h = tt
find_channel_in-unused bits timers pin (c ∷ cs) zero idx v b h = tt
find_channel_in-unused bits timers pin (c ∷ cs) (suc n) idx v b h =
    elim (Bool-cases (c.pin == pin)) [
      | inl e ↦ absurd (ground (arith, v.0, e, h, b))
      | inr e ↦ (
        e,
        find_channel_in-unused bits timers pin cs n (suc idx) v.4 (omega arith)
            (ground (arith, v.0, e, h)),
      )
    ]

-- A search that finds an index finds one in use, with the pin.
pub find_channel_in-found :
    (pin : ℕ) (cs : List PwmChannelInfo) (n idx : ℕ)
    → find_channel_in pin cs n idx ≢ slot_unused
    → let i = find_channel_in pin cs n idx in
      (j : ℕ) × (i ≡ j + idx) × (j < n) × (j < length cs) × ((get_or cs j no_channel).pin ≡ pin)
unfolding find_channel_in
find_channel_in-found pin [] n idx h = absurd (h refl)
find_channel_in-found pin (c ∷ cs) zero idx h = absurd (h refl)
find_channel_in-found pin (c ∷ cs) (suc n) idx h =
    elim (Bool-cases (c.configured && c.pin == pin)) [
      | inl e ↦ rw e (0, omega arith, omega arith, omega arith, ground (arith, e))
      | inr e ↦
          let (j, i, k, l, p) = find_channel_in-found pin cs n (suc idx) (ground (arith, e, h)) in
          rw e (suc j, omega (arith, i), omega (arith, k), omega (arith, l), p)
    ]

-- A pin at slot `j` in use is found there, if no slot before it has the pin.
pub find_channel_in-free :
    (pin : ℕ) (cs : List PwmChannelInfo) (n idx : ℕ)
    → IsFree pin (take n cs)
    → find_channel_in pin cs n idx ≡ slot_unused
unfolding find_channel_in
find_channel_in-free pin [] n idx f = refl
find_channel_in-free pin (c ∷ cs) zero idx f = refl
find_channel_in-free pin (c ∷ cs) (suc n) idx f =
    ground (arith, f.0, find_channel_in-free pin cs n (suc idx) f.1)

-- A configured channel written behind the slots in use is found where it was written, if none of those
-- has its pin; and every other pin is found where it was.
pub find_channel_in-set :
    (cs : List PwmChannelInfo) (n idx : ℕ) (c : PwmChannelInfo)
    → n < length cs
    → c.configured ≡ true
    → IsFree c.pin (take n cs)
    → find_channel_in c.pin (set cs n c) (suc n) idx ≡ n + idx
unfolding find_channel_in
find_channel_in-set [] n idx c l k f = absurd (omega arith)
find_channel_in-set (d ∷ cs) zero idx c l k f = ground (arith, k)
find_channel_in-set (d ∷ cs) (suc n) idx c l k f =
    ground (arith, f.0, find_channel_in-set cs n (suc idx) c (omega arith) k f.1)

pub find_channel_in-set_ne :
    (pin : ℕ) (cs : List PwmChannelInfo) (n idx : ℕ) (c : PwmChannelInfo)
    → (c.pin == pin) ≡ false
    → find_channel_in pin (set cs n c) (suc n) idx ≡ find_channel_in pin cs n idx
unfolding find_channel_in
find_channel_in-set_ne pin [] n idx c ne = refl
find_channel_in-set_ne pin (d ∷ []) zero idx c ne = ground (arith, ne)
find_channel_in-set_ne pin (d ∷ e ∷ cs) zero idx c ne = ground (arith, ne)
find_channel_in-set_ne pin (d ∷ cs) (suc n) idx c ne =
    ground (arith, find_channel_in-set_ne pin cs n (suc idx) c ne)

-- A channel appended to those in use.
pub IsSound-append :
    (bits timers : ℕ) (cs : List PwmChannelInfo) (c : PwmChannelInfo)
    → IsSound bits timers cs
    → c.configured ≡ true
    → 1 ≤ c.resolution_bits
    → c.resolution_bits ≤ bits
    → c.timer < timers
    → IsFree c.pin cs
    → IsSound bits timers (cs ++ (c ∷ []))
IsSound-append bits timers [] c v k l m t f = (k, (l, m), t, tt, tt)
IsSound-append bits timers (d ∷ cs) c v k l m t f = (
  v.0,
  v.1,
  v.2,
  IsFree-append d.pin cs c v.3 (ground (arith, f.0)),
  IsSound-append bits timers cs c v.4 k l m t f.1,
)
  where
    IsFree-append :
        (pin : ℕ) (cs : List PwmChannelInfo) (c : PwmChannelInfo)
        → IsFree pin cs
        → (c.pin == pin) ≡ false
        → IsFree pin (cs ++ (c ∷ []))
    IsFree-append pin [] c f e = (e, tt)
    IsFree-append pin (d ∷ cs) c f e = (f.0, IsFree-append pin cs c f.1 e)

pub IsSound-more :
    (bits m n : ℕ) (cs : List PwmChannelInfo) → m ≤ n → IsSound bits m cs → IsSound bits n cs
IsSound-more bits m n [] h v = tt
IsSound-more bits m n (c ∷ cs) h v =
    (v.0, v.1, omega (arith, v.2), v.3, IsSound-more bits m n cs h v.4)

-- The timer that a search finds is in use, with the frequency and the resolution.
pub find_timer_in-found :
    (freq res : ℕ) (ts : List PwmTimerInfo) (n idx : ℕ)
    → find_timer_in freq res ts n idx ≢ slot_unused
    → let i = find_timer_in freq res ts n idx in
      (j : ℕ) × (i ≡ j + idx)
      × (j < n)
      × (get_or ts j no_timer ≡ record { freq_hz = freq; res_bits = res; configured = true })
unfolding find_timer_in
find_timer_in-found freq res [] n idx h = absurd (h refl)
find_timer_in-found freq res (t ∷ ts) zero idx h = absurd (h refl)
find_timer_in-found freq res (t ∷ ts) (suc n) idx h =
    elim (Bool-cases (t.configured && t.freq_hz == freq && t.res_bits == res)) [
      | inl e ↦ rw e (0, omega arith, omega arith, ground (arith, e))
      | inr e ↦
          let (j, i, k, p) = find_timer_in-found freq res ts n (suc idx) (ground (arith, e, h)) in
          rw e (suc j, omega (arith, i), omega (arith, k), p)
    ]
