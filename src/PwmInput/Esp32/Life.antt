-- ===== src/PwmInput/Esp32/Life.antt =====
-- The life of a capture object: what `begin` leaves when it fails and when it succeeds, and what the
-- object reports after the interrupts that follow.
use ungula_hal.Base.{
  ℕ, ◌-◌, ◌<◌, ◌≤◌, ◌≡◌, refl, true, false, List, [], ◌∷◌, arith, u32, length, get_or, set,
  length-set, get_or-set_self, ◌∙◌, ap,
}
use ungula_hal.Gpio.Driver.{Driver}
use ungula_hal.PwmInput.Edge.{CaptureState, cleared, Slots, max_gpio, capture}
use ungula_hal.PwmInput.Measure.{
  Edge, IsHistory, IsFresh, rises, period, high_time, run_edges, capture_measures,
}
use ungula_hal.PwmInput.Esp32.Delivery.{deliver, edges_of, IsWired, slot-deliver}
use ungula_hal.PwmInput.Esp32.Wiring.{Laws, after, begin-handlers, begin-IsWired}
use ungula_hal.PwmInput.Esp32.{
  World, PwmInput, begin, mark, last_high_time_us, last_period_us, has_sample,
}

period_of_few : (ts : List ℕ) → length ts < 2 → period ts ≡ 0
period_of_few [] h = refl
period_of_few (a ∷ []) h = refl
period_of_few (a ∷ b ∷ ts) h = absurd (omega (arith, h))

fresh-claimed : IsFresh (record cleared { in_use = true })
fresh-claimed = record { rise = refl; edge = refl; spans = refl; high = refl; sample = refl }

claimed-slot :
    (pin : ℕ) (slots : Slots)
    → pin < length slots
    → get_or (mark pin true (set slots pin cleared)) pin cleared ≡ record cleared { in_use = true }
claimed-slot pin slots h = ground (
  arith,
  length-set slots pin cleared,
  get_or-set_self slots pin cleared cleared h,
  get_or-set_self (set slots pin cleared) pin (record cleared { in_use = true }) cleared,
)

module _ {d : Driver} (pin : ℕ) (p : PwmInput) (w : World d) where
  -- `begin` that returns true leaves an object bound to the pin, on a slot that has seen no edge.
  pub begin-true :
      length w.slots ≡ max_gpio
      → (begin pin p w).0 ≡ true
      → (pin < max_gpio)
        × ((begin pin p w).1 ≡ record { installed = true; pin = pin })
        × (get_or (begin pin p w).2.slots pin cleared ≡ record cleared { in_use = true })
        × (length (begin pin p w).2.slots ≡ max_gpio)
  unfolding begin
  begin-true l e = ground (
    arith,
    claimed-slot pin w.slots,
    length-set w.slots pin cleared,
    length-set (set w.slots pin cleared) pin
        (record (get_or (set w.slots pin cleared) pin cleared) { in_use = true }),
  )

  -- After a `begin` that returned true, and any interrupts of the process, which reach a slot through the
  -- handlers that the driver holds, and of which those on this pin are a history: from the second rising
  -- edge on the object has a sample, and reports, modulo 2^32, the time between the last two rising edges
  -- as its period and the time from the last rise before the last falling edge to that edge as its high
  -- time. Before that it has no sample and its period is 0, as i_pwm_input.h says; but its high time is
  -- already the time between a first rise and fall, where i_pwm_input.h says that it is 0 until a
  -- complete period.
  pub begin_then_measure :
      (l : Laws d) (evs : List (ℕ × Edge))
      → IsWired (l.handlers w.hw)
      → length w.slots ≡ max_gpio
      → (begin pin p w).0 ≡ true
      → IsHistory (edges_of pin evs)
      → let (done, p', w') = begin pin p w in
        let later = after l evs w' in
        let es = edges_of pin evs in
        (2 ≤ length (rises es)
          → (has_sample p' later ≡ true)
            × (last_period_us p' later ≡ u32 (period (rises es)))
            × (last_high_time_us p' later ≡ u32 (high_time es)))
        × (length (rises es) < 2
            → (has_sample p' later ≡ false)
              × (last_period_us p' later ≡ 0)
              × (last_high_time_us p' later ≡ u32 (high_time es)))
  unfolding last_period_us last_high_time_us has_sample
  begin_then_measure l evs v k e h =
      let b = begin-true k e in
      let handlers = l.handlers (begin pin p w).2.hw in
      let slots = (begin pin p w).2.slots in
      let m =
        capture_measures (record cleared { in_use = true }) fresh-claimed (edges_of pin evs) h in
      let s : get_or (deliver handlers evs slots) pin cleared
          ≡ run_edges (record cleared { in_use = true }) (edges_of pin evs) =
        slot-deliver handlers pin evs slots (begin-IsWired l pin p w e v)
          (begin-handlers l pin p w e).0 b.0 (omega (arith, b.0, b.3))
        ∙ ap (λ x. run_edges x (edges_of pin evs)) b.2 in
      let rs = rises (edges_of pin evs) in
      rw (b.1, s)
        (
          λ two. (ground (arith, m.2, two), m.0, m.1),
          λ one. (ground (arith, m.2, one), m.0 ∙ ap u32 (period_of_few rs one), m.1),
        )

  -- A `begin` that returns false leaves the object as it was.
  begin-false : (begin pin p w).0 ≡ false → (begin pin p w).1 ≡ p
  unfolding begin
  begin-false e = ground arith

-- The high time is reported before the first complete period: after one rise and one fall there is no
-- sample yet, and the slot holds the time between the two, modulo 2^32, as its high time.
pub high_time_before_sample :
    (s : CaptureState) (t u : ℕ)
    → IsFresh s
    → 0 < t
    → t < u
    → u < 18446744073709551616
    → let s' = (capture u false (capture t true s).0).0 in
      (s'.has_sample ≡ false) × (s'.period_us ≡ 0) × (s'.high_time_us ≡ u32 (u - t))
unfolding capture
high_time_before_sample s t u f h k l =
    let m =
      capture_measures s f
        (record { time = u; rising = false } ∷ record { time = t; rising = true } ∷ [])
        (omega arith) in
    (m.2, m.0, m.1)
