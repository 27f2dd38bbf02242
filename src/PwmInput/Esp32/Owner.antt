-- ===== src/PwmInput/Esp32/Owner.antt =====
-- What a capture object of src/ungula/hal/pwm_input/platforms/pwm_input_esp32.cpp holds of the GPIO driver and of
-- the slots, from its `begin` to its `stop` or its destructor.
use ungula_hal.Base.{
  ℕ, ◌<◌, ◌≡◌, ◌≢◌, ◌∙◌, ap, sym, refl, Bool, true, false, none, some, List, ◌==◌, ◌||◌, leb,
  length, get_or, set, get_or-set_self, get_or-set_ne, Bool-cases, ==_iff, inl, inr, arith,
}
use ungula_hal.Gpio.Driver.{Driver}
use ungula_hal.PwmInput.Edge.{cleared, Slots, max_gpio}
use ungula_hal.PwmInput.Measure.{Edge}
use ungula_hal.PwmInput.Esp32.{World, PwmInput, begin, claim, stop, destroy, mark, on_edge_address}
use ungula_hal.PwmInput.Esp32.Delivery.{length-deliver, IsWired, slot-silent}
use ungula_hal.PwmInput.Esp32.Wiring.{
  Laws, after, ready, ready-handlers, ready-slots, begin-refused, begin-ready, begin-handlers,
  begin-IsWired,
}
use ungula_hal.PwmInput.Esp32.Life.{begin-true}

mark_elsewhere :
    (pin q : ℕ) (b : Bool) (slots : Slots)
    → q ≢ pin
    → get_or (mark pin b slots) q cleared ≡ get_or slots q cleared
mark_elsewhere pin q b slots n =
    get_or-set_ne slots pin q (record (get_or slots pin cleared) { in_use = b }) cleared
      (λ e. n (sym e))

mark_self :
    (pin : ℕ) (b : Bool) (slots : Slots)
    → pin < length slots
    → (get_or (mark pin b slots) pin cleared).in_use ≡ b
mark_self pin b slots h =
    ap (λ s. s.in_use)
      (get_or-set_self slots pin (record (get_or slots pin cleared) { in_use = b }) cleared h)

module _ {d : Driver} (l : Laws d) (pin : ℕ) (p : PwmInput) (w : World d) where
  -- A `begin` that returned false, seen from the object, the driver and the other pins.
  abbrev Undone : Bool × PwmInput × World d → Type 0
  Undone r =
      (r.1 ≡ p)
      × ((q : ℕ) → l.handlers r.2.hw q ≡ l.handlers w.hw q)
      × ((q : ℕ) → q ≢ pin → get_or r.2.slots q cleared ≡ get_or w.slots q cleared)

  claim-false :
      (v : World d)
      → (claim pin p v).0 ≡ false
      → ((claim pin p v).1 ≡ p)
        × (l.handlers (claim pin p v).2.hw ≡ l.handlers v.hw)
        × ((q : ℕ) → q ≢ pin → get_or (claim pin p v).2.slots q cleared ≡ get_or v.slots q cleared)
  unfolding claim
  claim-false v e = elim (Bool-cases (d.isr_handler_add pin on_edge_address pin v.hw).0) [
    | inl a ↦ absurd (ground (arith, a, e))
    | inr a ↦ rw a (
      refl,
      l.refuses pin on_edge_address pin v.hw a,
      λ q n.
          mark_elsewhere pin q false _ n
          ∙ mark_elsewhere pin q true (set v.slots pin cleared) n
          ∙ get_or-set_ne v.slots pin q cleared cleared (λ c. n (sym c)),
    )
  ]

  begin-false : (begin pin p w).0 ≡ false → Undone (begin pin p w)
  begin-false e = elim (Bool-cases (p.installed || leb max_gpio pin)) [
    | inl c ↦ rw (begin-refused l pin p w c) (refl, λ q. refl, λ q n. refl)
    | inr c ↦ elim (begin-ready l pin p w c) [
      | inl same ↦
          let (kept, handlers, slots) =
            claim-false (ready l pin p w) (ap (λ r. r.0) (sym same) ∙ e) in
          rw same (
            kept,
            λ q. ap (λ h. h q) (handlers ∙ ready-handlers l pin p w),
            λ q n. slots q n ∙ ap (λ s. get_or s q cleared) (ready-slots l pin p w),
          )
      | inr (never, kept, slots, handlers) ↦
          (kept, λ q. ap (λ h. h q) handlers, λ q n. ap (λ s. get_or s q cleared) slots)
    ]
  ]

  -- After `stop`, the pin has no handler and the others have theirs.
  stop-handlers :
      (v : World d)
      → let w' = (stop (record { installed = true; pin = pin }) v).2 in
        (l.handlers w'.hw pin ≡ none)
        × ((q : ℕ) → q ≢ pin → l.handlers w'.hw q ≡ l.handlers v.hw q)
        × (w'.slots ≡ mark pin false v.slots)
  unfolding stop
  stop-handlers v = (l.removes pin v.hw, λ q n. l.removes_elsewhere pin q v.hw n, refl)

  stopped-IsWired :
      (v : World d)
      → IsWired (l.handlers v.hw)
      → IsWired (l.handlers (stop (record { installed = true; pin = pin }) v).2.hw)
  stopped-IsWired v i q ctx h = elim (Bool-cases (q == pin)) [
    | inl same ↦
        let here : q ≡ pin = (==_iff q pin).0 same in
        absurd (
          handled (on_edge_address, ctx)
            (sym (stop-handlers v).0 ∙ ap (l.handlers _) (sym here) ∙ h))
    | inr other ↦
        let apart : q ≢ pin = λ a. absurd (ground (arith, other, a)) in
        i q ctx (sym ((stop-handlers v).1 q apart) ∙ h)
  ]
    where
      handled : (x : ℕ × ℕ) → none ≢ some x
      handled x e = absurd (ground (arith, e))

  stop-twice :
      (v : World d)
      → let (stopped, p', v') = stop (record { installed = true; pin = pin }) v in
        (stop p' v' ≡ (true, p', v')) × (destroy (record { installed = true; pin = pin }) v ≡ v')
  unfolding stop destroy
  stop-twice v = (refl, refl)

  -- A `begin` that returns false leaves the object, every handler and the slots of the other pins as they
  -- were. After one that returned true, and any interrupts, `stop` takes the pin's handler away and leaves
  -- every other pin the one that it had before, the slot is free and rests whatever edges come, a second
  -- `stop` does nothing, and the destructor in place of `stop` does the same.
  pub begin_then_stop :
      (evs more : List (ℕ × Edge))
      → IsWired (l.handlers w.hw)
      → length w.slots ≡ max_gpio
      → let (done, p1, w1) = begin pin p w in
        let w2 = after l evs w1 in
        let (stopped, p2, w3) = stop p1 w2 in
        (done ≡ false
          → (p1 ≡ p)
            × ((q : ℕ) → l.handlers w1.hw q ≡ l.handlers w.hw q)
            × ((q : ℕ) → q ≢ pin → get_or w1.slots q cleared ≡ get_or w.slots q cleared))
        × (done ≡ true
            → (l.handlers w3.hw pin ≡ none)
              × ((q : ℕ) → q ≢ pin → l.handlers w3.hw q ≡ l.handlers w.hw q)
              × ((get_or w3.slots pin cleared).in_use ≡ false)
              × (get_or (after l more w3).slots pin cleared ≡ get_or w3.slots pin cleared)
              × (stop p2 w3 ≡ (true, p2, w3))
              × (destroy p1 w2 ≡ w3))
  begin_then_stop evs more v k = (
    begin-false,
    λ e.
        let (bound, q, slot, size) = begin-true pin p w k e in
        let w2 = after l evs (begin pin p w).2 in
        let (gone, others, marked) = stop-handlers w2 in
        let fits : pin < length w2.slots =
          omega
            (arith, bound, size, length-deliver (l.handlers w2.hw) evs (begin pin p w).2.slots) in
        let (again, destroyed) = stop-twice w2 in
        rw q (
          gone,
          λ r n. others r n ∙ (begin-handlers l pin p w e).1 r n,
          ap (λ t. (get_or t pin cleared).in_use) marked ∙ mark_self pin false w2.slots fits,
          slot-silent _ pin more _ (stopped-IsWired w2 (begin-IsWired l pin p w e v)) gone,
          again,
          destroyed,
        ),
  )
