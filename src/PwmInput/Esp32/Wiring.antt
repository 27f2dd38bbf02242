-- ===== src/PwmInput/Esp32/Wiring.antt =====
-- What `begin` of src/ungula/hal/pwm_input/platforms/pwm_input_esp32.cpp registers with the GPIO driver.
use ungula_hal.Base.{
  ℕ, ◌≡◌, ◌≢◌, ◌∙◌, ap, sym, refl, true, false, Option, none, some, List, ◌==◌, ◌||◌, ◌⊎◌, leb,
  Bool-cases, ==_iff, inl, inr, arith,
}
use ungula_hal.Gpio.Driver.{Driver, GpioConfig}
use ungula_hal.Gpio.IsrService.{Guard, vacant, installing, settled, install}
use ungula_hal.PwmInput.Edge.{max_gpio}
use ungula_hal.PwmInput.Esp32.{
  World, PwmInput, begin, claim, edge_config, is_failed, on_edge_address,
}
use ungula_hal.PwmInput.Measure.{Edge}
use ungula_hal.PwmInput.Esp32.Delivery.{IsWired, deliver}

-- The handler and the context of each pin. One that is added takes the place of an earlier one, one that is
-- removed is gone, and no other call changes any.
pub record Laws (d : Driver) : Type 0 where
  pub handlers : d.Hw → ℕ → Option (ℕ × ℕ)
  pub configures : (c : GpioConfig) (w : d.Hw) → handlers (d.config c w).1 ≡ handlers w
  pub installs : (w : d.Hw) → handlers (d.install_isr_service w).1 ≡ handlers w
  pub adds :
      (pin f ctx : ℕ) (w : d.Hw)
      → (d.isr_handler_add pin f ctx w).0 ≡ true
      → handlers (d.isr_handler_add pin f ctx w).1 pin ≡ some (f, ctx)
  pub adds_elsewhere :
      (pin f ctx q : ℕ) (w : d.Hw)
      → q ≢ pin
      → handlers (d.isr_handler_add pin f ctx w).1 q ≡ handlers w q
  pub refuses :
      (pin f ctx : ℕ) (w : d.Hw)
      → (d.isr_handler_add pin f ctx w).0 ≡ false
      → handlers (d.isr_handler_add pin f ctx w).1 ≡ handlers w
  pub removes : (pin : ℕ) (w : d.Hw) → handlers (d.isr_handler_remove pin w).1 pin ≡ none
  pub removes_elsewhere :
      (pin q : ℕ) (w : d.Hw) → q ≢ pin → handlers (d.isr_handler_remove pin w).1 q ≡ handlers w q

-- The world after interrupts, dispatched by the handlers that the driver holds.
abbrev pub after : {d : Driver} → Laws d → List (ℕ × Edge) → World d → World d
after l evs w = record w { slots = deliver (l.handlers w.hw) evs w.slots }

install-handlers :
    {d : Driver} (l : Laws d) (g : Guard) (w : d.Hw) → l.handlers (install d g w).2 ≡ l.handlers w
unfolding install
install-handlers l vacant w = l.installs w
install-handlers l installing w = refl
install-handlers l settled w = refl

module _ {d : Driver} (l : Laws d) (pin : ℕ) (p : PwmInput) (w : World d) where
  -- The world when `begin` claims the slot, after the calls before.
  pub ready : World d
  ready =
      let (service, guard, hw) = install d w.guard (d.config (edge_config pin) w.hw).1 in
      record w { guard = guard; hw = hw }

  pub begin-refused : (p.installed || leb max_gpio pin) ≡ true → begin pin p w ≡ (false, p, w)
  unfolding begin
  begin-refused e = rw e refl

  pub begin-ready :
      (p.installed || leb max_gpio pin) ≡ false
      → (begin pin p w ≡ claim pin p ready)
        ⊎ (((begin pin p w).0 ≡ false)
            × ((begin pin p w).1 ≡ p)
            × ((begin pin p w).2.slots ≡ w.slots)
            × (l.handlers (begin pin p w).2.hw ≡ l.handlers w.hw))
  unfolding begin ready
  begin-ready e =
      let configured = d.config (edge_config pin) w.hw in
      let service = install d w.guard configured.1 in
      elim (Bool-cases configured.0) [
        | inl c ↦ elim (Bool-cases (is_failed service.0)) [
          | inl f ↦
              rw (e, c, f)
                (inr (
                  refl,
                  refl,
                  refl,
                  install-handlers l w.guard configured.1 ∙ l.configures (edge_config pin) w.hw,
                ))
          | inr f ↦ rw (e, c, f) (inl refl)
        ]
        | inr c ↦ rw (e, c) (inr (refl, refl, refl, l.configures (edge_config pin) w.hw))
      ]

  pub ready-handlers : l.handlers ready.hw ≡ l.handlers w.hw
  unfolding ready
  ready-handlers =
      install-handlers l w.guard (d.config (edge_config pin) w.hw).1
      ∙ l.configures (edge_config pin) w.hw

  pub ready-slots : ready.slots ≡ w.slots
  unfolding ready
  ready-slots = refl

  claim-handlers :
      (v : World d)
      → (claim pin p v).0 ≡ true
      → (l.handlers (claim pin p v).2.hw pin ≡ some (on_edge_address, pin))
        × ((q : ℕ) → q ≢ pin → l.handlers (claim pin p v).2.hw q ≡ l.handlers v.hw q)
  unfolding claim
  claim-handlers v e = elim (Bool-cases (d.isr_handler_add pin on_edge_address pin v.hw).0) [
    | inl a ↦ rw a (
      l.adds pin on_edge_address pin v.hw a,
      λ q n. l.adds_elsewhere pin on_edge_address pin q v.hw n,
    )
    | inr a ↦ absurd (ground (arith, a, e))
  ]

  -- `begin` that returns true adds the handler of its pin.
  pub begin-handlers :
      (begin pin p w).0 ≡ true
      → (l.handlers (begin pin p w).2.hw pin ≡ some (on_edge_address, pin))
        × ((q : ℕ) → q ≢ pin → l.handlers (begin pin p w).2.hw q ≡ l.handlers w.hw q)
  begin-handlers e = elim (Bool-cases (p.installed || leb max_gpio pin)) [
    | inl c ↦ absurd (refused (ap (λ r. r.0) (sym (begin-refused c)) ∙ e))
    | inr c ↦ elim (begin-ready c) [
      | inl same ↦
          let (here, elsewhere) = claim-handlers ready (ap (λ r. r.0) (sym same) ∙ e) in
          rw same (here, λ q n. elsewhere q n ∙ ap (λ h. h q) ready-handlers)
      | inr (never, q, s, h) ↦ absurd (refused (sym never ∙ e))
    ]
  ]
    where
      refused : false ≢ true
      refused q = absurd (ground (arith, q))

  -- The wiring is kept.
  pub begin-IsWired :
      (begin pin p w).0 ≡ true
      → IsWired (l.handlers w.hw)
      → IsWired (l.handlers (begin pin p w).2.hw)
  begin-IsWired e v q ctx h = elim (Bool-cases (q == pin)) [
    | inl same ↦
        let here : q ≡ pin = (==_iff q pin).0 same in
        ap context (sym h ∙ ap (l.handlers (begin pin p w).2.hw) here ∙ (begin-handlers e).0)
        ∙ sym here
    | inr other ↦
        let apart : q ≢ pin = λ a. absurd (ground (arith, other, a)) in
        v q ctx (sym ((begin-handlers e).1 q apart) ∙ h)
  ]
    where
      context : Option (ℕ × ℕ) → ℕ
      context none = 0
      context (some (f, c)) = c
