-- ===== src/PwmInput/Esp32/Delivery.antt =====
-- How the interrupts reach the slots of src/ungula/hal/pwm_input/platforms/pwm_input_esp32.cpp: through the handlers
-- that the GPIO driver holds.
use ungula_hal.Base.{
  ℕ, ◌<◌, ◌≡◌, ◌≢◌, ◌∙◌, ap, sym, refl, Bool, Option, none, some, List, [], ◌∷◌, ◌==◌,
  if◌then◌else◌, length, get_or, length-set, get_or-set_self, get_or-set_ne, Bool-cases, ==_iff,
  inl, inr, arith,
}
use ungula_hal.PwmInput.Edge.{cleared, Slots, max_gpio, on_edge, capture}
use ungula_hal.PwmInput.Esp32.{on_edge_address}
use ungula_hal.PwmInput.Measure.{Edge, run_edges}

-- An edge on a pin runs the pin's handler, if it has one. Handlers of others leave the slots alone.
unfoldable pub dispatch : Option (ℕ × ℕ) → Edge → Slots → Slots
dispatch none e slots = slots
dispatch (some (f, ctx)) e slots =
    if f == on_edge_address then (on_edge ctx e.time e.rising slots).0 else slots

-- The interrupts of the process, newest first: each an edge on a pin.
unfoldable pub deliver : (ℕ → Option (ℕ × ℕ)) → List (ℕ × Edge) → Slots → Slots
unfolding dispatch
deliver h [] slots = slots
deliver h ((pin, e) ∷ evs) slots = dispatch (h pin) e (deliver h evs slots)

-- Those on one pin.
abbrev pub edges_of : ℕ → List (ℕ × Edge) → List Edge
edges_of pin [] = []
edges_of pin ((q, e) ∷ evs) = let rest = edges_of pin evs in if q == pin then e ∷ rest else rest

-- `onEdge` is only ever registered with its own pin.
abbrev pub IsWired : (ℕ → Option (ℕ × ℕ)) → Type 0
IsWired h = (q ctx : ℕ) → h q ≡ some (on_edge_address, ctx) → ctx ≡ q

length-on_edge :
    (pin t : ℕ) (level : Bool) (slots : Slots) → length (on_edge pin t level slots).0 ≡ length slots
unfolding on_edge
length-on_edge pin t level slots =
    ground (arith, length-set slots pin (capture t level (get_or slots pin cleared)).0)

length-dispatch :
    (o : Option (ℕ × ℕ)) (e : Edge) (slots : Slots) → length (dispatch o e slots) ≡ length slots
unfolding dispatch
length-dispatch none e slots = refl
length-dispatch (some (f, ctx)) e slots = elim (Bool-cases (f == on_edge_address)) [
  | inl q ↦ rw q (length-on_edge ctx e.time e.rising slots)
  | inr q ↦ rw q refl
]

pub length-deliver :
    (h : ℕ → Option (ℕ × ℕ)) (evs : List (ℕ × Edge)) (slots : Slots)
    → length (deliver h evs slots) ≡ length slots
unfolding deliver
length-deliver h [] slots = refl
length-deliver h ((pin, e) ∷ evs) slots =
    length-dispatch (h pin) e (deliver h evs slots) ∙ length-deliver h evs slots

on_edge_self :
    (pin t : ℕ) (level : Bool) (slots : Slots)
    → pin < max_gpio
    → pin < length slots
    → get_or (on_edge pin t level slots).0 pin cleared
      ≡ (capture t level (get_or slots pin cleared)).0
on_edge_self pin t level slots h k =
    unfold on_edge in
    ground
      (arith, get_or-set_self slots pin (capture t level (get_or slots pin cleared)).0 cleared k)

on_edge_ne :
    (q pin t : ℕ) (level : Bool) (slots : Slots)
    → q ≢ pin
    → get_or (on_edge q t level slots).0 pin cleared ≡ get_or slots pin cleared
on_edge_ne q pin t level slots ne =
    unfold on_edge in
    ground
      (arith, get_or-set_ne slots q pin (capture t level (get_or slots q cleared)).0 cleared ne)

-- What is registered with another pin leaves the slot.
dispatch_elsewhere :
    (pin : ℕ) (o : Option (ℕ × ℕ)) (e : Edge) (slots : Slots)
    → ((ctx : ℕ) → o ≡ some (on_edge_address, ctx) → ctx ≢ pin)
    → get_or (dispatch o e slots) pin cleared ≡ get_or slots pin cleared
unfolding dispatch
dispatch_elsewhere pin none e slots h = refl
dispatch_elsewhere pin (some (f, ctx)) e slots h = elim (Bool-cases (f == on_edge_address)) [
  | inl q ↦
      let same : f ≡ on_edge_address = (==_iff f on_edge_address).0 q in
      rw q (on_edge_ne ctx pin e.time e.rising slots (h ctx (ap (λ g. some (g, ctx)) same)))
  | inr q ↦ rw q refl
]

-- A slot whose pin has no handler rests.
pub slot-silent :
    (h : ℕ → Option (ℕ × ℕ)) (pin : ℕ) (evs : List (ℕ × Edge)) (slots : Slots)
    → IsWired h
    → h pin ≡ none
    → get_or (deliver h evs slots) pin cleared ≡ get_or slots pin cleared
unfolding deliver
slot-silent h pin [] slots v n = refl
slot-silent h pin ((q, e) ∷ evs) slots v n =
    dispatch_elsewhere pin (h q) e (deliver h evs slots) (λ ctx a b.
      let never : none ≡ some (on_edge_address, ctx) = sym n ∙ ap h (sym b ∙ v q ctx a) ∙ a in
      absurd (ground (arith, never)))
    ∙ slot-silent h pin evs slots v n

-- A slot whose pin has the handler sees the edges of its own pin, and no others.
pub slot-deliver :
    (h : ℕ → Option (ℕ × ℕ)) (pin : ℕ) (evs : List (ℕ × Edge)) (slots : Slots)
    → IsWired h
    → h pin ≡ some (on_edge_address, pin)
    → pin < max_gpio
    → pin < length slots
    → get_or (deliver h evs slots) pin cleared
      ≡ run_edges (get_or slots pin cleared) (edges_of pin evs)
unfolding deliver dispatch
slot-deliver h pin [] slots v n b k = refl
slot-deliver h pin ((q, e) ∷ evs) slots v n b k = elim (Bool-cases (q == pin)) [
  | inl same ↦
      let here : pin < length (deliver h evs slots) =
        omega (arith, k, length-deliver h evs slots) in
      rw (same, (==_iff q pin).0 same, n)
        (on_edge_self pin e.time e.rising (deliver h evs slots) b here
          ∙ ap (λ s. (capture e.time e.rising s).0) (slot-deliver h pin evs slots v n b k))
  | inr other ↦ rw other (
      dispatch_elsewhere pin (h q) e (deliver h evs slots)
        (λ ctx a c. absurd (ground (arith, other, v q ctx a, c)))
      ∙ slot-deliver h pin evs slots v n b k)
]
