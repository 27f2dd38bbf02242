-- ===== src/Gpio/IsrService/Progress.antt =====
-- No call of `installIsrService` of src/ungula/hal/gpio/platforms/gpio_esp32.h can be stuck: from wherever the
-- threads have come, a few steps bring each of them back.
use ungula_hal.Base.{
  ℕ, suc, ◌≤◌, ◌<◌, ◌≡◌, ◌≢◌, ◌∙◌, ap, sym, refl, Bool, true, false, Bool-cases, List, [], ◌∷◌,
  ◌++◌, arith, ltb, length, get_or, inl, inr, length-set, length-replicate, get_or-set_self,
}
use ungula_hal.Esp.{EspErr}
use ungula_hal.Gpio.IsrService.{Guard, vacant, installing, settled, settle}
use ungula_hal.Gpio.IsrService.Threads.{
  Phase, entry, inside, seen, returned, State, Event, move, step, run, start, total, is_inside,
  is_installing, run_excludes,
}

-- A step of thread `i` whose exchange does not fail without a reason.
abbrev pub turn : ℕ → EspErr → Event
turn i r = record { thread = i; spurious = false; result = r }

abbrev pub has_returned : Phase → Bool
has_returned entry = false
has_returned inside = false
has_returned (seen g) = false
has_returned (returned r) = true

abbrev pub phase_of : ℕ → State → Phase
phase_of i s = get_or s.threads i entry

-- A step of a thread is a move of its phase and of the guard.
step-length : (e : Event) (s : State) → length (step e s).threads ≡ length s.threads
unfolding step
step-length e s = elim (Bool-cases (ltb e.thread (length s.threads))) [
  | inl b ↦ rw b (length-set s.threads e.thread _)
  | inr b ↦ rw b refl
]

step_lem :
    (i : ℕ) (r : EspErr) (s : State)
    → i < length s.threads
    → (phase_of i (step (turn i r) s) ≡ (move false r (phase_of i s) s.guard).0)
      × ((step (turn i r) s).guard ≡ (move false r (phase_of i s) s.guard).1)
unfolding step
step_lem i r s h =
    let b : ltb i (length s.threads) ≡ true = ground (arith, h) in
    (rw b (get_or-set_self s.threads i _ entry h), rw b refl)

run-append : (s : State) (fs es : List Event) → run s (fs ++ es) ≡ run (run s es) fs
unfolding run
run-append s [] es = refl
run-append s (f ∷ fs) es = ap (step f) (run-append s fs es)

run-length : (s : State) (es : List Event) → length (run s es).threads ≡ length s.threads
unfolding run
run-length s [] = refl
run-length s (e ∷ es) = step-length e (run s es) ∙ run-length s es

-- Three moves bring a thread back while nobody is inside the driver.
three_moves :
    (q r t : EspErr) (p : Phase) (g : Guard)
    → g ≢ installing
    → let (p1, g1) = move false q p g in
      let (p2, g2) = move false r p1 g1 in has_returned (move false t p2 g2).0 ≡ true
unfolding move
three_moves q r t p g h = ground (arith, h)

-- The driver's answer opens the guard.
inside_opens : (r : EspErr) (g : Guard) → (move false r inside g).1 ≢ installing
unfolding move settle
inside_opens r g h = absurd (ground (arith, h))

-- The threads `is` take a step each, the last one first, and `answers` is what the driver says in each.
unfoldable pub turns : List ℕ → (ℕ → EspErr) → List Event
turns [] answers = []
turns (i ∷ is) answers = turn i (answers (length is)) ∷ turns is answers

alone_returns :
    (i : ℕ) (q r t : EspErr) (s : State)
    → i < length s.threads
    → s.guard ≢ installing
    → has_returned (phase_of i (run s (turn i t ∷ turn i r ∷ turn i q ∷ []))) ≡ true
unfolding run
alone_returns i q r t s h k =
    let s1 = step (turn i q) s in
    let s2 = step (turn i r) s1 in
    let (p1, g1) = step_lem i q s h in
    let h1 : i < length s1.threads = omega (arith, h, step-length (turn i q) s) in
    let (p2, g2) = step_lem i r s1 h1 in
    let h2 : i < length s2.threads = omega (arith, h1, step-length (turn i r) s1) in
    let (p3, g3) = step_lem i t s2 h2 in
    rw (p3, p2, g2, p1, g1) (three_moves q r t (phase_of i s) s.guard k)

-- Some thread is inside where the count says so.
find_inside :
    (ps : List Phase)
    → total is_inside ps ≡ 1
    → (j : ℕ) × (j < length ps) × (get_or ps j entry ≡ inside)
find_inside [] h = absurd (omega (arith, h))
find_inside (inside ∷ ps) h = (0, omega arith, refl)
find_inside (entry ∷ ps) h =
    let (j, k, e) = find_inside ps (omega (arith, h)) in (suc j, omega (arith, k), e)
find_inside (seen g ∷ ps) h =
    let (j, k, e) = find_inside ps (omega (arith, h)) in (suc j, omega (arith, k), e)
find_inside (returned r ∷ ps) h =
    let (j, k, e) = find_inside ps (omega (arith, h)) in (suc j, omega (arith, k), e)

-- A step of some thread, or none, opens the guard, whatever the driver answers.
opens_soon :
    (s : State) (g : Guard)
    → s.guard ≡ g
    → total is_inside s.threads ≡ is_installing g
    → (is : List ℕ) × (length is ≤ 1) × ((a : ℕ → EspErr) → (run s (turns is a)).guard ≢ installing)
unfolding run turns
opens_soon s vacant e h = ([], omega arith, λ a q. absurd (ground (arith, e, q)))
opens_soon s settled e h = ([], omega arith, λ a q. absurd (ground (arith, e, q)))
opens_soon s installing e h =
    let (j, k, at) = find_inside s.threads h in
    (
      j ∷ [],
      omega arith,
      λ a q.
          let (p, g) = step_lem j (a 0) s k in
          inside_opens (a 0) s.guard
            (sym (ap (λ t. (move false (a 0) t s.guard).1) at) ∙ sym g ∙ q),
    )

-- However `n` threads have interleaved their calls of `installIsrService`, with spurious failures of their
-- exchanges and any answers of the driver, each of them can still return: there are at most four steps,
-- by threads that do not depend on what the driver will answer, after which it has returned, whatever
-- the driver answers in them, if their exchanges do not fail spuriously.
pub run_can_return :
    (n i : ℕ) (es : List Event)
    → i < n
    → (is : List ℕ) × (length is ≤ 4)
      × ((answers : ℕ → EspErr)
          → has_returned (phase_of i (run (start n) (turns is answers ++ es))) ≡ true)
unfolding run turns
run_can_return n i es h =
    let s = run (start n) es in
    let (is, short, opened) = opens_soon s s.guard refl (run_excludes n es).0 in
    (
      i ∷ i ∷ i ∷ is,
      omega (arith, short),
      λ a.
          let fs = turns is a in
          let all = turns (i ∷ i ∷ i ∷ is) a in
          let here : i < length (run s fs).threads =
            omega (arith, h, run-length s fs, run-length (start n) es, length-replicate n entry) in
          rw (run-append (start n) all es) (
            alone_returns i (a (length is)) (a (suc (length is))) (a (suc (suc (length is))))
              (run s fs) here (opened a)),
    )
