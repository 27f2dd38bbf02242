-- ===== src/Gpio/IsrService/Threads.antt =====
-- `installIsrService` of src/ungula/hal/gpio/platforms/gpio_esp32.h, called by many threads: each load,
-- exchange and driver call is a step of one thread, and a schedule says which thread moves.
use ungula_hal.Base.{
  ℕ, zero, suc, ◌+◌, ◌≤◌, ◌<◌, ◌≡◌, refl, Bool, true, false, List, [], ◌∷◌, arith, if◌then◌else◌,
  ltb, length, get_or, set, replicate, Bool-cases, inl, inr,
}
use ungula_hal.Esp.{EspErr}
use ungula_hal.Gpio.{IsrServiceInstall, installed, already_installed, failed}
use ungula_hal.Gpio.IsrService.{Guard, vacant, installing, settled, settle}

-- Where a call stands: before the first load, with a value of the guard in `s`, inside
-- `gpio_install_isr_service`, or returned.
pub data Phase : Type 0 where
  entry inside : Phase
  seen : Guard → Phase
  returned : IsrServiceInstall → Phase

pub record State : Type 0 where
  pub guard : Guard
  pub threads : List Phase

-- Thread `thread` moves. `spurious` makes its weak exchange fail without a reason, and `result` is
-- what the driver answers; both count only where the thread does that.
pub record Event : Type 0 where
  pub thread : ℕ
  pub spurious : Bool
  pub result : EspErr

-- `compare_exchange_weak(s, kInstalling)` for `s == kNotInstalled`.
unfoldable pub exchange : Bool → Guard → Phase × Guard
exchange true g = (seen g, g)
exchange false vacant = (inside, installing)
exchange false installing = (seen installing, installing)
exchange false settled = (seen settled, settled)

unfoldable pub move : Bool → EspErr → Phase → Guard → Phase × Guard
unfolding exchange settle
move spurious result entry g = (seen g, g)
move spurious result (seen settled) g = (returned already_installed, g)
move spurious result (seen installing) g = (seen g, g)
move spurious result (seen vacant) g = exchange spurious g
move spurious result inside g = let (r, g') = settle result in (returned r, g')
move spurious result (returned r) g = (returned r, g)

unfoldable pub step : Event → State → State
step e s =
    let (p, g) = move e.spurious e.result (get_or s.threads e.thread entry) s.guard in
    if ltb e.thread (length s.threads)
    then record { guard = g; threads = set s.threads e.thread p }
    else s

-- A schedule, its last event first.
unfoldable pub run : State → List Event → State
run s [] = s
run s (e ∷ es) = step e (run s es)

abbrev pub is_inside : Phase → ℕ
is_inside entry = 0
is_inside inside = 1
is_inside (seen g) = 0
is_inside (returned r) = 0

-- The driver's service came up in this call.
abbrev pub is_installer : Phase → ℕ
is_installer entry = 0
is_installer inside = 0
is_installer (seen g) = 0
is_installer (returned installed) = 1
is_installer (returned already_installed) = 0
is_installer (returned failed) = 0

abbrev pub total : (Phase → ℕ) → List Phase → ℕ
total f [] = 0
total f (p ∷ ps) = f p + total f ps

total-set :
    (f : Phase → ℕ) (ps : List Phase) (i : ℕ) (p : Phase)
    → i < length ps
    → total f (set ps i p) + f (get_or ps i entry) ≡ total f ps + f p
total-set f [] i p h = absurd (omega arith)
total-set f (q ∷ ps) zero p h = omega arith
total-set f (q ∷ ps) (suc i) p h = omega (arith, total-set f ps i p (omega arith))

abbrev pub is_installing : Guard → ℕ
is_installing vacant = 0
is_installing installing = 1
is_installing settled = 0

abbrev pub is_settled : Guard → ℕ
is_settled vacant = 0
is_settled installing = 0
is_settled settled = 1

-- The guard says how many threads are inside the driver, and bounds those that installed.
pub record IsGuarded (s : State) : Type 0 where
  pub one_inside : total is_inside s.threads ≡ is_installing s.guard
  pub one_installer : total is_installer s.threads ≤ is_settled s.guard

-- What a move changes: the threads inside by the change of the guard, and a new installer only where
-- the guard becomes settled.
move_counts :
    (b : Bool) (e : EspErr) (p : Phase) (g : Guard)
    → is_inside p ≤ is_installing g
    → (is_inside (move b e p g).0 + is_installing g ≡ is_installing (move b e p g).1 + is_inside p)
      × (is_installer (move b e p g).0 + is_settled g
          ≤ is_settled (move b e p g).1 + is_installer p)
unfolding move
move_counts b e p g h = ground arith

total-get_or :
    (f : Phase → ℕ) (ps : List Phase) (i : ℕ) → i < length ps → f (get_or ps i entry) ≤ total f ps
total-get_or f [] i h = absurd (omega arith)
total-get_or f (p ∷ ps) zero h = omega arith
total-get_or f (p ∷ ps) (suc i) h = omega (arith, total-get_or f ps i (omega arith))

step-IsGuarded : (e : Event) (s : State) → IsGuarded s → IsGuarded (step e s)
unfolding step
step-IsGuarded e s v = elim (Bool-cases (ltb e.thread (length s.threads))) [
  | inl b ↦
      let h : e.thread < length s.threads = ground arith in
      let p = get_or s.threads e.thread entry in
      let q = (move e.spurious e.result p s.guard).0 in
      let m =
        move_counts e.spurious e.result p s.guard
          (omega (arith, total-get_or is_inside s.threads e.thread h, v.one_inside)) in
      rw b (record {
        one_inside = omega (arith, total-set is_inside s.threads e.thread q h, m.0, v.one_inside);
        one_installer =
            omega (arith, total-set is_installer s.threads e.thread q h, m.1, v.one_installer);
      })
  | inr b ↦ rw b v
]

abbrev pub start : ℕ → State
start n = record { guard = vacant; threads = replicate n entry }

total-replicate : (f : Phase → ℕ) (n : ℕ) → f entry ≡ 0 → total f (replicate n entry) ≡ 0
total-replicate f zero h = refl
total-replicate f (suc n) h = omega (arith, h, total-replicate f n h)

run-IsGuarded : (s : State) → IsGuarded s → (es : List Event) → IsGuarded (run s es)
unfolding run
run-IsGuarded s v [] = v
run-IsGuarded s v (e ∷ es) = step-IsGuarded e (run s es) (run-IsGuarded s v es)

-- However `n` threads interleave their calls of `installIsrService`, at most one is inside the driver's
-- installer at a time, exactly while the guard says so, and at most one is told that it installed the
-- service.
pub run_excludes :
    (n : ℕ) (es : List Event)
    → let s = run (start n) es in
      (total is_inside s.threads ≡ is_installing s.guard)
      × (total is_inside s.threads ≤ 1)
      × (total is_installer s.threads ≤ 1)
run_excludes n es =
    let s = run (start n) es in
    let v =
      run-IsGuarded (start n)
        (record {
          one_inside = total-replicate is_inside n refl;
          one_installer = omega (arith, total-replicate is_installer n refl);
        })
        es in
    (v.one_inside, ground (arith, v.one_inside), ground (arith, v.one_installer))

move_settled :
    (b : Bool) (e : EspErr) (p : Phase) (g : Guard)
    → is_inside p ≤ is_installing g
    → g ≡ settled
    → (move b e p g).1 ≡ settled
unfolding move
move_settled b e p g h k = ground (arith, h, k)

step_settled :
    (e : Event) (s : State) → IsGuarded s → s.guard ≡ settled → (step e s).guard ≡ settled
unfolding step
step_settled e s v k = elim (Bool-cases (ltb e.thread (length s.threads))) [
  | inl b ↦
      let h : e.thread < length s.threads = ground arith in
      let low : is_inside (get_or s.threads e.thread entry) ≤ is_installing s.guard =
        omega (arith, total-get_or is_inside s.threads e.thread h, v.one_inside) in
      rw b (move_settled e.spurious e.result (get_or s.threads e.thread entry) s.guard low k)
  | inr b ↦ rw b k
]

-- From a state that the guard describes and in which the service is installed, no schedule has a
-- thread inside the driver's installer again.
pub run_settles :
    (s : State) (es : List Event)
    → IsGuarded s
    → s.guard ≡ settled
    → ((run s es).guard ≡ settled) × (total is_inside (run s es).threads ≡ 0)
unfolding run
run_settles s [] v h = (h, ground (arith, v.one_inside, h))
run_settles s (e ∷ es) v h =
    let before = run-IsGuarded s v es in
    let g = step_settled e (run s es) before (run_settles s es v h).0 in
    (g, ground (arith, (step-IsGuarded e (run s es) before).one_inside, g))
