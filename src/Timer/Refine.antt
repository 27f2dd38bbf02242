-- ===== src/Timer/Refine.antt =====
-- When a backend keeps the contract, and what a client may then conclude: where the interface determines
-- what it sees of an interleaving of calls and alarms, it sees that.
use ungula_hal.Base.{
  ℕ, ◌≡◌, refl, ap, ◌∙◌, true, Option, none, some, List, [], ◌∷◌, ◌||◌, ◌==◌, arith,
}
use mathlib.Core.Path.{subst}
use ungula_hal.Timer.{Status, ok, Config, Isr, done, rearms, disarms, Callbacks}
use ungula_hal.Timer.Machine.{
  Machine, Op, begins, sets_callback, starts, rearms_late, disarms_late, stops, fires, run_isr,
  invoke, step, run,
}
use ungula_hal.Timer.Contract
use ungula_hal.Timer.Contract.{Timer, opened}
use ungula_hal.Timer.Promise
use ungula_hal.Timer.Promise.{Situation, Answer, Seen}
use ungula_hal.Timer.Promise.Calls.{
  when-eq-some, >>=-eq-some, IsCall, begin-IsCall, set_callback-IsCall, start-IsCall, rearm-IsCall,
  disarm-IsCall, stop-IsCall, fire_lem,
}

-- A call agrees with the contract's call from a state `t`: same status, matching state.
module _ {T : Type 0} (Inv : T → Type 0) (view : T → Timer) where
  abbrev pub Keeps : Status × T → Status × Timer → Type 0
  Keeps r s = (r.0 ≡ s.0) × (view r.1 ≡ s.1) × Inv r.1

  abbrev pub KeepsFire : {C : Type 0} → T × C → Timer × C → Type 0
  KeepsFire r s = (view r.0 ≡ s.0) × (r.1 ≡ s.1) × Inv r.0

pub record Refines (m : Machine) : Type 1 where
  pub Inv : m.T → Type 0
  pub view : m.T → Timer
  pub begin :
      (cfg : Config) (t : m.T)
      → Inv t
      → (view t).begun || cfg.resolution_hz == 0 ≡ true
      → Keeps Inv view (m.begin cfg t) (Contract.decline (view t))
  pub opens :
      (cfg : Config) (t : m.T)
      → (m.begin cfg t).0 ≡ ok
      → (view (m.begin cfg t).1 ≡ opened cfg (view t).callback (view t).context)
        × Inv (m.begin cfg t).1
  pub set_callback :
      (cb : Option ℕ) (ctx : ℕ) (t : m.T)
      → Inv t
      → Keeps Inv view (m.set_callback cb ctx t) (Contract.set_callback cb ctx (view t))
  pub start : (n : ℕ) (t : m.T) → Inv t → Keeps Inv view (m.start n t) (Contract.arm n (view t))
  pub rearm : (n : ℕ) (t : m.T) → Inv t → Keeps Inv view (m.rearm n t) (Contract.arm n (view t))
  pub disarm : (t : m.T) → Inv t → Keeps Inv view (m.disarm t) (Contract.disarm (view t))
  pub stop : (t : m.T) → Inv t → Keeps Inv view (m.stop t) (Contract.disarm (view t))
  pub fire :
      (C : Type 0) (calls : Callbacks C) (t : m.T) (c : C)
      → Inv t
      → KeepsFire Inv view (m.fire C calls t c) (Contract.fire C calls (view t) c)

-- A callback's calls keep the contract if `rearmFromIsr` and `disarmFromIsr` do.
module _ {T C : Type 0} (Inv : T → Type 0) (view : T → Timer) (rearm : ℕ → T → Status × T)
    (disarm : T → Status × T)
    (rearm_keeps : (n : ℕ) (t : T) → Inv t → Keeps Inv view (rearm n t) (Contract.arm n (view t)))
    (disarm_keeps : (t : T) → Inv t → Keeps Inv view (disarm t) (Contract.disarm (view t))) where
  run_isr-KeepsFire :
      (p : Isr C) (t : T)
      → Inv t
      → KeepsFire Inv view
          (run_isr rearm disarm p t)
          (run_isr Contract.arm Contract.disarm p (view t))
  unfolding run_isr
  run_isr-KeepsFire (done c) t v = (refl, refl, v)
  run_isr-KeepsFire (rearms n next) t v =
      let k = rearm_keeps n t v in
      rw (← k.0, ← k.1, run_isr) (run_isr-KeepsFire (next (rearm n t).0) (rearm n t).1 k.2)
  run_isr-KeepsFire (disarms next) t v =
      let k = disarm_keeps t v in
      rw (← k.0, ← k.1, run_isr) (run_isr-KeepsFire (next (disarm t).0) (disarm t).1 k.2)

  pub invoke-KeepsFire :
      (calls : Callbacks C) (cb : Option ℕ) (ctx : ℕ) (t : T) (c : C)
      → Inv t
      → KeepsFire Inv view
          (invoke rearm disarm calls cb ctx t c)
          (invoke Contract.arm Contract.disarm calls cb ctx (view t) c)
  unfolding invoke
  invoke-KeepsFire calls none ctx t c v = (refl, refl, v)
  invoke-KeepsFire calls (some f) ctx t c v = run_isr-KeepsFire (calls f ctx c) t v

module _ {m : Machine} (r : Refines m) {C : Type 0} (calls : Callbacks C) where
  -- A step of the backend shows what the interface answers, and the two keep in step.
  abbrev KeepsStep : Option Status × m.T × C → Seen C → Type 0
  KeepsStep x y = (x.0 ≡ y.0) × (r.view x.1 ≡ y.1.timer) × (x.2 ≡ y.2) × r.Inv x.1

  answered :
      (k : Status × m.T) (q : Status × Timer) (c : C) (a : Answer) (y : Seen C)
      → Keeps r.Inv r.view k q
      → IsCall q a
      → (some a.0, a.1, c) ≡ y
      → KeepsStep (some k.0, k.1, c) y
  answered k q c a y keeps same e =
      rw (← e) (ap some (keeps.0 ∙ same.0), keeps.1 ∙ same.1, refl, keeps.2)

  reply-eq-some :
      (c : C) (o : Option Answer) (y : Seen C)
      → Promise.reply c o ≡ some y
      → (a : Answer) × (o ≡ some a) × ((some a.0, a.1, c) ≡ y)
  reply-eq-some c none y h = absurd (ground (arith, h))
  reply-eq-some c (some (a, s)) y h = ((a, s), refl, (when-eq-some true h).1)

  silent_reply-eq-some :
      (o : Option (Situation × C)) (y : Seen C)
      → Promise.silent_reply o ≡ some y
      → (a : Situation × C) × (o ≡ some a) × ((none, a.0, a.1) ≡ y)
  silent_reply-eq-some none y h = absurd (ground (arith, h))
  silent_reply-eq-some (some (s, c)) y h = ((s, c), refl, (when-eq-some true h).1)

  step-KeepsStep :
      (op : Op) (t : m.T) (s : Situation) (c : C) (y : Seen C)
      → r.Inv t
      → r.view t ≡ s.timer
      → Promise.step calls op s c ≡ some y
      → KeepsStep (step m calls op t c) y
  unfolding step Promise.step
  step-KeepsStep (begins cfg) t s c y v e h =
      let (a, k, q) = reply-eq-some c (Promise.begin cfg s) y h in
      let (refused, same) = begin-IsCall cfg s a k in
      answered (m.begin cfg t) (Contract.decline s.timer) c a y
        (subst (λ x. Keeps r.Inv r.view (m.begin cfg t) (Contract.decline x)) e
          (r.begin cfg t v (ap (λ x. x.begun || cfg.resolution_hz == 0) e ∙ refused)))
        same q
  step-KeepsStep (sets_callback cb ctx) t s c y v e h =
      let (a, k, q) = reply-eq-some c (Promise.set_callback cb ctx s) y h in
      answered (m.set_callback cb ctx t) (Contract.set_callback cb ctx s.timer) c a y
        (subst (λ x. Keeps r.Inv r.view (m.set_callback cb ctx t) (Contract.set_callback cb ctx x))
          e (r.set_callback cb ctx t v))
        (set_callback-IsCall cb ctx s a k) q
  step-KeepsStep (starts n) t s c y v e h =
      let (a, k, q) = reply-eq-some c (Promise.start n s) y h in
      answered (m.start n t) (Contract.arm n s.timer) c a y
        (subst (λ x. Keeps r.Inv r.view (m.start n t) (Contract.arm n x)) e (r.start n t v))
        (start-IsCall n s a k) q
  step-KeepsStep (rearms_late n) t s c y v e h =
      let (a, k, q) = reply-eq-some c (Promise.rearm n s) y h in
      answered (m.rearm n t) (Contract.arm n s.timer) c a y
        (subst (λ x. Keeps r.Inv r.view (m.rearm n t) (Contract.arm n x)) e (r.rearm n t v))
        (rearm-IsCall n s a k) q
  step-KeepsStep (disarms_late) t s c y v e h =
      let (a, k, q) = reply-eq-some c (Promise.disarm s) y h in
      answered (m.disarm t) (Contract.disarm s.timer) c a y
        (subst (λ x. Keeps r.Inv r.view (m.disarm t) (Contract.disarm x)) e (r.disarm t v))
        (disarm-IsCall s a k) q
  step-KeepsStep (stops) t s c y v e h =
      let (a, k, q) = reply-eq-some c (Promise.stop s) y h in
      answered (m.stop t) (Contract.disarm s.timer) c a y
        (subst (λ x. Keeps r.Inv r.view (m.stop t) (Contract.disarm x)) e (r.stop t v))
        (stop-IsCall s a k) q
  step-KeepsStep (fires) t s c y v e h =
      let (a, k, q) = silent_reply-eq-some (Promise.fire calls s c) y h in
      let same = fire_lem calls s c a k in
      let keeps =
        subst (λ x. KeepsFire r.Inv r.view (m.fire C calls t c) (Contract.fire C calls x c)) e
          (r.fire C calls t c v) in
      rw (← q) (refl, keeps.0 ∙ ap (λ x. x.0) same, keeps.1 ∙ ap (λ x. x.1) same, keeps.2)

  -- Where the interface determines what a client sees, it sees that of the backend.
  pub run_refines :
      (ops : List Op) (t : m.T) (s : Situation) (c : C) (seen : List (Option Status) × C)
      → r.Inv t
      → r.view t ≡ s.timer
      → Promise.run calls ops s c ≡ some seen
      → run m calls ops t c ≡ seen
  unfolding run Promise.run
  run_refines [] t s c seen v e h = (when-eq-some true h).1
  run_refines (op ∷ ops) t s c seen v e h =
      let (y, k, later) = >>=-eq-some (Promise.step calls op s c) _ h in
      let (rest, l, q) = >>=-eq-some (Promise.run calls ops y.1 y.2) _ later in
      let keeps = step-KeepsStep op t s c y v e k in
      let (a, t', c') = step m calls op t c in
      let tail = run_refines ops t' y.1 y.2 rest keeps.3 keeps.1 l in
      rw (keeps.0, keeps.2, tail) (when-eq-some true q).1
