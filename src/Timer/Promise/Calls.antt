-- ===== src/Timer/Promise/Calls.antt =====
-- What an answered call of `Promise` does to the timer: the same as the contract's call.
use ungula_hal.Base.{
  ℕ, ◌≡◌, refl, ap, ◌∙◌, Bool, true, false, Option, none, some, ◌||◌, ◌&&◌, not, ◌==◌, arith, ◌⊎◌,
  inl, inr, if◌then◌else◌,
}
use ungula_hal.Timer.{Status, Config, Isr, done, rearms, disarms, Callbacks}
use ungula_hal.Timer.Machine.{run_isr, invoke}
use ungula_hal.Timer.Contract
use ungula_hal.Timer.Contract.{Timer}
use ungula_hal.Timer.Promise
use ungula_hal.Timer.Promise.{Situation, Answer, when, ◌>>=◌}

pub when-eq-some {ℓ} : {A : Type ℓ} (b : Bool) {x y : A} → when b x ≡ some y → (b ≡ true) × (x ≡ y)
when-eq-some true h = (refl, cc)
when-eq-some false h = absurd (ground (arith, h))

if-eq {ℓ} :
    {A : Type ℓ} (b : Bool) {x y z : A}
    → (if b then x else y) ≡ z
    → ((b ≡ true) × (x ≡ z)) ⊎ ((b ≡ false) × (y ≡ z))
if-eq true h = inl (refl, h)
if-eq false h = inr (refl, h)

if_true {ℓ} : {A : Type ℓ} (b : Bool) (x y : A) → b ≡ true → (if b then x else y) ≡ x
if_true true x y e = refl
if_true false x y e = absurd (ground (arith, e))

if_false {ℓ} : {A : Type ℓ} (b : Bool) (x y : A) → b ≡ false → (if b then x else y) ≡ y
if_false true x y e = absurd (ground (arith, e))
if_false false x y e = refl

pub >>=-eq-some {ℓ κ} :
    {A : Type ℓ} {B : Type κ} (o : Option A) (f : A → Option B) {b : B}
    → (o >>= f) ≡ some b
    → (a : A) × (o ≡ some a) × (f a ≡ some b)
>>=-eq-some none f h = absurd (ground (arith, h))
>>=-eq-some (some a) f h = (a, refl, h)

-- A call that the interface answers does to the timer what the contract's call does.
abbrev pub IsCall : Status × Timer → Answer → Type 0
IsCall r a = (r.0 ≡ a.0) × (r.1 ≡ a.1.timer)

pub set_callback-IsCall :
    (cb : Option ℕ) (ctx : ℕ) (s : Situation) (a : Answer)
    → Promise.set_callback cb ctx s ≡ some a
    → IsCall (Contract.set_callback cb ctx s.timer) a
unfolding Promise.set_callback
set_callback-IsCall cb ctx s a h =
    let e = (when-eq-some true h).1 in
    (ap (λ (x : Answer). x.0) e, ap (λ (x : Answer). x.1.timer) e)

pub start-IsCall :
    (n : ℕ) (s : Situation) (a : Answer)
    → Promise.start n s ≡ some a
    → IsCall (Contract.arm n s.timer) a
unfolding Promise.start
start-IsCall n s a h =
    let e = (when-eq-some true h).1 in
    (ap (λ (x : Answer). x.0) e, ap (λ (x : Answer). x.1.timer) e)

pub stop-IsCall :
    (s : Situation) (a : Answer) → Promise.stop s ≡ some a → IsCall (Contract.disarm s.timer) a
unfolding Promise.stop
stop-IsCall s a h =
    let e = (when-eq-some true h).1 in
    (ap (λ (x : Answer). x.0) e, ap (λ (x : Answer). x.1.timer) e)

pub begin-IsCall :
    (cfg : Config) (s : Situation) (a : Answer)
    → Promise.begin cfg s ≡ some a
    → (s.timer.begun || cfg.resolution_hz == 0 ≡ true) × IsCall (Contract.decline s.timer) a
unfolding Promise.begin
begin-IsCall cfg s a h =
    let bad = cfg.resolution_hz == 0 in
    let (b, e) = when-eq-some (if s.timer.begun then not s.stopped && not bad else bad) h in
    (ground (arith, b), (ap (λ (x : Answer). x.0) e, ap (λ (x : Answer). x.1.timer) e))

pub rearm-IsCall :
    (n : ℕ) (s : Situation) (a : Answer)
    → Promise.rearm n s ≡ some a
    → IsCall (Contract.arm n s.timer) a
unfolding Promise.rearm
rearm-IsCall n s a h =
    let e = (when-eq-some (s.timer.begun && not s.silenced) h).1 in
    (ap (λ (x : Answer). x.0) e, ap (λ (x : Answer). x.1.timer) e)

pub disarm-IsCall :
    (s : Situation) (a : Answer) → Promise.disarm s ≡ some a → IsCall (Contract.disarm s.timer) a
unfolding Promise.disarm
disarm-IsCall s a h =
    let e = (when-eq-some s.timer.begun h).1 in
    (ap (λ (x : Answer). x.0) e, ap (λ (x : Answer). x.1.timer) e)

module _ {C : Type 0} where
  perform-run_isr :
      (p : Isr C) (s : Situation) (r : Situation × C)
      → Promise.perform p s ≡ some r
      → run_isr Contract.arm Contract.disarm p s.timer ≡ (r.0.timer, r.1)
  unfolding Promise.perform run_isr
  perform-run_isr (done c) s r h =
      ap (λ (x : Situation × C). (x.0.timer, x.1)) (when-eq-some true h).1
  perform-run_isr (rearms n next) s r h =
      let (a, e, k) = >>=-eq-some (Promise.rearm n s) _ h in
      let c = rearm-IsCall n s a e in rw (c.0, c.1) (perform-run_isr (next a.0) a.1 r k)
  perform-run_isr (disarms next) s r h =
      let (a, e, k) = >>=-eq-some (Promise.disarm s) _ h in
      let c = disarm-IsCall s a e in rw (c.0, c.1) (perform-run_isr (next a.0) a.1 r k)

  call_back-invoke :
      (calls : Callbacks C) (cb : Option ℕ) (ctx : ℕ) (s : Situation) (c : C) (r : Situation × C)
      → Promise.call_back calls cb ctx s c ≡ some r
      → invoke Contract.arm Contract.disarm calls cb ctx s.timer c ≡ (r.0.timer, r.1)
  unfolding Promise.call_back invoke
  call_back-invoke calls none ctx s c r h =
      ap (λ (x : Situation × C). (x.0.timer, x.1)) (when-eq-some true h).1
  call_back-invoke calls (some f) ctx s c r h = perform-run_isr (calls f ctx c) s r h

  pub fire_lem :
      (calls : Callbacks C) (s : Situation) (c : C) (r : Situation × C)
      → Promise.fire calls s c ≡ some r
      → Contract.fire C calls s.timer c ≡ (r.0.timer, r.1)
  unfolding Promise.fire Contract.fire
  fire_lem calls s c r h =
      let spent = record s { timer = record s.timer { armed = false } } in
      let called = Promise.call_back calls s.timer.callback s.timer.context spent c in
      elim (if-eq s.timer.armed h) [
        | inl (e, k) ↦
            if_true s.timer.armed _ _ e
            ∙ call_back-invoke calls s.timer.callback s.timer.context spent c r k
        | inr (e, k) ↦
            if_false s.timer.armed _ _ e
            ∙ ap (λ (x : Situation × C). (x.0.timer, x.1)) (when-eq-some true k).1
      ]
