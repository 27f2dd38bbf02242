-- ===== src/Sync/Steps.antt =====
-- Every move of a caller of src/ungula/hal/sync keeps the callers before it in a line.
use ungula_hal.Base.{
  ℕ, ◌≡◌, ◌≢◌, ◌∙◌, ◌⊎◌, ap, sym, refl, false, none, some, List, [], ◌∷◌, ◌==◌, Bool-cases, inl,
  inr, arith,
}
use ungula_hal.Sync.Port.{Spinlock, Laws}
use ungula_hal.Sync.{CriticalSection, scoped_lock, enter, leave_scope, exit}
use ungula_hal.Sync.Threads.{
  Phase, waiting, inside, gone, State, apply, put, try_lock, move, step, run, start, play,
}
use ungula_hal.Sync.Phases.{
  times, is_gone, put_self, put_other, put_same, inside_apart, waiting_inside, gone_inside,
}

module _ {p : Spinlock} (l : Laws p) {W : Type 0} (body : ℕ → List (W → W)) (x : W) where
  -- Who is inside, and what the shared data is: what the work that is left makes of it is what the holder's
  -- whole work makes of what the callers before it left.
  abbrev pub IsFree : List ℕ → State p W → Type 0
  IsFree order s =
      (l.holder s.section.mux ≡ none)
      × ((t : ℕ) (fs : List (W → W)) → s.phase t ≢ inside fs)
      × (s.shared ≡ play p body order x)

  abbrev pub IsHeld : List ℕ → State p W → Type 0
  IsHeld order s =
      (t : ℕ) × (fs : List (W → W)) × (l.holder s.section.mux ≡ some t)
      × (s.phase t ≡ inside fs)
      × (apply fs s.shared ≡ apply (body t) (play p body order x))
      × ((u : ℕ) (gs : List (W → W)) → s.phase u ≡ inside gs → u ≡ t)

  pub record IsSerial (order : List ℕ) (s : State p W) : Type 0 where
    pub counts : (t : ℕ) → times t order ≡ is_gone (s.phase t)
    pub lock : IsFree order s ⊎ IsHeld order s

  pub step-eq :
      (t : ℕ) (q : Phase W) (s : State p W)
      → s.phase t ≡ q
      → step p body t s
        ≡ let (q', c, y) = move p body t q s.section s.shared in
          record { section = c; phase = put t q' s.phase; shared = y }
  unfolding step
  step-eq t q s e = rw e refl

  step-stays :
      (t : ℕ) (q : Phase W) (s : State p W)
      → s.phase t ≡ q
      → move p body t q s.section s.shared ≡ (q, s.section, s.shared)
      → step p body t s ≡ s
  step-stays t q s e m =
      step-eq t q s e
      ∙ ap (λ r. record { section = r.1; phase = put t r.0 s.phase; shared = r.2 }) m
      ∙ ap (λ f. record { section = s.section; phase = f; shared = s.shared })
          (put_same t q s.phase e)

  spins :
      (t : ℕ) (c : CriticalSection p) (y : W)
      → p.enter t c.mux ≡ none
      → move p body t waiting c y ≡ (waiting, c, y)
  unfolding move try_lock scoped_lock enter
  spins t c y e = rw e refl

  pub enters :
      (t : ℕ) (m : p.Mux) (c : CriticalSection p) (y : W)
      → p.enter t c.mux ≡ some m
      → move p body t waiting c y ≡ (inside (body t), record { mux = m }, y)
  unfolding move try_lock scoped_lock enter
  enters t m c y e = rw e refl

  abbrev pub Steps : ℕ → State p W → Type 0
  Steps t s = (order : List ℕ) × IsSerial order (step p body t s)

  counts-gone :
      (order : List ℕ) (t : ℕ) (f : ℕ → Phase W)
      → ((u : ℕ) → times u order ≡ is_gone (f u))
      → is_gone (f t) ≡ 0
      → (u : ℕ) → times u (t ∷ order) ≡ is_gone (put t gone f u)
  unfolding times put
  counts-gone order t f c e u = elim (Bool-cases (u == t)) [
    | inl d ↦ let here : u ≡ t = ground (arith, d) in rw here (ground (arith, c t, e))
    | inr d ↦ rw d (omega (arith, c u))
  ]

  counts-put :
      (order : List ℕ) (t : ℕ) (q : Phase W) (f : ℕ → Phase W)
      → ((u : ℕ) → times u order ≡ is_gone (f u))
      → is_gone q ≡ is_gone (f t)
      → (u : ℕ) → times u order ≡ is_gone (put t q f u)
  counts-put order t q f c e u = elim (Bool-cases (u == t)) [
    | inl d ↦
        let here : u ≡ t = ground (arith, d) in
        rw here (c t ∙ sym e ∙ ap is_gone (sym (put_self t q f)))
    | inr d ↦ c u ∙ ap is_gone (sym (put_other t u q f (λ h. apart u t d h)))
  ]
    where
      apart : (u t : ℕ) → (u == t) ≡ false → u ≢ t
      apart u t d h = absurd (ground (arith, d, h))

  -- A caller that moved is alone inside if no other was there.
  put-only :
      (t : ℕ) (q : Phase W) (f : ℕ → Phase W)
      → ((u : ℕ) (gs : List (W → W)) → u ≢ t → f u ≢ inside gs)
      → (u : ℕ) (gs : List (W → W)) → put t q f u ≡ inside gs
      → u ≡ t
  put-only t q f o u gs e = elim (Bool-cases (u == t)) [
    | inl d ↦ ground (arith, d)
    | inr d ↦
        let apart : u ≢ t = λ h. absurd (ground (arith, d, h)) in
        absurd (o u gs apart (sym (put_other t u q f apart) ∙ e))
  ]

  waits-Steps :
      (order : List ℕ) (t : ℕ) (s : State p W) → IsSerial order s → s.phase t ≡ waiting → Steps t s
  waits-Steps order t s v e = elim (v.lock) [
    | inl (free, nobody, y) ↦
        let (m, ok, held) = l.granted t s.section.mux free in
        let q = inside (body t) in
        let moved : IsSerial order _ = record {
          counts = counts-put order t q s.phase v.counts (ap is_gone (sym e));
          lock = inr (
            t,
            body t,
            held,
            put_self t q s.phase,
            ap (apply (body t)) y,
            put-only t q s.phase (λ u gs a. nobody u gs),
          );
        } in
        (order, rw (step-eq t waiting s e, enters t m s.section s.shared ok) moved)
    | inr (h, fs, held, here, y, only) ↦
        let apart : t ≢ h = λ q. absurd (waiting_inside fs (sym e ∙ ap s.phase q ∙ here)) in
        let refused = l.refused t h s.section.mux held apart in
        (order, rw (step-stays t waiting s e (spins t s.section s.shared refused)) v)
  ]

  works-Steps :
      (order : List ℕ) (t : ℕ) (f : W → W) (fs : List (W → W)) (s : State p W)
      → IsSerial order s
      → s.phase t ≡ inside (f ∷ fs)
      → Steps t s
  unfolding move apply
  works-Steps order t f fs s v e = elim (v.lock) [
    | inl (free, nobody, y) ↦ absurd (nobody t (f ∷ fs) e)
    | inr (h, gs, held, here, y, only) ↦
        let same : t ≡ h = only t (f ∷ fs) e in
        let left : f ∷ fs ≡ gs =
          inside_apart (f ∷ fs) gs (s.phase h) (ap s.phase (sym same) ∙ e) here in
        let q = inside fs in
        let moved : IsSerial order _ = record {
          counts = counts-put order t q s.phase v.counts (ap is_gone (sym e));
          lock = inr (
            t,
            fs,
            held ∙ ap some (sym same),
            put_self t q s.phase,
            ap (λ k. apply k s.shared) left
                ∙ y
                ∙ ap (λ k. apply (body k) (play p body order x)) (sym same),
            put-only t q s.phase (λ u ks a d. a (only u ks d ∙ sym same)),
          );
        } in
        (order, rw (step-eq t (inside (f ∷ fs)) s e) moved)
  ]

  leaves-Steps :
      (order : List ℕ) (t : ℕ) (s : State p W)
      → IsSerial order s
      → s.phase t ≡ inside []
      → Steps t s
  unfolding move leave_scope exit apply times play
  leaves-Steps order t s v e = elim (v.lock) [
    | inl (free, nobody, y) ↦ absurd (nobody t [] e)
    | inr (h, gs, held, here, y, only) ↦
        let same : t ≡ h = only t [] e in
        let left : [] ≡ gs = inside_apart [] gs (s.phase h) (ap s.phase (sym same) ∙ e) here in
        let alone : (u : ℕ) (ks : List (W → W)) → u ≢ t → s.phase u ≢ inside ks =
          λ u ks a d. a (only u ks d ∙ sym same) in
        let moved : IsSerial (t ∷ order) _ = record {
          counts = counts-gone order t s.phase v.counts (ap is_gone e);
          lock = inl (
            l.freed t s.section.mux (held ∙ ap some (sym same)),
            λ u ks a.
                let last = put-only t gone s.phase alone u ks a in
                absurd (
                  gone_inside ks
                    (sym (put_self t gone s.phase) ∙ ap (put t gone s.phase) (sym last) ∙ a)),
            ap (λ k. apply k s.shared) left
                ∙ y
                ∙ ap (λ k. apply (body k) (play p body order x)) (sym same),
          );
        } in
        (t ∷ order, rw (step-eq t (inside []) s e) moved)
  ]

  pub step-Steps : (order : List ℕ) (t : ℕ) (s : State p W) → IsSerial order s → Steps t s
  unfolding move
  step-Steps order t s v = by_phase (s.phase t) refl
    where
      by_phase : (q : Phase W) → s.phase t ≡ q → Steps t s
      by_phase waiting e = waits-Steps order t s v e
      by_phase (inside []) e = leaves-Steps order t s v e
      by_phase (inside (f ∷ fs)) e = works-Steps order t f fs s v e
      by_phase gone e = (order, rw (step-stays t gone s e refl) v)

  pub run-IsSerial :
      (ts : List ℕ) (order : List ℕ) (s : State p W)
      → IsSerial order s
      → (after : List ℕ) × IsSerial after (run p body ts s)
  unfolding run
  run-IsSerial [] order s v = (order, v)
  run-IsSerial (t ∷ ts) order s v =
      let (next, v') = step-Steps order t s v in run-IsSerial ts next (step p body t s) v'

  pub start-IsSerial : IsSerial [] (start p body x)
  unfolding times play
  start-IsSerial = record {
    counts = λ t. refl;
    lock = inl (l.unlocked_free, λ t fs q. absurd (ground (arith, q)), refl);
  }
