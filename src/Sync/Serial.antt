-- ===== src/Sync/Serial.antt =====
-- What `ScopedLock` of src/ungula/hal/sync/critical_section.h is for: shared data that is only worked on inside
-- its scopes changes as if the callers had come one after the other.
use ungula_hal.Base.{ℕ, ◌≡◌, ◌≢◌, ◌∙◌, ap, sym, refl, ◌++◌, List, [], ◌∷◌, inl, inr}
use ungula_hal.Sync.Port.{Spinlock, Laws}
use ungula_hal.Sync.Threads.{Phase, waiting, inside, gone, State, put, move, step, run, start, play}
use ungula_hal.Sync.Phases.{times, is_gone, put_self, put_other, waiting_inside, gone_inside}
use ungula_hal.Sync.Steps.{IsSerial, IsFree, IsHeld, step-eq, enters, run-IsSerial, start-IsSerial}

module _ {p : Spinlock} (l : Laws p) {W : Type 0} (body : ℕ → List (W → W)) (x : W) where
  run-append :
      (ts us : List ℕ) (s : State p W) → run p body (ts ++ us) s ≡ run p body us (run p body ts s)
  unfolding run
  run-append [] us s = refl
  run-append (t ∷ ts) us s = run-append ts us (step p body t s)

  -- The holder gets through by its own moves, which leave the others where they are.
  abbrev Leaves : ℕ → State p W → Type 0
  Leaves t s =
      (ts : List ℕ) × ((run p body ts s).phase t ≡ gone)
      × ((u : ℕ) → u ≢ t → (run p body ts s).phase u ≡ s.phase u)

  run-cons :
      (t : ℕ) (ts : List ℕ) (s : State p W)
      → run p body (t ∷ ts) s ≡ run p body ts (step p body t s)
  unfolding run
  run-cons t ts s = refl

  -- A caller that moves to `q` and from there gets through.
  moved-Leaves :
      (t : ℕ) (q : Phase W) (s : State p W)
      → (step p body t s).phase ≡ put t q s.phase
      → Leaves t (step p body t s)
      → Leaves t s
  moved-Leaves t q s e (ts, left, others) = (
    t ∷ ts,
    rw (run-cons t ts s) left,
    λ u a. rw (run-cons t ts s) (others u a ∙ ap (λ f. f u) e ∙ put_other t u q s.phase a),
  )

  there :
      (t : ℕ) (q : Phase W) (s : State p W)
      → (step p body t s).phase ≡ put t q s.phase
      → (step p body t s).phase t ≡ q
  there t q s e = ap (λ f. f t) e ∙ put_self t q s.phase

  gone-Leaves : (t : ℕ) (s : State p W) → s.phase t ≡ gone → Leaves t s
  unfolding run
  gone-Leaves t s e = ([], e, λ u a. refl)

  inside-Leaves : (t : ℕ) (fs : List (W → W)) (s : State p W) → s.phase t ≡ inside fs → Leaves t s
  unfolding move
  inside-Leaves t [] s e =
      let moved = ap (λ r. r.phase) (step-eq l body x t (inside []) s e) in
      moved-Leaves t gone s moved (gone-Leaves t (step p body t s) (there t gone s moved))
  inside-Leaves t (f ∷ fs) s e =
      let moved = ap (λ r. r.phase) (step-eq l body x t (inside (f ∷ fs)) s e) in
      moved-Leaves t (inside fs) s moved
        (inside-Leaves t fs (step p body t s) (there t (inside fs) s moved))

  -- A caller that waits gets in at once while nobody holds the lock, and then gets through.
  free-Leaves :
      (order : List ℕ) (t : ℕ) (s : State p W)
      → IsFree l body x order s
      → s.phase t ≡ waiting
      → Leaves t s
  free-Leaves order t s (free, nobody, y) e =
      let (m, ok, held) = l.granted t s.section.mux free in
      let q = inside (body t) in
      let moved =
        ap (λ r. r.phase) (step-eq l body x t waiting s e)
        ∙ ap (λ r. put t r.0 s.phase) (enters l body x t m s.section s.shared ok) in
      moved-Leaves t q s moved (inside-Leaves t (body t) (step p body t s) (there t q s moved))

  -- While another holds the lock, that one gets through first.
  held-Leaves :
      (order : List ℕ) (t : ℕ) (s : State p W)
      → IsSerial l body x order s
      → IsHeld l body x order s
      → s.phase t ≡ waiting
      → (ts : List ℕ) × ((run p body ts s).phase t ≡ gone)
  held-Leaves order t s v (h, fs, held, here, y, only) e =
      let (ts, left, others) = inside-Leaves h fs s here in
      let s' = run p body ts s in
      let (after, v') = run-IsSerial l body x ts order s v in
      let apart : t ≢ h = λ q. waiting_inside fs (sym e ∙ ap s.phase q ∙ here) in
      elim (v'.lock) [
        | inl free ↦
            let (us, left', o') = free-Leaves after t s' free (others t apart ∙ e) in
            (ts ++ us, ap (λ r. r.phase t) (run-append ts us s) ∙ left')
        | inr (k, gs, held', here', y', only') ↦
            let other : k ≢ h = λ q. gone_inside gs (sym left ∙ ap s'.phase (sym q) ∙ here') in
            absurd (other (only k gs (sym (others k other) ∙ here')))
      ]

  can_leave :
      (order : List ℕ) (t : ℕ) (s : State p W)
      → IsSerial l body x order s
      → (ts : List ℕ) × ((run p body ts s).phase t ≡ gone)
  can_leave order t s v = by_phase (s.phase t) refl
    where
      by_phase : (q : Phase W) → s.phase t ≡ q → (ts : List ℕ) × ((run p body ts s).phase t ≡ gone)
      by_phase gone e = let (ts, left, others) = gone-Leaves t s e in (ts, left)
      by_phase (inside fs) e = let (ts, left, others) = inside-Leaves t fs s e in (ts, left)
      by_phase waiting e = elim (v.lock) [
        | inl free ↦ let (ts, left, others) = free-Leaves order t s free e in (ts, left)
        | inr taken ↦ held-Leaves order t s v taken e
      ]

  -- However callers that share a critical section interleave, each making a `ScopedLock`, working on the
  -- shared data in any number of steps, and leaving the scope: at most one is inside at a time, and while
  -- none is, the data is what the callers that have left make of it one after the other, each with its
  -- whole work and each once. Some further moves bring any caller past its scope.
  pub run_serial :
      (ts : List ℕ)
      → let s = run p body ts (start p body x) in
        ((t u : ℕ) (fs gs : List (W → W)) → s.phase t ≡ inside fs → s.phase u ≡ inside gs → t ≡ u)
        × ((order : List ℕ) × ((t : ℕ) → times t order ≡ is_gone (s.phase t))
            × (((t : ℕ) (fs : List (W → W)) → s.phase t ≢ inside fs)
                → s.shared ≡ play p body order x))
        × ((t : ℕ) → (more : List ℕ) × ((run p body (ts ++ more) (start p body x)).phase t ≡ gone))
  run_serial ts =
      let s = run p body ts (start p body x) in
      let (order, v) = run-IsSerial l body x ts [] (start p body x) (start-IsSerial l body x) in
      let more : (t : ℕ)
          → (us : List ℕ) × ((run p body (ts ++ us) (start p body x)).phase t ≡ gone) =
        λ t.
          let (us, left) = can_leave order t s v in
          (us, ap (λ r. r.phase t) (run-append ts us (start p body x)) ∙ left) in
      elim (v.lock) [
        | inl (free, nobody, y) ↦
            (λ t u fs gs a b. absurd (nobody t fs a), (order, v.counts, λ none_inside. y), more)
        | inr (h, fs, held, here, y, only) ↦ (
          λ t u fs gs a b. only t fs a ∙ sym (only u gs b),
          (order, v.counts, λ none_inside. absurd (none_inside h fs here)),
          more,
        )
      ]
