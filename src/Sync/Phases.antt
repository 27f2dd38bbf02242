-- ===== src/Sync/Phases.antt =====
-- Where the callers of src/ungula/hal/sync stand, and how often each stands in an order.
use mathlib.Core.Path.{fun_ext}
use ungula_hal.Base.{
  ℕ, ◌+◌, ◌≡◌, ◌≢◌, ◌∙◌, ap, sym, refl, List, [], ◌∷◌, ◌==◌, if◌then◌else◌, Bool-cases, inl, inr,
  arith,
}
use ungula_hal.Sync.Threads.{Phase, waiting, inside, gone, put}

-- How often a caller stands in an order.
unfoldable pub times : ℕ → List ℕ → ℕ
times t [] = 0
times t (u ∷ us) = (if t == u then 1 else 0) + times t us

module _ {W : Type 0} where
  abbrev pub is_gone : Phase W → ℕ
  is_gone waiting = 0
  is_gone (inside fs) = 0
  is_gone gone = 1

  pub put_self : (t : ℕ) (q : Phase W) (f : ℕ → Phase W) → put t q f t ≡ q
  unfolding put
  put_self t q f = ground arith

  pub put_other : (t u : ℕ) (q : Phase W) (f : ℕ → Phase W) → u ≢ t → put t q f u ≡ f u
  unfolding put
  put_other t u q f h = elim (Bool-cases (u == t)) [
    | inl e ↦ absurd (h (ground (arith, e)))
    | inr e ↦ rw e refl
  ]

  pub inside_apart : (fs gs : List (W → W)) (q : Phase W) → q ≡ inside fs → q ≡ inside gs → fs ≡ gs
  inside_apart fs gs q d e = ap work (sym d ∙ e)
    where
      work : Phase W → List (W → W)
      work waiting = fs
      work (inside hs) = hs
      work gone = fs

  pub put_same : (t : ℕ) (q : Phase W) (f : ℕ → Phase W) → f t ≡ q → put t q f ≡ f
  unfolding put
  put_same t q f e = fun_ext (λ u. same u)
    where
      same : (u : ℕ) → (if u == t then q else f u) ≡ f u
      same u = elim (Bool-cases (u == t)) [
        | inl d ↦ let here : u ≡ t = ground (arith, d) in rw d (sym (ap f here ∙ e))
        | inr d ↦ rw d refl
      ]

  pub waiting_inside : (fs : List (W → W)) → ◌≢◌ {A = Phase W} waiting (inside fs)
  waiting_inside fs q = absurd (ground (arith, q))

  pub gone_inside : (fs : List (W → W)) → ◌≢◌ {A = Phase W} gone (inside fs)
  gone_inside fs q = absurd (ground (arith, q))
