-- ===== src/PwmInput/Measure.antt =====
-- What the interrupt handler measures, against the definition of a PWM signal's period and high time
-- over the history of its edges.
use ungula_hal.Base.{
  ℕ, ◌-◌, ◌≤◌, ◌<◌, ◌≡◌, refl, Bool, true, false, Option, none, some, List, [], ◌∷◌, arith, u32,
  leb, length, if◌then◌else◌, ◌∙◌,
}
use mathlib.Core.Path.{ap₂}
use ungula_hal.PwmInput.Edge.{CaptureState, capture, elapsed}

-- An edge is a time in microseconds with the level after it. Histories are newest first.
pub record Edge : Type 0 where
  pub time : ℕ
  pub rising : Bool

-- Times are positive, 64-bit, and do not run backwards.
abbrev pub newest : List Edge → ℕ
newest [] = 0
newest (e ∷ es) = e.time

abbrev pub IsHistory : List Edge → Type 0
IsHistory [] = Unit {0}
IsHistory (e ∷ es) =
    (0 < e.time) × (e.time < 18446744073709551616) × (newest es ≤ e.time) × IsHistory es

-- The times of the rising edges, newest first.
abbrev keep_rise : Bool → ℕ → List ℕ → List ℕ
keep_rise true t ts = t ∷ ts
keep_rise false t ts = ts

abbrev pub rises : List Edge → List ℕ
rises [] = []
rises (e ∷ es) = keep_rise e.rising e.time (rises es)

-- From the last rising edge but one to the last.
abbrev pub period : List ℕ → ℕ
period [] = 0
period (a ∷ []) = 0
period (a ∷ b ∷ ts) = a - b

-- From the last rising edge before a falling edge to that edge, for the last such edge.
abbrev since : ℕ → List ℕ → ℕ → ℕ
since now [] old = old
since now (r ∷ rs) old = now - r

abbrev high_after : Bool → ℕ → List ℕ → ℕ → ℕ
high_after true now rs old = old
high_after false now rs old = since now rs old

abbrev pub high_time : List Edge → ℕ
high_time [] = 0
high_time (e ∷ es) = high_after e.rising e.time (rises es) (high_time es)

-- The slot after a history.
abbrev pub run_edges : CaptureState → List Edge → CaptureState
run_edges s [] = s
run_edges s (e ∷ es) = (capture e.time e.rising (run_edges s es)).0

abbrev head_or_zero : List ℕ → ℕ
head_or_zero [] = 0
head_or_zero (r ∷ rs) = r

-- A slot of which this holds has measured a history with the rises `rs` and the high time `hi`.
record Fits (s : CaptureState) (rs : List ℕ) (hi : ℕ) : Type 0 where
  last : s.last_rise_us ≡ head_or_zero rs
  spans : s.period_us ≡ u32 (period rs)
  high : s.high_time_us ≡ u32 hi
  sample : s.has_sample ≡ leb 2 (length rs)

abbrev IsPositive : List ℕ → Type 0
IsPositive [] = Unit {0}
IsPositive (r ∷ rs) = 0 < r

elapsed_lem : (t r : ℕ) → r ≤ t → t < 18446744073709551616 → elapsed t r ≡ u32 (t - r)
elapsed_lem t r h k = omega arith

capture-Fits :
    (level : Bool) (rs : List ℕ) (t hi : ℕ) (s : CaptureState)
    → Fits s rs hi
    → IsPositive rs
    → head_or_zero rs ≤ t
    → t < 18446744073709551616
    → Fits (capture t level s).0 (keep_rise level t rs) (high_after level t rs hi)
unfolding capture
capture-Fits true [] t hi s f p h k = ground arith
capture-Fits false [] t hi s f p h k = ground arith
capture-Fits true (r ∷ []) t hi s f p h k = ground (arith, elapsed_lem t r h k)
capture-Fits true (r ∷ q ∷ rs) t hi s f p h k = ground (arith, elapsed_lem t r h k)
capture-Fits false (r ∷ rs) t hi s f p h k = ground (arith, elapsed_lem t r h k)

keep_bounded :
    (level : Bool) (t n : ℕ) (rs : List ℕ)
    → 0 < t
    → n ≤ t
    → head_or_zero rs ≤ n
    → IsPositive rs
    → (head_or_zero (keep_rise level t rs) ≤ t) × IsPositive (keep_rise level t rs)
keep_bounded true t n rs h k l p = (omega arith, h)
keep_bounded false t n rs h k l p = (omega arith, p)

-- The rising edges are no later than the newest edge, and after time 0.
rises_bounded :
    (es : List Edge) → IsHistory es → (head_or_zero (rises es) ≤ newest es) × IsPositive (rises es)
rises_bounded [] h = (omega arith, tt)
rises_bounded (e ∷ es) h =
    let k = rises_bounded es h.3 in
    keep_bounded e.rising e.time (newest es) (rises es) h.0 h.2 k.0 k.1

-- A slot that has seen no edge.
pub record IsFresh (s : CaptureState) : Type 0 where
  pub rise : s.last_rise_us ≡ 0
  pub edge : s.last_edge_us ≡ 0
  pub spans : s.period_us ≡ 0
  pub high : s.high_time_us ≡ 0
  pub sample : s.has_sample ≡ false

last_edge-capture :
    (t : ℕ) (level : Bool) (s : CaptureState) → (capture t level s).0.last_edge_us ≡ t
unfolding capture
last_edge-capture t level s = ground arith

slot_callback-capture :
    (t : ℕ) (level : Bool) (s : CaptureState)
    → ((capture t level s).0.callback ≡ s.callback) × ((capture t level s).0.context ≡ s.context)
unfolding capture
slot_callback-capture t level s = ground arith

-- The call due on a rising edge after the rises `rs`.
abbrev pub called_after : List ℕ → Option ℕ → ℕ → Option (ℕ × ℕ)
called_after [] cb ctx = none
called_after (r ∷ rs) none ctx = none
called_after (r ∷ rs) (some f) ctx = some (f, ctx)

calls_of_rises :
    (t : ℕ) (level : Bool) (s : CaptureState) (rs : List ℕ)
    → s.last_rise_us ≡ head_or_zero rs
    → IsPositive rs
    → (capture t level s).1 ≡ (if level then called_after rs s.callback s.context else none)
unfolding capture
calls_of_rises t level s [] e p = ground arith
calls_of_rises t level s (r ∷ rs) e p = ground arith

module _ (s : CaptureState) (fresh : IsFresh s) where
  run_edges-Fits : (es : List Edge) → IsHistory es → Fits (run_edges s es) (rises es) (high_time es)
  run_edges-Fits [] h = record {
    last = fresh.rise;
    spans = fresh.spans;
    high = fresh.high;
    sample = fresh.sample;
  }
  run_edges-Fits (e ∷ es) h =
      capture-Fits e.rising (rises es) e.time (high_time es) (run_edges s es)
        (run_edges-Fits es h.3) (rises_bounded es h.3).1
        (omega (arith, (rises_bounded es h.3).0, h.2)) h.1

  last_edge-run_edges : (es : List Edge) → (run_edges s es).last_edge_us ≡ newest es
  last_edge-run_edges [] = fresh.edge
  last_edge-run_edges (e ∷ es) = last_edge-capture e.time e.rising (run_edges s es)

  -- After any history of edges at positive times that do not run backwards, a slot that began fresh
  -- holds, modulo 2^32, the time between the last two rising edges as the period, and the time from the
  -- last rise before the last falling edge to that edge as the high time; it has a sample from the
  -- second rising edge on; and it holds the time of the newest edge.
  pub capture_measures :
      (es : List Edge)
      → IsHistory es
      → ((run_edges s es).period_us ≡ u32 (period (rises es)))
        × ((run_edges s es).high_time_us ≡ u32 (high_time es))
        × ((run_edges s es).has_sample ≡ leb 2 (length (rises es)))
        × ((run_edges s es).last_edge_us ≡ newest es)
  capture_measures es h =
      let f = run_edges-Fits es h in (f.spans, f.high, f.sample, last_edge-run_edges es)

  slot_callback-run_edges :
      (es : List Edge)
      → ((run_edges s es).callback ≡ s.callback) × ((run_edges s es).context ≡ s.context)
  slot_callback-run_edges [] = (refl, refl)
  slot_callback-run_edges (e ∷ es) =
      let ih = slot_callback-run_edges es in
      let k = slot_callback-capture e.time e.rising (run_edges s es) in (k.0 ∙ ih.0, k.1 ∙ ih.1)

  -- The registered callback is called, with its context, on every rising edge but the first, and on no
  -- falling edge.
  pub capture_calls :
      (e : Edge) (es : List Edge)
      → IsHistory (e ∷ es)
      → (capture e.time e.rising (run_edges s es)).1
        ≡ (if e.rising then called_after (rises es) s.callback s.context else none)
  capture_calls e es h =
      let k = slot_callback-run_edges es in
      calls_of_rises e.time e.rising (run_edges s es) (rises es) (run_edges-Fits es h.3).last
        (rises_bounded es h.3).1
      ∙ ap₂ (λ cb ctx. if e.rising then called_after (rises es) cb ctx else none) k.0 k.1
