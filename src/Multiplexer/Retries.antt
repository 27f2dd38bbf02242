-- ===== src/Multiplexer/Retries.antt =====
-- How the retries of src/ungula/hal/multiplexer/i_multiplexer.cpp meet the scripted failures of
-- src/ungula/hal/multiplexer/drivers/multiplexer_fake.h.
use ungula_hal.Base.{
  ℕ, zero, suc, ◌-◌, ◌≡◌, ◌∙◌, ap, refl, true, false, not, if◌then◌else◌, arith, ltb, ◌&&◌, ◌==◌,
  Bool-cases, inl, inr,
}
use ungula_hal.Multiplexer.{Mux, attempts, select_channel}
use ungula_hal.Multiplexer.Fake.{MultiplexerFake, select_hook, select, fail_next_selects}

-- One attempt.
hook-result :
    (channel : ℕ) (f : MultiplexerFake)
    → f.select_always_fails ≡ false
    → let (done, f') = select_hook channel f in
      (done ≡ not (ltb 0 f.failures_remaining))
      × (f'.failures_remaining ≡ f.failures_remaining - 1)
      × (f'.select_always_fails ≡ false)
unfolding select_hook
hook-result channel f h = elim (Bool-cases (ltb 0 f.failures_remaining)) [
  | inl e ↦ rw (h, e) (refl, refl, refl)
  | inr e ↦ rw (h, e) (refl, ground (arith, e), refl)
]

attempts-again :
    (n channel : ℕ) (f : MultiplexerFake)
    → attempts select_hook (suc n) channel f ≡ (
        if (select_hook channel f).0
        then (true, (select_hook channel f).1)
        else attempts select_hook n channel (select_hook channel f).1)
unfolding attempts
attempts-again n channel f = refl

attempts-none :
    (channel : ℕ) (f : MultiplexerFake) → attempts select_hook zero channel f ≡ (false, f)
unfolding attempts
attempts-none channel f = refl

-- `n` attempts are enough for fewer than `n` scripted failures.
attempts-result :
    (n channel : ℕ) (f : MultiplexerFake)
    → f.select_always_fails ≡ false
    → (attempts select_hook n channel f).0 ≡ ltb f.failures_remaining n
attempts-result zero channel f h = rw (attempts-none channel f) (ground arith)
attempts-result (suc n) channel f h =
    let (done, left, still) = hook-result channel f h in
    elim (Bool-cases (ltb 0 f.failures_remaining)) [
      | inl e ↦
          rw (attempts-again n channel f, done, e)
            (attempts-result n channel (select_hook channel f).1 still
              ∙ ap (λ k. ltb k n) left
              ∙ one_less f.failures_remaining n e)
      | inr e ↦ rw (attempts-again n channel f, done, e) (none_left f.failures_remaining n e)
    ]
  where
    one_less : (k n : ℕ) → ltb 0 k ≡ true → ltb (k - 1) n ≡ ltb k (suc n)
    one_less k n e = ground (arith, e)

    none_left : (k n : ℕ) → ltb 0 k ≡ false → true ≡ ltb k (suc n)
    none_left k n e = ground (arith, e)

select_channel-asks :
    (channel : ℕ) (m : Mux) (f : MultiplexerFake)
    → m.initiated ≡ true
    → (m.is_functional && m.current_channel == channel) ≡ false
    → (attempts select_hook 3 channel f).0 ≡ true
    → select_channel select_hook channel m f ≡ (
      true,
      record m { is_functional = true; current_channel = channel },
      (attempts select_hook 3 channel f).1,
    )
unfolding select_channel
select_channel-asks channel m f i c r = simp (i, c, r)

select_channel-fails :
    (channel : ℕ) (m : Mux) (f : MultiplexerFake)
    → m.initiated ≡ true
    → (m.is_functional && m.current_channel == channel) ≡ false
    → (attempts select_hook 3 channel f).0 ≡ false
    → select_channel select_hook channel m f
      ≡ (false, record m { is_functional = false }, (attempts select_hook 3 channel f).1)
unfolding select_channel
select_channel-fails channel m f i c r = simp (i, c, r)

-- A client of the fake, initialised, that asks for a channel that is not answered from the cache: with `k`
-- failures scripted, `selectChannel` succeeds exactly if `k` is less than the three attempts; then the
-- channel is remembered and the fake functional, and otherwise the fake is not functional and the channel
-- that it remembers stays.
pub select-retries :
    (k channel : ℕ) (f : MultiplexerFake)
    → f.base.initiated ≡ true
    → f.select_always_fails ≡ false
    → (f.base.is_functional && f.base.current_channel == channel) ≡ false
    → let (done, f') = select channel (fail_next_selects k f) in
      (done ≡ ltb k 3)
      × (f'.base.is_functional ≡ ltb k 3)
      × (f'.base.current_channel ≡ (if ltb k 3 then channel else f.base.current_channel))
unfolding select fail_next_selects
select-retries k channel f i h c =
    let g = fail_next_selects k f in
    let r = attempts-result 3 channel g h in
    elim (Bool-cases (ltb k 3)) [
      | inl e ↦ rw (e, select_channel-asks channel f.base g i c (r ∙ e)) (refl, refl, refl)
      | inr e ↦ rw (e, select_channel-fails channel f.base g i c (r ∙ e)) (refl, refl, refl)
    ]
