-- ===== src/Multiplexer/Shared.antt =====
-- Two multiplexers of src/ungula/hal/multiplexer/drivers/multiplexer_tca9548.cpp on one bus, from their
-- construction on.
use ungula_hal.Base.{
  ℕ, ◌^◌, ◌<◌, ◌≡◌, ◌≢◌, ◌∙◌, ap, sym, refl, Bool, true, false, List, [], ◌∷◌, ◌&&◌, ◌==◌,
  Bool-cases, inl, inr, arith,
}
use ungula_hal.I2c.{I2cMaster}
use ungula_hal.I2c.Link.{Driver}
use ungula_hal.Multiplexer.{
  Mux, begin, is_responding, select, select_channel, select_on_chip, attempts, restart_bus,
}
use ungula_hal.Multiplexer.Cache.{
  HasChips, IsInSync, select_channel-selects, select_channel-own, select_channel-elsewhere,
}

-- The constructor.
abbrev pub fresh : ℕ → Mux
fresh address = record {
  i2c_address = address;
  initiated = false;
  is_functional = false;
  current_channel = 255;
  logging_enabled = false;
}

-- A call of the first multiplexer, where `true`, or of the second.
pub data Call : Type 0 where
  selects : Bool → ℕ → Call
  restarts : Bool → Call

pub record Pair (d : Driver) : Type 0 where
  pub first : Mux
  pub second : Mux
  pub hw : d.Hw

module _ (d : Driver) (bus : I2cMaster) where
  unfoldable pub step : Call → Pair d → Pair d
  step (selects true channel) p =
      let (done, m, w) = select d bus channel p.first p.hw in record p { first = m; hw = w }
  step (selects false channel) p =
      let (done, m, w) = select d bus channel p.second p.hw in record p { second = m; hw = w }
  step (restarts true) p = record p { first = restart_bus p.first }
  step (restarts false) p = record p { second = restart_bus p.second }

  unfoldable pub run : List Call → Pair d → Pair d
  unfolding step
  run [] p = p
  run (c ∷ cs) p = run cs (step c p)

  -- Both are made and begun.
  unfoldable pub boot : ℕ → ℕ → d.Hw → Pair d
  boot a b w =
      let (done, m, w1) = begin d bus (fresh a) w in
      let (done', n, w2) = begin d bus (fresh b) w1 in record { first = m; second = n; hw = w2 }

  select-i2c_address :
      (channel : ℕ) (m : Mux) (w : d.Hw) → (select d bus channel m w).1.i2c_address ≡ m.i2c_address
  unfolding select select_channel
  select-i2c_address channel m w =
      elim (Bool-cases (m.initiated && m.is_functional && m.current_channel == channel)) [
        | inl e ↦ rw e refl
        | inr e ↦ elim (Bool-cases m.initiated) [
          | inl i ↦
              elim (Bool-cases (attempts (select_on_chip d bus m.i2c_address) 3 channel w).0) [
                | inl o ↦ rw (e, i, o) refl
                | inr o ↦ rw (e, i, o) refl
              ]
          | inr i ↦ rw (e, i) refl
        ]
      ]

module _ {d : Driver} (bus : I2cMaster) (t : HasChips d bus.port) (a b : ℕ) where
  record AreInSync (p : Pair d) : Type 0 where
    here : p.first.i2c_address ≡ a
    there : p.second.i2c_address ≡ b
    first_synced : IsInSync bus t p.first p.hw
    second_synced : IsInSync bus t p.second p.hw

  select-synced :
      (channel : ℕ) (m other : Mux) (w : d.Hw)
      → m.i2c_address < 128
      → other.i2c_address ≢ m.i2c_address
      → IsInSync bus t m w
      → IsInSync bus t other w
      → IsInSync bus t (select d bus channel m w).1 (select d bus channel m w).2
        × IsInSync bus t other (select d bus channel m w).2
  select-synced channel m other w h n u v =
      let (s, o, done, failed) = select_channel-selects bus t channel m other w h n u v in (s, o)

  step-AreInSync :
      (c : Call) (p : Pair d) → a < 128 → b < 128 → a ≢ b → AreInSync p → AreInSync (step d bus c p)
  unfolding step restart_bus
  step-AreInSync (selects true channel) p h k n v =
      let (s, o) =
        select-synced channel p.first p.second p.hw (rw v.here h)
          (λ e. n (sym v.here ∙ sym e ∙ v.there)) v.first_synced v.second_synced in
      record {
        here = select-i2c_address d bus channel p.first p.hw ∙ v.here;
        there = v.there;
        first_synced = s;
        second_synced = o;
      }
  step-AreInSync (selects false channel) p h k n v =
      let (s, o) =
        select-synced channel p.second p.first p.hw (rw v.there k)
          (λ e. n (sym v.here ∙ e ∙ v.there)) v.second_synced v.first_synced in
      record {
        here = v.here;
        there = select-i2c_address d bus channel p.second p.hw ∙ v.there;
        first_synced = o;
        second_synced = s;
      }
  step-AreInSync (restarts true) p h k n v = record {
    here = v.here;
    there = v.there;
    first_synced = record { trusted = λ e. absurd (ground (arith, e)) };
    second_synced = v.second_synced;
  }
  step-AreInSync (restarts false) p h k n v = record {
    here = v.here;
    there = v.there;
    first_synced = v.first_synced;
    second_synced = record { trusted = λ e. absurd (ground (arith, e)) };
  }

  run-AreInSync :
      (cs : List Call) (p : Pair d)
      → a < 128
      → b < 128
      → a ≢ b
      → AreInSync p
      → AreInSync (run d bus cs p)
  unfolding run
  run-AreInSync [] p h k n v = v
  run-AreInSync (c ∷ cs) p h k n v =
      run-AreInSync cs (step d bus c p) h k n (step-AreInSync c p h k n v)

  boot-AreInSync : (w : d.Hw) → AreInSync (boot d bus a b w)
  unfolding boot begin is_responding
  boot-AreInSync w = record {
    here = refl;
    there = refl;
    first_synced = record { trusted = λ e c. absurd (ground (arith, c)) };
    second_synced = record { trusted = λ e c. absurd (ground (arith, c)) };
  }

  -- Two multiplexers with different 7-bit addresses on one bus, begun after their construction, and then any
  -- calls of `selectChannel` and `restartBus` of both: a further `selectChannel` of the first that returns
  -- true for a channel of the chip leaves the chip on that channel, whether it wrote or trusted the cache;
  -- one that fails after `begin` leaves the cache untrusted, so that the next call writes; and no call
  -- changes the channel of the other chip, which is the one that its own cache names where it is trusted.
  pub run_selects :
      (cs : List Call) (channel : ℕ) (w : d.Hw)
      → a < 128
      → b < 128
      → a ≢ b
      → let p = run d bus cs (boot d bus a b w) in
        let (done, m, w') = select d bus channel p.first p.hw in
        (done ≡ true → channel < 8 → t.register a w' ≡ 2 ^ channel)
        × (done ≡ false → p.first.initiated ≡ true → m.is_functional ≡ false)
        × (t.register b w' ≡ t.register b p.hw)
        × (p.second.is_functional ≡ true
            → p.second.current_channel < 8
            → t.register b w' ≡ 2 ^ p.second.current_channel)
  run_selects cs channel w h k n =
      let p = run d bus cs (boot d bus a b w) in
      let v = run-AreInSync cs (boot d bus a b w) h k n (boot-AreInSync w) in
      let here : p.first.i2c_address < 128 = rw v.here h in
      let apart : b ≢ p.first.i2c_address = λ e. n (sym v.here ∙ sym e) in
      let (synced, selected, failed) =
        select_channel-own bus t channel p.first p.hw here v.first_synced in
      let kept = select_channel-elsewhere bus t b channel p.first p.hw here apart in
      (
        λ e c.
            ap (λ x. t.register x (select d bus channel p.first p.hw).2) (sym v.here)
            ∙ selected e c,
        failed,
        kept,
        λ e c. kept ∙ ap (λ x. t.register x p.hw) (sym v.there) ∙ v.second_synced.trusted e c,
      )
