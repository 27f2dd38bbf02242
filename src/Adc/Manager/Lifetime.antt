-- ===== src/Adc/Manager/Lifetime.antt =====
-- The life of an `AdcManager` of src/ungula/hal/adc/platforms/adc_manager_esp32.cpp, from its construction to the
-- `deinit` of its destructor.
use ungula_hal.Base.{
  ℕ, zero, replicate, Bool-cases, inl, inr, some, get_or, ◌==◌, ◌≡◌, ◌∙◌, ap, sym, refl, suc, none,
  List, [], ◌∷◌, length, Option,
}
use ungula_hal.Adc.Oneshot.{Oneshot}
use ungula_hal.Adc.Convert.{Attenuation}
use ungula_hal.Adc.Manager.{
  no_cali, max_channels, find_channel, sample, read_unit, AdcManager, CaliEntry, fresh, deinit,
  delete_calis, delete_units, configure, read_raw, read_mv,
}
use ungula_hal.Adc.Manager.Deinit.{
  IsUncalibrated, IsClosed, delete_calis-IsUncalibrated, delete_units-IsClosed, deinit-twice,
}
use ungula_hal.Adc.Manager.Ledger.{Handles, Laws, with_units, with_calis, AreTagged, IsBalanced}
use ungula_hal.Adc.Manager.Balance.{configure-IsBalanced, moved}
use ungula_hal.Adc.Manager.Release.{deinit-returns}
use ungula_hal.Base.Int.{ℤ, pos, negsuc}

-- A call of the public interface.
pub data Call : Type 0 where
  configures : ℕ → Attenuation → Call
  reads_raw reads_mv : ℕ → Call
  deinits : Call

module _ (d : Oneshot) where
  unfoldable pub step : Call → AdcManager d → d.Hw → AdcManager d × d.Hw
  step (configures pin atten) m w = let (done, m', w') = configure d pin atten m w in (m', w')
  step (reads_raw pin) m w = (m, (read_raw d pin m w).2)
  step (reads_mv pin) m w = (m, (read_mv d pin m w).2)
  step deinits m w = deinit d m w

  unfoldable pub run : List Call → AdcManager d → d.Hw → AdcManager d × d.Hw
  unfolding step
  run [] m w = (m, w)
  run (c ∷ cs) m w = let (m', w') = step c m w in run cs m' w'

  with_calis-none :
      (es : List (CaliEntry d)) (s : Handles d)
      → IsUncalibrated d es
      → AreTagged d es × (with_calis d es s ≡ s)
  unfolding with_calis
  with_calis-none [] s v = (tt, refl)
  with_calis-none (e ∷ es) s v = let (t, q) = with_calis-none es s v.1 in rw (v.0) ((tt, t), q)

  with_units-none :
      (us : List (Option d.UnitHandle)) (s : Handles d) → IsClosed d us → with_units d us s ≡ s
  unfolding with_units
  with_units-none [] s v = refl
  with_units-none (u ∷ us) s v = rw (v.0) (with_units-none us s v.1)

  length-delete_calis :
      (es : List (CaliEntry d)) (w : d.Hw) → length (delete_calis d es w).0 ≡ length es
  unfolding delete_calis
  length-delete_calis [] w = refl
  length-delete_calis (e ∷ es) w = ap suc (length-delete_calis es _)

  length-delete_units :
      (us : List (Option d.UnitHandle)) (w : d.Hw) → length (delete_units d us w).0 ≡ length us
  unfolding delete_units
  length-delete_units [] w = refl
  length-delete_units (u ∷ us) w = ap suc (length-delete_units us _)

module _ {d : Oneshot} (l : Laws d) where
  -- The reads.
  sample-hw : (r : Option ℤ) (w : d.Hw) → (sample d r w).2 ≡ w
  unfolding sample
  sample-hw none w = refl
  sample-hw (some (pos n)) w = refl
  sample-hw (some (negsuc n)) w = refl

  read_unit-opened :
      (ch : ℕ) (o : Option ℕ) (m : AdcManager d) (w : d.Hw)
      → l.opened (read_unit d ch o m w).2 ≡ l.opened w
  unfolding read_unit
  read_unit-opened ch none m w = refl
  read_unit-opened ch (some i) m w =
      ap l.opened (sample-hw _ _) ∙ l.read_keeps (get_or m.units i none) ch w

  read_raw-opened :
      (pin : ℕ) (m : AdcManager d) (w : d.Hw) → l.opened (read_raw d pin m w).2 ≡ l.opened w
  unfolding read_raw
  read_raw-opened pin m w = elim (Bool-cases (find_channel d pin m == max_channels)) [
    | inl e ↦ rw e refl
    | inr e ↦ rw e (read_unit-opened _ _ m w)
  ]

  read_mv-opened :
      (pin : ℕ) (m : AdcManager d) (w : d.Hw) → l.opened (read_mv d pin m w).2 ≡ l.opened w
  unfolding read_mv
  read_mv-opened pin m w = elim (Bool-cases (read_raw d pin m w).0) [
    | inl e ↦ rw e (read_raw-opened pin m w)
    | inr e ↦ rw e (read_raw-opened pin m w)
  ]

  deinit-IsBalanced :
      (s : Handles d) (m : AdcManager d) (w : d.Hw)
      → IsBalanced d l s m w
      → let (m', w') = deinit d m w in IsBalanced d l s m' w'
  unfolding deinit
  deinit-IsBalanced s m w b =
      let es = delete_calis d m.cali w in
      let us = delete_units d m.units es.1 in
      let (t, q) =
        with_calis-none d es.0 (with_units d us.0 s) (delete_calis-IsUncalibrated d m.cali w) in
      record {
        two_units = length-delete_units d m.units es.1 ∙ b.two_units;
        eight_calis = length-delete_calis d m.cali w ∙ b.eight_calis;
        tagged = t;
        opened_here =
            deinit-returns l s m w b
            ∙ sym (q ∙ with_units-none d us.0 s (delete_units-IsClosed d m.units es.1));
      }

  step-IsBalanced :
      (c : Call) (s : Handles d) (m : AdcManager d) (w : d.Hw)
      → IsBalanced d l s m w
      → let (m', w') = step d c m w in IsBalanced d l s m' w'
  unfolding step
  step-IsBalanced (configures pin a) s m w b = configure-IsBalanced l pin a s m w b
  step-IsBalanced (reads_raw pin) s m w b = moved l s m _ w (read_raw-opened pin m w) b
  step-IsBalanced (reads_mv pin) s m w b = moved l s m _ w (read_mv-opened pin m w) b
  step-IsBalanced deinits s m w b = deinit-IsBalanced s m w b

  run-IsBalanced :
      (cs : List Call) (s : Handles d) (m : AdcManager d) (w : d.Hw)
      → IsBalanced d l s m w
      → let (m', w') = run d cs m w in IsBalanced d l s m' w'
  unfolding run
  run-IsBalanced [] s m w b = b
  run-IsBalanced (c ∷ cs) s m w b =
      let r = step d c m w in run-IsBalanced cs s r.0 r.1 (step-IsBalanced c s m w b)

  replicate-AreTagged : (n : ℕ) → AreTagged d (replicate n (no_cali d))
  replicate-AreTagged zero = tt
  replicate-AreTagged (suc n) = (tt, replicate-AreTagged n)

  fresh-IsBalanced : (w : d.Hw) → IsBalanced d l (l.opened w) (fresh d) w
  unfolding with_calis with_units
  fresh-IsBalanced w = record {
    two_units = refl;
    eight_calis = refl;
    tagged = replicate-AreTagged 8;
    opened_here = refl;
  }

  -- After any calls of a new manager, in any order, that succeed or fail, the drivers have given out what
  -- they had given out before and the handles in the manager's tables, each calibration with the scheme
  -- that made it and no handle besides. The `deinit` of the destructor then gives all of them back, each
  -- calibration by the function of its scheme, and a further `deinit` changes neither the manager nor the
  -- drivers.
  pub run_then_deinit :
      (cs : List Call) (w : d.Hw)
      → let (m, w1) = run d cs (fresh d) w in
        let (m', w2) = deinit d m w1 in
        (l.opened w1 ≡ with_calis d m.cali (with_units d m.units (l.opened w)))
        × (l.opened w2 ≡ l.opened w)
        × (deinit d m' w2 ≡ (m', w2))
  run_then_deinit cs w =
      let r = run d cs (fresh d) w in
      let b = run-IsBalanced cs (l.opened w) (fresh d) w (fresh-IsBalanced w) in
      let (n, u, c, again) = deinit-twice d r.0 r.1 in
      (b.opened_here, deinit-returns l (l.opened w) r.0 r.1 b, again)
