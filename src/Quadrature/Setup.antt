-- ===== src/Quadrature/Setup.antt =====
-- How `begin` of src/ungula/hal/quadrature/platforms/decoder_esp32.cpp sets up the unit that it counts with.
use ungula_hal.Base.{
  ℕ, ◌≡◌, ◌≢◌, ◌∙◌, refl, ap, sym, true, false, Option, none, some, [], ◌∷◌, arith, Bool-cases, inl,
  inr,
}
use ungula_hal.Base.Int.{ℤ, pos, negsuc}
use ungula_hal.Quadrature.Pcnt.{Driver, Actions}
use ungula_hal.Quadrature.Counter.{UnitState, Counts}
use ungula_hal.Quadrature.{
  Decoder, EspState, actions_a, actions_b, begin, run, with_b, with_a, with_unit,
}

module _ {d : Driver} (l : Counts d) (pa pb : ℕ) where
  -- What `begin` sets a unit up to, counting `n`.
  abbrev pub counting : EspState d → ℤ → UnitState d
  counting st n = record {
    high = pos 32767;
    low = negsuc 32767;
    enabled = true;
    running = true;
    total = n;
    channels =
        (st.ch_b, record { edge_pin = pb; level_pin = pa; actions = actions_b })
        ∷ (st.ch_a, record { edge_pin = pa; level_pin = pb; actions = actions_a })
        ∷ [];
  }

  pub record IsCounting (seed n : ℤ) (s : Decoder d) (w : d.Hw) : Type 0 where
    pub installed : s.installed ≡ true
    pub seeded : s.seed ≡ seed
    pub unit : (st : EspState d) × (s.unit ≡ some st) × (l.state st.unit w ≡ counting st n)

  run-IsCounting :
      (i : ℤ) (st : EspState d) (s : Decoder d) (w : d.Hw) (x y : Actions)
      → st.ch_a ≢ st.ch_b
      → l.state st.unit w ≡ record {
        high = pos 32767;
        low = negsuc 32767;
        enabled = false;
        running = false;
        total = pos 0;
        channels =
            (st.ch_b, record { edge_pin = pb; level_pin = pa; actions = y })
            ∷ (st.ch_a, record { edge_pin = pa; level_pin = pb; actions = x })
            ∷ [];
      }
      → let (done, s', w') = run d pa pb i st s w in IsCounting i (pos 0) s' w'
  unfolding run
  run-IsCounting i st s w x y ne h =
      let u = st.unit in
      let idle = record (counting st (pos 0)) { enabled = false; running = false } in
      let e1 =
        l.edge_set_behind u idle st.ch_b st.ch_a _ _ [] actions_a.rise actions_a.fall w ne h in
      let e2 =
        l.level_set_behind u idle st.ch_b st.ch_a _ _ [] actions_a.high actions_a.low _ ne e1 in
      let e3 = l.edge_set u idle st.ch_b _ _ actions_b.rise actions_b.fall _ e2 in
      let e4 = l.level_set u idle st.ch_b _ _ actions_b.high actions_b.low _ e3 in
      let e5 =
        l.enabled u _ (ap (λ (k : UnitState d). k.enabled) e4)
        ∙ ap (λ (k : UnitState d). record k { enabled = true }) e4 in
      let e6 = l.cleared u _ ∙ ap (λ (k : UnitState d). record k { total = pos 0 }) e5 in
      let e7 =
        l.started u _ (ap (λ (k : UnitState d). k.enabled) e6)
        ∙ ap (λ (k : UnitState d). record k { running = true }) e6 in
      record { installed = refl; seeded = refl; unit = (st, refl, e7) }

  -- A run of `begin` that returns true ends in `run`, with a unit and two channels that were just made.
  with_b-IsCounting :
      (i : ℤ) (u : d.UnitHandle) (a : d.Channel) (o : Option d.Channel) (s : Decoder d) (w : d.Hw)
      → (with_b d pa pb i u a o s w).0 ≡ true
      → ((b : d.Channel)
          → o ≡ some b
          → let (done, s', w') = run d pa pb i (record { unit = u; ch_a = a; ch_b = b }) s w in
            IsCounting i (pos 0) s' w')
      → let (done, s', w') = with_b d pa pb i u a o s w in IsCounting i (pos 0) s' w'
  unfolding with_b
  with_b-IsCounting i u a none s w e h = absurd (ground (arith, e))
  with_b-IsCounting i u a (some b) s w e h = h b refl

  abbrev made_unit : UnitState d
  made_unit = record {
    high = pos 32767;
    low = negsuc 32767;
    enabled = false;
    running = false;
    total = pos 0;
    channels = [];
  }

  with_a-IsCounting :
      (i : ℤ) (u : d.UnitHandle) (o : Option d.Channel) (s : Decoder d) (w : d.Hw)
      → (with_a d pa pb i u o s w).0 ≡ true
      → ((a : d.Channel)
          → o ≡ some a
          → (x : Actions) × (l.state u w ≡ record made_unit {
            channels = (a, record { edge_pin = pa; level_pin = pb; actions = x }) ∷ [];
          }))
      → let (done, s', w') = with_a d pa pb i u o s w in IsCounting i (pos 0) s' w'
  unfolding with_a
  with_a-IsCounting i u none s w e h = absurd (ground (arith, e))
  with_a-IsCounting i u (some a) s w e h =
      let (o, w') = d.new_channel u pb pa w in
      let (x, k) = h a refl in
      with_b-IsCounting i u a o s w' e (λ b q.
        let (y, same) = l.channel_made u pb pa b w q in
        run-IsCounting i (record { unit = u; ch_a = a; ch_b = b }) s w' x y
          (l.channel_fresh u pb pa b a _ [] w q (ap (λ (k : UnitState d). k.channels) k))
          (same
            ∙ ap
                (λ (k : UnitState d). record k {
                  channels =
                      (b, record { edge_pin = pb; level_pin = pa; actions = y }) ∷ k.channels;
                })
                k))

  with_unit-IsCounting :
      (i : ℤ) (o : Option d.UnitHandle) (s : Decoder d) (w : d.Hw)
      → (with_unit d pa pb i o s w).0 ≡ true
      → ((u : d.UnitHandle) → o ≡ some u → l.state u w ≡ made_unit)
      → let (done, s', w') = with_unit d pa pb i o s w in IsCounting i (pos 0) s' w'
  unfolding with_unit
  with_unit-IsCounting i none s w e h = absurd (ground (arith, e))
  with_unit-IsCounting i (some u) s w e h =
      let (o, w') = d.new_channel u pa pb w in
      with_a-IsCounting i u o s w' e (λ a q.
        let (x, same) = l.channel_made u pa pb a w q in
        (
          x,
          same
              ∙ ap
                  (λ (k : UnitState d). record k {
                    channels =
                        (a, record { edge_pin = pa; level_pin = pb; actions = x }) ∷ k.channels;
                  })
                  (h u refl),
        ))

  begin-new :
      (i : ℤ) (s : Decoder d) (w : d.Hw)
      → (begin d pa pb i s w).0 ≡ true
      → let (u, w') = d.new_unit (pos 32767) (negsuc 32767) true w in
        begin d pa pb i s w ≡ with_unit d pa pb i u s w'
  unfolding begin
  begin-new i s w e = elim (Bool-cases s.installed) [
    | inl up ↦ absurd (ground (arith, e, up))
    | inr down ↦ simp down
  ]

  pub begin-IsCounting :
      (i : ℤ) (s : Decoder d) (w : d.Hw)
      → (begin d pa pb i s w).0 ≡ true
      → let (done, s', w') = begin d pa pb i s w in IsCounting i (pos 0) s' w'
  begin-IsCounting i s w e =
      let (o, w') = d.new_unit (pos 32767) (negsuc 32767) true w in
      let same = begin-new i s w e in
      rw same (
        with_unit-IsCounting i o s w' (ap (λ r. r.0) (sym same) ∙ e)
          (λ u q. l.made (pos 32767) (negsuc 32767) true u w q))
