-- ===== src/Quadrature/Handles.antt =====
-- What src/ungula/hal/quadrature/platforms/decoder_esp32.cpp holds of the pulse counter driver.
use ungula_hal.Base.{
  ℕ, ◌≡◌, ◌≢◌, ◌∙◌, ap, refl, Bool, true, false, Option, none, some, List, [], ◌∷◌, Bool-cases,
  Option-cases, inl, inr, arith,
}
use ungula_hal.Base.Int.{ℤ, pos, negsuc}
use ungula_hal.Quadrature.Pcnt.{Driver}
use ungula_hal.Quadrature.{
  Decoder, EspState, begin, stop, reset, run, with_b, with_a, with_unit, release, clear,
}
use ungula_hal.Quadrature.Ledger.{Ledger, IsFree, Laws}

module _ {d : Driver} (l : Laws d) where
  -- The decoder holds a unit and two channels over what others held.
  pub record Holds (before : Ledger d) (st : EspState d) (w : d.Hw) : Type 0 where
    pub different : st.ch_a ≢ st.ch_b
    pub free : IsFree st.unit before.channels
    pub open_handles : l.ledger w ≡ record {
      units = st.unit ∷ before.units;
      channels = (st.unit, st.ch_b) ∷ (st.unit, st.ch_a) ∷ before.channels;
    }

  -- What `begin` leaves of the ledger `before`.
  pub record Balances (before : Ledger d) (s : Decoder d) (r : Bool × Decoder d × d.Hw)
      : Type 0 where
    pub refused : r.0 ≡ false → (r.1 ≡ s) × (l.ledger r.2 ≡ before)
    pub accepted :
        r.0 ≡ true
        → (r.1.installed ≡ true) × ((st : EspState d) × (r.1.unit ≡ some st) × Holds before st r.2)

  refuses :
      (before : Ledger d) (s : Decoder d) (w : d.Hw)
      → l.ledger w ≡ before
      → Balances before s (false, s, w)
  refuses before s w h = record {
    refused = λ k. (refl, h);
    accepted = λ k. absurd (ground (arith, k));
  }

  run-Balances :
      (before : Ledger d) (pa pb : ℕ) (i : ℤ) (st : EspState d) (s : Decoder d) (w : d.Hw)
      → Holds before st w
      → Balances before s (run d pa pb i st s w)
  unfolding run
  run-Balances before pa pb i st s w h = record {
    refused = λ k. absurd (ground (arith, k));
    accepted = λ k. (
      refl,
      (
        st,
        refl,
        record {
          different = h.different;
          free = h.free;
          open_handles =
              l.start_keeps st.unit _
              ∙ l.clear_keeps st.unit _
              ∙ l.enable_keeps st.unit _
              ∙ l.level_keeps st.ch_b _ _ _
              ∙ l.edge_keeps st.ch_b _ _ _
              ∙ l.level_keeps st.ch_a _ _ _
              ∙ l.edge_keeps st.ch_a _ _ _
              ∙ h.open_handles;
        },
      ),
    );
  }

  with_a-Balances :
      (before : Ledger d) (pa pb : ℕ) (i : ℤ) (u : d.UnitHandle) (a : d.Channel) (s : Decoder d)
      (w : d.Hw)
      → l.ledger w ≡ record { units = u ∷ before.units; channels = (u, a) ∷ before.channels }
      → l.enabled u w ≡ false
      → IsFree u before.channels
      → Balances before s (with_a d pa pb i u (some a) s w)
  unfolding with_a with_b
  with_a-Balances before pa pb i u a s w h idle free =
      let w' = (d.new_channel u pb pa w).1 in
      elim (Option-cases (d.new_channel u pb pa w).0) [
        | inl q ↦
            let still = l.channel_refused u pb pa w q ∙ h in
            rw q (
              refuses before s _ (
                l.unit_deleted u before.units before.channels _
                  (l.channel_deleted u a (u ∷ before.units) before.channels w' still)
                  (l.del_channel_enabled u a w' ∙ l.new_channel_enabled u u pb pa w ∙ idle) free))
        | inr (b, q) ↦ rw q (
            run-Balances before pa pb i (record { unit = u; ch_a = a; ch_b = b }) s w'
              (record {
                different =
                    l.channel_fresh u u pb pa b a before.channels w q (ap (λ k. k.channels) h);
                free = free;
                open_handles =
                    l.channel_made u pb pa b w q
                    ∙ ap (λ k. record { units = k.units; channels = (u, b) ∷ k.channels }) h;
              }))
      ]

  with_unit-Balances :
      (before : Ledger d) (pa pb : ℕ) (i : ℤ) (u : d.UnitHandle) (s : Decoder d) (w : d.Hw)
      → l.ledger w ≡ record { units = u ∷ before.units; channels = before.channels }
      → l.enabled u w ≡ false
      → IsFree u before.channels
      → Balances before s (with_unit d pa pb i (some u) s w)
  unfolding with_unit
  with_unit-Balances before pa pb i u s w h idle free =
      let w' = (d.new_channel u pa pb w).1 in
      elim (Option-cases (d.new_channel u pa pb w).0) [
        | inl q ↦
            rw (q, with_a)
              (refuses before s _ (
                l.unit_deleted u before.units before.channels w' (l.channel_refused u pa pb w q ∙ h)
                  (l.new_channel_enabled u u pa pb w ∙ idle) free))
        | inr (a, q) ↦ rw q (
            with_a-Balances before pa pb i u a s w'
              (l.channel_made u pa pb a w q
                ∙ ap (λ k. record { units = k.units; channels = (u, a) ∷ k.channels }) h)
              (l.new_channel_enabled u u pa pb w ∙ idle) free)
      ]

  begin-again :
      (pa pb : ℕ) (i : ℤ) (s : Decoder d) (w : d.Hw)
      → s.installed ≡ true
      → begin d pa pb i s w ≡ (false, s, w)
  unfolding begin
  begin-again pa pb i s w e = simp e

  begin-new :
      (pa pb : ℕ) (i : ℤ) (s : Decoder d) (w : d.Hw)
      → s.installed ≡ false
      → let (u, w') = d.new_unit (pos 32767) (negsuc 32767) true w in
        begin d pa pb i s w ≡ with_unit d pa pb i u s w'
  unfolding begin
  begin-new pa pb i s w e = simp e

  begin-Balances :
      (pa pb : ℕ) (i : ℤ) (s : Decoder d) (w : d.Hw) → Balances (l.ledger w) s (begin d pa pb i s w)
  unfolding with_unit
  begin-Balances pa pb i s w =
      let made = d.new_unit (pos 32767) (negsuc 32767) true w in
      elim (Bool-cases s.installed) [
        | inl e ↦ rw (begin-again pa pb i s w e) (refuses (l.ledger w) s w refl)
        | inr e ↦ elim (Option-cases made.0) [
          | inl q ↦
              rw (begin-new pa pb i s w e, q)
                (refuses (l.ledger w) s made.1 (l.unit_refused (pos 32767) (negsuc 32767) true w q))
          | inr (u, q) ↦
              rw (begin-new pa pb i s w e, q)
                (with_unit-Balances (l.ledger w) pa pb i u s made.1
                  (l.unit_made (pos 32767) (negsuc 32767) true u w q)
                  (l.unit_idle (pos 32767) (negsuc 32767) true u w q)
                  (l.unit_fresh (pos 32767) (negsuc 32767) true u w q))
        ]
      ]

  -- `stop` and `reset` on a decoder that holds its handles.
  stop-frees :
      (before : Ledger d) (st : EspState d) (s : Decoder d) (w : d.Hw)
      → s.installed ≡ true
      → s.unit ≡ some st
      → Holds before st w
      → l.ledger (stop d s w).2 ≡ before
  unfolding stop release
  stop-frees before st s w e q h =
      let us = st.unit ∷ before.units in
      let idle = l.disable_keeps st.unit _ ∙ l.stop_keeps st.unit w ∙ h.open_handles in
      rw (e, q)
        (l.unit_deleted st.unit before.units before.channels _
          (l.channel_deleted st.unit st.ch_b us before.channels _ (
            l.channel_deleted_behind st.unit st.ch_b st.ch_a us before.channels _ h.different idle))
          (l.del_channel_enabled st.unit st.ch_b _
            ∙ l.del_channel_enabled st.unit st.ch_a _
            ∙ l.disabled st.unit (d.stop st.unit w))
          h.free)

  clear-ledger : (o : Option (EspState d)) (w : d.Hw) → l.ledger (clear d o w) ≡ l.ledger w
  unfolding clear
  clear-ledger none w = refl
  clear-ledger (some st) w = l.clear_keeps st.unit w

  reset-ledger : (v : ℤ) (s : Decoder d) (w : d.Hw) → l.ledger (reset d v s w).2 ≡ l.ledger w
  unfolding reset
  reset-ledger v s w = elim (Bool-cases s.installed) [
    | inl e ↦ rw e (clear-ledger s.unit w)
    | inr e ↦ rw e refl
  ]

  pub reset_all : List ℤ → Decoder d → d.Hw → Decoder d × d.Hw
  reset_all [] s w = (s, w)
  reset_all (v ∷ vs) s w =
      let (s', w') = reset_all vs s w in ((reset d v s' w').1, (reset d v s' w').2)

  reset_fields :
      (v : ℤ) (s : Decoder d) (w : d.Hw)
      → ((reset d v s w).1.installed ≡ s.installed) × ((reset d v s w).1.unit ≡ s.unit)
  unfolding reset
  reset_fields v s w = (refl, refl)

  reset_all-keeps :
      (vs : List ℤ) (s : Decoder d) (w : d.Hw)
      → ((reset_all vs s w).0.installed ≡ s.installed)
        × ((reset_all vs s w).0.unit ≡ s.unit)
        × (l.ledger (reset_all vs s w).1 ≡ l.ledger w)
  unfolding reset_all
  reset_all-keeps [] s w = (refl, refl, refl)
  reset_all-keeps (v ∷ vs) s w =
      let (p, q, k) = reset_all-keeps vs s w in
      let (s', w') = reset_all vs s w in
      ((reset_fields v s' w').0 ∙ p, (reset_fields v s' w').1 ∙ q, reset-ledger v s' w' ∙ k)

  -- With a driver that deletes a unit only once it is disabled and has no channels: `begin` that fails, at
  -- whatever allocation, gives back every handle that it took and leaves the decoder as it was; after one
  -- that succeeds and any number of `reset` calls, `stop` gives back all that `begin` took.
  pub begin-stop :
      (pa pb : ℕ) (i : ℤ) (s : Decoder d) (w : d.Hw)
      → let (done, s', w') = begin d pa pb i s w in
        (done ≡ false → (s' ≡ s) × (l.ledger w' ≡ l.ledger w))
        × (done ≡ true
            → (vs : List ℤ)
            → let (s2, w2) = reset_all vs s' w' in l.ledger (stop d s2 w2).2 ≡ l.ledger w)
  begin-stop pa pb i s w =
      let b = begin-Balances pa pb i s w in
      let s' = (begin d pa pb i s w).1 in
      let w' = (begin d pa pb i s w).2 in
      (
        b.refused,
        λ h vs.
            let (up, (st, q, held)) = b.accepted h in
            let (p, u, k) = reset_all-keeps vs s' w' in
            stop-frees (l.ledger w) st (reset_all vs s' w').0 (reset_all vs s' w').1 (p ∙ up)
              (u ∙ q)
              (record {
                different = held.different;
                free = held.free;
                open_handles = k ∙ held.open_handles;
              }),
      )
