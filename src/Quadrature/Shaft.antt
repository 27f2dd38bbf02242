-- ===== src/Quadrature/Shaft.antt =====
-- The count of src/ungula/hal/quadrature/platforms/decoder_esp32.cpp against the shaft that the encoder sits
-- on, from `begin` through moves and resets.
use ungula_hal.Base.{
  ℕ, ◌<◌, ◌≡◌, ◌≢◌, ◌∙◌, refl, ap, sym, Bool, true, false, List, [], ◌∷◌, if◌then◌else◌, arith,
}
use ungula_hal.Base.Int.{ℤ, pos, pos_part, neg_part, ◌+ℤ◌}
use ungula_hal.Quadrature.Pcnt.{Driver}
use ungula_hal.Quadrature.Fake
use ungula_hal.Quadrature.Turns.{
  Quarter, low_low, high_low, high_high, low_high, pin_a, pin_b, Move, forward, back, turn, differ,
  levels, signed, Event, moved, reset_to, base, net, IsShort, expected, expected-base, net-bound,
}
use ungula_hal.Quadrature.Counter.{UnitState, channel_counts, unit_counts, Counts}
use ungula_hal.Quadrature.Setup.{counting, IsCounting, begin-IsCounting}
use ungula_hal.Quadrature.{Decoder, EspState, begin, count, clear, stop, reset}

module _ {d : Driver} (l : Counts d) (pa pb : ℕ) where
  abbrev pub edge_of : Quarter → Quarter → d.Hw → d.Hw
  edge_of q q' w =
      if differ (pin_a q) (pin_a q')
      then l.edge pa (pin_a q') (levels pa q') w
      else l.edge pb (pin_b q') (levels pa q') w

  -- The decoder, the driver and the shaft after the events.
  unfoldable pub follow : List Event → Decoder d → d.Hw → Quarter → Decoder d × d.Hw × Quarter
  follow [] s w q = (s, w, q)
  follow (moved m ∷ es) s w q =
      let (s', w', q') = follow es s w q in (s', edge_of q' (turn m q') w', turn m q')
  follow (reset_to v ∷ es) s w q =
      let (s', w', q') = follow es s w q in ((reset d v s' w').1, (reset d v s' w').2, q')

  -- A move is counted once, in its direction, by the channels as `begin` sets them.
  unit_counts-move :
      (q : Quarter) (m : Move) (st : EspState d) (n : ℤ)
      → pa ≢ pb
      → let q' = turn m q in
        (if differ (pin_a q) (pin_a q')
          then unit_counts pa (pin_a q') (levels pa q') (counting l pa pb st n).channels
          else unit_counts pb (pin_b q') (levels pa q') (counting l pa pb st n).channels)
        ≡ signed m
  unfolding channel_counts ◌+ℤ◌
  unit_counts-move low_low forward st n ne = ground (arith, ne)
  unit_counts-move low_low back st n ne = ground (arith, ne)
  unit_counts-move high_low forward st n ne = ground (arith, ne)
  unit_counts-move high_low back st n ne = ground (arith, ne)
  unit_counts-move high_high forward st n ne = ground (arith, ne)
  unit_counts-move high_high back st n ne = ground (arith, ne)
  unit_counts-move low_high forward st n ne = ground (arith, ne)
  unit_counts-move low_high back st n ne = ground (arith, ne)

  edge-counting :
      (st : EspState d) (n delta : ℤ) (pin : ℕ) (rising : Bool) (lv : ℕ → Bool) (w : d.Hw)
      → l.state st.unit w ≡ counting l pa pb st n
      → pos_part (n +ℤ delta) < 32767
      → neg_part (n +ℤ delta) < 32768
      → unit_counts pin rising lv (counting l pa pb st n).channels ≡ delta
      → l.state st.unit (l.edge pin rising lv w) ≡ counting l pa pb st (n +ℤ delta)
  edge-counting st n delta pin rising lv w h hi lo cnt =
      let u = st.unit in
      let x = l.state u w in
      let total = x.total +ℤ unit_counts pin rising lv x.channels in
      let e : total ≡ n +ℤ delta =
        ap (λ (k : UnitState d). k.total +ℤ unit_counts pin rising lv k.channels) h
        ∙ ap (λ z. n +ℤ z) cnt in
      let high = ap (λ (k : UnitState d). pos_part k.high) h in
      let low = ap (λ (k : UnitState d). neg_part k.low) h in
      l.counts_edge u pin rising lv w (ap (λ (k : UnitState d). k.running) h)
        (omega (arith, hi, ap pos_part e, high)) (omega (arith, lo, ap neg_part e, low))
      ∙ ap (λ (k : UnitState d). record k { total = total }) h
      ∙ ap (λ z. counting l pa pb st z) e

  edge_of-counting :
      (st : EspState d) (n : ℤ) (w : d.Hw) (q : Quarter) (m : Move)
      → pa ≢ pb
      → l.state st.unit w ≡ counting l pa pb st n
      → pos_part (n +ℤ signed m) < 32767
      → neg_part (n +ℤ signed m) < 32768
      → l.state st.unit (edge_of q (turn m q) w) ≡ counting l pa pb st (n +ℤ signed m)
  edge_of-counting st n w q m ne h hi lo =
      by_pin (differ (pin_a q) (pin_a (turn m q))) (unit_counts-move q m st n ne)
    where
      by_pin :
          (b : Bool)
          → (if b
              then unit_counts pa
                  (pin_a (turn m q))
                  (levels pa (turn m q))
                  (counting l pa pb st n).channels
              else unit_counts pb
                  (pin_b (turn m q))
                  (levels pa (turn m q))
                  (counting l pa pb st n).channels)
            ≡ signed m
          → l.state st.unit (
              if b
              then l.edge pa (pin_a (turn m q)) (levels pa (turn m q)) w
              else l.edge pb (pin_b (turn m q)) (levels pa (turn m q)) w)
            ≡ counting l pa pb st (n +ℤ signed m)
      by_pin true c = edge-counting st n (signed m) pa _ _ w h hi lo c
      by_pin false c = edge-counting st n (signed m) pb _ _ w h hi lo c

  reset-IsCounting :
      (v seed n : ℤ) (s : Decoder d) (w : d.Hw)
      → IsCounting l pa pb seed n s w
      → let (done, s', w') = reset d v s w in IsCounting l pa pb v (pos 0) s' w'
  unfolding reset clear
  reset-IsCounting v seed n s w k =
      let (st, e, h) = k.unit in
      record {
        installed = k.installed;
        seeded = refl;
        unit = (
          st,
          e,
          rw (k.installed, e)
              (l.cleared st.unit w ∙ ap (λ (x : UnitState d). record x { total = pos 0 }) h),
        );
      }

  follow-IsCounting :
      (es : List Event) (i : ℤ) (s : Decoder d) (w : d.Hw) (q : Quarter)
      → pa ≢ pb
      → IsShort es
      → IsCounting l pa pb i (pos 0) s w
      → let (s', w', q') = follow es s w q in IsCounting l pa pb (base i es) (net es) s' w'
  unfolding follow
  follow-IsCounting [] i s w q ne short k = k
  follow-IsCounting (moved m ∷ es) i s w q ne short k =
      let (s', w', q') = follow es s w q in
      let j = follow-IsCounting es i s w q ne short.1 k in
      let (st, e, h) = j.unit in
      let bound = net-bound (moved m ∷ es) in
      record {
        installed = j.installed;
        seeded = j.seeded;
        unit = (
          st,
          e,
          edge_of-counting st (net es) w' q' m ne h (omega (arith, bound, short.0))
              (omega (arith, bound, short.0)),
        );
      }
  follow-IsCounting (reset_to v ∷ es) i s w q ne short k =
      let (s', w', q') = follow es s w q in
      reset-IsCounting v (base i es) (net es) s' w' (follow-IsCounting es i s w q ne short.1 k)

  count-IsCounting :
      (seed n : ℤ) (s : Decoder d) (w : d.Hw)
      → IsCounting l pa pb seed n s w
      → count d s w ≡ seed +ℤ n
  unfolding count
  count-IsCounting seed n s w k =
      let (st, e, h) = k.unit in
      let total = l.read st.unit w ∙ ap (λ (x : UnitState d). x.total) h in
      rw (k.installed, e, total, k.seeded) refl

-- The fake, moved by the same shaft one tick at a time.
pub follow_fake : List Event → Fake.DecoderFake → Fake.DecoderFake
follow_fake [] f = f
follow_fake (moved m ∷ es) f = Fake.tick (signed m) (follow_fake es f)
follow_fake (reset_to v ∷ es) f = (Fake.reset v (follow_fake es f)).1

count-follow_fake :
    (i : ℤ) (es : List Event) (f : Fake.DecoderFake)
    → f.count ≡ i
    → (follow_fake es f).count ≡ expected i es
unfolding follow_fake Fake.tick Fake.reset
count-follow_fake i [] f h = h
count-follow_fake i (moved m ∷ es) f h = ap (λ n. n +ℤ signed m) (count-follow_fake i es f h)
count-follow_fake i (reset_to v ∷ es) f h = refl

-- After a `begin` that returned true, on two different pins, and any moves of the shaft and calls of `reset`,
-- with fewer than 32767 moves between two resets, the decoder reports the initial count, or the value of
-- the last reset, and the moves since then, forward less back: every edge of either pin counts once, in
-- its direction, wherever in its pattern the shaft stood. The fake, ticked once for every move, reads the
-- same. Counts are integers here, without the bounds of `int32_t`.
pub count-follows :
    (d : Driver) (l : Counts d) (pa pb : ℕ) (i : ℤ) (s : Decoder d) (w : d.Hw) (q : Quarter)
    (es : List Event) (f : Fake.DecoderFake)
    → (begin d pa pb i s w).0 ≡ true
    → pa ≢ pb
    → IsShort es
    → f.count ≡ i
    → let (done, s', w') = begin d pa pb i s w in
      let (s2, w2, q2) = follow l pa pb es s' w' q in
      (count d s2 w2 ≡ expected i es) × ((follow_fake es f).count ≡ expected i es)
count-follows d l pa pb i s w q es f e ne short h =
    let (done, s', w') = begin d pa pb i s w in
    let (s2, w2, q2) = follow l pa pb es s' w' q in
    let k = follow-IsCounting l pa pb es i s' w' q ne short (begin-IsCounting l pa pb i s w e) in
    (
      count-IsCounting l pa pb (base i es) (net es) s2 w2 k ∙ sym (expected-base i es),
      count-follow_fake i es f h,
    )

-- After `stop` the count is the seed again, and the moves since the last `begin` or `reset` are lost.
pub count-stop :
    (d : Driver) (s : Decoder d) (w w' : d.Hw)
    → s.installed ≡ true
    → count d (stop d s w).1 w' ≡ s.seed
unfolding count stop
count-stop d s w w' h = rw h refl
