-- ===== src/Can/Esp32/Filtering.antt =====
-- The controller after a change of its acceptance filter, and the frames that it receives.
use ungula_hal.Base.{
  ℕ, ◌<◌, ◌≡◌, ◌∙◌, ◌⊎◌, refl, Bool, true, Option, none, some, Bool-cases, arith, inl, inr,
}
use ungula_hal.Base.Int.{pos, negsuc}
use ungula_hal.Esp.{EspErr, ok, timeout, invalid_state, failed}
use ungula_hal.Can.Frame.{CanFrame, IsFrame, Message, message_to_frame-IsFrame}
use ungula_hal.Can.Filter.{
  FilterConfig, make_filter, make_filter-passes, passes, agrees, id_bits, low_bits, id_register,
}
use ungula_hal.Can.Twai.{Driver, Laws, Timing, running}
use ungula_hal.Can.Esp32.{
  Can, resolve_timing, install_with, install_and_start, tear_down, set_acceptance_filter, receive,
  received,
}

received-IsFrame :
    (err : EspErr) (m : Message) (out : CanFrame)
    → let r = received err m out in
      ((r.0 ≡ pos 1) × IsFrame r.1) ⊎ (((r.0 ≡ pos 0) ⊎ (r.0 ≡ negsuc 0)) × (r.1 ≡ out))
unfolding received
received-IsFrame ok m out = inl (refl, message_to_frame-IsFrame m)
received-IsFrame timeout m out = inr (inl refl, refl)
received-IsFrame invalid_state m out = inr (inr refl, refl)
received-IsFrame failed m out = inr (inr refl, refl)

module _ {d : Driver} (l : Laws d) where
  install_with-runs :
      (tx rx : ℕ) (t : Option Timing) (f : FilterConfig) (w : d.Hw)
      → (install_with d tx rx t f w).0 ≡ true
      → (d.status (install_with d tx rx t f w).1 ≡ some running)
        × (l.filter (install_with d tx rx t f w).1 ≡ f)
  unfolding install_with
  install_with-runs tx rx none f w h = absurd (ground (arith, h))
  install_with-runs tx rx (some t) f w h = elim (Bool-cases (d.install tx rx t f w).0) [
    | inl e ↦ elim (Bool-cases (d.start (d.install tx rx t f w).1).0) [
      | inl s ↦ rw (e, s) ((l.start_ok _ s).0, (l.start_ok _ s).1 ∙ (l.install_ok tx rx t f w e).1)
      | inr s ↦ absurd (ground (arith, e, s, h))
    ]
    | inr e ↦ absurd (ground (arith, e, h))
  ]

  abbrev change : ℕ → ℕ → Bool → Can → d.Hw → Bool × d.Hw
  change id mask e c w =
      install_and_start d c.tx_pin c.rx_pin c.bitrate_bps (make_filter id mask e) (tear_down d w)

  -- When `setAcceptanceFilter` succeeds, the controller runs, the object is installed and remembers the
  -- filter's identifier, mask and format, and a received identifier passes the filter in effect exactly
  -- if `(rxId & mask) == (id & mask)`.
  pub set_acceptance_filter-active :
      (id mask : ℕ) (e : Bool) (c : Can) (w : d.Hw)
      → (set_acceptance_filter d id mask e c w).0 ≡ true
      → let (_, c', w') = set_acceptance_filter d id mask e c w in
        (d.status w' ≡ some running)
        × (c'.installed ≡ true)
        × ((c'.filter_enabled ≡ true)
            × (c'.filter_id ≡ id)
            × (c'.filter_mask ≡ mask)
            × (c'.filter_extended ≡ e))
        × ((rx low : ℕ)
            → low < low_bits e
            → passes 32
                (l.filter w').acceptance_code
                (l.filter w').acceptance_mask
                (id_register e rx low)
              ≡ agrees (id_bits e) id mask rx)
  unfolding set_acceptance_filter install_and_start
  set_acceptance_filter-active id mask e c w h = elim (Bool-cases c.installed) [
    | inl i ↦ elim (Bool-cases (change id mask e c w).0) [
      | inl s ↦
          let (runs, active) =
            install_with-runs c.tx_pin c.rx_pin (resolve_timing c.bitrate_bps)
              (make_filter id mask e) (tear_down d w) s in
          rw (i, s)
            (
              runs,
              refl,
              (refl, refl, refl, refl),
              λ rx low b. rw active (make_filter-passes id mask rx low e b),
            )
      | inr s ↦ absurd (ground (arith, i, s, h))
    ]
    | inr i ↦ absurd (ground (arith, i, h))
  ]

  -- `receive` answers 1, 0 or -1, and a frame that it reports as received has a length of at most 8,
  -- and zeros beyond it.
  pub receive-IsFrame :
      (out : CanFrame) (t : ℕ) (c : Can) (w : d.Hw)
      → let (r, w') = receive d out t c w in
        ((r.0 ≡ pos 1) × IsFrame r.1) ⊎ (((r.0 ≡ pos 0) ⊎ (r.0 ≡ negsuc 0)) × (r.1 ≡ out))
  unfolding receive
  receive-IsFrame out t c w = elim (Bool-cases c.installed) [
    | inl i ↦ let (err, m, w') = d.receive (d.ms_to_ticks t) w in rw i (received-IsFrame err m out)
    | inr i ↦ rw i (inr (inr refl, refl))
  ]
