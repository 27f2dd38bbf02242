-- ===== src/Can/Esp32/Owner.antt =====
-- Who owns the driver: `installed_` of the class against the state of the TWAI driver.
use ungula_hal.Base.{
  ℕ, ◌≡◌, ◌≢◌, ◌∙◌, ◌⊎◌, refl, sym, Bool, true, false, Option, none, some, is_some, is_some-none,
  Bool-cases, arith, inl, inr,
}
use ungula_hal.Can.Frame.{CanFrame, frame_to_message}
use ungula_hal.Can.Filter.{FilterConfig, make_filter}
use ungula_hal.Can.Twai.{Driver, Laws, TwaiState, stopped, running, bus_off, recovering}
use ungula_hal.Can.Esp32.{
  Can, resolve_timing, install_with, install_and_start, tear_down, begin, stop, send, receive,
  set_acceptance_filter, clear_acceptance_filter, recover_from_bus_off,
}

pub data Call : Type 0 where
  begin_call : ℕ → ℕ → ℕ → Call
  stop_call clear_filter_call recover_call : Call
  send_call receive_call : CanFrame → ℕ → Call
  set_filter_call : ℕ → ℕ → Bool → Call

-- The calls that take the driver down, alone or to bring it up again.
abbrev pub takes_down : Call → Bool
takes_down (begin_call tx rx rate) = false
takes_down stop_call = true
takes_down clear_filter_call = true
takes_down recover_call = false
takes_down (send_call frame t) = false
takes_down (receive_call out t) = false
takes_down (set_filter_call id mask e) = true

status-cases :
    (s : Option TwaiState)
    → (s ≡ none)
      ⊎ (s ≡ some stopped)
      ⊎ (s ≡ some running)
      ⊎ (s ≡ some bus_off)
      ⊎ (s ≡ some recovering)
status-cases none = inl refl
status-cases (some stopped) = inr (inl refl)
status-cases (some running) = inr (inr (inl refl))
status-cases (some bus_off) = inr (inr (inr (inl refl)))
status-cases (some recovering) = inr (inr (inr (inr refl)))

module _ (d : Driver) where
  unfoldable pub step : Call → Can → d.Hw → Can × d.Hw
  step (begin_call tx rx rate) c w = let (_, c', w') = begin d tx rx rate c w in (c', w')
  step stop_call c w = let (_, c', w') = stop d c w in (c', w')
  step clear_filter_call c w = let (_, c', w') = clear_acceptance_filter d c w in (c', w')
  step recover_call c w = (c, (recover_from_bus_off d c w).1)
  step (send_call frame t) c w = (c, (send d frame t c w).1)
  step (receive_call out t) c w = (c, (receive d out t c w).1)
  step (set_filter_call id mask e) c w =
      let (_, c', w') = set_acceptance_filter d id mask e c w in (c', w')

-- The object believes that a driver is installed exactly where one is.
abbrev pub IsOwned : (d : Driver) → Can → d.Hw → Type 0
IsOwned d c w = c.installed ≡ is_some (d.status w)

module _ {d : Driver} (l : Laws d) where
  -- What `install_and_start` leaves of a driver that was not installed.
  install_with-settles :
      (tx rx : ℕ) (t : Option _) (f : FilterConfig) (w : d.Hw)
      → d.status w ≡ none
      → is_some (d.status (install_with d tx rx t f w).1) ≡ (install_with d tx rx t f w).0
  unfolding install_with
  install_with-settles tx rx none f w h = rw h refl
  install_with-settles tx rx (some t) f w h = elim (Bool-cases (d.install tx rx t f w).0) [
    | inl e ↦ elim (Bool-cases (d.start (d.install tx rx t f w).1).0) [
      | inl s ↦ rw (e, s, (l.start_ok _ s).0) refl
      | inr s ↦
          let off = l.start_failed _ s ∙ (l.install_ok tx rx t f w e).0 in
          rw (e, s, l.uninstall_stopped _ off) refl
    ]
    | inr e ↦ rw (e, l.install_failed tx rx t f w e, h) refl
  ]

  pub tear_down-frees :
      (w : d.Hw)
      → d.status w ≢ some recovering
      → is_some (d.status w) ≡ true
      → d.status (tear_down d w) ≡ none
  unfolding tear_down
  tear_down-frees w h k = elim (status-cases (d.status w)) [
    | inl e ↦ absurd (ground (arith, e, k))
    | inr (inl e) ↦ l.uninstall_stopped _ (l.stop_refused w (ground (arith, e)) ∙ e)
    | inr (inr (inl e)) ↦ l.uninstall_stopped _ (l.stop_running w e)
    | inr (inr (inr (inl e))) ↦ l.uninstall_bus_off _ (l.stop_refused w (ground (arith, e)) ∙ e)
    | inr (inr (inr (inr e))) ↦ absurd (h e)
  ]

  begin-IsOwned :
      (tx rx rate : ℕ) (c : Can) (w : d.Hw)
      → IsOwned d c w
      → IsOwned d (begin d tx rx rate c w).1 (begin d tx rx rate c w).2
  unfolding begin install_and_start
  begin-IsOwned tx rx rate c w h = elim (Bool-cases c.installed) [
    | inl e ↦ rw e (sym e ∙ h)
    | inr e ↦
        let off = is_some-none (d.status w) (sym h ∙ e) in
        ground (arith, e, install_with-settles tx rx (resolve_timing rate) d.accept_all w off)
  ]

  set_acceptance_filter-IsOwned :
      (id mask : ℕ) (e : Bool) (c : Can) (w : d.Hw)
      → IsOwned d c w
      → d.status w ≢ some recovering
      → IsOwned d
          (set_acceptance_filter d id mask e c w).1
          (set_acceptance_filter d id mask e c w).2
  unfolding set_acceptance_filter install_and_start
  set_acceptance_filter-IsOwned id mask e c w h k = elim (Bool-cases c.installed) [
    | inl i ↦
        let off = tear_down-frees w k (sym h ∙ i) in
        ground (
          arith,
          i,
          install_with-settles c.tx_pin c.rx_pin (resolve_timing c.bitrate_bps)
              (make_filter id mask e) _ off,
        )
    | inr i ↦ rw i (sym i ∙ h)
  ]

  clear_acceptance_filter-IsOwned :
      (c : Can) (w : d.Hw)
      → IsOwned d c w
      → d.status w ≢ some recovering
      → IsOwned d (clear_acceptance_filter d c w).1 (clear_acceptance_filter d c w).2
  unfolding clear_acceptance_filter install_and_start
  clear_acceptance_filter-IsOwned c w h k = elim (Bool-cases c.installed) [
    | inl i ↦
        let off = tear_down-frees w k (sym h ∙ i) in
        ground (
          arith,
          i,
          install_with-settles c.tx_pin c.rx_pin (resolve_timing c.bitrate_bps) d.accept_all _ off,
        )
    | inr i ↦ rw i (sym i ∙ h)
  ]

  stop-IsOwned :
      (c : Can) (w : d.Hw)
      → IsOwned d c w
      → d.status w ≢ some recovering
      → IsOwned d (stop d c w).1 (stop d c w).2
  unfolding stop
  stop-IsOwned c w h k = elim (Bool-cases c.installed) [
    | inl i ↦ let off = tear_down-frees w k (sym h ∙ i) in ground (arith, i, off)
    | inr i ↦ rw i (sym i ∙ h)
  ]

  -- Every call of the class keeps `installed_` true exactly where the TWAI driver is installed,
  -- provided that no call takes the driver down while it is recovering from bus-off.
  pub step-IsOwned :
      (call : Call) (c : Can) (w : d.Hw)
      → IsOwned d c w
      → (takes_down call ≡ true → d.status w ≢ some recovering)
      → IsOwned d (step d call c w).0 (step d call c w).1
  unfolding step recover_from_bus_off send receive
  step-IsOwned (begin_call tx rx rate) c w h k = begin-IsOwned tx rx rate c w h
  step-IsOwned stop_call c w h k = stop-IsOwned c w h (k refl)
  step-IsOwned clear_filter_call c w h k = clear_acceptance_filter-IsOwned c w h (k refl)
  step-IsOwned (set_filter_call id mask e) c w h k =
      set_acceptance_filter-IsOwned id mask e c w h (k refl)
  step-IsOwned recover_call c w h k = ground (arith, h, l.recovery_keeps w)
  step-IsOwned (send_call frame t) c w h k =
      ground (arith, h, l.transmit_keeps (frame_to_message frame) (d.ms_to_ticks t) w)
  step-IsOwned (receive_call out t) c w h k = ground (arith, h, l.receive_keeps (d.ms_to_ticks t) w)

  -- `stop` during a recovery from bus-off: it reports success and forgets the driver, which stays
  -- installed.
  pub stop-recovering :
      (c : Can) (w : d.Hw)
      → c.installed ≡ true
      → d.status w ≡ some recovering
      → ((stop d c w).0 ≡ true)
        × ((stop d c w).1.installed ≡ false)
        × (d.status (stop d c w).2 ≡ some recovering)
  unfolding stop tear_down
  stop-recovering c w h k =
      let kept = l.stop_refused w (ground (arith, k)) ∙ k in
      ground (arith, h, l.uninstall_refused _ kept)
