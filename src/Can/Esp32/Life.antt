-- ===== src/Can/Esp32/Life.antt =====
-- The life of a controller of src/ungula/hal/can/platforms/can_esp32_twai.cpp: its calls, and what the bus does to
-- the TWAI driver between them.
use ungula_hal.Base.{
  ℕ, ◌≡◌, ◌≢◌, ◌∙◌, sym, true, none, some, is_some, is_some-none, Bool-cases, arith, inl, inr,
}
use ungula_hal.Can.Twai.{Driver, Laws, bus_off, recovering}
use ungula_hal.Can.Esp32.{Can, fresh, destroy, is_bus_off}
use ungula_hal.Can.Esp32.Owner.{Call, step, takes_down, IsOwned, step-IsOwned, tear_down-frees}

-- What a new controller on a driver in state `w0` comes to. No call takes the driver down during a
-- recovery; the bus may change the driver's state at any time, but neither installs nor uninstalls it.
pub data Reaches (d : Driver) (w0 : d.Hw) : Can → d.Hw → Type 0 where
  made : (port : ℕ) → Reaches d w0 (fresh port) w0
  called :
      {c : Can} {w : d.Hw} (call : Call)
      → Reaches d w0 c w
      → (takes_down call ≡ true → d.status w ≢ some recovering)
      → Reaches d w0 (step d call c w).0 (step d call c w).1
  drifted :
      {c : Can} {w : d.Hw} (w' : d.Hw)
      → Reaches d w0 c w
      → is_some (d.status w') ≡ is_some (d.status w)
      → Reaches d w0 c w'

module _ {d : Driver} (l : Laws d) where
  Reaches-IsOwned :
      {w0 : d.Hw} {c : Can} {w : d.Hw} → d.status w0 ≡ none → Reaches d w0 c w → IsOwned d c w
  Reaches-IsOwned off (made port) = ground (arith, off)
  Reaches-IsOwned off (called call r safe) = step-IsOwned l call _ _ (Reaches-IsOwned off r) safe
  Reaches-IsOwned off (drifted w' r keeps) = Reaches-IsOwned off r ∙ sym keeps

  destroy-frees :
      (c : Can) (w : d.Hw)
      → IsOwned d c w
      → d.status w ≢ some recovering
      → d.status (destroy d c w) ≡ none
  unfolding destroy
  destroy-frees c w h k = elim (Bool-cases c.installed) [
    | inl e ↦ rw e (tear_down-frees l w k (sym h ∙ e))
    | inr e ↦ rw e (is_some-none (d.status w) (sym h ∙ e))
  ]

  bus_off-seen :
      (c : Can) (w : d.Hw) → IsOwned d c w → d.status w ≡ some bus_off → is_bus_off d c w ≡ true
  unfolding is_bus_off
  bus_off-seen c w h k = ground (arith, h, k)

  -- A new controller, made while no TWAI driver is installed, after any calls and any changes of state that
  -- the bus causes, provided that no call takes the driver down while it recovers from bus-off: `installed_`
  -- is true exactly where the driver is installed, a bus-off is reported by `isBusOff`, and the destructor,
  -- if the driver is not recovering then, leaves no driver installed.
  pub Reaches-lives :
      {w0 : d.Hw} {c : Can} {w : d.Hw}
      → d.status w0 ≡ none
      → Reaches d w0 c w
      → (c.installed ≡ is_some (d.status w))
        × (d.status w ≡ some bus_off → is_bus_off d c w ≡ true)
        × (d.status w ≢ some recovering → d.status (destroy d c w) ≡ none)
  Reaches-lives {c = c} {w = w} off r =
      let h = Reaches-IsOwned off r in (h, bus_off-seen c w h, destroy-frees c w h)
