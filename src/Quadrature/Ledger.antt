-- ===== src/Quadrature/Ledger.antt =====
-- What src/ungula/hal/quadrature/platforms/decoder_esp32.cpp relies on of the handles that the pulse counter
-- driver gives out.
use ungula_hal.Base.{ℕ, ◌≡◌, ◌≢◌, Bool, false, none, some, List, [], ◌∷◌}
use ungula_hal.Base.Int.{ℤ}
use ungula_hal.Quadrature.Pcnt.{Driver, EdgeAction, LevelAction}

-- The handles that the driver has given out and not taken back, the newest first; a channel stands with
-- its unit.
pub record Ledger (d : Driver) : Type 0 where
  pub units : List d.UnitHandle
  pub channels : List (d.UnitHandle × d.Channel)

-- No channel is one of the unit `u`.
abbrev pub IsFree : {U H : Type 0} → U → List (U × H) → Type 0
IsFree u [] = Unit {0}
IsFree u ((v, c) ∷ cs) = (v ≢ u) × IsFree u cs

-- An allocation that succeeds adds its handle; a new unit has no channels and is not enabled, and a new
-- channel is none of those that are open. A channel can be deleted at any time, a unit only once it is
-- disabled and has no channels. No other call opens or closes anything, and only `enable` enables a unit.
pub record Laws (d : Driver) : Type 0 where
  pub ledger : d.Hw → Ledger d
  pub enabled : d.UnitHandle → d.Hw → Bool
  pub unit_made :
      (hi lo : ℤ) (acc : Bool) (u : d.UnitHandle) (w : d.Hw)
      → (d.new_unit hi lo acc w).0 ≡ some u
      → ledger (d.new_unit hi lo acc w).1
        ≡ record { units = u ∷ (ledger w).units; channels = (ledger w).channels }
  pub unit_fresh :
      (hi lo : ℤ) (acc : Bool) (u : d.UnitHandle) (w : d.Hw)
      → (d.new_unit hi lo acc w).0 ≡ some u
      → IsFree u (ledger w).channels
  pub unit_idle :
      (hi lo : ℤ) (acc : Bool) (u : d.UnitHandle) (w : d.Hw)
      → (d.new_unit hi lo acc w).0 ≡ some u
      → enabled u (d.new_unit hi lo acc w).1 ≡ false
  pub unit_refused :
      (hi lo : ℤ) (acc : Bool) (w : d.Hw)
      → (d.new_unit hi lo acc w).0 ≡ none
      → ledger (d.new_unit hi lo acc w).1 ≡ ledger w
  pub channel_made :
      (u : d.UnitHandle) (e l : ℕ) (c : d.Channel) (w : d.Hw)
      → (d.new_channel u e l w).0 ≡ some c
      → ledger (d.new_channel u e l w).1
        ≡ record { units = (ledger w).units; channels = (u, c) ∷ (ledger w).channels }
  pub channel_fresh :
      (u v : d.UnitHandle) (e l : ℕ) (c a : d.Channel) (cs : List (d.UnitHandle × d.Channel))
      (w : d.Hw)
      → (d.new_channel u e l w).0 ≡ some c
      → (ledger w).channels ≡ (v, a) ∷ cs
      → a ≢ c
  pub channel_refused :
      (u : d.UnitHandle) (e l : ℕ) (w : d.Hw)
      → (d.new_channel u e l w).0 ≡ none
      → ledger (d.new_channel u e l w).1 ≡ ledger w
  pub channel_deleted :
      (v : d.UnitHandle) (c : d.Channel) (us : List d.UnitHandle)
      (cs : List (d.UnitHandle × d.Channel)) (w : d.Hw)
      → ledger w ≡ record { units = us; channels = (v, c) ∷ cs }
      → ledger (d.del_channel c w) ≡ record { units = us; channels = cs }
  pub channel_deleted_behind :
      (v : d.UnitHandle) (b c : d.Channel) (us : List d.UnitHandle)
      (cs : List (d.UnitHandle × d.Channel)) (w : d.Hw)
      → c ≢ b
      → ledger w ≡ record { units = us; channels = (v, b) ∷ (v, c) ∷ cs }
      → ledger (d.del_channel c w) ≡ record { units = us; channels = (v, b) ∷ cs }
  pub unit_deleted :
      (u : d.UnitHandle) (us : List d.UnitHandle) (cs : List (d.UnitHandle × d.Channel)) (w : d.Hw)
      → ledger w ≡ record { units = u ∷ us; channels = cs }
      → enabled u w ≡ false
      → IsFree u cs
      → ledger (d.del_unit u w) ≡ record { units = us; channels = cs }
  pub new_channel_enabled :
      (v u : d.UnitHandle) (e l : ℕ) (w : d.Hw) → enabled v (d.new_channel u e l w).1 ≡ enabled v w
  pub del_channel_enabled :
      (v : d.UnitHandle) (c : d.Channel) (w : d.Hw) → enabled v (d.del_channel c w) ≡ enabled v w
  pub disabled : (u : d.UnitHandle) (w : d.Hw) → enabled u (d.disable u w) ≡ false
  pub edge_keeps :
      (c : d.Channel) (r f : EdgeAction) (w : d.Hw) → ledger (d.set_edge_action c r f w) ≡ ledger w
  pub level_keeps :
      (c : d.Channel) (h l : LevelAction) (w : d.Hw)
      → ledger (d.set_level_action c h l w) ≡ ledger w
  pub enable_keeps : (u : d.UnitHandle) (w : d.Hw) → ledger (d.enable u w) ≡ ledger w
  pub disable_keeps : (u : d.UnitHandle) (w : d.Hw) → ledger (d.disable u w) ≡ ledger w
  pub clear_keeps : (u : d.UnitHandle) (w : d.Hw) → ledger (d.clear_count u w) ≡ ledger w
  pub start_keeps : (u : d.UnitHandle) (w : d.Hw) → ledger (d.start u w) ≡ ledger w
  pub stop_keeps : (u : d.UnitHandle) (w : d.Hw) → ledger (d.stop u w) ≡ ledger w
