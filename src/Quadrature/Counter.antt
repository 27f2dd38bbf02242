-- ===== src/Quadrature/Counter.antt =====
-- What src/ungula/hal/quadrature/platforms/decoder_esp32.cpp relies on of a pulse counter unit: how the calls
-- set it up, and what it counts of the edges of its pins.
use ungula_hal.Base.{ℕ, ◌<◌, ◌≡◌, ◌≢◌, Bool, true, false, some, List, [], ◌∷◌, ◌==◌, if◌then◌else◌}
use ungula_hal.Base.Int.{ℤ, pos, negsuc, pos_part, neg_part, ◌+ℤ◌}
use ungula_hal.Quadrature.Pcnt.{
  Driver, EdgeAction, increase, decrease, LevelAction, keep, inverse, Actions,
}

-- A channel's pins and actions.
pub record Setup : Type 0 where
  pub edge_pin : ℕ
  pub level_pin : ℕ
  pub actions : Actions

pub record UnitState (d : Driver) : Type 0 where
  pub high : ℤ
  pub low : ℤ
  pub enabled : Bool
  pub running : Bool
  pub total : ℤ
  pub channels : List (d.Channel × Setup)

-- An edge counts up or down by its action, and a level whose action is to invert turns that round.
abbrev pub respond : EdgeAction → LevelAction → ℤ
respond increase keep = pos 1
respond increase inverse = negsuc 0
respond decrease keep = negsuc 0
respond decrease inverse = pos 1

abbrev pub set_edge : EdgeAction → EdgeAction → Setup → Setup
set_edge r f s = record s { actions = record s.actions { rise = r; fall = f } }

abbrev pub set_level : LevelAction → LevelAction → Setup → Setup
set_level h l s = record s { actions = record s.actions { high = h; low = l } }

-- What one channel counts of an edge of `pin` to `rising`, with the levels of the pins after it.
unfoldable pub channel_counts : ℕ → Bool → (ℕ → Bool) → Setup → ℤ
channel_counts pin rising levels s =
    if s.edge_pin == pin
    then respond (if rising then s.actions.rise else s.actions.fall)
        (if levels s.level_pin then s.actions.high else s.actions.low)
    else pos 0

abbrev pub unit_counts : {H : Type 0} → ℕ → Bool → (ℕ → Bool) → List (H × Setup) → ℤ
unit_counts pin rising levels [] = pos 0
unit_counts pin rising levels ((c, s) ∷ cs) =
    channel_counts pin rising levels s +ℤ unit_counts pin rising levels cs

-- A unit is made with its limits, idle and with no channels; a channel is made with its pins and with some
-- actions, and set to others. A running unit adds what its channels count of an edge, as long as the
-- total stays strictly between its limits.
pub record Counts (d : Driver) : Type 0 where
  pub state : d.UnitHandle → d.Hw → UnitState d
  -- An edge of a pin, to its new level, with the levels of all pins after it.
  pub edge : ℕ → Bool → (ℕ → Bool) → d.Hw → d.Hw
  pub made :
      (hi lo : ℤ) (acc : Bool) (u : d.UnitHandle) (w : d.Hw)
      → (d.new_unit hi lo acc w).0 ≡ some u
      → state u (d.new_unit hi lo acc w).1 ≡ record {
        high = hi;
        low = lo;
        enabled = false;
        running = false;
        total = pos 0;
        channels = [];
      }
  pub channel_made :
      (u : d.UnitHandle) (e l : ℕ) (c : d.Channel) (w : d.Hw)
      → (d.new_channel u e l w).0 ≡ some c
      → (a : Actions) × (state u (d.new_channel u e l w).1 ≡ record (state u w) {
        channels = (c, record { edge_pin = e; level_pin = l; actions = a }) ∷ (state u w).channels;
      })
  pub channel_fresh :
      (u : d.UnitHandle) (e l : ℕ) (c a : d.Channel) (s : Setup) (cs : List (d.Channel × Setup))
      (w : d.Hw)
      → (d.new_channel u e l w).0 ≡ some c
      → (state u w).channels ≡ (a, s) ∷ cs
      → a ≢ c
  pub edge_set :
      (u : d.UnitHandle) (x : UnitState d) (c : d.Channel) (s : Setup)
      (cs : List (d.Channel × Setup)) (r f : EdgeAction) (w : d.Hw)
      → state u w ≡ record x { channels = (c, s) ∷ cs }
      → state u (d.set_edge_action c r f w) ≡ record x { channels = (c, set_edge r f s) ∷ cs }
  pub edge_set_behind :
      (u : d.UnitHandle) (x : UnitState d) (b c : d.Channel) (t s : Setup)
      (cs : List (d.Channel × Setup)) (r f : EdgeAction) (w : d.Hw)
      → c ≢ b
      → state u w ≡ record x { channels = (b, t) ∷ (c, s) ∷ cs }
      → state u (d.set_edge_action c r f w)
        ≡ record x { channels = (b, t) ∷ (c, set_edge r f s) ∷ cs }
  pub level_set :
      (u : d.UnitHandle) (x : UnitState d) (c : d.Channel) (s : Setup)
      (cs : List (d.Channel × Setup)) (h l : LevelAction) (w : d.Hw)
      → state u w ≡ record x { channels = (c, s) ∷ cs }
      → state u (d.set_level_action c h l w) ≡ record x { channels = (c, set_level h l s) ∷ cs }
  pub level_set_behind :
      (u : d.UnitHandle) (x : UnitState d) (b c : d.Channel) (t s : Setup)
      (cs : List (d.Channel × Setup)) (h l : LevelAction) (w : d.Hw)
      → c ≢ b
      → state u w ≡ record x { channels = (b, t) ∷ (c, s) ∷ cs }
      → state u (d.set_level_action c h l w)
        ≡ record x { channels = (b, t) ∷ (c, set_level h l s) ∷ cs }
  pub enabled :
      (u : d.UnitHandle) (w : d.Hw)
      → (state u w).enabled ≡ false
      → state u (d.enable u w) ≡ record (state u w) { enabled = true }
  pub cleared :
      (u : d.UnitHandle) (w : d.Hw)
      → state u (d.clear_count u w) ≡ record (state u w) { total = pos 0 }
  pub started :
      (u : d.UnitHandle) (w : d.Hw)
      → (state u w).enabled ≡ true
      → state u (d.start u w) ≡ record (state u w) { running = true }
  pub read : (u : d.UnitHandle) (w : d.Hw) → d.get_count u w ≡ (state u w).total
  pub counts_edge :
      (u : d.UnitHandle) (pin : ℕ) (rising : Bool) (levels : ℕ → Bool) (w : d.Hw)
      → (state u w).running ≡ true
      → let total = (state u w).total +ℤ unit_counts pin rising levels (state u w).channels in
        pos_part total < pos_part (state u w).high
        → neg_part total < neg_part (state u w).low
        → state u (edge pin rising levels w) ≡ record (state u w) { total = total }
