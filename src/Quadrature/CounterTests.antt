-- ===== src/Quadrature/CounterTests.antt =====
-- A pulse counter that counts as documented, and the count of a decoder on it.
use ungula_hal.Base.{
  ℕ, ◌+◌, ◌≡◌, ◌≢◌, ◌∙◌, ap, refl, Bool, true, false, none, some, List, [], ◌∷◌, arith, ◌==◌,
  if◌then◌else◌,
}
use ungula_hal.Base.Int.{ℤ, pos, ◌+ℤ◌}
use ungula_hal.Quadrature.Pcnt.{Driver, Actions, increase, keep}
use ungula_hal.Quadrature.Fake
use ungula_hal.Quadrature.Counter.{Setup, UnitState, set_edge, set_level, unit_counts, Counts}
use ungula_hal.Quadrature.Turns.{Event, moved, reset_to, forward, back, low_low}
use ungula_hal.Quadrature.Shaft.{follow, follow_fake, count-follows}
use ungula_hal.Quadrature.{Decoder, begin, count}

-- One unit, which every handle stands for.
record Chip : Type 0 where
  pub high : ℤ
  pub low : ℤ
  pub enabled : Bool
  pub running : Bool
  pub total : ℤ
  pub channels : List (ℕ × Setup)

abbrev off : Chip
off = record {
  high = pos 0;
  low = pos 0;
  enabled = false;
  running = false;
  total = pos 0;
  channels = [];
}

abbrev next : List (ℕ × Setup) → ℕ
next [] = 0
next ((c, s) ∷ cs) = c + 1

abbrev update : ℕ → (Setup → Setup) → List (ℕ × Setup) → List (ℕ × Setup)
update c f [] = []
update c f ((b, s) ∷ cs) =
    let rest = update c f cs in if b == c then (b, f s) ∷ cs else (b, s) ∷ rest

abbrev held : Actions
held = record { rise = increase; fall = increase; high = keep; low = keep }

abbrev model : Driver
model = record {
  Hw = Chip;
  UnitHandle = ℕ;
  Channel = ℕ;
  new_unit = λ hi lo acc w. (some 0, record off { high = hi; low = lo });
  new_channel = λ u e l w. (
    some (next w.channels),
    record w {
      channels =
          (next w.channels, record { edge_pin = e; level_pin = l; actions = held }) ∷ w.channels;
    },
  );
  set_edge_action = λ c r f w. record w { channels = update c (set_edge r f) w.channels };
  set_level_action = λ c h l w. record w { channels = update c (set_level h l) w.channels };
  enable = λ u w. record w { enabled = true };
  disable = λ u w. record w { enabled = false };
  clear_count = λ u w. record w { total = pos 0 };
  start = λ u w. record w { running = true };
  stop = λ u w. record w { running = false };
  get_count = λ u w. w.total;
  del_channel = λ c w. w;
  del_unit = λ u w. w;
}

abbrev state : Chip → UnitState model
state w = record {
  high = w.high;
  low = w.low;
  enabled = w.enabled;
  running = w.running;
  total = w.total;
  channels = w.channels;
}

update-head :
    (c : ℕ) (f : Setup → Setup) (s : Setup) (cs : List (ℕ × Setup))
    → update c f ((c, s) ∷ cs) ≡ (c, f s) ∷ cs
update-head c f s cs = ground arith

update_behind :
    (b c : ℕ) (f : Setup → Setup) (t s : Setup) (cs : List (ℕ × Setup))
    → c ≢ b
    → update c f ((b, t) ∷ (c, s) ∷ cs) ≡ (b, t) ∷ (c, f s) ∷ cs
update_behind b c f t s cs ne = ground (arith, ne, update-head c f s cs)

updated :
    (w : Chip) (x : UnitState model) (c : ℕ) (f : Setup → Setup) (cs ds : List (ℕ × Setup))
    → state w ≡ record x { channels = cs }
    → update c f cs ≡ ds
    → state (record w { channels = update c f w.channels }) ≡ record x { channels = ds }
updated w x c f cs ds h e =
    ap (λ (k : UnitState model). record k { channels = update c f k.channels }) h
    ∙ ap (λ r. record x { channels = r }) e

next_fresh :
    (cs : List (ℕ × Setup)) (c a : ℕ) (s : Setup) (ds : List (ℕ × Setup))
    → next cs ≡ c
    → cs ≡ (a, s) ∷ ds
    → a ≢ c
next_fresh cs c a s ds h e q = let k = ap next e in absurd (ground (arith, h, k, q))

some_eq : {x y : ℕ} → some x ≡ some y → x ≡ y
some_eq h = cc

abbrev counts : Counts model
counts = record {
  state = λ u w. state w;
  edge = λ pin rising levels w. record w {
    total = w.total +ℤ unit_counts pin rising levels w.channels;
  };
  made = λ hi lo acc u w h. refl;
  channel_made = λ u e l c w h. (
    held,
    ap
        (λ x. record (state w) {
          channels = (x, record { edge_pin = e; level_pin = l; actions = held }) ∷ w.channels;
        })
        (some_eq h),
  );
  channel_fresh = λ u e l c a s cs w h q. next_fresh w.channels c a s cs (some_eq h) q;
  edge_set =
      λ u x c s cs r f w h. updated w x c (set_edge r f) _ _ h (update-head c (set_edge r f) s cs);
  edge_set_behind = λ u x b c t s cs r f w ne h.
      updated w x c (set_edge r f) _ _ h (update_behind b c (set_edge r f) t s cs ne);
  level_set = λ u x c s cs h l w e.
      updated w x c (set_level h l) _ _ e (update-head c (set_level h l) s cs);
  level_set_behind = λ u x b c t s cs h l w ne e.
      updated w x c (set_level h l) _ _ e (update_behind b c (set_level h l) t s cs ne);
  enabled = λ u w h. refl;
  cleared = λ u w. refl;
  started = λ u w h. refl;
  read = λ u w. refl;
  counts_edge = λ u pin rising levels w h hi lo. refl;
}

abbrev decoder : Decoder model
decoder = record { installed = false; pin_a = 255; pin_b = 255; seed = pos 0; unit = none }

begin_result : (begin model 4 5 (pos 7) decoder off).0 ≡ true
unfolding begin
begin_result = refl

-- Two moves forward, a reset to 10, and then three forward and one back, the last first.
abbrev events : List Event
events =
    moved back
    ∷ moved forward
    ∷ moved forward
    ∷ moved forward
    ∷ reset_to (pos 10)
    ∷ moved forward
    ∷ moved forward
    ∷ []

count-follows_example :
    let (done, s', w') = begin model 4 5 (pos 7) decoder off in
    let (s2, w2, q2) = follow counts 4 5 events s' w' low_low in
    (count model s2 w2 ≡ pos 12)
    × ((follow_fake events (record Fake.fresh { count = pos 7 })).count ≡ pos 12)
unfolding ◌+ℤ◌
count-follows_example =
    count-follows model counts 4 5 (pos 7) decoder off low_low events
      (record Fake.fresh { count = pos 7 }) begin_result (omega arith) (ground arith) refl
