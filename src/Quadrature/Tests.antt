-- ===== src/Quadrature/Tests.antt =====
-- The theorems on src/ungula/hal/quadrature at concrete inputs.
use ungula_hal.Base.{
  ℕ, ◌+◌, ◌≡◌, ◌≢◌, ◌∙◌, ap, refl, Bool, true, false, not, ◌&&◌, Bool-cases, inl, inr, none, some,
  List, [], ◌∷◌, arith, ◌==◌, if◌then◌else◌,
}
use ungula_hal.Base.Int.{ℤ, pos}
use ungula_hal.Quadrature.Pcnt.{Driver}
use ungula_hal.Quadrature.{Decoder, begin, stop}
use ungula_hal.Quadrature.Handles.{reset_all, begin-stop}
use ungula_hal.Quadrature.Ledger.{Ledger, IsFree, Laws}

-- A driver with two units; a handle is one more than the newest, the counter stands at `total`, and a unit
-- is deleted only once it is disabled and has no channels.
record Model : Type 0 where
  pub units : List ℕ
  pub channels : List (ℕ × ℕ)
  pub on : ℕ → Bool
  pub total : ℤ

unfoldable is_free : ℕ → List (ℕ × ℕ) → Bool
is_free u [] = true
is_free u ((v, c) ∷ cs) = let rest = is_free u cs in if v == u then false else rest

is_free-IsFree : (u : ℕ) (cs : List (ℕ × ℕ)) → is_free u cs ≡ true → IsFree u cs
unfolding is_free
is_free-IsFree u [] h = tt
is_free-IsFree u ((v, c) ∷ cs) h = (ground (arith, h), is_free-IsFree u cs (ground (arith, h)))

IsFree-is_free : (u : ℕ) (cs : List (ℕ × ℕ)) → IsFree u cs → is_free u cs ≡ true
unfolding is_free
IsFree-is_free u [] h = refl
IsFree-is_free u ((v, c) ∷ cs) h = ground (arith, h.0, IsFree-is_free u cs h.1)

abbrev next_unit : List ℕ → ℕ
next_unit [] = 0
next_unit (u ∷ us) = u + 1

abbrev next_channel : List (ℕ × ℕ) → ℕ
next_channel [] = 0
next_channel ((v, c) ∷ cs) = c + 1

abbrev has_room : List ℕ → Bool
has_room [] = true
has_room (u ∷ []) = true
has_room (u ∷ v ∷ us) = false

abbrev can_make : Model → Bool
can_make w = has_room w.units && is_free (next_unit w.units) w.channels

abbrev switched : ℕ → Bool → (ℕ → Bool) → ℕ → Bool
switched u b on v = if v == u then b else on v

abbrev remove_unit : ℕ → List ℕ → List ℕ
remove_unit x [] = []
remove_unit x (y ∷ ys) = if y == x then ys else y ∷ remove_unit x ys

abbrev remove_channel : ℕ → List (ℕ × ℕ) → List (ℕ × ℕ)
remove_channel x [] = []
remove_channel x ((v, c) ∷ cs) =
    let rest = remove_channel x cs in if c == x then cs else (v, c) ∷ rest

abbrev model : Driver
model = record {
  Hw = Model;
  UnitHandle = ℕ;
  Channel = ℕ;
  new_unit = λ hi lo acc w.
      let u = next_unit w.units in
      if can_make w
      then (some u, record w { units = u ∷ w.units; on = switched u false w.on })
      else (none, w);
  new_channel = λ u e l w.
      let c = next_channel w.channels in (some c, record w { channels = (u, c) ∷ w.channels });
  set_edge_action = λ c r f w. w;
  set_level_action = λ c h l w. w;
  enable = λ u w. record w { on = switched u true w.on };
  disable = λ u w. record w { on = switched u false w.on };
  clear_count = λ u w. record w { total = pos 0 };
  start = λ u w. w;
  stop = λ u w. w;
  get_count = λ u w. w.total;
  del_channel = λ c w. record w { channels = remove_channel c w.channels };
  del_unit = λ u w.
      if not (w.on u) && is_free u w.channels
      then record w { units = remove_unit u w.units }
      else w;
}

abbrev ledger : Model → Ledger model
ledger w = record { units = w.units; channels = w.channels }

remove_unit-head : (x : ℕ) (xs : List ℕ) → remove_unit x (x ∷ xs) ≡ xs
remove_unit-head x xs = ground arith

remove_channel-head : (v x : ℕ) (xs : List (ℕ × ℕ)) → remove_channel x ((v, x) ∷ xs) ≡ xs
remove_channel-head v x xs = ground arith

remove_channel_behind :
    (v y x : ℕ) (xs : List (ℕ × ℕ)) → x ≢ y → remove_channel x ((v, y) ∷ (v, x) ∷ xs) ≡ (v, y) ∷ xs
remove_channel_behind v y x xs ne = ground (arith, ne, remove_channel-head v x xs)

unit_made_lem :
    (u : ℕ) (w : Model)
    → (model.new_unit (pos 0) (pos 0) true w).0 ≡ some u
    → (ledger (model.new_unit (pos 0) (pos 0) true w).1
        ≡ record { units = u ∷ w.units; channels = w.channels })
      × IsFree u w.channels
      × ((model.new_unit (pos 0) (pos 0) true w).1.on u ≡ false)
unit_made_lem u w h = elim (Bool-cases (can_make w)) [
  | inl e ↦
      let same : next_unit w.units ≡ u = ground (arith, e, h) in
      (
        ground (arith, e, h),
        is_free-IsFree u w.channels (ground (arith, e, same)),
        ground (arith, e, h),
      )
  | inr e ↦ absurd (ground (arith, e, h))
]

unit_refused_lem :
    (w : Model)
    → (model.new_unit (pos 0) (pos 0) true w).0 ≡ none
    → ledger (model.new_unit (pos 0) (pos 0) true w).1 ≡ ledger w
unit_refused_lem w h = ground (arith, h)

channel_fresh_lem :
    (cs : List (ℕ × ℕ)) (c v a : ℕ) (r : List (ℕ × ℕ))
    → next_channel cs ≡ c
    → cs ≡ (v, a) ∷ r
    → a ≢ c
channel_fresh_lem cs c v a r h e =
    let k : next_channel cs ≡ a + 1 = ap next_channel e in λ q. absurd (omega (arith, h, k, q))

channels_removed :
    (w : Model) (k : Ledger model)
    → ledger w ≡ k
    → (x : ℕ)
    → ledger (model.del_channel x w)
      ≡ record { units = k.units; channels = remove_channel x k.channels }
channels_removed w k e x =
    ap (λ (k : Ledger model). record { units = k.units; channels = remove_channel x k.channels }) e

unit_removed :
    (w : Model) (u : ℕ) (us : List ℕ) (cs : List (ℕ × ℕ))
    → ledger w ≡ record { units = u ∷ us; channels = cs }
    → w.on u ≡ false
    → IsFree u cs
    → ledger (model.del_unit u w) ≡ record { units = us; channels = cs }
unit_removed w u us cs e off free =
    let same : w.channels ≡ cs = ap (λ (k : Ledger model). k.channels) e in
    let b : is_free u w.channels ≡ true = ap (is_free u) same ∙ IsFree-is_free u cs free in
    rw (off, b)
      (ap (λ (k : Ledger model). record { units = remove_unit u k.units; channels = k.channels }) e
        ∙ ap (λ r. record { units = r; channels = cs }) (remove_unit-head u us))

some_eq : {x y : ℕ} → some x ≡ some y → x ≡ y
some_eq h = cc

switched_self : (u : ℕ) (b : Bool) (on : ℕ → Bool) → switched u b on u ≡ b
switched_self u b on = ground arith

abbrev laws : Laws model
laws = record {
  ledger = ledger;
  enabled = λ u w. w.on u;
  unit_made = λ hi lo acc u w h. (unit_made_lem u w h).0;
  unit_fresh = λ hi lo acc u w h. (unit_made_lem u w h).1;
  unit_idle = λ hi lo acc u w h. (unit_made_lem u w h).2;
  unit_refused = λ hi lo acc w h. unit_refused_lem w h;
  channel_made = λ u e l c w h.
      ap (λ x. record { units = w.units; channels = (u, x) ∷ w.channels }) (some_eq h);
  channel_fresh = λ u v e l c a cs w h q. channel_fresh_lem w.channels c v a cs (some_eq h) q;
  channel_refused = λ u e l w h. absurd (ground (arith, h));
  channel_deleted = λ v c us cs w e.
      channels_removed w _ e c
      ∙ ap (λ r. record { units = us; channels = r }) (remove_channel-head v c cs);
  channel_deleted_behind = λ v b c us cs w ne e.
      channels_removed w _ e c
      ∙ ap (λ r. record { units = us; channels = r }) (remove_channel_behind v b c cs ne);
  unit_deleted = λ u us cs w e off free. unit_removed w u us cs e off free;
  new_channel_enabled = λ v u e l w. refl;
  del_channel_enabled = λ v c w. refl;
  disabled = λ u w. switched_self u false w.on;
  edge_keeps = λ c r f w. refl;
  level_keeps = λ c h l w. refl;
  enable_keeps = λ u w. refl;
  disable_keeps = λ u w. refl;
  clear_keeps = λ u w. refl;
  start_keeps = λ u w. refl;
  stop_keeps = λ u w. refl;
}

abbrev decoder : Decoder model
decoder = record { installed = false; pin_a = 255; pin_b = 255; seed = pos 0; unit = none }

abbrev idle : Model
idle = record { units = []; channels = []; on = λ u. false; total = pos 0 }

begin_result : (begin model 4 5 (pos 0) decoder idle).0 ≡ true
unfolding begin is_free
begin_result = refl

begin_holds : (begin model 4 5 (pos 0) decoder idle).2.channels ≡ (0, 1) ∷ (0, 0) ∷ []
unfolding begin is_free
begin_holds = refl

begin-stop_example :
    let (done, s', w') = begin model 4 5 (pos 0) decoder idle in
    (done ≡ false → (s' ≡ decoder) × (ledger w' ≡ ledger idle))
    × (done ≡ true
        → (vs : List ℤ)
        → let (s2, w2) = reset_all laws vs s' w' in ledger (stop model s2 w2).2 ≡ ledger idle)
begin-stop_example = begin-stop laws 4 5 (pos 0) decoder idle
