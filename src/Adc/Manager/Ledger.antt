-- ===== src/Adc/Manager/Ledger.antt =====
-- What src/ungula/hal/adc/platforms/adc_manager_esp32.cpp relies on of the handles that the drivers give out,
-- and which of them its tables hold.
use mathlib.Mathlib.Data.Multiset.Defs.{Multiset}
use mathlib.Mathlib.Data.Multiset.ZeroCons.{cons, cons-swap}
use ungula_hal.Base.{
  ℕ, zero, suc, ◌<◌, ◌≡◌, ◌∙◌, ap, sym, refl, true, Option, none, some, List, [], ◌∷◌, length,
  get_or, set, arith,
}
use ungula_hal.Adc.Oneshot.{Oneshot, AdcUnit, AdcAtten}
use ungula_hal.Adc.Manager.{
  CaliScheme, no_scheme, curve_fitting, line_fitting, CaliEntry, AdcManager, no_cali,
}

-- A handle that a driver gave out: of a unit, or of a calibration, with the scheme that made it.
pub data Resource (U C : Type 0) : Type 0 where
  unit_handle : U → Resource U C
  cali_handle : CaliScheme → C → Resource U C

module _ (d : Oneshot) where
  -- Handles in no order.
  abbrev pub Handles : Type 0
  Handles = Multiset (Resource d.UnitHandle d.Cali)

  -- The handles given out and not taken back. A call that makes a handle adds it, the
  -- deletion of the handle's own kind takes it away, and no other call opens or closes anything. Nothing is
  -- said of the deletion of a handle by a function of another kind.
  pub record Laws : Type 0 where
    pub opened : d.Hw → Handles
    pub unit_made :
        (u : AdcUnit) (h : d.UnitHandle) (w : d.Hw)
        → (d.new_unit u w).0 ≡ some h
        → opened (d.new_unit u w).1 ≡ cons (unit_handle h) (opened w)
    pub unit_refused :
        (u : AdcUnit) (w : d.Hw) → (d.new_unit u w).0 ≡ none → opened (d.new_unit u w).1 ≡ opened w
    pub unit_deleted :
        (h : d.UnitHandle) (s : Handles) (w : d.Hw)
        → opened w ≡ cons (unit_handle h) s
        → opened (d.del_unit h w) ≡ s
    pub curve_made :
        (u : AdcUnit) (a : AdcAtten) (h : d.Cali) (w : d.Hw)
        → (d.create_curve_fitting u a w).0 ≡ some h
        → opened (d.create_curve_fitting u a w).1 ≡ cons (cali_handle curve_fitting h) (opened w)
    pub curve_refused :
        (u : AdcUnit) (a : AdcAtten) (w : d.Hw)
        → (d.create_curve_fitting u a w).0 ≡ none
        → opened (d.create_curve_fitting u a w).1 ≡ opened w
    pub curve_deleted :
        (h : d.Cali) (s : Handles) (w : d.Hw)
        → opened w ≡ cons (cali_handle curve_fitting h) s
        → opened (d.delete_curve_fitting h w) ≡ s
    pub line_made :
        (u : AdcUnit) (a : AdcAtten) (h : d.Cali) (w : d.Hw)
        → (d.create_line_fitting u a w).0 ≡ some h
        → opened (d.create_line_fitting u a w).1 ≡ cons (cali_handle line_fitting h) (opened w)
    pub line_refused :
        (u : AdcUnit) (a : AdcAtten) (w : d.Hw)
        → (d.create_line_fitting u a w).0 ≡ none
        → opened (d.create_line_fitting u a w).1 ≡ opened w
    pub line_deleted :
        (h : d.Cali) (s : Handles) (w : d.Hw)
        → opened w ≡ cons (cali_handle line_fitting h) s
        → opened (d.delete_line_fitting h w) ≡ s
    pub config_keeps :
        (u : Option d.UnitHandle) (c : ℕ) (a : AdcAtten) (w : d.Hw)
        → opened (d.config_channel u c a w).1 ≡ opened w
    pub read_keeps :
        (u : Option d.UnitHandle) (c : ℕ) (w : d.Hw) → opened (d.read u c w).1 ≡ opened w

  -- The handles of the tables on top of those of others.
  abbrev pub with_unit : Option d.UnitHandle → Handles → Handles
  with_unit none s = s
  with_unit (some h) s = cons (unit_handle h) s

  abbrev pub with_cali : Option d.Cali → CaliScheme → Handles → Handles
  with_cali none k s = s
  with_cali (some h) k s = cons (cali_handle k h) s

  unfoldable pub with_units : List (Option d.UnitHandle) → Handles → Handles
  with_units [] s = s
  with_units (u ∷ us) s = with_unit u (with_units us s)

  unfoldable pub with_calis : List (CaliEntry d) → Handles → Handles
  with_calis [] s = s
  with_calis (e ∷ es) s = with_cali e.handle e.scheme (with_calis es s)

  -- An entry that holds a handle names the scheme that made it, which is one that the chip has.
  abbrev pub IsSupported : CaliScheme → Type 0
  IsSupported no_scheme = ⊥
  IsSupported curve_fitting = d.curve_fitting_supported ≡ true
  IsSupported line_fitting = d.line_fitting_supported ≡ true

  abbrev pub IsTagged : Option d.Cali → CaliScheme → Type 0
  IsTagged none k = Unit
  IsTagged (some h) k = IsSupported k

  abbrev pub AreTagged : List (CaliEntry d) → Type 0
  AreTagged [] = Unit
  AreTagged (e ∷ es) = IsTagged e.handle e.scheme × AreTagged es

  -- The drivers have given out what the tables hold and the handles `s` of others.
  pub record IsBalanced (l : Laws) (s : Handles) (m : AdcManager d) (w : d.Hw) : Type 0 where
    pub two_units : length m.units ≡ 2
    pub eight_calis : length m.cali ≡ 8
    pub tagged : AreTagged m.cali
    pub opened_here : l.opened w ≡ with_calis m.cali (with_units m.units s)

  cons-with_unit :
      (r : Resource d.UnitHandle d.Cali) (u : Option d.UnitHandle) (s : Handles)
      → cons r (with_unit u s) ≡ with_unit u (cons r s)
  cons-with_unit r none s = refl
  cons-with_unit r (some h) s = cons-swap r (unit_handle h) s

  cons-with_cali :
      (r : Resource d.UnitHandle d.Cali) (o : Option d.Cali) (k : CaliScheme) (s : Handles)
      → cons r (with_cali o k s) ≡ with_cali o k (cons r s)
  cons-with_cali r none k s = refl
  cons-with_cali r (some h) k s = cons-swap r (cali_handle k h) s

  pub cons-with_calis :
      (r : Resource d.UnitHandle d.Cali) (es : List (CaliEntry d)) (s : Handles)
      → cons r (with_calis es s) ≡ with_calis es (cons r s)
  unfolding with_calis
  cons-with_calis r [] s = refl
  cons-with_calis r (e ∷ es) s =
      cons-with_cali r e.handle e.scheme (with_calis es s)
      ∙ ap (with_cali e.handle e.scheme) (cons-with_calis r es s)

  -- A handle written into a free slot is one more that the table holds.
  pub with_units-set :
      (us : List (Option d.UnitHandle)) (i : ℕ) (h : d.UnitHandle) (s : Handles)
      → i < length us
      → get_or us i none ≡ none
      → with_units (set us i (some h)) s ≡ cons (unit_handle h) (with_units us s)
  unfolding with_units
  with_units-set [] i h s b e = absurd (omega arith)
  with_units-set (u ∷ us) zero h s b e = rw e refl
  with_units-set (u ∷ us) (suc i) h s b e =
      ap (with_unit u) (with_units-set us i h s (omega arith) e)
      ∙ sym (cons-with_unit (unit_handle h) u (with_units us s))

  pub with_calis-set :
      (es : List (CaliEntry d)) (i : ℕ) (e : CaliEntry d) (s : Handles)
      → i < length es
      → (get_or es i (no_cali d)).handle ≡ none
      → with_calis (set es i e) s ≡ with_cali e.handle e.scheme (with_calis es s)
  unfolding with_calis
  with_calis-set [] i e s b f = absurd (omega arith)
  with_calis-set (x ∷ es) zero e s b f = rw f refl
  with_calis-set (x ∷ es) (suc i) e s b f =
      ap (with_cali x.handle x.scheme) (with_calis-set es i e s (omega arith) f)
      ∙ swap e.handle e.scheme x.handle x.scheme (with_calis es s)
    where
      swap :
          (o : Option d.Cali) (k : CaliScheme) (p : Option d.Cali) (q : CaliScheme) (t : Handles)
          → with_cali p q (with_cali o k t) ≡ with_cali o k (with_cali p q t)
      swap none k p q t = refl
      swap (some h) k p q t = sym (cons-with_cali (cali_handle k h) p q t)

  pub AreTagged-set :
      (es : List (CaliEntry d)) (i : ℕ) (e : CaliEntry d)
      → AreTagged es
      → IsTagged e.handle e.scheme
      → AreTagged (set es i e)
  AreTagged-set [] i e v t = tt
  AreTagged-set (x ∷ es) zero e v t = (t, v.1)
  AreTagged-set (x ∷ es) (suc i) e v t = (v.0, AreTagged-set es i e v.1 t)
