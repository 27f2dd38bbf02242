-- ===== src/Can/Filter.antt =====
-- The acceptance filter of src/ungula/hal/can/platforms/can_esp32_twai.cpp: masks of low bits are
-- remainders, shifts are products, and `~x` on 32 bits is `2 ^ 32 - 1 - x`.
use native.Mathlib.Nat.{suc-add}
use ungula_hal.Base.{
  ℕ, zero, suc, ◌+◌, ◌-◌, ◌*◌, ◌/◌, ◌%◌, ◌^◌, ◌<◌, ◌≡◌, refl, ◌∙◌, Bool, true, false, ◌&&◌, ◌||◌,
  arith, pow2_suc, pow2_pos, ◌==◌, if◌then◌else◌,
}

-- `twai_filter_config_t`.
pub record FilterConfig : Type 0 where
  pub acceptance_code : ℕ
  pub acceptance_mask : ℕ
  pub single_filter : Bool

abbrev pub not32 : ℕ → ℕ
not32 x = 2 ^ 32 - 1 - x

unfoldable pub make_filter : ℕ → ℕ → Bool → FilterConfig
make_filter id mask extended_id =
    if extended_id
    then record {
      acceptance_code = id % 2 ^ 29 * 2 ^ 3;
      acceptance_mask = not32 (mask % 2 ^ 29 * 2 ^ 3);
      single_filter = true;
    }
    else record {
      acceptance_code = id % 2 ^ 11 * 2 ^ 21;
      acceptance_mask = not32 (mask % 2 ^ 11 * 2 ^ 21);
      single_filter = true;
    }

-- The test that the controller makes in single-filter mode on the lowest `n` bits of its register:
-- each bit agrees with the code, or the mask marks it as not cared for.
abbrev pub bit : ℕ → ℕ
bit x = x % 2

pub passes : ℕ → ℕ → ℕ → ℕ → Bool
passes zero code mask reg = true
passes (suc n) code mask reg =
    (bit mask == 1 || bit code == bit reg) && passes n (code / 2) (mask / 2) (reg / 2)

-- `(rx & mask) == (id & mask)` on the lowest `n` bits.
pub agrees : ℕ → ℕ → ℕ → ℕ → Bool
agrees zero id mask rx = true
agrees (suc n) id mask rx =
    (bit mask == 0 || bit id == bit rx) && agrees n (id / 2) (mask / 2) (rx / 2)

halves :
    (c m r low p : ℕ)
    → 0 < p
    → low < 2 * p
    → (c * (2 * p) / 2 ≡ c * p)
      × ((m * (2 * p) + (2 * p - 1)) / 2 ≡ m * p + (p - 1))
      × ((r * (2 * p) + low) / 2 ≡ r * p + low / 2)
      × ((m * (2 * p) + (2 * p - 1)) % 2 ≡ 1)
halves c m r low p h k = omega arith

half_mod : (x p : ℕ) → 0 < p → (x % (2 * p) / 2 ≡ x / 2 % p) × (x % (2 * p) % 2 ≡ x % 2)
half_mod x p h = grind arith

half_not :
    (x p : ℕ)
    → 0 < p
    → ((2 * p - 1 - x % (2 * p)) / 2 ≡ p - 1 - x % (2 * p) / 2)
      × ((2 * p - 1 - x % (2 * p)) % 2 ≡ 1 - x % (2 * p) % 2)
half_not x p h = omega (arith)

passes_at :
    {n a b d n' a' b' d' : ℕ}
    → n ≡ n'
    → a ≡ a'
    → b ≡ b'
    → d ≡ d'
    → passes n a b d ≡ passes n' a' b' d'
passes_at o p q s = cc

-- A bit that is not cared for decides nothing.
passes-suc :
    (n code mask reg : ℕ)
    → bit mask ≡ 1
    → passes (suc n) code mask reg ≡ passes n (code / 2) (mask / 2) (reg / 2)
unfolding passes
passes-suc n code mask reg h = rw h refl

-- Nor do all those below the identifier.
passes_shift :
    (k n c m r low : ℕ)
    → low < 2 ^ k
    → passes (k + n) (c * 2 ^ k) (m * 2 ^ k + (2 ^ k - 1)) (r * 2 ^ k + low) ≡ passes n c m r
passes_shift zero n c m r low h = passes_at (omega arith) (omega arith) (omega arith) (omega arith)
passes_shift (suc k) n c m r low h =
    let x = halves c m r low (2 ^ k) (pow2_pos k) (omega (arith, pow2_suc k)) in
    rw (pow2_suc k, suc-add)
      (passes-suc (k + n) _ _ _ x.3
        ∙ passes_at refl x.0 x.1 x.2
        ∙ passes_shift k n c m r (low / 2) (omega (arith, pow2_suc k)))

passes-agrees :
    (n id mask rx : ℕ)
    → passes n (id % 2 ^ n) (2 ^ n - 1 - mask % 2 ^ n) (rx % 2 ^ n) ≡ agrees n id mask rx
unfolding passes agrees
passes-agrees zero id mask rx = refl
passes-agrees (suc n) id mask rx =
    let p = pow2_pos n in
    let a = half_mod id (2 ^ n) p in
    let b = half_mod rx (2 ^ n) p in
    let c = half_mod mask (2 ^ n) p in
    let d = half_not mask (2 ^ n) p in
    rw (pow2_suc n, a.0, a.1, b.0, b.1, d.0, d.1, c.0, c.1)
      (ground (arith, passes-agrees n (id / 2) (mask / 2) (rx / 2)))

-- The register of a received frame: the identifier left-justified, above bits that follow it.
abbrev pub id_register : Bool → ℕ → ℕ → ℕ
id_register extended_id rx low =
    if extended_id then rx % 2 ^ 29 * 2 ^ 3 + low else rx % 2 ^ 11 * 2 ^ 21 + low

abbrev pub low_bits : Bool → ℕ
low_bits extended_id = if extended_id then 2 ^ 3 else 2 ^ 21

abbrev pub id_bits : Bool → ℕ
id_bits extended_id = if extended_id then 29 else 11

-- The filter that `setAcceptanceFilter` installs passes exactly the frames with
-- `(rxId & mask) == (id & mask)` on the identifier's bits, 11 or 29, whatever follows the identifier
-- in the controller's register.
pub make_filter-passes :
    (id mask rx low : ℕ) (extended_id : Bool)
    → low < low_bits extended_id
    → passes 32
        (make_filter id mask extended_id).acceptance_code
        (make_filter id mask extended_id).acceptance_mask
        (id_register extended_id rx low)
      ≡ agrees (id_bits extended_id) id mask rx
unfolding make_filter
make_filter-passes id mask rx low true h =
    passes_at refl refl (omega arith) refl
    ∙ passes_shift 3 29 (id % 2 ^ 29) (2 ^ 29 - 1 - mask % 2 ^ 29) (rx % 2 ^ 29) low h
    ∙ passes-agrees 29 id mask rx
make_filter-passes id mask rx low false h =
    passes_at refl refl (omega arith) refl
    ∙ passes_shift 21 11 (id % 2 ^ 11) (2 ^ 11 - 1 - mask % 2 ^ 11) (rx % 2 ^ 11) low h
    ∙ passes-agrees 11 id mask rx
