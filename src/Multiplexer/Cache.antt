-- ===== src/Multiplexer/Cache.antt =====
-- The channel cache of src/ungula/hal/multiplexer/i_multiplexer.cpp against the control registers of the chips
-- on the bus, which hear what `I2cMaster::write` of src/ungula/hal/i2c/platforms/i2c_master_esp32.cpp says there.
use ungula_hal.Base.{
  ℕ, zero, suc, ◌^◌, ◌<◌, ◌≡◌, ◌≢◌, ◌∙◌, ap, sym, refl, Bool, true, false, Option, none, some, List,
  [], ◌∷◌, ◌&&◌, leb, ◌==◌, Bool-cases, inl, inr, arith,
}
use ungula_hal.I2c
use ungula_hal.I2c.{I2cMaster}
use ungula_hal.I2c.Link.{Driver, Command}
use ungula_hal.I2c.Protocol.{sends, hear, idle}
use ungula_hal.I2c.Wire.{HasBits, given, write_lem, write-off}
use ungula_hal.Multiplexer.{
  Mux, select_on_chip, select, attempts, select_channel, select_retry_count,
}

-- What the code relies on of the bus of a port and the chips on it, each a TCA9548 with a control register
-- at its address: a transaction that sends one byte to a chip and is acknowledged leaves the byte in its
-- register, and no transaction that sends to an address changes the register of another. Nothing is said of
-- the register that a failed write was for.
pub record HasChips (d : Driver) (port : ℕ) : Type 0 where
  pub bits : HasBits d
  pub register : ℕ → d.Hw → ℕ
  pub taken :
      (a x : ℕ) (cs : List Command) (ticks : ℕ) (w : d.Hw)
      → hear cs idle ≡ some (sends a (x ∷ []) ∷ [])
      → (d.cmd_begin port cs ticks none w).0 ≡ true
      → register a (d.cmd_begin port cs ticks none w).2 ≡ x
  pub elsewhere :
      (a c : ℕ) (bytes : List ℕ) (cs : List Command) (ticks : ℕ) (w : d.Hw)
      → hear cs idle ≡ some (sends a bytes ∷ [])
      → c ≢ a
      → register c (d.cmd_begin port cs ticks none w).2 ≡ register c w

-- What one attempt of a hook brings about, the loop brings about.
module _ {W : Type 0} (hook : ℕ → W → Bool × W) (channel : ℕ) where
  attempts-fails :
      (n : ℕ) (w : W)
      → (hook channel w).0 ≡ false
      → attempts hook (suc n) channel w ≡ attempts hook n channel (hook channel w).1
  unfolding attempts
  attempts-fails n w h = rw h refl

  attempts-done :
      (n : ℕ) (w : W)
      → (hook channel w).0 ≡ true
      → attempts hook (suc n) channel w ≡ (true, (hook channel w).1)
  unfolding attempts
  attempts-done n w h = rw h refl

  attempts-none : (w : W) → attempts hook zero channel w ≡ (false, w)
  unfolding attempts
  attempts-none w = refl

  attempts-brings :
      (Good : W → Type 0)
      → ((w : W) → (hook channel w).0 ≡ true → Good (hook channel w).1)
      → (n : ℕ) (w : W) → (attempts hook n channel w).0 ≡ true
      → Good (attempts hook n channel w).1
  attempts-brings Good g zero w h =
      let never : false ≡ true = ap (λ r. r.0) (sym (attempts-none w)) ∙ h in
      absurd (ground (arith, never))
  attempts-brings Good g (suc n) w h = elim (Bool-cases (hook channel w).0) [
    | inl e ↦ rw (attempts-done n w e) (g w e)
    | inr e ↦
        let again = attempts-fails n w e in
        rw again (attempts-brings Good g n (hook channel w).1 (ap (λ r. r.0) (sym again) ∙ h))
  ]

  attempts-keeps :
      (f : W → ℕ)
      → ((w : W) → f (hook channel w).1 ≡ f w)
      → (n : ℕ) (w : W) → f (attempts hook n channel w).1 ≡ f w
  attempts-keeps f k zero w = rw (attempts-none w) refl
  attempts-keeps f k (suc n) w = elim (Bool-cases (hook channel w).0) [
    | inl e ↦ rw (attempts-done n w e) (k w)
    | inr e ↦ rw (attempts-fails n w e) (attempts-keeps f k n (hook channel w).1 ∙ k w)
  ]

module _ {d : Driver} (bus : I2cMaster) (t : HasChips d bus.port) where
  -- A cache that is trusted names the channel that its chip has selected.
  pub record IsInSync (m : Mux) (w : d.Hw) : Type 0 where
    pub trusted :
        m.is_functional ≡ true
        → m.current_channel < 8
        → t.register m.i2c_address w ≡ 2 ^ m.current_channel

  write-takes :
      (a x : ℕ) (w : d.Hw)
      → a < 128
      → (I2c.write d a (some (x ∷ [])) 1 50 bus w).ok ≡ true
      → t.register a (I2c.write d a (some (x ∷ [])) 1 50 bus w).hw ≡ x
  write-takes a x w h k = elim (Bool-cases bus.installed) [
    | inl e ↦
        let (cs, heard, same) = write_lem t.bits a 1 (some (x ∷ [])) 50 bus w h e in
        rw same (t.taken a x cs (d.ms_to_ticks 50) w heard (ap (λ o. o.ok) (sym same) ∙ k))
    | inr e ↦
        let off = write-off a 1 (some (x ∷ [])) 50 bus w e in
        let never : false ≡ true = ap (λ o. o.ok) (sym off) ∙ k in absurd (ground (arith, never))
  ]

  write-elsewhere :
      (a c len : ℕ) (bytes : Option (List ℕ)) (w : d.Hw)
      → a < 128
      → c ≢ a
      → t.register c (I2c.write d a bytes len 50 bus w).hw ≡ t.register c w
  write-elsewhere a c len bytes w h k = elim (Bool-cases bus.installed) [
    | inl e ↦
        let (cs, heard, same) = write_lem t.bits a len bytes 50 bus w h e in
        rw same (t.elsewhere a c (given len bytes) cs (d.ms_to_ticks 50) w heard k)
    | inr e ↦ rw (write-off {d = d} a len bytes 50 bus w e) refl
  ]

  select_on_chip-takes :
      (a channel : ℕ) (w : d.Hw)
      → a < 128
      → (select_on_chip d bus a channel w).0 ≡ true
      → (channel < 8) × (t.register a (select_on_chip d bus a channel w).1 ≡ 2 ^ channel)
  unfolding select_on_chip
  select_on_chip-takes a channel w b h = elim (Bool-cases (leb 8 channel)) [
    | inl e ↦ absurd (ground (arith, e, h))
    | inr e ↦ (ground (arith, e), rw e (write-takes a (2 ^ channel) w b (ground (arith, e, h))))
  ]

  select_on_chip-elsewhere :
      (a c channel : ℕ) (w : d.Hw)
      → a < 128
      → c ≢ a
      → t.register c (select_on_chip d bus a channel w).1 ≡ t.register c w
  unfolding select_on_chip
  select_on_chip-elsewhere a c channel w h k = elim (Bool-cases (leb 8 channel)) [
    | inl e ↦ rw e refl
    | inr e ↦ rw e (write-elsewhere a c 1 (some (2 ^ channel ∷ [])) w h k)
  ]

  -- A whole `selectChannel`, of any cache, seen from another address.
  pub select_channel-elsewhere :
      (c channel : ℕ) (m : Mux) (w : d.Hw)
      → m.i2c_address < 128
      → c ≢ m.i2c_address
      → t.register c (select d bus channel m w).2 ≡ t.register c w
  unfolding select select_channel
  select_channel-elsewhere c channel m w h k =
      let kept =
        attempts-keeps (select_on_chip d bus m.i2c_address) channel (t.register c)
          (λ v. select_on_chip-elsewhere m.i2c_address c channel v h k) select_retry_count w in
      elim (Bool-cases (m.initiated && m.is_functional && m.current_channel == channel)) [
        | inl e ↦ rw e refl
        | inr e ↦ elim (Bool-cases m.initiated) [
          | inl i ↦
              elim (Bool-cases (attempts (select_on_chip d bus m.i2c_address) 3 channel w).0) [
                | inl o ↦ rw (e, i, o) kept
                | inr o ↦ rw (e, i, o) kept
              ]
          | inr i ↦ rw (e, i) refl
        ]
      ]

  -- A whole `selectChannel`, seen from its own chip.
  pub select_channel-own :
      (channel : ℕ) (m : Mux) (w : d.Hw)
      → m.i2c_address < 128
      → IsInSync m w
      → let (done, m', w') = select d bus channel m w in
        IsInSync m' w'
        × (done ≡ true → channel < 8 → t.register m.i2c_address w' ≡ 2 ^ channel)
        × (done ≡ false → m.initiated ≡ true → m'.is_functional ≡ false)
  unfolding select select_channel
  select_channel-own channel m w b v =
      let hook = select_on_chip d bus m.i2c_address in
      let r = attempts hook select_retry_count channel w in
      elim (Bool-cases (m.initiated && m.is_functional && m.current_channel == channel)) [
        | inl e ↦
            let same : m.current_channel ≡ channel = ground (arith, e) in
            rw e (
              v,
              λ h k. rw⁻¹ same (v.trusted (ground (arith, e)) (omega (arith, k, same))),
              λ h. absurd (ground (arith, h)),
            )
        | inr e ↦ elim (Bool-cases m.initiated) [
          | inl i ↦ elim (Bool-cases r.0) [
            | inl o ↦
                let reg =
                  attempts-brings hook channel (λ w'. t.register m.i2c_address w' ≡ 2 ^ channel)
                    (λ w' h. (select_on_chip-takes m.i2c_address channel w' b h).1)
                    select_retry_count w o in
                rw (e, i, o)
                  (record { trusted = λ h k. reg }, λ h k. reg, λ h. absurd (ground (arith, h)))
            | inr o ↦
                rw (e, i, o)
                  (
                    record { trusted = λ h. absurd (ground (arith, h)) },
                    λ h. absurd (ground (arith, h)),
                    λ h k. refl,
                  )
          ]
          | inr i ↦
              rw (e, i)
                (
                  record { trusted = v.trusted },
                  λ h. absurd (ground (arith, h)),
                  λ h k. absurd (ground (arith, i, k)),
                )
        ]
      ]

  -- Two multiplexers with different 7-bit addresses share a bus, both with caches in step with their chips.
  -- A `selectChannel` of the first that returns true for a channel of the chip leaves its chip on that
  -- channel, whether it wrote or trusted the cache; every call leaves both caches in step. When it fails
  -- after `begin`, the cache is no longer trusted, so the next call writes.
  pub select_channel-selects :
      (channel : ℕ) (m other : Mux) (w : d.Hw)
      → m.i2c_address < 128
      → other.i2c_address ≢ m.i2c_address
      → IsInSync m w
      → IsInSync other w
      → let (done, m', w') = select d bus channel m w in
        IsInSync m' w'
        × IsInSync other w'
        × (done ≡ true → channel < 8 → t.register m.i2c_address w' ≡ 2 ^ channel)
        × (done ≡ false → m.initiated ≡ true → m'.is_functional ≡ false)
  select_channel-selects channel m other w h k v u =
      let (synced, selected, failed) = select_channel-own channel m w h v in
      let kept = select_channel-elsewhere other.i2c_address channel m w h k in
      (synced, record { trusted = λ f b. kept ∙ u.trusted f b }, selected, failed)
