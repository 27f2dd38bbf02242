-- ===== src/Can/Frame.antt =====
-- `CanFrame` of src/ungula/hal/can/can_frame.h, and the conversions to and from `twai_message_t` of
-- src/ungula/hal/can/platforms/can_esp32_twai.cpp. Eight data bytes are a list of length 8.
use ungula_hal.Base.{
  ℕ, zero, suc, ◌≤◌, ◌≡◌, refl, ap, Bool, List, [], ◌∷◌, arith, not, ltb, ◌==◌, if◌then◌else◌,
  length, replicate,
}

pub record CanFrame : Type 0 where
  pub id : ℕ  -- uint32_t
  pub extended_id : Bool
  pub remote : Bool
  pub dlc : ℕ  -- uint8_t
  pub bytes : List ℕ

-- `twai_message_t`, its one-bit flags as numbers.
pub record Message : Type 0 where
  pub identifier : ℕ
  pub extd : ℕ
  pub rtr : ℕ
  pub data_length_code : ℕ
  pub bytes : List ℕ

-- `for (i = 0; i < n; ++i) dst[i] = src[i];`
pub copy : ℕ → List ℕ → List ℕ → List ℕ
copy zero src dst = dst
copy (suc n) [] dst = dst
copy (suc n) (x ∷ src) [] = []
copy (suc n) (x ∷ src) (y ∷ dst) = x ∷ copy n src dst

-- `n > 8U ? 8U : n`.
abbrev pub clamp_dlc : ℕ → ℕ
clamp_dlc n = if ltb 8 n then 8 else n

abbrev pub zeros : List ℕ
zeros = replicate 8 0

unfoldable pub frame_to_message : CanFrame → Message
unfolding copy
frame_to_message src = record {
  identifier = src.id;
  extd = if src.extended_id then 1 else 0;
  rtr = if src.remote then 1 else 0;
  data_length_code = clamp_dlc src.dlc;
  bytes = copy (clamp_dlc src.dlc) src.bytes zeros;
}

unfoldable pub message_to_frame : Message → CanFrame
unfolding copy
message_to_frame src = record {
  id = src.identifier;
  extended_id = not (src.extd == 0);
  remote = not (src.rtr == 0);
  dlc = clamp_dlc src.data_length_code;
  bytes = copy (clamp_dlc src.data_length_code) src.bytes zeros;
}

-- The bytes from `n` on are zero.
abbrev pub IsZeroFrom : ℕ → List ℕ → Type 0
IsZeroFrom n [] = Unit {0}
IsZeroFrom zero (x ∷ xs) = (x ≡ 0) × IsZeroFrom zero xs
IsZeroFrom (suc n) (x ∷ xs) = IsZeroFrom n xs

copy_padded :
    (n m : ℕ) (xs : List ℕ) → length xs ≡ m → IsZeroFrom n xs → copy n xs (replicate m 0) ≡ xs
unfolding copy
copy_padded zero zero [] e h = refl
copy_padded (suc n) zero [] e h = refl
copy_padded zero (suc m) [] e h = absurd (omega arith)
copy_padded (suc n) (suc m) [] e h = absurd (omega arith)
copy_padded zero zero (x ∷ xs) e h = absurd (omega arith)
copy_padded (suc n) zero (x ∷ xs) e h = absurd (omega arith)
copy_padded zero (suc m) (x ∷ xs) e h =
    let rest = copy_padded zero m xs (omega arith) h.1 in rw (h.0) (ap (λ t. 0 ∷ t) rest)
copy_padded (suc n) (suc m) (x ∷ xs) e h = ap (λ t. x ∷ t) (copy_padded n m xs (omega arith) h)

-- A frame that `receive` can deliver: eight bytes, a length of at most 8, and zeros beyond it.
pub record IsFrame (f : CanFrame) : Type 0 where
  pub short : f.dlc ≤ 8
  pub eight : length f.bytes ≡ 8
  pub padded : IsZeroFrom f.dlc f.bytes

-- Sending a well-formed frame and reading the driver's message back gives the same frame.
pub message_to_frame-frame_to_message :
    (f : CanFrame) → IsFrame f → message_to_frame (frame_to_message f) ≡ f
unfolding message_to_frame frame_to_message
message_to_frame-frame_to_message f v = ground (arith, copy_padded f.dlc 8 f.bytes v.eight v.padded)

-- Copying `n` bytes into zeros of the same length.
length-copy : (n : ℕ) (xs ys : List ℕ) → length (copy n xs ys) ≡ length ys
unfolding copy
length-copy zero xs ys = refl
length-copy (suc n) [] ys = refl
length-copy (suc n) (x ∷ xs) [] = refl
length-copy (suc n) (x ∷ xs) (y ∷ ys) = ap suc (length-copy n xs ys)

replicate-IsZeroFrom : (n m : ℕ) → IsZeroFrom n (replicate m 0)
replicate-IsZeroFrom n zero = tt
replicate-IsZeroFrom zero (suc m) = (refl, replicate-IsZeroFrom zero m)
replicate-IsZeroFrom (suc n) (suc m) = replicate-IsZeroFrom n m

copy-IsZeroFrom : (n m : ℕ) (xs : List ℕ) → IsZeroFrom n (copy n xs (replicate m 0))
unfolding copy
copy-IsZeroFrom zero m xs = replicate-IsZeroFrom zero m
copy-IsZeroFrom (suc n) m [] = replicate-IsZeroFrom (suc n) m
copy-IsZeroFrom (suc n) zero (x ∷ xs) = tt
copy-IsZeroFrom (suc n) (suc m) (x ∷ xs) = copy-IsZeroFrom n m xs

pub message_to_frame-IsFrame : (m : Message) → IsFrame (message_to_frame m)
unfolding message_to_frame
message_to_frame-IsFrame m = record {
  short = ground arith;
  eight = length-copy (clamp_dlc m.data_length_code) m.bytes zeros;
  padded = copy-IsZeroFrom (clamp_dlc m.data_length_code) 8 m.bytes;
}
