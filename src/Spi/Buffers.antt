-- ===== src/Spi/Buffers.antt =====
-- The buffers of `writeRead` of src/ungula/hal/spi/platforms/spi_master_esp32.cpp, as lists, and its guard on
-- their sizes.
use ungula_hal.Base.{
  ℕ, ◌+◌, ◌-◌, ◌*◌, ◌^◌, ◌≤◌, ◌<◌, ◌≡◌, ◌∙◌, ap, sym, Bool, true, false, some, List, ◌++◌, arith,
  ltb, leb, ◌==◌, ◌&&◌, ◌||◌, u32, take, drop, length, length-take, length-drop, length-append,
  length-replicate, take-append, drop-append, drop-replicate, take-replicate, append-nil,
}
use ungula_hal.Spi.{memcpy, fill, zeros, blank}

memcpy_fits :
    (n : ℕ) (xs ys : List ℕ)
    → n ≤ length xs
    → n ≤ length ys
    → memcpy n xs ys ≡ some (take n xs ++ drop n ys)
memcpy_fits n xs ys h k = ground (arith, h, k)

-- What is to be clocked out: the bytes to write, and zeros while the device answers.
abbrev pub command : ℕ → ℕ → List ℕ → List ℕ
command n m tx = take n tx ++ blank m

length-blank : (n : ℕ) → length (blank n) ≡ n
length-blank n = length-replicate n 0

zeros_left : (n : ℕ) → n ≤ 64 → drop n zeros ≡ blank (64 - n)
zeros_left n h =
    ap (λ k. drop n (blank k)) {x = 64} {y = n + (64 - n)} (omega arith)
    ∙ drop-replicate n (64 - n) 0

zeros_taken : (n m : ℕ) → n ≤ m → take n (blank m) ≡ blank n
zeros_taken n m h =
    ap (λ k. take n (blank k)) {x = m} {y = n + (m - n)} (omega arith) ∙ take-replicate n (m - n) 0

-- The send buffer of 64 bytes, as `memcpy` leaves it.
abbrev pub send_buffer : ℕ → List ℕ → List ℕ
send_buffer n tx = take n tx ++ drop n zeros

pub length-send_buffer :
    (n : ℕ) (tx : List ℕ) → n ≤ length tx → n ≤ 64 → length (send_buffer n tx) ≡ 64
length-send_buffer n tx h k = omega (
  arith,
  length-append (take n tx) (drop n zeros),
  length-take n tx h,
  length-drop n zeros,
  length-blank 64,
)

pub take-send_buffer :
    (n m : ℕ) (tx : List ℕ)
    → n ≤ length tx
    → n + m ≤ 64
    → take (n + m) (send_buffer n tx) ≡ command n m tx
take-send_buffer n m tx h k =
    ap (λ j. take (j + m) (send_buffer n tx)) (sym (length-take n tx h))
    ∙ take-append (take n tx) (drop n zeros) m
    ∙ ap (λ z. take n tx ++ take m z) (zeros_left n (omega arith))
    ∙ ap (λ z. take n tx ++ z) (zeros_taken m (64 - n) (omega arith))

pub length-command : (n m : ℕ) (tx : List ℕ) → n ≤ length tx → length (command n m tx) ≡ n + m
length-command n m tx h =
    omega (arith, length-append (take n tx) (blank m), length-take n tx h, length-blank m)

-- The caller's buffer, when `n + m` bytes have come.
pub received_lem :
    (n m : ℕ) (got rx : List ℕ)
    → length got ≡ n + m
    → m ≤ length rx
    → memcpy m (drop n (fill got zeros)) rx ≡ some (drop n got ++ drop m rx)
received_lem n m got rx e h =
    let rest = drop (length got) zeros in
    let split = drop-append n got rest (omega (arith, e)) in
    let back = length-drop n got in
    let first : take m (drop n got ++ rest) ≡ drop n got =
      ap (λ k. take k (drop n got ++ rest)) {x = m} {y = length (drop n got) + 0}
        (omega (arith, e, back))
      ∙ take-append (drop n got) rest 0
      ∙ append-nil (drop n got) in
    rw split (
      memcpy_fits m (drop n got ++ rest) rx
        (omega (arith, e, back, length-append (drop n got) rest)) h
      ∙ ap (λ z. some (z ++ drop m rx)) first)

abbrev pub fits : ℕ → ℕ → Bool
fits n m = ltb 0 (n + m) && leb (n + m) 64

pub small_total : (n m : ℕ) → n + m < 2 ^ 32 → u32 (n + m) ≡ n + m
small_total n m h = omega arith

pub small_bits : (k : ℕ) → k ≤ 64 → u32 (k * 8) ≡ k * 8
small_bits k h = omega arith

pub fits_lem : (n m : ℕ) → fits n m ≡ true → n + m ≤ 64
fits_lem n m h = ground (arith, h)

-- The guard of the code on the sum of the sizes.
pub misfits : (n m : ℕ) → fits n m ≡ false → ((n + m == 0) || ltb 64 (n + m)) ≡ true
misfits n m h = ground (arith, h)

pub fits_guard : (n m : ℕ) → fits n m ≡ true → ((n + m == 0) || ltb 64 (n + m)) ≡ false
fits_guard n m h = ground (arith, h)

pub send_buffer_fits :
    (n : ℕ) (tx : List ℕ) → n ≤ length tx → n ≤ 64 → memcpy n tx zeros ≡ some (send_buffer n tx)
send_buffer_fits n tx h k = memcpy_fits n tx zeros h (omega (arith, k, length-blank 64))
