-- ===== src/ByteIo/RoundTrip.antt =====
-- Reading back what was written, and writing back what was read.
use clibmedia_transfer_proto.Common.{
  ℕ, zero, suc, ◌+◌, ◌*◌, ◌/◌, ◌%◌, ◌^◌, ◌<◌, ◌≡◌, ◌↔◌, refl, ap, ◌∙◌, [], ◌∷◌, ◌++◌, none, some,
  arith, length, All,
}
use clibmedia_transfer_proto.ByteIo.{Bytes, IsByte, read_loop, read_big_endian, write_big_endian}
use native.Mathlib.Nat.{
  div-add-mod, div-div-eq-div-mul, pow-suc, mul-add-div, div-eq_of_lt, mul_comm,
}
use mathlib.Core.Path.{ap₂}

pub length-write_big_endian : (n v : ℕ) → length (write_big_endian n v) ≡ n
unfolding write_big_endian
length-write_big_endian zero v = refl
length-write_big_endian (suc n) v = omega (arith, length-write_big_endian n v)

pub write_big_endian-IsByte : (n v : ℕ) → All IsByte (write_big_endian n v)
unfolding write_big_endian
write_big_endian-IsByte zero v = tt
write_big_endian-IsByte (suc n) v = (omega arith, write_big_endian-IsByte n v)

-- The lowest `n + 1` bytes of `v` are the byte above the lowest `n`, and those.
mod_step : (n v : ℕ) → v / 256 ^ n % 256 * 256 ^ n + v % 256 ^ n ≡ v % 256 ^ suc n
mod_step n v = omega (
  arith,
  pow-suc 256 n,
  div-add-mod v (256 ^ n),
  div-add-mod v (256 ^ n * 256),
  div-div-eq-div-mul v (256 ^ n) 256,
  ap (λ (t : ℕ). v % t) (pow-suc 256 n),
  ap (λ (t : ℕ). t * 256 ^ n) (div-add-mod (v / 256 ^ n) 256),
  ap (λ (t : ℕ). t * (256 ^ n * 256)) (div-div-eq-div-mul v (256 ^ n) 256),
)

-- The `n` low bytes of `v` behind what has been read so far.
read_loop-write :
    (n val v : ℕ) (rest : Bytes)
    → read_loop n val (write_big_endian n v ++ rest) ≡ some (val * 256 ^ n + v % 256 ^ n)
unfolding read_loop write_big_endian
read_loop-write zero val v rest = ap some (omega arith)
read_loop-write (suc n) val v rest =
    read_loop-write n (val * 256 + v / 256 ^ n % 256) v rest
    ∙ ap some (omega (arith, mod_step n v, ap (λ (t : ℕ). val * t) (pow-suc 256 n)))

-- What is written at a width is read back at that width, cut to it, whatever bytes follow.
pub read-write_big_endian :
    (n v : ℕ) (rest : Bytes) → read_big_endian n (write_big_endian n v ++ rest) ≡ some (v % 256 ^ n)
unfolding read_big_endian
read-write_big_endian n v rest = read_loop-write n 0 v rest ∙ ap some (omega arith)

-- A read succeeds exactly if that many bytes are there.
read_loop-none : (n val : ℕ) (data' : Bytes) → (read_loop n val data' ≡ none) ↔ (length data' < n)
unfolding read_loop
read_loop-none zero val data' = (λ e. cc, λ h. absurd (omega arith))
read_loop-none (suc n) val [] = (λ e. omega arith, λ h. refl)
read_loop-none (suc n) val (b ∷ data') =
    let ih = read_loop-none n (val * 256 + b) data' in
    (λ e. suc-le (ih.0 e), λ h. ih.1 (omega arith))
  where
    suc-le : length data' < n → suc (length data') < suc n
    suc-le h = omega arith

pub read_big_endian-none :
    (n : ℕ) (data' : Bytes) → (read_big_endian n data' ≡ none) ↔ (length data' < n)
unfolding read_big_endian
read_big_endian-none n data' = read_loop-none n 0 data'

pow_pos : (n : ℕ) → 0 < 256 ^ n
pow_pos zero = omega arith
pow_pos (suc n) = omega (arith, pow-suc 256 n, pow_pos n)

shift_out : (n x w : ℕ) → (x * 256 ^ n + w) / 256 ^ n ≡ x + w / 256 ^ n
shift_out n x w = rw (mul_comm x (256 ^ n)) (mul-add-div (pow_pos n) x w)

-- What lies above the lowest `n` bytes is not written.
write_big_endian-high : (n k w : ℕ) → write_big_endian n (k * 256 ^ n + w) ≡ write_big_endian n w
unfolding write_big_endian
write_big_endian-high zero k w = refl
write_big_endian-high (suc n) k w = rw (split) (ap₂ ◌∷◌ top (write_big_endian-high n (k * 256) w))
  where
    split : k * 256 ^ suc n + w ≡ k * 256 * 256 ^ n + w
    split = omega (arith, ap (λ (t : ℕ). k * t) (pow-suc 256 n))

    top : (k * 256 * 256 ^ n + w) / 256 ^ n % 256 ≡ w / 256 ^ n % 256
    top = rw (shift_out n (k * 256) w) (omega arith)

write_big_endian-byte :
    (n b w : ℕ)
    → b < 256
    → w < 256 ^ n
    → write_big_endian (suc n) (b * 256 ^ n + w) ≡ b ∷ write_big_endian n w
unfolding write_big_endian
write_big_endian-byte n b w hb hw = ap₂ ◌∷◌ top (write_big_endian-high n b w)
  where
    top : (b * 256 ^ n + w) / 256 ^ n % 256 ≡ b
    top = rw (shift_out n b w, div-eq_of_lt hw) (omega arith)

digit_lt : (b p w : ℕ) → b < 256 → w < p → b * p + w < p * 256
digit_lt b p w hb hw = grind arith

-- Bytes that were read are what `write_big_endian` writes for the number read, which fits them.
write-read_loop :
    (n val v : ℕ) (data' rest : Bytes)
    → All IsByte data'
    → length data' ≡ n
    → read_loop n val (data' ++ rest) ≡ some v
    → (w : ℕ) × (v ≡ val * 256 ^ n + w) × (w < 256 ^ n) × (write_big_endian n w ≡ data')
unfolding read_loop
write-read_loop zero val v [] rest a l e =
    (0, ground arith, omega arith, unfold write_big_endian in refl)
write-read_loop zero val v (b ∷ data') rest a l e = absurd (omega arith)
write-read_loop (suc n) val v [] rest a l e = absurd (omega arith)
write-read_loop (suc n) val v (b ∷ data') rest a l e =
    extend n val v b data' a.0 (write-read_loop n (val * 256 + b) v data' rest a.1 (omega arith) e)
  where
    extend :
        (n val v b : ℕ) (data' : Bytes)
        → b < 256
        → (w : ℕ) × (v ≡ (val * 256 + b) * 256 ^ n + w)
          × (w < 256 ^ n)
          × (write_big_endian n w ≡ data')
        → (w : ℕ) × (v ≡ val * 256 ^ suc n + w)
          × (w < 256 ^ suc n)
          × (write_big_endian (suc n) w ≡ b ∷ data')
    extend n val v b data' hb (w, ev, hw, ew) = (
      b * 256 ^ n + w,
      omega (arith, ap (λ (t : ℕ). val * t) (pow-suc 256 n)),
      omega (arith, pow-suc 256 n, digit_lt b (256 ^ n) w hb hw),
      write_big_endian-byte n b w hb hw ∙ ap (◌∷◌ b) ew,
    )

-- What `read_big_endian` returns fits the bytes read, and `write_big_endian` writes it as those bytes.
pub write-read_big_endian :
    (n v : ℕ) (data' rest : Bytes)
    → All IsByte data'
    → length data' ≡ n
    → read_big_endian n (data' ++ rest) ≡ some v
    → (v < 256 ^ n) × (write_big_endian n v ≡ data')
unfolding read_big_endian
write-read_big_endian n v data' rest a l e =
    let (w, ev, hw, ew) = write-read_loop n 0 v data' rest a l e in
    let same : v ≡ w = omega arith in rw same (hw, ew)
