-- ===== src/Go/Word.antt =====
-- `uint64` arithmetic with its wrap-around, and the big-endian encodings of `encoding/binary` and
-- `math/big`.
use mathlib.Core.List.{reverse, reverse-reverse}
use native.Mathlib.Nat.{pow-succ'}
use chainlang.Prelude.{
  ℕ, zero, suc, ◌+◌, ◌-◌, ◌*◌, ◌/◌, ◌%◌, ◌^◌, ◌<◌, ◌≡◌, refl, ap, ◌∙◌, [], ◌∷◌, arith, length, take,
  length-reverse, Bytes,
}

abbrev pub u64 : ℕ
u64 = 2 ^ 64

-- a + b and a - b on `uint64`
unfoldable pub add64 : ℕ → ℕ → ℕ
add64 a b = (a + b) % 2 ^ 64

unfoldable pub sub64 : ℕ → ℕ → ℕ
sub64 a b = (a + 2 ^ 64 - b) % 2 ^ 64

-- The `n` low bytes of a number, the lowest first.
unfoldable pub low_bytes : ℕ → ℕ → Bytes
low_bytes zero x = []
low_bytes (suc n) x = x % 256 ∷ low_bytes n (x / 256)

unfoldable pub of_low_bytes : Bytes → ℕ
of_low_bytes [] = 0
of_low_bytes (b ∷ bs) = b + 256 * of_low_bytes bs

-- `x.FillBytes(buf)` for a buffer of `n` bytes, and `SetBytes`.
unfoldable pub fill_bytes : ℕ → ℕ → Bytes
unfolding low_bytes
fill_bytes n x = reverse (low_bytes n x)

unfoldable pub set_bytes : Bytes → ℕ
unfolding of_low_bytes
set_bytes bs = of_low_bytes (reverse bs)

-- `binary.BigEndian.PutUint64` into a fresh buffer of eight bytes, and `binary.BigEndian.Uint64`.
unfoldable pub put_uint64 : ℕ → Bytes
unfolding fill_bytes
put_uint64 x = fill_bytes 8 x

unfoldable pub read_uint64 : Bytes → ℕ
unfolding set_bytes
read_uint64 val = set_bytes (take 8 val)

pub length-low_bytes : (n x : ℕ) → length (low_bytes n x) ≡ n
unfolding low_bytes
length-low_bytes zero x = refl
length-low_bytes (suc n) x = ap suc (length-low_bytes n (x / 256))

of_low_bytes-low_bytes : (n x : ℕ) → x < 256 ^ n → of_low_bytes (low_bytes n x) ≡ x
unfolding low_bytes of_low_bytes
of_low_bytes-low_bytes zero x h = omega arith
of_low_bytes-low_bytes (suc n) x h =
    let h' : x < 256 * 256 ^ n = rw (← pow-succ' 256 n) h in
    omega (arith, of_low_bytes-low_bytes n (x / 256) (omega arith))

pub set_bytes-fill_bytes : (n x : ℕ) → x < 256 ^ n → set_bytes (fill_bytes n x) ≡ x
unfolding set_bytes fill_bytes
set_bytes-fill_bytes n x h = rw reverse-reverse (of_low_bytes-low_bytes n x h)

pub length-put_uint64 : (x : ℕ) → length (put_uint64 x) ≡ 8
unfolding put_uint64 low_bytes
length-put_uint64 x = refl

pub read_uint64-put_uint64 : (x : ℕ) → x < 2 ^ 64 → read_uint64 (put_uint64 x) ≡ x
unfolding read_uint64 put_uint64
read_uint64-put_uint64 x h = set_bytes-fill_bytes 8 x h

pub length-fill_bytes : (n x : ℕ) → length (fill_bytes n x) ≡ n
unfolding fill_bytes
length-fill_bytes n x = length-reverse (low_bytes n x) ∙ length-low_bytes n x

-- `int`, as an unbounded integer; `negsuc n` is -(n + 1).
pub data ℤ : Type 0 where
  pos : ℕ → ℤ
  negsuc : ℕ → ℤ

-- The value of an `int`, or a default where it is zero or negative.
abbrev pub positive_or : ℕ → ℤ → ℕ
positive_or d (pos zero) = d
positive_or d (pos (suc n)) = suc n
positive_or d (negsuc n) = d
