-- ===== src/Go/Natural.antt =====
-- `math/big`: the big-endian bytes of a natural number, without leading zeros.
use mathlib.Core.List.{reverse, reverse-reverse}
use chainlang.Prelude.{
  ℕ, zero, suc, ◌/◌, ◌%◌, ◌≤◌, ◌<◌, ◌≡◌, ◌≢◌, ap, sym, ◌∙◌, [], ◌∷◌, arith, nat_beq, Bytes, All,
  if◌then◌else◌, Bool-cases, inl, inr,
}
use chainlang.Prelude.Ends.{All-reverse}
use chainlang.Go.Word.{of_low_bytes, set_bytes}

-- At most `n` bytes, the lowest first.
unfoldable pub low_digits : ℕ → ℕ → Bytes
low_digits zero x = []
low_digits (suc n) x =
    let rest = low_digits n (x / 256) in if nat_beq x 0 then [] else x % 256 ∷ rest

-- `x.Bytes()`
unfoldable pub big_bytes : ℕ → Bytes
unfolding low_digits
big_bytes x = reverse (low_digits x x)

of_low_bytes-low_digits : (n x : ℕ) → x ≤ n → of_low_bytes (low_digits n x) ≡ x
unfolding low_digits of_low_bytes
of_low_bytes-low_digits zero x h = omega arith
of_low_bytes-low_digits (suc n) x h =
    ground (arith, of_low_bytes-low_digits n (x / 256) (omega arith))

pub set_bytes-big_bytes : (x : ℕ) → set_bytes (big_bytes x) ≡ x
unfolding set_bytes big_bytes
set_bytes-big_bytes x = rw reverse-reverse (of_low_bytes-low_digits x x (omega arith))

All-low_digits : (n x : ℕ) → All (λ b. b < 256) (low_digits n x)
unfolding low_digits
All-low_digits zero x = tt
All-low_digits (suc n) x = elim (Bool-cases (nat_beq x 0)) [
  | inl e ↦ rw e tt
  | inr e ↦ rw e (omega arith, All-low_digits n (x / 256))
]

pub All-big_bytes : (x : ℕ) → All (λ b. b < 256) (big_bytes x)
unfolding big_bytes
All-big_bytes x = All-reverse (λ b. b < 256) (low_digits x x) (All-low_digits x x)

-- Only zero has no bytes.
pub big_bytes_filled : (x : ℕ) → x ≢ 0 → big_bytes x ≢ []
unfolding set_bytes of_low_bytes
big_bytes_filled x h e = h (sym (set_bytes-big_bytes x) ∙ ap set_bytes e)
