-- ===== src/Prelude/Lists.antt =====
-- Lists measured and indexed by native numbers, under the library's names.
use Prim.Native.Nat.{ℕ, zero, suc, ◌+◌, ◌-◌, min}
use mathlib.Core.Path.{◌≡◌, refl, ap}
use mathlib.Core.List.{List, [], ◌∷◌, ◌++◌, map, reverse, reverse_aux}
use mathlib.Core.Option.{Option, none, some}
use native.Mathlib.Omega.{arith}

module _ {ℓ} {A : Type ℓ} where
  abbrev pub length : List A → ℕ
  length [] = 0
  length (x ∷ xs) = suc (length xs)

  abbrev pub get_elem? : List A → ℕ → Option A
  get_elem? [] i = none
  get_elem? (x ∷ xs) zero = some x
  get_elem? (x ∷ xs) (suc i) = get_elem? xs i

  abbrev pub get_or : List A → ℕ → A → A
  get_or [] i d = d
  get_or (x ∷ xs) zero d = x
  get_or (x ∷ xs) (suc i) d = get_or xs i d

  abbrev pub take : ℕ → List A → List A
  take zero xs = []
  take (suc n) [] = []
  take (suc n) (x ∷ xs) = x ∷ take n xs

  abbrev pub drop : ℕ → List A → List A
  drop zero xs = xs
  drop (suc n) [] = []
  drop (suc n) (x ∷ xs) = drop n xs

  abbrev pub replicate : ℕ → A → List A
  replicate zero a = []
  replicate (suc n) a = a ∷ replicate n a

  pub length-append : (xs ys : List A) → length (xs ++ ys) ≡ length xs + length ys
  length-append [] ys = omega arith
  length-append (x ∷ xs) ys = omega (arith, length-append xs ys)

  pub length-take : (n : ℕ) (xs : List A) → length (take n xs) ≡ min n (length xs)
  length-take zero xs = omega arith
  length-take (suc n) [] = omega arith
  length-take (suc n) (x ∷ xs) = omega (arith, length-take n xs)

  pub length-drop : (n : ℕ) (xs : List A) → length (drop n xs) ≡ length xs - n
  length-drop zero xs = omega arith
  length-drop (suc n) [] = omega arith
  length-drop (suc n) (x ∷ xs) = omega (arith, length-drop n xs)

  pub take-length : (xs : List A) → take (length xs) xs ≡ xs
  take-length [] = refl
  take-length (x ∷ xs) = ap (λ t. x ∷ t) (take-length xs)

  pub take-append_length : (xs ys : List A) → take (length xs) (xs ++ ys) ≡ xs
  take-append_length [] ys = refl
  take-append_length (x ∷ xs) ys = ap (λ t. x ∷ t) (take-append_length xs ys)

  pub drop-append_length : (xs ys : List A) → drop (length xs) (xs ++ ys) ≡ ys
  drop-append_length [] ys = refl
  drop-append_length (x ∷ xs) ys = drop-append_length xs ys

  -- Two splits of a list at the same place are the same.
  pub append_injective :
      (a c b d : List A) → length a ≡ length c → a ++ b ≡ c ++ d → (a ≡ c) × (b ≡ d)
  append_injective [] [] b d l e = (refl, e)
  append_injective [] (y ∷ c) b d l e = absurd (omega arith)
  append_injective (x ∷ a) [] b d l e = absurd (omega arith)
  append_injective (x ∷ a) (y ∷ c) b d l e = ground (arith, append_injective a c b d (omega arith))

  length-reverse_aux : (xs ys : List A) → length (reverse_aux xs ys) ≡ length xs + length ys
  length-reverse_aux [] ys = omega arith
  length-reverse_aux (x ∷ xs) ys = omega (arith, length-reverse_aux xs (x ∷ ys))

  pub length-reverse : (xs : List A) → length (reverse xs) ≡ length xs
  length-reverse xs = omega (arith, length-reverse_aux xs [])

  -- Every element satisfies `P`; computes to a tuple.
  abbrev pub All {κ} : (A → Type κ) → List A → Type κ
  All P [] = Unit
  All P (x ∷ xs) = P x × All P xs

  pub All-append {κ} : (P : A → Type κ) (xs ys : List A) → All P xs → All P ys → All P (xs ++ ys)
  All-append P [] ys all_xs all_ys = all_ys
  All-append P (x ∷ xs) ys all_xs all_ys = (all_xs.0, All-append P xs ys all_xs.1 all_ys)

  pub All-split {κ} : (P : A → Type κ) (xs ys : List A) → All P (xs ++ ys) → All P xs × All P ys
  All-split P [] ys h = (tt, h)
  All-split P (x ∷ xs) ys h = let (hx, hy) = All-split P xs ys h.1 in ((h.0, hx), hy)

  pub All-map_of {κ μ} :
      (P : A → Type κ) (Q : A → Type μ)
      → ((a : A) → P a → Q a)
      → (xs : List A) → All P xs
      → All Q xs
  All-map_of P Q f [] h = tt
  All-map_of P Q f (x ∷ xs) h = (f x h.0, All-map_of P Q f xs h.1)

module _ {ℓ κ} {A : Type ℓ} {B : Type κ} where
  pub length-map : (f : A → B) (xs : List A) → length (map f xs) ≡ length xs
  length-map f [] = refl
  length-map f (x ∷ xs) = ap suc (length-map f xs)

  -- `for _, x := range xs { s = f(s, x) }`
  abbrev pub fold : (B → A → B) → B → List A → B
  fold f s [] = s
  fold f s (x ∷ xs) = fold f (f s x) xs

  pub fold-append :
      (f : B → A → B) (s : B) (xs ys : List A) → fold f s (xs ++ ys) ≡ fold f (fold f s xs) ys
  fold-append f s [] ys = refl
  fold-append f s (x ∷ xs) ys = fold-append f (f s x) xs ys
