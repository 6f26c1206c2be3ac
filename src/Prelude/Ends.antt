-- ===== src/Prelude/Ends.antt =====
-- Lists taken from either end, and reversed.
use chainlang.Prelude.{
  ℕ, zero, suc, ◌-◌, ◌≤◌, ◌≡◌, refl, ap, sym, ◌∙◌, List, [], ◌∷◌, ◌++◌, map, arith, length, take,
  drop, length-reverse, length-drop, take-append_length, drop-append_length, All, Bool-cases, inl,
  inr, ltb, if◌then◌else◌,
}
use mathlib.Core.List.{reverse, reverse_aux, reverse-append}

module _ {ℓ} {A : Type ℓ} where
  take-append-drop : (n : ℕ) (xs : List A) → take n xs ++ drop n xs ≡ xs
  take-append-drop zero xs = refl
  take-append-drop (suc n) [] = refl
  take-append-drop (suc n) (x ∷ xs) = ap (λ l. x ∷ l) (take-append-drop n xs)

  reverse-split : (n : ℕ) (xs : List A) → reverse xs ≡ reverse (drop n xs) ++ reverse (take n xs)
  reverse-split n xs =
      ap reverse (sym (take-append-drop n xs)) ∙ reverse-append (take n xs) (drop n xs)

  -- What is reversed of the end of a list is the start of the reversed list, and the other way round.
  reverse-drop : (n : ℕ) (xs : List A) → reverse (drop n xs) ≡ take (length xs - n) (reverse xs)
  reverse-drop n xs =
      let size = length-reverse (drop n xs) ∙ length-drop n xs in
      sym (
        ap (take (length xs - n)) (reverse-split n xs)
        ∙ ap (λ k. take k (reverse (drop n xs) ++ reverse (take n xs))) (sym size)
        ∙ take-append_length (reverse (drop n xs)) (reverse (take n xs)))

  pub reverse-take : (n : ℕ) (xs : List A) → reverse (take n xs) ≡ drop (length xs - n) (reverse xs)
  reverse-take n xs =
      let size = length-reverse (drop n xs) ∙ length-drop n xs in
      sym (
        ap (drop (length xs - n)) (reverse-split n xs)
        ∙ ap (λ k. drop k (reverse (drop n xs) ++ reverse (take n xs))) (sym size)
        ∙ drop-append_length (reverse (drop n xs)) (reverse (take n xs)))

  pub take-nil : (n : ℕ) → take {A = A} n [] ≡ []
  take-nil zero = refl
  take-nil (suc n) = refl

  pub take_all : (n : ℕ) (xs : List A) → length xs ≤ n → take n xs ≡ xs
  take_all zero [] h = refl
  take_all zero (x ∷ xs) h = absurd (omega arith)
  take_all (suc n) [] h = refl
  take_all (suc n) (x ∷ xs) h = ap (λ l. x ∷ l) (take_all n xs (omega arith))

  pub drop_all : (n : ℕ) (xs : List A) → length xs ≤ n → drop n xs ≡ []
  drop_all zero [] h = refl
  drop_all zero (x ∷ xs) h = absurd (omega arith)
  drop_all (suc n) [] h = refl
  drop_all (suc n) (x ∷ xs) h = drop_all n xs (omega arith)

  -- The last `n` elements, the last first.
  pub reverse-last :
      (n : ℕ) (xs : List A)
      → reverse (if ltb n (length xs) then drop (length xs - n) xs else xs) ≡ take n (reverse xs)
  reverse-last n xs = elim (Bool-cases (ltb n (length xs))) [
    | inl long ↦
        let left : length xs - (length xs - n) ≡ n = ground arith in
        rw long (reverse-drop (length xs - n) xs ∙ ap (λ k. take k (reverse xs)) left)
    | inr short ↦
        let size = length-reverse xs in
        let fits : length (reverse xs) ≤ n = ground arith in
        rw short (sym (take_all n (reverse xs) fits))
  ]

  pub All-take {κ} : (P : A → Type κ) (n : ℕ) (xs : List A) → All P xs → All P (take n xs)
  All-take P zero xs h = tt
  All-take P (suc n) [] h = tt
  All-take P (suc n) (x ∷ xs) h = (h.0, All-take P n xs h.1)

  pub All-drop {κ} : (P : A → Type κ) (n : ℕ) (xs : List A) → All P xs → All P (drop n xs)
  All-drop P zero xs h = h
  All-drop P (suc n) [] h = tt
  All-drop P (suc n) (x ∷ xs) h = All-drop P n xs h.1

  All-reverse_aux {κ} :
      (P : A → Type κ) (xs ys : List A) → All P xs → All P ys → All P (reverse_aux xs ys)
  All-reverse_aux P [] ys h k = k
  All-reverse_aux P (x ∷ xs) ys h k = All-reverse_aux P xs (x ∷ ys) h.1 (h.0, k)

  pub All-reverse {κ} : (P : A → Type κ) (xs : List A) → All P xs → All P (reverse xs)
  All-reverse P xs h = All-reverse_aux P xs [] h tt

module _ {ℓ κ} {A : Type ℓ} {B : Type κ} (f : A → B) where
  map-reverse_aux : (xs ys : List A) → map f (reverse_aux xs ys) ≡ reverse_aux (map f xs) (map f ys)
  map-reverse_aux [] ys = refl
  map-reverse_aux (x ∷ xs) ys = map-reverse_aux xs (x ∷ ys)

  pub map-reverse : (xs : List A) → map f (reverse xs) ≡ reverse (map f xs)
  map-reverse xs = map-reverse_aux xs []

  pub map-take : (n : ℕ) (xs : List A) → map f (take n xs) ≡ take n (map f xs)
  map-take zero xs = refl
  map-take (suc n) [] = refl
  map-take (suc n) (x ∷ xs) = ap (λ l. f x ∷ l) (map-take n xs)
