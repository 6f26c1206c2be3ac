-- ===== src/Crypto/Merkle/Binding.antt =====
-- The root commits to the list: two lists of one length with one root are equal, or they give a
-- collision of SHA-256.
use chainlang.Prelude.{
  ℕ, zero, suc, ◌≤◌, ◌≡◌, refl, ap, sym, ◌∙◌, inl, inr, ◌⊎◌, List, [], ◌∷◌, ◌++◌, arith, Bytes,
  length, All, append_injective,
}
use chainlang.Crypto.Primitives.{Primitives, Collision, HasDigestSize}
use chainlang.Crypto.Hash.{hash_bytes, hash_bytes_binding}
use chainlang.Crypto.Merkle.Defs.{
  next_level, next_level-Shorter, merkle_root, merkle_root-cons, merkle_root-one,
}

abbrev pub IsDigest : Bytes → Type 0
IsDigest b = length b ≡ 32

module _ (p : Primitives) (size : HasDigestSize p) where
  next_level-IsDigest : (xs : List Bytes) → All IsDigest (next_level p xs)
  unfolding next_level hash_bytes
  next_level-IsDigest [] = tt
  next_level-IsDigest (x ∷ []) = (size (x ++ x), tt)
  next_level-IsDigest (x ∷ y ∷ rest) = (size (x ++ y), next_level-IsDigest rest)

  length-next_level :
      (xs ys : List Bytes)
      → length xs ≡ length ys
      → length (next_level p xs) ≡ length (next_level p ys)
  unfolding next_level
  length-next_level [] [] h = refl
  length-next_level [] (y ∷ ys) h = absurd (omega arith)
  length-next_level (x ∷ xs) [] h = absurd (omega arith)
  length-next_level (x ∷ []) (y ∷ []) h = refl
  length-next_level (x ∷ []) (y ∷ y' ∷ ys) h = absurd (omega arith)
  length-next_level (x ∷ x' ∷ xs) (y ∷ []) h = absurd (omega arith)
  length-next_level (x ∷ x' ∷ xs) (y ∷ y' ∷ ys) h = ap suc (length-next_level xs ys (omega arith))

  pair_binding :
      (a b c d : Bytes)
      → IsDigest a
      → IsDigest c
      → hash_bytes p (a ++ b) ≡ hash_bytes p (c ++ d)
      → ((a ≡ c) × (b ≡ d)) ⊎ Collision p
  pair_binding a b c d ha hc e = elim (hash_bytes_binding p (a ++ b) (c ++ d) e) [
    | inl same ↦ inl (append_injective a c b d (ha ∙ sym hc) same)
    | inr collision ↦ inr collision
  ]

  next_level_binding :
      (xs ys : List Bytes)
      → length xs ≡ length ys
      → All IsDigest xs
      → All IsDigest ys
      → next_level p xs ≡ next_level p ys
      → (xs ≡ ys) ⊎ Collision p
  unfolding next_level
  next_level_binding [] [] l hx hy e = inl refl
  next_level_binding [] (y ∷ ys) l hx hy e = absurd (omega arith)
  next_level_binding (x ∷ xs) [] l hx hy e = absurd (omega arith)
  next_level_binding (x ∷ []) (y ∷ []) l hx hy e = elim (pair_binding x x y y hx.0 hy.0 (cc)) [
    | inl same ↦ inl (ap (λ t. t ∷ []) same.0)
    | inr collision ↦ inr collision
  ]
  next_level_binding (x ∷ []) (y ∷ y' ∷ ys) l hx hy e = absurd (omega arith)
  next_level_binding (x ∷ x' ∷ xs) (y ∷ []) l hx hy e = absurd (omega arith)
  next_level_binding (x ∷ x' ∷ xs) (y ∷ y' ∷ ys) l hx hy e =
      elim (pair_binding x x' y y' hx.0 hy.0 (cc)) [
        | inr collision ↦ inr collision
        | inl pair ↦ elim (next_level_binding xs ys (omega arith) hx.1.1 hy.1.1 (cc)) [
          | inl rest ↦ inl (cc)
          | inr collision ↦ inr collision
        ]
      ]

  binding_below :
      (n : ℕ) (xs ys : List Bytes)
      → length xs ≤ n
      → length xs ≡ length ys
      → All IsDigest xs
      → All IsDigest ys
      → merkle_root p xs ≡ merkle_root p ys
      → (xs ≡ ys) ⊎ Collision p
  binding_below n [] [] b l hx hy e = inl refl
  binding_below n [] (y ∷ ys) b l hx hy e = absurd (omega arith)
  binding_below n (x ∷ xs) [] b l hx hy e = absurd (omega arith)
  binding_below n (x ∷ []) (y ∷ []) b l hx hy e =
      elim (hash_bytes_binding p x y (sym (merkle_root-one p x) ∙ e ∙ merkle_root-one p y)) [
        | inl same ↦ inl (ap (λ t. t ∷ []) same)
        | inr collision ↦ inr collision
      ]
  binding_below n (x ∷ []) (y ∷ y' ∷ ys) b l hx hy e = absurd (omega arith)
  binding_below n (x ∷ x' ∷ xs) (y ∷ []) b l hx hy e = absurd (omega arith)
  binding_below zero (x ∷ x' ∷ xs) (y ∷ y' ∷ ys) b l hx hy e = absurd (omega arith)
  binding_below (suc n) (x ∷ x' ∷ xs) (y ∷ y' ∷ ys) b l hx hy e =
      let shorter = next_level-Shorter p x x' xs in
      let up = next_level p (x ∷ x' ∷ xs) in
      let up' = next_level p (y ∷ y' ∷ ys) in
      elim (binding_below n up up' (omega arith) (length-next_level (x ∷ x' ∷ xs) (y ∷ y' ∷ ys) l)
        (next_level-IsDigest (x ∷ x' ∷ xs)) (next_level-IsDigest (y ∷ y' ∷ ys))
        (sym (merkle_root-cons p x x' xs) ∙ e ∙ merkle_root-cons p y y' ys)) [
          | inl same ↦ next_level_binding (x ∷ x' ∷ xs) (y ∷ y' ∷ ys) l hx hy same
          | inr collision ↦ inr collision
        ]

  -- Two lists of 32-byte hashes of the same length with the same Merkle root are equal, or there is
  -- a collision of SHA-256.
  pub merkle_root_binding :
      (xs ys : List Bytes)
      → length xs ≡ length ys
      → All IsDigest xs
      → All IsDigest ys
      → merkle_root p xs ≡ merkle_root p ys
      → (xs ≡ ys) ⊎ Collision p
  merkle_root_binding xs ys l hx hy e = binding_below (length xs) xs ys (omega arith) l hx hy e
