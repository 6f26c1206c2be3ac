-- ===== src/Crypto/Merkle/Duplicate.antt =====
-- An odd level is completed with a copy of its last hash, so a list with that copy has the same root.
use chainlang.Prelude.{◌%◌, ◌≡◌, ◌≢◌, refl, ap, sym, ◌∙◌, List, [], ◌∷◌, ◌++◌, arith, Bytes, length}
use chainlang.Crypto.Primitives.{Primitives}
use chainlang.Crypto.Merkle.Defs.{next_level, merkle_root, merkle_root-cons}

module _ (p : Primitives) (x : Bytes) where
  next_level-duplicate :
      (xs : List Bytes)
      → length xs % 2 ≡ 0
      → next_level p (xs ++ x ∷ []) ≡ next_level p (xs ++ x ∷ x ∷ [])
  unfolding next_level
  next_level-duplicate [] h = refl
  next_level-duplicate (a ∷ []) h = absurd (omega arith)
  next_level-duplicate (a ∷ b ∷ rest) h = rw (next_level-duplicate rest (omega arith))

  -- A list of odd length, of three or more, and the same list with its last hash once more have the
  -- same Merkle root.
  pub merkle_root-duplicate :
      (xs : List Bytes)
      → xs ≢ []
      → length xs % 2 ≡ 0
      → merkle_root p (xs ++ x ∷ []) ≡ merkle_root p (xs ++ x ∷ x ∷ [])
  merkle_root-duplicate [] some_pairs h = absurd (some_pairs refl)
  merkle_root-duplicate (a ∷ []) some_pairs h = absurd (omega arith)
  merkle_root-duplicate (a ∷ b ∷ rest) some_pairs h =
      merkle_root-cons p a b (rest ++ x ∷ [])
      ∙ ap (merkle_root p) (next_level-duplicate (a ∷ b ∷ rest) h)
      ∙ sym (merkle_root-cons p a b (rest ++ x ∷ x ∷ []))
