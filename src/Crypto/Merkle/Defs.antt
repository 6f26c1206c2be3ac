-- ===== src/Crypto/Merkle/Defs.antt =====
-- `MerkleRoot`, and its equations without the accessibility proof.
use mathlib.Core.WellFounded.{Acc}
use chainlang.Prelude.{ℕ, zero, suc, ◌<◌, ◌≡◌, refl, List, [], ◌∷◌, ◌++◌, arith, Bytes, length}
use chainlang.Crypto.Primitives.{Primitives}
use chainlang.Crypto.Hash.{hash_bytes, zero_hash}

abbrev pub Shorter : List Bytes → List Bytes → Type 0
Shorter xs ys = length xs < length ys

shorter_acc : (n : ℕ) (xs : List Bytes) → length xs < n → Acc Shorter xs
shorter_acc zero xs h = elim h [ ]
shorter_acc (suc n) xs h = Acc.intro xs (λ ys hy. shorter_acc n ys (omega arith))

shorter_wf : (xs : List Bytes) → Acc Shorter xs
unfolding shorter_acc
shorter_wf xs = shorter_acc (suc (length xs)) xs (omega arith)

module _ (p : Primitives) where
  -- One level up: the hash of each pair, the last element paired with itself if it is alone.
  unfoldable pub next_level : List Bytes → List Bytes
  next_level [] = []
  next_level (x ∷ []) = hash_bytes p (x ++ x) ∷ []
  next_level (x ∷ y ∷ rest) = hash_bytes p (x ++ y) ∷ next_level rest

  pub length-next_level_le : (xs : List Bytes) → length (next_level xs) < suc (length xs)
  unfolding next_level
  length-next_level_le [] = omega arith
  length-next_level_le (x ∷ []) = omega arith
  length-next_level_le (x ∷ y ∷ rest) = omega (arith, length-next_level_le rest)

  -- A level of two or more is halved.
  pub next_level-Shorter :
      (x y : Bytes) (rest : List Bytes) → Shorter (next_level (x ∷ y ∷ rest)) (x ∷ y ∷ rest)
  unfolding next_level
  next_level-Shorter x y rest = omega (arith, length-next_level_le rest)

  merkle_acc : (hashes : List Bytes) → Acc Shorter hashes → Bytes
  merkle_acc [] w = zero_hash
  merkle_acc (x ∷ []) w = hash_bytes p x
  merkle_acc (x ∷ y ∷ rest) (Acc.intro _ smaller) =
      merkle_acc (next_level (x ∷ y ∷ rest))
        (smaller (next_level (x ∷ y ∷ rest)) (next_level-Shorter x y rest))

  unfoldable pub merkle_root : List Bytes → Bytes
  unfolding merkle_acc shorter_wf hash_bytes next_level
  merkle_root hashes = merkle_acc hashes (shorter_wf hashes)

  merkle_acc_irrelevant :
      (hashes : List Bytes) (v w : Acc Shorter hashes) → merkle_acc hashes v ≡ merkle_acc hashes w
  unfolding merkle_acc
  merkle_acc_irrelevant [] v w = refl
  merkle_acc_irrelevant (x ∷ []) v w = refl
  merkle_acc_irrelevant (x ∷ y ∷ rest) (Acc.intro _ f) (Acc.intro _ g) =
      merkle_acc_irrelevant (next_level (x ∷ y ∷ rest))
        (f (next_level (x ∷ y ∷ rest)) (next_level-Shorter x y rest))
        (g (next_level (x ∷ y ∷ rest)) (next_level-Shorter x y rest))

  merkle_acc-cons :
      (x y : Bytes) (rest : List Bytes) (v : Acc Shorter (x ∷ y ∷ rest))
      (w : Acc Shorter (next_level (x ∷ y ∷ rest)))
      → merkle_acc (x ∷ y ∷ rest) v ≡ merkle_acc (next_level (x ∷ y ∷ rest)) w
  unfolding merkle_acc
  merkle_acc-cons x y rest (Acc.intro _ f) w =
      merkle_acc_irrelevant (next_level (x ∷ y ∷ rest))
        (f (next_level (x ∷ y ∷ rest)) (next_level-Shorter x y rest)) w

  -- The three branches of the source, as equations.
  pub merkle_root-nil : merkle_root [] ≡ zero_hash
  unfolding merkle_root
  merkle_root-nil = refl

  pub merkle_root-one : (x : Bytes) → merkle_root (x ∷ []) ≡ hash_bytes p x
  unfolding merkle_root
  merkle_root-one x = refl

  pub merkle_root-cons :
      (x y : Bytes) (rest : List Bytes)
      → merkle_root (x ∷ y ∷ rest) ≡ merkle_root (next_level (x ∷ y ∷ rest))
  unfolding merkle_root
  merkle_root-cons x y rest =
      merkle_acc-cons x y rest (shorter_wf (x ∷ y ∷ rest)) (shorter_wf (next_level (x ∷ y ∷ rest)))
