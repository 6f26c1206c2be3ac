-- ===== src/Prelude/Equality.antt =====
-- Decidable equality as an interface, its instances for numbers and byte strings, and byte strings.
use Prim.Native.Nat.{ℕ}
use mathlib.Core.Path.{◌≡◌, refl}
use mathlib.Core.Logic.{◌↔◌, ◌≢◌, ◌⊎◌, inl, inr}
use mathlib.Core.Bool.{Bool, true, false, ◌&&◌, ◌||◌}
use mathlib.Core.List.{List, [], ◌∷◌}
use native.Mathlib.Omega.{arith}
use chainlang.Prelude.Tests.{nat_beq, Bool-cases}

pub record Comparable {ℓ} (A : Type ℓ) : Type ℓ where
  pub same : A → A → Bool
  pub same_iff : (x y : A) → (same x y ≡ true) ↔ (x ≡ y)

infix 50 ◌==◌
abbrev pub ◌==◌ {ℓ} : {A : Type ℓ} ⦃e : Comparable A⦄ → A → A → Bool
◌==◌ ⦃e⦄ = e.same

-- Byte arrays, byte slices and strings are all lists of byte values.
abbrev pub Bytes : Type 0
Bytes = List ℕ

pub nat_beq_iff : (a b : ℕ) → (nat_beq a b ≡ true) ↔ (a ≡ b)
nat_beq_iff a b = ground arith

unfoldable pub bytes_beq : Bytes → Bytes → Bool
bytes_beq [] [] = true
bytes_beq [] (b ∷ bs) = false
bytes_beq (a ∷ as') [] = false
bytes_beq (a ∷ as') (b ∷ bs) = nat_beq a b && bytes_beq as' bs

pub bytes_beq_iff : (a b : Bytes) → (bytes_beq a b ≡ true) ↔ (a ≡ b)
unfolding bytes_beq
bytes_beq_iff [] [] = (λ _. refl, λ _. refl)
bytes_beq_iff [] (b ∷ bs) = (λ h. cc, λ h. cc)
bytes_beq_iff (a ∷ as') [] = (λ h. cc, λ h. cc)
bytes_beq_iff (a ∷ as') (b ∷ bs) =
    (λ h. ground (arith, bytes_beq_iff as' bs), λ h. ground (arith, bytes_beq_iff as' bs))

instance abbrev pub nat_eq : Comparable ℕ
nat_eq = record { same = nat_beq; same_iff = nat_beq_iff }

instance abbrev pub bytes_eq : Comparable Bytes
bytes_eq = record { same = bytes_beq; same_iff = bytes_beq_iff }

module _ {ℓ} {A : Type ℓ} ⦃e : Comparable A⦄ where
  pub ==_refl : (a : A) → (a == a) ≡ true
  ==_refl a = (e.same_iff a a).1 refl

  -- A comparison decides: the values are the same, or they differ.
  pub ==_cases : (a b : A) → (((a == b) ≡ true) × (a ≡ b)) ⊎ (((a == b) ≡ false) × (a ≢ b))
  ==_cases a b = elim (Bool-cases (a == b)) [
    | inl h ↦ inl (h, (e.same_iff a b).0 h)
    | inr h ↦ inr (h, λ equal. cc ((e.same_iff a b).1 equal))
  ]

  pub ==_false : (a b : A) → a ≢ b → (a == b) ≡ false
  ==_false a b differ = elim (Bool-cases (a == b)) [
    | inl h ↦ absurd (differ ((e.same_iff a b).0 h))
    | inr h ↦ h
  ]

  unfoldable pub contains : List A → A → Bool
  contains [] a = false
  contains (x ∷ xs) a = x == a || contains xs a

  -- No element stands twice.
  abbrev pub Distinct : List A → Type 0
  Distinct [] = Unit
  Distinct (x ∷ xs) = (contains xs x ≡ false) × Distinct xs
