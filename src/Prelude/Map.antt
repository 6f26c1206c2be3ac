-- ===== src/Prelude/Map.antt =====
-- Go's `map` with comparable keys, as an association list that holds each key once.
use mathlib.Core.Path.{◌≡◌, refl, sym, subst, ◌∙◌}
use mathlib.Core.Logic.{inl, inr}
use mathlib.Core.Option.{Option, none, some, some-injective}
use mathlib.Core.List.{List, [], ◌∷◌}
use native.Mathlib.Omega.{arith}
use chainlang.Prelude.Tests.{if◌then◌else◌, Bool-cases}
use chainlang.Prelude.Equality.{Comparable, ◌==◌, ==_refl, ==_cases, ==_false}

abbrev pub Map {ℓ} : Type ℓ → Type ℓ → Type ℓ
Map K V = List (K × V)

module _ {ℓ} {K V : Type ℓ} ⦃e : Comparable K⦄ where
  -- `v, ok := m[k]`
  unfoldable pub lookup : K → Map K V → Option V
  lookup k [] = none
  lookup k ((key, value) ∷ rest) = if key == k then some value else lookup k rest

  -- `m[k] = v`
  unfoldable pub insert : K → V → Map K V → Map K V
  insert k v [] = (k, v) ∷ []
  insert k v ((key, value) ∷ rest) =
      if key == k then (k, v) ∷ rest else (key, value) ∷ insert k v rest

  -- `delete(m, k)`
  unfoldable pub erase : K → Map K V → Map K V
  erase k [] = []
  erase k ((j, w) ∷ m) = let rest = erase k m in if j == k then rest else (j, w) ∷ rest

  pub lookup-insert :
      (written asked : K) (v : V) (m : Map K V)
      → lookup asked (insert written v m) ≡ (if written == asked then some v else lookup asked m)
  unfolding insert lookup
  lookup-insert written asked v [] = refl
  lookup-insert written asked v ((key, value) ∷ rest) = ground (
    arith,
    e.same_iff written asked,
    e.same_iff key written,
    e.same_iff key asked,
    lookup-insert written asked v rest,
  )

  pub lookup-insert_self : (k : K) (v : V) (m : Map K V) → lookup k (insert k v m) ≡ some v
  lookup-insert_self k v m = rw (lookup-insert, ==_refl k)

  pub lookup-erase :
      (k j : K) (m : Map K V) → lookup j (erase k m) ≡ (if k == j then none else lookup j m)
  unfolding lookup erase
  lookup-erase k j [] = ground arith
  lookup-erase k j ((i, w) ∷ m) =
      ground (arith, e.same_iff k j, e.same_iff i k, e.same_iff i j, lookup-erase k j m)

module _ {ℓ κ} {K V : Type ℓ} ⦃e : Comparable K⦄ (P : V → Type κ) where
  -- No key is listed twice, and every value satisfies `P`.
  abbrev pub IsProper : Map K V → Type (ℓ ⊔ κ)
  IsProper [] = Unit
  IsProper ((k, v) ∷ m) = (lookup k m ≡ none) × P v × IsProper m

  pub insert-IsProper : (k : K) (v : V) (m : Map K V) → P v → IsProper m → IsProper (insert k v m)
  unfolding insert lookup
  insert-IsProper k v [] p h = (refl, p, tt)
  insert-IsProper k v ((j, w) ∷ m) p h = elim (==_cases j k) [
    | inl (hit, same) ↦ rw hit (subst (λ i. lookup i m ≡ none) same h.0, p, h.2)
    | inr (miss, differ) ↦ rw miss (
      lookup-insert k j v m ∙ rw (==_false k j (λ q. differ (sym q))) h.0,
      h.1,
      insert-IsProper k v m p h.2,
    )
  ]

  pub lookup-IsProper : (k : K) {v : V} (m : Map K V) → IsProper m → lookup k m ≡ some v → P v
  unfolding lookup
  lookup-IsProper k [] h found_v = cc
  lookup-IsProper k {v} ((j, w) ∷ m) h found_v = elim (Bool-cases (j == k)) [
    | inl hit ↦ subst P (some-injective _ _ (rw hit at found_v)) h.1
    | inr miss ↦ lookup-IsProper k m h.2 (rw miss at found_v)
  ]
