-- ===== src/Loadgen/Indices.antt =====
-- The indices that the goroutines of the load generator send.
use chainlang.Prelude.{
  ℕ, zero, suc, ◌+◌, ◌*◌, ◌≤◌, ◌<◌, ◌≡◌, refl, true, false, Bool, subst, Bool-cases, inl, inr, List,
  [], ◌∷◌, All, Distinct, contains, nat_eq, nat_beq, ◌||◌, ltb, arith,
}
use chainlang.Loadgen.{indices}

true_last : (t : Bool) → (t || true) ≡ true
true_last true = refl
true_last false = refl

module _ (total concurrency : ℕ) where
  contains_above :
      (i : ℕ) (js : List ℕ) → All (λ j. (suc i ≤ j) × (j < total)) js → contains js i ≡ false
  unfolding contains
  contains_above i [] h = refl
  contains_above i (j ∷ js) h =
      let apart : nat_beq j i ≡ false = ground (arith, h.0.0) in
      rw (apart, contains_above i js h.1) refl

  -- A goroutine sends the indices that it reaches by steps of the concurrency.
  pub contains-indices :
      (k fuel i : ℕ)
      → i + k * concurrency < total
      → k < fuel
      → contains (indices fuel total concurrency i) (i + k * concurrency) ≡ true
  unfolding indices contains
  contains-indices k zero i below enough = absurd (omega arith)
  contains-indices zero (suc fuel) i below enough = ground arith
  contains-indices (suc k) (suc fuel) i below enough =
      let apart : i + concurrency + k * concurrency ≡ i + suc k * concurrency = omega arith in
      let short : ltb i total ≡ true = ground arith in
      let rest = contains-indices k fuel (i + concurrency) (omega arith) (omega arith) in
      let found =
        subst (λ j. contains (indices fuel total concurrency (i + concurrency)) j ≡ true) apart
          rest in
      rw short (rw found (true_last (nat_beq i (i + suc k * concurrency))))

  -- Every index is from the offset on and below the total.
  pub All-indices :
      (fuel low i : ℕ)
      → low ≤ i
      → All (λ j. (low ≤ j) × (j < total)) (indices fuel total concurrency i)
  unfolding indices
  All-indices zero low i h = tt
  All-indices (suc fuel) low i h = elim (Bool-cases (ltb i total)) [
    | inl short ↦
        let below : i < total = ground arith in
        rw short ((h, below), All-indices fuel low (i + concurrency) (omega arith))
    | inr over ↦ rw over tt
  ]

  -- A goroutine sends no index twice.
  pub indices-Distinct :
      (fuel i : ℕ) → 0 < concurrency → Distinct {A = ℕ} (indices fuel total concurrency i)
  unfolding indices
  indices-Distinct zero i positive = tt
  indices-Distinct (suc fuel) i positive = elim (Bool-cases (ltb i total)) [
    | inl short ↦ rw short (
      contains_above i (indices fuel total concurrency (i + concurrency))
          (All-indices fuel (suc i) (i + concurrency) (omega arith)),
      indices-Distinct fuel (i + concurrency) positive,
    )
    | inr over ↦ rw over tt
  ]
