-- ===== src/Consensus/RoundRobin.antt =====
-- The producer of a height: a member of the set, the same after as many heights as the set is long,
-- and each member in its turn.
use native.Mathlib.Nat.{mul-add-mod_self_right, mod-eq_of_lt}
use chainlang.Prelude.{
  ℕ, zero, suc, ◌+◌, ◌*◌, ◌%◌, ◌≤◌, ◌<◌, ◌≡◌, refl, ap, sym, ◌∙◌, true, Option, none, some, List,
  [], ◌∷◌, Bytes, bytes_eq, bytes_beq_iff, ==_refl, length, get_elem?, arith, All,
}
use chainlang.Config.{ValidatorGenesis, min_stake}
use chainlang.Crypto.Signature.{address_from_hex}
use chainlang.Core.Types.{Block}
use chainlang.Consensus.{
  Validator, ValidatorSet, keep_genesis, new_set, validator_for_height, verify_block_validator,
  is_validator, size,
}

get_elem?-in_range :
    (vs : ValidatorSet) (i : ℕ) → i < length vs → (v : Validator) × (get_elem? vs i ≡ some v)
get_elem?-in_range [] i h = elim h [ ]
get_elem?-in_range (v ∷ vs) zero h = (v, refl)
get_elem?-in_range (v ∷ vs) (suc i) h = get_elem?-in_range vs i (omega arith)

is_validator-get_elem? :
    (vs : ValidatorSet) (i : ℕ) {v : Validator}
    → get_elem? vs i ≡ some v
    → is_validator vs v.address ≡ true
unfolding is_validator
is_validator-get_elem? [] i e = cc
is_validator-get_elem? (w ∷ vs) zero {v} e = ground (arith, ==_refl v.address)
is_validator-get_elem? (w ∷ vs) (suc i) e = ground (arith, is_validator-get_elem? vs i e)

module _ (set : ValidatorSet) (nonempty : 0 < size set) where
  producer_at :
      (height : ℕ) {v : Validator}
      → get_elem? set (height % length set) ≡ some v
      → validator_for_height set height ≡ v.address
  unfolding validator_for_height size
  producer_at height e = ground arith

  -- The producer of every height is the member of a non-empty set that the height's remainder picks.
  pub validator_for_height-is_validator :
      (height : ℕ)
      → (v : Validator) × (get_elem? set (height % size set) ≡ some v)
        × (validator_for_height set height ≡ v.address)
        × (is_validator set (validator_for_height set height) ≡ true)
  unfolding size
  validator_for_height-is_validator height =
      let (v, e) = get_elem?-in_range set (height % length set) (grind arith) in
      let at = producer_at height e in
      (v, e, at, ap (is_validator set) at ∙ is_validator-get_elem? set (height % length set) e)

  -- For a non-empty set, the producer of height `q * size + i` is the member of index `i`, for
  -- every round `q` and every index below the size.
  pub validator_for_height_turn :
      (q i : ℕ) {v : Validator}
      → get_elem? set i ≡ some v
      → i < size set
      → validator_for_height set (q * size set + i) ≡ v.address
  unfolding size
  validator_for_height_turn q i e h =
      let turn = mul-add-mod_self_right q (length set) i ∙ mod-eq_of_lt h in
      producer_at (q * length set + i) (ap (get_elem? set) turn ∙ e)

  -- For a non-empty set, a block that passes `VerifyBlockValidator` was produced by a member of the
  -- set, and all blocks of its height that pass have the same producer.
  pub verify_block_validator_unique :
      (b c : Block)
      → verify_block_validator set b ≡ true
      → verify_block_validator set c ≡ true
      → b.height ≡ c.height
      → (is_validator set b.validator_address ≡ true) × (b.validator_address ≡ c.validator_address)
  unfolding verify_block_validator
  verify_block_validator_unique b c hb hc same =
      let producer_b =
        (bytes_beq_iff (validator_for_height set b.height) b.validator_address).0 hb in
      let producer_c =
        (bytes_beq_iff (validator_for_height set c.height) c.validator_address).0 hc in
      let (_, _, _, member) = validator_for_height-is_validator b.height in
      (
        ap (is_validator set) (sym producer_b) ∙ member,
        sym producer_b ∙ ap (validator_for_height set) same ∙ producer_c,
      )

keep_genesis-stakes :
    (o : Option Bytes) (stake : ℕ) (rest : ValidatorSet)
    → All (λ (v : Validator). min_stake ≤ v.stake) rest
    → All (λ (v : Validator). min_stake ≤ v.stake) (keep_genesis o stake rest)
keep_genesis-stakes none stake rest h = h
keep_genesis-stakes (some addr) stake rest h = ground arith

-- Every validator that `NewSet` takes from genesis has at least the minimum stake.
pub new_set-stakes :
    (gs : List ValidatorGenesis) → All (λ (v : Validator). min_stake ≤ v.stake) (new_set gs)
unfolding new_set
new_set-stakes [] = tt
new_set-stakes (g ∷ gs) =
    keep_genesis-stakes (address_from_hex g.address) g.stake (new_set gs) (new_set-stakes gs)
