-- ===== src/Consensus.antt =====
-- consensus/consensus.go: the ordered validator set and the round robin over it.
pub mod RoundRobin
use chainlang.Prelude.{
  ℕ, ◌%◌, Bool, false, Option, none, some, List, [], ◌∷◌, Bytes, bytes_eq, ◌==◌, nat_beq, ltb,
  length, get_elem?, if◌then◌else◌, ◌||◌,
}
use chainlang.Config.{ValidatorGenesis, min_stake}
use chainlang.Crypto.Signature.{address_from_hex, zero_address}
use chainlang.Core.Types.{Block}

pub record Validator : Type 0 where
  pub address : Bytes
  pub stake : ℕ

-- `Set`; the Go slice is the list.
abbrev pub ValidatorSet : Type 0
ValidatorSet = List Validator

abbrev pub keep_genesis : Option Bytes → ℕ → ValidatorSet → ValidatorSet
keep_genesis none stake rest = rest
keep_genesis (some addr) stake rest =
    if ltb stake min_stake then rest else record { address = addr; stake = stake } ∷ rest

unfoldable pub new_set : List ValidatorGenesis → ValidatorSet
new_set [] = []
new_set (g ∷ gs) = keep_genesis (address_from_hex g.address) g.stake (new_set gs)

abbrev pub new_set_from_validators : List Validator → ValidatorSet
new_set_from_validators list = list

-- `s.list[idx].Address`. The index is in range, so that the first case does not arise.
abbrev pub address_at : Option Validator → Bytes
address_at none = zero_address
address_at (some v) = v.address

unfoldable pub validator_for_height : ValidatorSet → ℕ → Bytes
validator_for_height set height =
    if nat_beq (length set) 0
    then zero_address
    else address_at (get_elem? set (height % length set))

unfoldable pub size : ValidatorSet → ℕ
size set = length set

unfoldable pub verify_block_validator : ValidatorSet → Block → Bool
unfolding validator_for_height
verify_block_validator set b = validator_for_height set b.height == b.validator_address

unfoldable pub is_validator : ValidatorSet → Bytes → Bool
is_validator [] addr = false
is_validator (v ∷ vs) addr = v.address == addr || is_validator vs addr
