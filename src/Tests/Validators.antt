-- ===== src/Tests/Validators.antt =====
-- Two validators of genesis, one of which is slashed.
use chainlang.Prelude.{
  ◌≡◌, ◌+◌, bytes_beq, refl, true, some, List, [], ◌∷◌, Bytes, All, arith, replicate,
}
use chainlang.Go.Word.{put_uint64, read_uint64}
use chainlang.Go.Hex.{decode_string}
use chainlang.Config.{min_stake, default_chain_config}
use chainlang.LevelDb.{memory_db, memory_db-WritesBatches, found}
use chainlang.Crypto.Signature.{IsAddress, address_from_hex}
use chainlang.State.Store.{State, key_validator_list, get_validator_stake_locked}
use chainlang.State.Genesis.{apply_genesis}
use chainlang.State.Validators.{Validator, IsAscii, collect, get_validator_set, slash_validator}
use chainlang.State.Validators.Slashing.{others, get_validator_set-slash_validator}
use chainlang.Tests.Instance.{instance_p, instance-EncodesStrings}
use chainlang.Tests.Ledger.{fresh, alice, bob}

abbrev texts : List Bytes
texts = replicate 40 b'1' ∷ replicate 40 b'2' ∷ []

abbrev staked : State
staked =
    (apply_genesis instance_p memory_db fresh [] (
      record { address = replicate 40 b'1'; stake = min_stake }
      ∷ record { address = replicate 40 b'2'; stake = min_stake + 1 }
      ∷ [])).0

abbrev validators : List Validator
validators =
    record { address = alice; stake = min_stake }
    ∷ record { address = bob; stake = min_stake + 1 }
    ∷ []

set_before : get_validator_set instance_p staked ≡ some validators
unfolding get_validator_set collect get_validator_stake_locked put_uint64 read_uint64 apply_genesis
    instance_p memory_db default_chain_config address_from_hex decode_string bytes_beq
set_before = refl

list_stored : staked.db.get key_validator_list ≡ found (instance_p.marshal_strings texts)
unfolding apply_genesis instance_p memory_db default_chain_config address_from_hex decode_string
    bytes_beq
list_stored = refl

alice-IsAddress : IsAddress alice
alice-IsAddress = record { size = refl; bytes = ground arith }

texts-IsAscii : All IsAscii texts
texts-IsAscii = (ground arith, (ground arith, tt))

abbrev slashed : State
slashed = (slash_validator instance_p memory_db staked alice).0

slashes : slash_validator instance_p memory_db staked alice ≡ (slashed, true)
unfolding slash_validator apply_genesis instance_p memory_db default_chain_config address_from_hex
    decode_string bytes_beq
slashes = refl

get_validator_set-slash_validator_example :
    get_validator_set instance_p slashed ≡ some (others alice validators)
get_validator_set-slash_validator_example =
    get_validator_set-slash_validator instance_p memory_db staked alice
      (instance_p.marshal_strings texts) texts validators instance-EncodesStrings
      memory_db-WritesBatches alice-IsAddress list_stored
      (instance-EncodesStrings.unmarshal-marshal texts texts-IsAscii) texts-IsAscii set_before
      slashes
