-- ===== src/State/Genesis.antt =====
-- state/state.go: `ApplyGenesis`, the batch of the allocation and of the first validators.
pub mod Balances
use chainlang.Prelude.{ℕ, Bool, Option, none, some, List, [], ◌∷◌, ◌++◌, Bytes, if◌then◌else◌, ltb}
use chainlang.Config.{ChainConfig, GenesisAllocation, ValidatorGenesis}
use chainlang.Crypto.Primitives.{Primitives}
use chainlang.Crypto.Signature.{address_from_hex}
use chainlang.LevelDb.{BatchOp, put, LevelDb}
use chainlang.State.Store.{
  State, key_validator_list, set_balance, set_nonce, set_validator_stake, commit,
}

-- An entry whose text is no address is passed over.
abbrev pub account_records : Option Bytes → ℕ → List BatchOp
account_records none amount = []
account_records (some addr) amount = set_balance addr amount ∷ set_nonce addr 0 ∷ []

unfoldable pub allocation_batch : GenesisAllocation → List BatchOp
allocation_batch [] = []
allocation_batch ((text, amount) ∷ entries) =
    account_records (address_from_hex text) amount ++ allocation_batch entries

-- The validators that are accepted: an address, and the least stake.
abbrev pub accepts : ℕ → ValidatorGenesis → Option Bytes
accepts least v = if ltb v.stake least then none else address_from_hex v.address

abbrev pub stake_records : Option Bytes → ℕ → List BatchOp
stake_records none stake = []
stake_records (some addr) stake = set_validator_stake addr stake ∷ []

unfoldable pub stake_batch : ℕ → List ValidatorGenesis → List BatchOp
stake_batch least [] = []
stake_batch least (v ∷ vs) = stake_records (accepts least v) v.stake ++ stake_batch least vs

abbrev pub keep_text : Option Bytes → Bytes → List Bytes → List Bytes
keep_text none text texts = texts
keep_text (some addr) text texts = text ∷ texts

-- `addrs`, the texts of the accepted validators
unfoldable pub accepted_texts : ℕ → List ValidatorGenesis → List Bytes
accepted_texts least [] = []
accepted_texts least (v ∷ vs) = keep_text (accepts least v) v.address (accepted_texts least vs)

abbrev pub texts_record : Primitives → List Bytes → List BatchOp
texts_record p [] = []
texts_record p (x ∷ xs) = put key_validator_list (p.marshal_strings (x ∷ xs)) ∷ []

unfoldable pub genesis_batch :
    Primitives → ChainConfig → GenesisAllocation → List ValidatorGenesis → List BatchOp
unfolding allocation_batch stake_batch accepted_texts
genesis_batch p cfg allocation validators =
    allocation_batch allocation
    ++ (stake_batch cfg.least_stake validators
        ++ texts_record p (accepted_texts cfg.least_stake validators))

unfoldable pub apply_genesis_locked :
    Primitives → LevelDb → State → GenesisAllocation → List ValidatorGenesis → State × Bool
unfolding genesis_batch commit
apply_genesis_locked p store s allocation validators =
    commit store s (genesis_batch p s.cfg allocation validators)

-- The exported method has the same body, under the lock.
unfoldable pub apply_genesis :
    Primitives → LevelDb → State → GenesisAllocation → List ValidatorGenesis → State × Bool
unfolding genesis_batch commit
apply_genesis p store s allocation validators =
    commit store s (genesis_batch p s.cfg allocation validators)
