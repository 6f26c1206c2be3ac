-- ===== src/Tests/Ledger.antt =====
-- Blocks applied to a small database: two accounts after genesis, and a producer.
use chainlang.Prelude.{
  ℕ, ◌+◌, ◌≡◌, ◌≢◌, fold, none, refl, sym, subst, true, false, List, [], ◌∷◌, Bytes, bytes_eq,
  replicate, All, arith, contains, Distinct, bytes_beq,
}
use chainlang.Prelude.Map.{lookup, insert}
use chainlang.Go.Word.{put_uint64, read_uint64, add64, sub64}
use chainlang.Go.Hex.{decode_string}
use chainlang.Config.{GenesisAllocation, default_chain_config}
use chainlang.LevelDb.{LevelDb, BatchOp, memory_db, memory_db-WritesBatches, empty_db}
use chainlang.Crypto.Hash.{zero_hash}
use chainlang.Crypto.Signature.{address_from_hex}
use chainlang.Core.Types.{Transaction, Block}
use chainlang.State.Store.{State, commit, get_balance_locked, get_nonce_locked}
use chainlang.State.Ledger.{apply_block}
use chainlang.State.Ledger.Loading.{stored_balance, stored_nonce}
use chainlang.State.Ledger.Writing.{IsWord}
use chainlang.State.Ledger.Spec.{is_skipped, spec_tx}
use chainlang.State.Ledger.Soundness.{HoldsWords}
use chainlang.State.Ledger.Refinement.{specified, accounts_of, apply_block-balance}
use chainlang.State.Ledger.NonceLoading.{SendersComeFirst}
use chainlang.State.Ledger.Nonces.{apply_block-nonce}
use chainlang.State.Ledger.NonceReset.{apply_block_resets_nonce, Receives}
use chainlang.State.Ledger.Words.{apply_block-HoldsWords}
use chainlang.State.Ledger.Supply.{total, skipped_fees, Fits, apply_block-total}
use chainlang.State.Genesis.{apply_genesis}
use chainlang.State.Genesis.Balances.{
  apply_genesis-balance, apply_genesis-nonce, allocated, allocated-IsWord,
}
use chainlang.Tests.Instance.{instance_p}

abbrev pub alice : Bytes
alice = replicate 20 17

abbrev pub bob : Bytes
bob = replicate 20 34

abbrev pub carol : Bytes
carol = replicate 20 51

abbrev pub payment : Bytes → Bytes → ℕ → ℕ → Transaction
payment from to amount nonce = record {
  from = from;
  to = to;
  amount = amount;
  fee = 100;
  nonce = nonce;
  sender_pubkey = [];
  signature = [];
}

abbrev pub block_of : List Transaction → Block
block_of txs = record {
  height = 1;
  timestamp = 0;
  previous_hash = zero_hash;
  merkle_root = zero_hash;
  validator_address = carol;
  transactions = txs;
  signature = [];
  hash = zero_hash;
}

-- The texts of alice and bob.
abbrev pub allocation : GenesisAllocation
allocation = (replicate 40 b'1', 5_000) ∷ (replicate 40 b'2', 300) ∷ []

abbrev pub fresh : State
fresh = record { db = empty_db; cfg = default_chain_config }

abbrev pub after_genesis : State
after_genesis = (apply_genesis instance_p memory_db fresh allocation []).0

commit-memory_db :
    (s : State) (ops : List BatchOp) → commit memory_db s ops ≡ ((commit memory_db s ops).0, true)
unfolding commit memory_db
commit-memory_db s ops = refl

pub genesis_done : apply_genesis instance_p memory_db fresh allocation [] ≡ (after_genesis, true)
unfolding apply_genesis
genesis_done = commit-memory_db fresh _

pub allocation_words : All (λ (entry : Bytes × ℕ). IsWord entry.1) allocation
allocation_words = (omega arith, (omega arith, tt))

abbrev pub granted : Bytes → ℕ
granted a = allocated (stored_balance fresh) allocation a

apply_genesis-balance_example :
    stored_balance after_genesis bob ≡ allocated (stored_balance fresh) allocation bob
apply_genesis-balance_example =
    apply_genesis-balance instance_p memory_db memory_db-WritesBatches fresh allocation [] bob
      allocation_words genesis_done

fresh-HoldsWords : HoldsWords fresh
unfolding get_balance_locked get_nonce_locked
fresh-HoldsWords = record { balances = λ a. omega arith; nonces = λ a. omega arith }

pub after_genesis-HoldsWords : HoldsWords after_genesis
unfolding get_nonce_locked
after_genesis-HoldsWords = record {
  balances = λ a.
      subst IsWord
        (sym (
          apply_genesis-balance instance_p memory_db memory_db-WritesBatches fresh allocation [] a
            allocation_words genesis_done))
        (allocated-IsWord allocation (stored_balance fresh) a allocation_words
          (fresh-HoldsWords.balances a));
  nonces = λ a.
      subst IsWord
        (sym (
          apply_genesis-nonce instance_p memory_db memory_db-WritesBatches fresh allocation [] a
            refl genesis_done))
        (omega arith);
}

abbrev pub after : State → Block → State
after s b = (apply_block memory_db s b).0

pub applied : (s : State) (b : Block) → apply_block memory_db s b ≡ (after s b, true)
unfolding apply_block
applied s b = commit-memory_db s _

-- The second payment is skipped.
abbrev block_one : Block
block_one = block_of (payment alice bob 1_000 0 ∷ payment bob alice 9_000 0 ∷ [])

balance_run : stored_balance (after after_genesis block_one) bob ≡ 1_300
unfolding apply_block apply_genesis memory_db get_balance_locked get_nonce_locked lookup insert
    bytes_beq address_from_hex decode_string put_uint64 read_uint64 add64 sub64
balance_run = refl

apply_block-balance_example :
    stored_balance (after after_genesis block_one) bob
    ≡ (specified after_genesis block_one).balance bob
apply_block-balance_example =
    apply_block-balance memory_db memory_db-WritesBatches after_genesis after_genesis-HoldsWords
      block_one bob (applied after_genesis block_one)

block_one-HoldsWords : HoldsWords (after after_genesis block_one)
block_one-HoldsWords =
    apply_block-HoldsWords memory_db memory_db-WritesBatches after_genesis after_genesis-HoldsWords
      block_one (applied after_genesis block_one)

-- A database that refuses every write.
abbrev full_disk : LevelDb
full_disk = record { write = λ d ops. none }

refused : apply_block full_disk after_genesis block_one ≡ (after_genesis, false)
unfolding apply_block
refused = refl

-- Bob sends twice and is nobody's recipient before.
abbrev block_two : Block
block_two = block_of (payment bob alice 10 0 ∷ payment bob carol 10 1 ∷ [])

block_two-SendersComeFirst : SendersComeFirst [] block_two.transactions
unfolding contains bytes_beq
block_two-SendersComeFirst = (refl, (refl, tt))

apply_block-nonce_example :
    stored_nonce (after after_genesis block_two) bob ≡ (specified after_genesis block_two).nonce bob
apply_block-nonce_example =
    apply_block-nonce memory_db memory_db-WritesBatches after_genesis after_genesis-HoldsWords
      block_two bob block_two-SendersComeFirst (applied after_genesis block_two)

-- Then bob, whose nonce is 2, is paid and pays in one block.
abbrev block_three : Block
block_three = block_of (payment alice bob 1_000 0 ∷ payment bob carol 500 2 ∷ [])

abbrev state_two : State
state_two = after after_genesis block_two

nonce_before : stored_nonce state_two bob ≡ 2
unfolding apply_block apply_genesis memory_db get_balance_locked get_nonce_locked lookup insert
    bytes_beq address_from_hex decode_string put_uint64 read_uint64 add64 sub64
nonce_before = refl

alice_is_not_bob : alice ≢ bob
alice_is_not_bob e = cc e

funded :
    is_skipped
      (fold spec_tx (accounts_of state_two) (payment alice bob 1_000 0 ∷ [])).balance
      (payment bob carol 500 2)
    ≡ false
unfolding spec_tx apply_block apply_genesis memory_db get_balance_locked get_nonce_locked lookup
    insert bytes_beq address_from_hex decode_string put_uint64 read_uint64 add64 sub64
funded = refl

bob-Receives : Receives bob (payment alice bob 1_000 0 ∷ [])
unfolding contains bytes_beq
bob-Receives = refl

apply_block_resets_nonce_example : stored_nonce (after state_two block_three) bob ≡ 1
apply_block_resets_nonce_example =
    apply_block_resets_nonce memory_db memory_db-WritesBatches state_two
      (apply_block-HoldsWords memory_db memory_db-WritesBatches after_genesis
        after_genesis-HoldsWords block_two (applied after_genesis block_two))
      block_three (payment alice bob 1_000 0 ∷ []) (payment bob carol 500 2) refl
      (alice_is_not_bob, tt) bob-Receives funded (applied state_two block_three)

abbrev everyone : List Bytes
everyone = alice ∷ bob ∷ carol ∷ []

everyone-Distinct : Distinct everyone
unfolding contains bytes_beq
everyone-Distinct = (refl, (refl, (refl, tt)))

first_payment-Fits : Fits everyone (payment alice bob 1_000 0)
unfolding contains bytes_beq
first_payment-Fits = record { sender = refl; recipient = refl; no_wrap = omega arith }

second_payment-Fits : Fits everyone (payment bob alice 9_000 0)
unfolding contains bytes_beq
second_payment-Fits = record { sender = refl; recipient = refl; no_wrap = omega arith }

total_before : total (stored_balance after_genesis) everyone ≡ 5_300
unfolding apply_block apply_genesis memory_db get_balance_locked get_nonce_locked lookup insert
    bytes_beq address_from_hex decode_string put_uint64 read_uint64 add64 sub64
total_before = refl

producer_listed : contains everyone block_one.validator_address ≡ true
unfolding contains bytes_beq
producer_listed = refl

-- The block mints the fee of the payment that it skips.
skipped_one : skipped_fees (accounts_of after_genesis) block_one.transactions ≡ 100
unfolding spec_tx apply_block apply_genesis memory_db get_balance_locked get_nonce_locked lookup
    insert bytes_beq address_from_hex decode_string put_uint64 read_uint64 add64 sub64
skipped_one = refl

apply_block-total_example :
    total (stored_balance (after after_genesis block_one)) everyone
    ≡ total (stored_balance after_genesis) everyone
      + skipped_fees (accounts_of after_genesis) block_one.transactions
apply_block-total_example =
    apply_block-total memory_db memory_db-WritesBatches after_genesis after_genesis-HoldsWords
      block_one everyone everyone-Distinct (first_payment-Fits, (second_payment-Fits, tt))
      producer_listed (omega (arith, total_before)) (applied after_genesis block_one)
