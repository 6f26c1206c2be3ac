-- ===== src/State/Ledger.antt =====
-- state/state.go, `ApplyBlock`: the cached balances and nonces, the loop over the transactions, the
-- fees, and the batch.
pub mod Spec
pub mod Loading
pub mod Running
pub mod Writing
pub mod Soundness
pub mod Refinement
pub mod Supply
pub mod NonceLoading
pub mod Nonces
pub mod Words
pub mod NonceReset
pub mod Wrapping
use chainlang.Prelude.{
  ℕ, ◌+◌, Bool, List, [], ◌++◌, map, Bytes, bytes_eq, if◌then◌else◌, ltb, value_or, is_some, not,
  fold,
}
use chainlang.Prelude.Map.{Map, lookup, insert}
use chainlang.Go.Word.{add64, sub64}
use chainlang.LevelDb.{LevelDb, BatchOp}
use chainlang.Core.Types.{Transaction, Block}
use chainlang.State.Store.{
  State, get_balance_locked, get_nonce_locked, set_balance, set_nonce, commit,
}

-- The maps `balances` and `nonces`, and `totalFees`.
pub record Working : Type 0 where
  pub balances : Map Bytes ℕ
  pub nonces : Map Bytes ℕ
  pub total_fees : ℕ

-- `m[k]`: a missing key reads as 0.
abbrev pub at : Map Bytes ℕ → Bytes → ℕ
at m k = value_or 0 (lookup k m)

-- `_, ok := m[k]`
abbrev pub has_key : Map Bytes ℕ → Bytes → Bool
has_key m k = is_some (lookup k m)

abbrev pub load_sender : State → Working → Bytes → Working
load_sender s w addr =
    if not (has_key w.balances addr)
    then record w {
      balances = insert addr (value_or 0 (get_balance_locked s addr)) w.balances;
      nonces = insert addr (value_or 0 (get_nonce_locked s addr)) w.nonces;
    }
    else w

abbrev pub load_balance : State → Working → Bytes → Working
load_balance s w addr =
    if not (has_key w.balances addr)
    then record w { balances = insert addr (value_or 0 (get_balance_locked s addr)) w.balances }
    else w

-- The first loop, one transaction.
unfoldable pub load_tx : State → Working → Transaction → Working
load_tx s w tx = load_balance s (load_sender s w tx.from) tx.to

-- The second loop, one transaction.
unfoldable pub run_tx : Working → Transaction → Working
run_tx w tx =
    let total = add64 tx.amount tx.fee in
    let fees = add64 w.total_fees tx.fee in
    if ltb (at w.balances tx.from) total
    then record w { total_fees = fees }
    else let debited = insert tx.from (sub64 (at w.balances tx.from) total) w.balances in
      record {
        balances = insert tx.to (add64 (at debited tx.to) tx.amount) debited;
        nonces = insert tx.from (add64 (at w.nonces tx.from) 1) w.nonces;
        total_fees = fees;
      }

-- The fees go to the block's producer.
unfoldable pub pay_fees : State → Bytes → Working → Working
pay_fees s producer w =
    let loaded = load_balance s w producer in
    if ltb 0 w.total_fees
    then record loaded {
      balances = insert producer (add64 (at loaded.balances producer) w.total_fees) loaded.balances;
    }
    else w

abbrev pub empty_working : Working
empty_working = record { balances = []; nonces = []; total_fees = 0 }

-- The batch holds each entry of the two maps once; the order in which Go ranges over a map is not
-- fixed, and here it is the order of the list.
unfoldable pub ledger_batch : Working → List BatchOp
ledger_batch w =
    map (λ entry. set_balance entry.0 entry.1) w.balances
    ++ map (λ entry. set_nonce entry.0 entry.1) w.nonces

-- The three passes over the block's transactions.
unfoldable pub work : State → Block → Working
unfolding load_tx run_tx pay_fees
work s b =
    pay_fees s b.validator_address
      (fold run_tx (fold (load_tx s) empty_working b.transactions) b.transactions)

unfoldable pub apply_block_locked : LevelDb → State → Block → State × Bool
unfolding work ledger_batch commit
apply_block_locked store s b = commit store s (ledger_batch (work s b))

-- The exported method has the same body, under the lock.
unfoldable pub apply_block : LevelDb → State → Block → State × Bool
unfolding work ledger_batch commit
apply_block store s b = commit store s (ledger_batch (work s b))
