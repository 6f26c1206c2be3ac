-- ===== src/State/Ledger/Refinement.antt =====
-- `ApplyBlock` refines the specification: after a block whose batch was written, every address has the
-- specified balance, whether the block mentions it or not.
use chainlang.Prelude.{◌≡◌, ap, ◌∙◌, true, false, Bytes, List, value_or, fold}
use chainlang.Prelude.Map.{lookup}
use chainlang.LevelDb.{LevelDb, WritesBatches}
use chainlang.Core.Types.{Transaction, Block}
use chainlang.State.Store.{State, balance_key, get_balance_locked, decode_number}
use chainlang.State.Store.Commit.{get-commit, commit_failed}
use chainlang.State.Ledger.{work, ledger_batch, apply_block, run_tx, load_tx, empty_working}
use chainlang.State.Ledger.Spec.{Accounts, spec_block, spec_tx}
use chainlang.State.Ledger.Loading.{
  stored_balance, stored_nonce, balance_of, load-balance_of, load-HasEntries, load-total_fees,
}
use chainlang.State.Ledger.Running.{Simulates, run-Simulates, pay_fees-balance_of}
use chainlang.State.Ledger.Writing.{ledger_batch-balance, decode-found_number}
use chainlang.State.Ledger.Soundness.{HoldsWords, work-IsSound}

-- The accounts that the specification computes from what is stored.
abbrev pub specified : State → Block → Accounts
specified s b = spec_block (stored_balance s) (stored_nonce s) b

abbrev pub accounts_of : State → Accounts
accounts_of s = record { balance = stored_balance s; nonce = stored_nonce s; fees = 0 }

pub loaded-Simulates :
    (s : State) (ts : List Transaction)
    → Simulates s (fold (load_tx s) empty_working ts) (accounts_of s)
unfolding lookup
loaded-Simulates s ts = record {
  balances = load-balance_of s ts empty_working;
  fees = load-total_fees s ts empty_working;
}

work-balance_of :
    (s : State) (b : Block) (a : Bytes) → balance_of s (work s b) a ≡ (specified s b).balance a
unfolding work spec_block
work-balance_of s b a =
    let loaded = fold (load_tx s) empty_working b.transactions in
    pay_fees-balance_of s (fold run_tx loaded b.transactions)
      (fold spec_tx (accounts_of s) b.transactions) b.validator_address a
      (run-Simulates s b.transactions loaded (accounts_of s)
        (load-HasEntries s b.transactions empty_working) (loaded-Simulates s b.transactions))

module _ (store : LevelDb) (laws : WritesBatches store) (s : State) (words : HoldsWords s) where
  -- What is read after a successful `ApplyBlock` is what the working maps hold.
  pub apply_block-balance_of :
      (b : Block) {s' : State} (a : Bytes)
      → apply_block store s b ≡ (s', true)
      → stored_balance s' a ≡ balance_of s (work s b) a
  unfolding apply_block get_balance_locked
  apply_block-balance_of b {s'} a e =
      let w = work s b in
      let sound = work-IsSound s b words in
      ap (λ f. value_or 0 (decode_number f))
        (get-commit store s (ledger_batch w) (balance_key a) laws e
          ∙ ledger_batch-balance w sound (s.db.get (balance_key a)) a)
      ∙ decode-found_number w.balances (s.db.get (balance_key a)) a sound.balances

  -- Where a batch is written whole and the stored numbers are uint64s, every balance after a
  -- successful `ApplyBlock` is the specified one, of the addresses in the block and of all others.
  pub apply_block-balance :
      (b : Block) {s' : State} (a : Bytes)
      → apply_block store s b ≡ (s', true)
      → stored_balance s' a ≡ (specified s b).balance a
  apply_block-balance b a e = apply_block-balance_of b a e ∙ work-balance_of s b a

-- An `ApplyBlock` that returns an error leaves the state as it was.
pub apply_block_failed :
    (store : LevelDb) (s : State) (b : Block) {s' : State}
    → apply_block store s b ≡ (s', false)
    → s' ≡ s
unfolding apply_block
apply_block_failed store s b e = commit_failed store s (ledger_batch (work s b)) e
