-- ===== src/State/Ledger/Wrapping.antt =====
-- What `ApplyBlock` does with a transaction whose amount and fee sum to 2^64.
use chainlang.Prelude.{
  ℕ, ◌+◌, ◌<◌, ◌^◌, ◌≡◌, ◌≢◌, ap, ◌∙◌, true, [], ◌∷◌, Bytes, bytes_eq, arith, fold, ==_false,
  ==_refl, sym,
}
use chainlang.Go.Word.{add64, sub64}
use chainlang.Core.Types.{Transaction, Block}
use chainlang.LevelDb.{LevelDb, WritesBatches}
use chainlang.State.Store.{State}
use chainlang.State.Ledger.{apply_block}
use chainlang.State.Ledger.Loading.{stored_balance}
use chainlang.State.Ledger.Spec.{Accounts, spec_tx, spec_fees, spec_block}
use chainlang.State.Ledger.Soundness.{HoldsWords}
use chainlang.State.Ledger.Refinement.{accounts_of, apply_block-balance}

module _ (c : Accounts) (t : Transaction) (wraps : t.amount + t.fee ≡ 2 ^ 64) where
  total_is_zero : add64 t.amount t.fee ≡ 0
  unfolding add64
  total_is_zero = omega arith

  sub-total : (x : ℕ) → x < 2 ^ 64 → sub64 x (add64 t.amount t.fee) ≡ x
  unfolding add64 sub64
  sub-total x w = omega arith

  spec_tx-wraps :
      t.from ≢ t.to
      → c.balance t.from < 2 ^ 64
      → ((spec_tx c t).balance t.to ≡ add64 (c.balance t.to) t.amount)
        × ((spec_tx c t).balance t.from ≡ c.balance t.from)
  unfolding spec_tx
  spec_tx-wraps differ w =
      let none_due = total_is_zero in
      let kept = sub-total (c.balance t.from) w in
      let apart = ==_false t.from t.to differ in
      let apart' = ==_false t.to t.from (λ e. differ (sym e)) in
      let own = ==_refl t.from in let own' = ==_refl t.to in (ground arith, ground arith)

spec_fees-other :
    (c : Accounts) (producer a : Bytes)
    → producer ≢ a
    → (spec_fees producer c).balance a ≡ c.balance a
unfolding spec_fees
spec_fees-other c producer a differ = let apart = ==_false producer a differ in ground arith

-- Where a batch is written whole and the stored numbers are uint64s, a successful `ApplyBlock` of
-- one transaction whose amount and fee sum to 2^64, between two different accounts that are not the
-- producer, takes nothing from the sender and credits the recipient with the whole amount, up to
-- the wrap of the recipient's balance.
pub apply_block_wraps :
    (store : LevelDb) (laws : WritesBatches store) (s : State) (words : HoldsWords s) (b : Block)
    (t : Transaction) {s' : State}
    → b.transactions ≡ t ∷ []
    → t.amount + t.fee ≡ 2 ^ 64
    → t.from ≢ t.to
    → b.validator_address ≢ t.from
    → b.validator_address ≢ t.to
    → apply_block store s b ≡ (s', true)
    → (stored_balance s' t.to ≡ add64 (stored_balance s t.to) t.amount)
      × (stored_balance s' t.from ≡ stored_balance s t.from)
unfolding spec_block
apply_block_wraps store laws s words b t txs wraps differ not_from not_to e =
    let (credited, kept) = spec_tx-wraps (accounts_of s) t wraps differ (words.balances t.from) in
    let run = λ (a : Bytes) (other : b.validator_address ≢ a).
      apply_block-balance store laws s words b a e
      ∙ spec_fees-other (fold spec_tx (accounts_of s) b.transactions) b.validator_address a other
      ∙ ap (λ ts. (fold spec_tx (accounts_of s) ts).balance a) txs in
    (run t.to not_to ∙ credited, run t.from not_from ∙ kept)
