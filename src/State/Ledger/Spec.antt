-- ===== src/State/Ledger/Spec.antt =====
-- What a block does to the accounts, with no caches: functions from addresses to balances and
-- nonces, on which each transaction acts in turn.
use chainlang.Prelude.{ℕ, Bool, Bytes, bytes_eq, ◌==◌, if◌then◌else◌, ltb, fold}
use chainlang.Go.Word.{add64, sub64}
use chainlang.Core.Types.{Transaction, Block}

pub record Accounts : Type 0 where
  pub balance : Bytes → ℕ
  pub nonce : Bytes → ℕ
  pub fees : ℕ

abbrev pub update : (Bytes → ℕ) → Bytes → ℕ → Bytes → ℕ
update f k v a = if k == a then v else f a

-- A transaction whose sender cannot pay for it changes nothing but the fees collected.
abbrev pub is_skipped : (Bytes → ℕ) → Transaction → Bool
is_skipped balance t = ltb (balance t.from) (add64 t.amount t.fee)

abbrev pub transfer : (Bytes → ℕ) → Transaction → Bytes → ℕ
transfer balance t =
    let debited = update balance t.from (sub64 (balance t.from) (add64 t.amount t.fee)) in
    update debited t.to (add64 (debited t.to) t.amount)

unfoldable pub spec_tx : Accounts → Transaction → Accounts
spec_tx c t = if is_skipped c.balance t then record c { fees = add64 c.fees t.fee } else record {
  balance = transfer c.balance t;
  nonce = update c.nonce t.from (add64 (c.nonce t.from) 1);
  fees = add64 c.fees t.fee;
}

unfoldable pub spec_fees : Bytes → Accounts → Accounts
spec_fees producer c =
    if ltb 0 c.fees
    then record c { balance = update c.balance producer (add64 (c.balance producer) c.fees) }
    else c

-- The whole block: the transactions in order, then all their fees to the producer.
unfoldable pub spec_block : (Bytes → ℕ) → (Bytes → ℕ) → Block → Accounts
unfolding spec_fees spec_tx
spec_block balance nonce b =
    spec_fees b.validator_address
      (fold spec_tx (record { balance = balance; nonce = nonce; fees = 0 }) b.transactions)
