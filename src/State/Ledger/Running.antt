-- ===== src/State/Ledger/Running.antt =====
-- The second loop and the fees, against the specification: with an entry for every sender and
-- recipient the cached balances move as the specified ones.
use chainlang.Prelude.{
  ℕ, ◌≡◌, true, ap, List, [], ◌∷◌, Bytes, bytes_eq, ==_refl, ◌∙◌, fold, arith, All, All-map_of,
}
use chainlang.Prelude.Map.{lookup, insert, lookup-insert}
use chainlang.Go.Word.{add64, sub64}
use chainlang.Core.Types.{Transaction}
use chainlang.State.Store.{State}
use chainlang.State.Ledger.{Working, at, run_tx, load_balance, pay_fees}
use chainlang.State.Ledger.Spec.{Accounts, update, spec_tx, spec_fees}
use chainlang.State.Ledger.Loading.{
  balance_of, is_loaded, HasEntries, load_balance-balance_of, load_balance-is_loaded,
}

module _ (s : State) where
  -- The balances that would be written and the fees are those of the specification.
  pub record Simulates (w : Working) (c : Accounts) : Type 0 where
    pub balances : (a : Bytes) → balance_of s w a ≡ c.balance a
    pub fees : w.total_fees ≡ c.fees

  balance_of-insert :
      (w w' : Working) (k : Bytes) (v : ℕ) (a : Bytes)
      → w'.balances ≡ insert k v w.balances
      → balance_of s w' a ≡ update (balance_of s w) k v a
  balance_of-insert w w' k v a e =
      ground (arith, ap (λ m. lookup a m) e, lookup-insert k a v w.balances)

  pub at-is_loaded :
      (w : Working) (a : Bytes) → is_loaded s w a ≡ true → at w.balances a ≡ balance_of s w a
  at-is_loaded w a h = ground arith

  at-insert :
      (w : Working) (k a : Bytes) (v : ℕ)
      → is_loaded s w a ≡ true
      → at (insert k v w.balances) a ≡ update (balance_of s w) k v a
  at-insert w k a v h = ground (arith, lookup-insert k a v w.balances)

  run_tx-balance_of :
      (w : Working) (c : Accounts) (t : Transaction) (a : Bytes)
      → Simulates w c
      → HasEntries s w t
      → balance_of s (run_tx w t) a ≡ (spec_tx c t).balance a
  unfolding run_tx spec_tx
  run_tx-balance_of w c t a sim has =
      let v = sub64 (at w.balances t.from) (add64 t.amount t.fee) in
      let debited = insert t.from v w.balances in
      let x = add64 (at debited t.to) t.amount in
      ground (
        arith,
        at-is_loaded w t.from has.0,
        at-insert w t.from t.to v has.1,
        lookup-insert t.to a x debited,
        lookup-insert t.from a v w.balances,
        sim.balances t.from,
        sim.balances t.to,
        sim.balances a,
      )

  run_tx-fees :
      (w : Working) (c : Accounts) (t : Transaction)
      → Simulates w c
      → HasEntries s w t
      → (run_tx w t).total_fees ≡ (spec_tx c t).fees
  unfolding run_tx spec_tx
  run_tx-fees w c t sim has =
      ground (arith, sim.fees, sim.balances t.from, at-is_loaded w t.from has.0)

  run_tx-is_loaded :
      (w : Working) (t : Transaction) (a : Bytes)
      → is_loaded s w a ≡ true
      → is_loaded s (run_tx w t) a ≡ true
  unfolding run_tx
  run_tx-is_loaded w t a h =
      let v = sub64 (at w.balances t.from) (add64 t.amount t.fee) in
      let debited = insert t.from v w.balances in
      ground (
        arith,
        lookup-insert t.to a (add64 (at debited t.to) t.amount) debited,
        lookup-insert t.from a v w.balances,
      )

  pub run_tx-HasEntries :
      (w : Working) (t : Transaction) (ts : List Transaction)
      → All (HasEntries s w) ts
      → All (HasEntries s (run_tx w t)) ts
  run_tx-HasEntries w t ts h =
      All-map_of (HasEntries s w) (HasEntries s (run_tx w t))
        (λ u e. (run_tx-is_loaded w t u.from e.0, run_tx-is_loaded w t u.to e.1)) ts h

  pub run_tx-Simulates :
      (w : Working) (c : Accounts) (t : Transaction)
      → Simulates w c
      → HasEntries s w t
      → Simulates (run_tx w t) (spec_tx c t)
  run_tx-Simulates w c t sim has = record {
    balances = λ a. run_tx-balance_of w c t a sim has;
    fees = run_tx-fees w c t sim has;
  }

  -- The loop over the transactions simulates the specification.
  pub run-Simulates :
      (ts : List Transaction) (w : Working) (c : Accounts)
      → All (HasEntries s w) ts
      → Simulates w c
      → Simulates (fold run_tx w ts) (fold spec_tx c ts)
  run-Simulates [] w c has sim = sim
  run-Simulates (t ∷ ts) w c has sim =
      run-Simulates ts (run_tx w t) (spec_tx c t) (run_tx-HasEntries w t ts has.1)
        (run_tx-Simulates w c t sim has.0)

  -- So does the payment of the fees.
  pub pay_fees-balance_of :
      (w : Working) (c : Accounts) (producer a : Bytes)
      → Simulates w c
      → balance_of s (pay_fees s producer w) a ≡ (spec_fees producer c).balance a
  unfolding pay_fees spec_fees
  pay_fees-balance_of w c producer a sim =
      let loaded = load_balance s w producer in
      let known : is_loaded s loaded producer ≡ true =
        load_balance-is_loaded s w producer producer ∙ rw (==_refl producer) in
      ground (
        arith,
        at-is_loaded loaded producer known,
        load_balance-balance_of s w producer producer,
        load_balance-balance_of s w producer a,
        lookup-insert producer a (add64 (at loaded.balances producer) w.total_fees) loaded.balances,
        sim.balances producer,
        sim.balances a,
        sim.fees,
      )
