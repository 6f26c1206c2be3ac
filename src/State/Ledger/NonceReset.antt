-- ===== src/State/Ledger/NonceReset.antt =====
-- An address whose first appearance in a block is as a recipient has no nonce cached, and its first
-- transaction counts from zero.
use chainlang.Prelude.{
  ◌≡◌, ◌≢◌, refl, ap, ◌∙◌, true, false, some, List, [], ◌∷◌, ◌++◌, map, Bytes, bytes_eq, value_or,
  fold, fold-append, arith, All, contains, ◌==◌, ==_refl, ==_false, Bool-cases, inl, inr, All-split,
}
use chainlang.Prelude.Map.{lookup, lookup-insert, lookup-insert_self}
use chainlang.Go.Word.{add64}
use chainlang.LevelDb.{LevelDb, WritesBatches}
use chainlang.Core.Types.{Transaction, Block}
use chainlang.State.Store.{State}
use chainlang.State.Ledger.{
  Working, at, has_key, load_sender, load_tx, run_tx, empty_working, work, apply_block,
}
use chainlang.State.Ledger.Spec.{Accounts, is_skipped, spec_tx}
use chainlang.State.Ledger.Loading.{
  stored_nonce, HasEntries, load_tx-is_loaded, load-keeps, load-HasEntries,
}
use chainlang.State.Ledger.Running.{Simulates, at-is_loaded, run-Simulates, run_tx-HasEntries}
use chainlang.State.Ledger.Soundness.{HoldsWords}
use chainlang.State.Ledger.Refinement.{accounts_of, loaded-Simulates}
use chainlang.State.Ledger.NonceLoading.{load_sender-has_nonce, nonces-load_balance}
use chainlang.State.Ledger.Nonces.{nonces-pay_fees, apply_block-nonce_of}

abbrev pub NeverSends : Bytes → List Transaction → Type 0
NeverSends a ts = All (λ t. t.from ≢ a) ts

abbrev pub Receives : Bytes → List Transaction → Type 0
Receives a ts = contains (map (λ (t : Transaction). t.to) ts) a ≡ true

module _ (s : State) (a : Bytes) where
  load_tx-no_nonce :
      (w : Working) (t : Transaction)
      → t.from ≢ a
      → has_key (load_tx s w t).nonces a ≡ has_key w.nonces a
  unfolding load_tx
  load_tx-no_nonce w t other =
      ap (λ m. has_key m a) (nonces-load_balance s (load_sender s w t.from) t.to)
      ∙ load_sender-has_nonce s w t.from a
      ∙ rw (==_false t.from a other)

  load-no_nonce :
      (ts : List Transaction) (w : Working)
      → NeverSends a ts
      → has_key (fold (load_tx s) w ts).nonces a ≡ has_key w.nonces a
  load-no_nonce [] w never = refl
  load-no_nonce (t ∷ ts) w never =
      load-no_nonce ts (load_tx s w t) never.1 ∙ load_tx-no_nonce w t never.0

  load-received :
      (ts : List Transaction) (w : Working)
      → Receives a ts
      → has_key (fold (load_tx s) w ts).balances a ≡ true
  unfolding contains
  load-received [] w r = cc
  load-received (t ∷ ts) w r = elim (Bool-cases (t.to == a)) [
    | inl hit ↦ load-keeps s ts (load_tx s w t) a (load_tx-is_loaded s w t a ∙ rw hit)
    | inr miss ↦ load-received ts (load_tx s w t) (rw miss at r)
  ]

  -- The transaction that is the address's first does not cache a nonce either.
  load_received-no_nonce :
      (w : Working) (u : Transaction)
      → u.from ≡ a
      → has_key w.balances a ≡ true
      → has_key (load_tx s w u).nonces a ≡ has_key w.nonces a
  unfolding load_tx
  load_received-no_nonce w u e known =
      ap (λ m. has_key m a) (nonces-load_balance s (load_sender s w u.from) u.to)
      ∙ load_sender-has_nonce s w u.from a
      ∙ rw (e, known, ==_refl a)

run_tx-no_nonce :
    (a : Bytes) (w : Working) (t : Transaction)
    → t.from ≢ a
    → has_key w.nonces a ≡ false
    → has_key (run_tx w t).nonces a ≡ false
unfolding run_tx
run_tx-no_nonce a w t other e =
    ground (
      arith,
      lookup-insert t.from a (add64 (at w.nonces t.from) 1) w.nonces,
      ==_false t.from a other,
    )

run-no_nonce :
    (a : Bytes) (ts : List Transaction) (w : Working)
    → NeverSends a ts
    → has_key w.nonces a ≡ false
    → has_key (fold run_tx w ts).nonces a ≡ false
run-no_nonce a [] w never e = e
run-no_nonce a (t ∷ ts) w never e =
    run-no_nonce a ts (run_tx w t) never.1 (run_tx-no_nonce a w t never.0 e)

add64-zero_one : add64 0 1 ≡ 1
unfolding add64
add64-zero_one = refl

module _ (s : State) where
  run_tx-first_nonce :
      (w : Working) (c : Accounts) (u : Transaction)
      → Simulates s w c
      → HasEntries s w u
      → is_skipped c.balance u ≡ false
      → has_key w.nonces u.from ≡ false
      → lookup u.from (run_tx w u).nonces ≡ some 1
  unfolding run_tx
  run_tx-first_nonce w c u sim has funded fresh = ground (
    arith,
    sim.balances u.from,
    at-is_loaded s w u.from has.0,
    lookup-insert_self u.from (add64 (at w.nonces u.from) 1) w.nonces,
    add64-zero_one,
  )

  run-HasEntries :
      (ts us : List Transaction) (w : Working)
      → All (HasEntries s w) us
      → All (HasEntries s (fold run_tx w ts)) us
  run-HasEntries [] us w h = h
  run-HasEntries (t ∷ ts) us w h = run-HasEntries ts us (run_tx w t) (run_tx-HasEntries s w t us h)

  module _ (pre : List Transaction) (u : Transaction) where
    abbrev loaded : Working
    loaded = fold (load_tx s) empty_working (pre ++ u ∷ [])

    loaded-no_nonce :
        NeverSends u.from pre → Receives u.from pre → has_key loaded.nonces u.from ≡ false
    unfolding lookup
    loaded-no_nonce never received =
        let before = fold (load_tx s) empty_working pre in
        ap (λ (w : Working). has_key w.nonces u.from)
          (fold-append (load_tx s) empty_working pre (u ∷ []))
        ∙ load_received-no_nonce s u.from before u refl
            (load-received s u.from pre empty_working received)
        ∙ load-no_nonce s u.from pre empty_working never

    first_nonce :
        NeverSends u.from pre
        → Receives u.from pre
        → is_skipped (fold spec_tx (accounts_of s) pre).balance u ≡ false
        → lookup u.from (fold run_tx loaded (pre ++ u ∷ [])).nonces ≡ some 1
    first_nonce never received funded =
        let entries =
          All-split (HasEntries s loaded) pre (u ∷ [])
            (load-HasEntries s (pre ++ u ∷ []) empty_working) in
        ap (λ (w : Working). lookup u.from w.nonces) (fold-append run_tx loaded pre (u ∷ []))
        ∙ run_tx-first_nonce (fold run_tx loaded pre) (fold spec_tx (accounts_of s) pre) u
            (run-Simulates s pre loaded (accounts_of s) entries.0
              (loaded-Simulates s (pre ++ u ∷ [])))
            (run-HasEntries pre (u ∷ []) loaded entries.1).0 funded
            (run-no_nonce u.from pre loaded never (loaded-no_nonce never received))

-- Where a batch is written whole and the stored numbers are uint64s, and the last transaction's
-- sender has been paid earlier in the block, sends nothing before and is not skipped, a successful
-- `ApplyBlock` leaves that sender at nonce 1, whatever its nonce was before.
pub apply_block_resets_nonce :
    (store : LevelDb) (laws : WritesBatches store) (s : State) (words : HoldsWords s) (b : Block)
    (pre : List Transaction) (u : Transaction) {s' : State}
    → b.transactions ≡ pre ++ u ∷ []
    → NeverSends u.from pre
    → Receives u.from pre
    → is_skipped (fold spec_tx (accounts_of s) pre).balance u ≡ false
    → apply_block store s b ≡ (s', true)
    → stored_nonce s' u.from ≡ 1
unfolding work
apply_block_resets_nonce store laws s words b pre u txs never received funded e =
    apply_block-nonce_of store laws s words b u.from e
    ∙ ap (λ m. value_or (stored_nonce s u.from) (lookup u.from m))
        (nonces-pay_fees s
          (fold run_tx (fold (load_tx s) empty_working b.transactions) b.transactions)
          b.validator_address)
    ∙ rw (txs, first_nonce s pre u never received funded)
