-- ===== src/State/Ledger/Nonces.antt =====
-- The nonces that `ApplyBlock` writes: those of the specification if no sender has been a recipient
-- earlier in the block; a sender that was a recipient first starts again from zero.
use chainlang.Prelude.{
  ◌≡◌, ap, sym, ◌∙◌, true, List, [], ◌∷◌, Bytes, bytes_eq, value_or, fold, arith, All, All-map_of,
}
use chainlang.Prelude.Map.{lookup, lookup-insert}
use chainlang.Go.Word.{add64}
use chainlang.LevelDb.{LevelDb, WritesBatches}
use chainlang.Core.Types.{Transaction, Block}
use chainlang.State.Store.{State, nonce_key, get_nonce_locked, decode_number}
use chainlang.State.Store.Commit.{get-commit}
use chainlang.State.Ledger.{
  Working, at, load_tx, run_tx, pay_fees, empty_working, work, ledger_batch, apply_block,
}
use chainlang.State.Ledger.Spec.{Accounts, spec_tx, spec_fees, spec_block}
use chainlang.State.Ledger.Loading.{stored_nonce, nonce_of, HasEntries, load-HasEntries}
use chainlang.State.Ledger.Running.{Simulates, at-is_loaded, run_tx-Simulates, run_tx-HasEntries}
use chainlang.State.Ledger.Writing.{ledger_batch-nonce, decode-found_number}
use chainlang.State.Ledger.Soundness.{HoldsWords, work-IsSound}
use chainlang.State.Ledger.Refinement.{specified, accounts_of, loaded-Simulates}
use chainlang.State.Ledger.NonceLoading.{
  SendersComeFirst, HasNonce, load-nonce_of, load-HasNonce, empty-Tracks,
}

module _ (s : State) where
  run_tx-nonce_of :
      (w : Working) (c : Accounts) (t : Transaction) (a : Bytes)
      → Simulates s w c
      → HasEntries s w t
      → HasNonce w t
      → ((j : Bytes) → nonce_of s w j ≡ c.nonce j)
      → nonce_of s (run_tx w t) a ≡ (spec_tx c t).nonce a
  unfolding run_tx spec_tx
  run_tx-nonce_of w c t a sim has known same = ground (
    arith,
    sim.balances t.from,
    at-is_loaded s w t.from has.0,
    same t.from,
    same a,
    lookup-insert t.from a (add64 (at w.nonces t.from) 1) w.nonces,
  )

  run_tx-HasNonce : (w : Working) (t u : Transaction) → HasNonce w u → HasNonce (run_tx w t) u
  unfolding run_tx
  run_tx-HasNonce w t u known =
      ground (arith, lookup-insert t.from u.from (add64 (at w.nonces t.from) 1) w.nonces)

  run-nonce_of :
      (ts : List Transaction) (w : Working) (c : Accounts) (a : Bytes)
      → Simulates s w c
      → All (HasEntries s w) ts
      → All (HasNonce w) ts
      → ((j : Bytes) → nonce_of s w j ≡ c.nonce j)
      → nonce_of s (fold run_tx w ts) a ≡ (fold spec_tx c ts).nonce a
  run-nonce_of [] w c a sim has known same = same a
  run-nonce_of (t ∷ ts) w c a sim has known same =
      run-nonce_of ts (run_tx w t) (spec_tx c t) a (run_tx-Simulates s w c t sim has.0)
        (run_tx-HasEntries s w t ts has.1)
        (All-map_of (HasNonce w) (HasNonce (run_tx w t)) (λ u e. run_tx-HasNonce w t u e) ts
          known.1)
        (λ j. run_tx-nonce_of w c t j sim has.0 known.0 same)

  pub nonces-pay_fees : (w : Working) (producer : Bytes) → (pay_fees s producer w).nonces ≡ w.nonces
  unfolding pay_fees
  nonces-pay_fees w producer = ground arith

  nonce-spec_fees : (c : Accounts) (producer a : Bytes) → (spec_fees producer c).nonce a ≡ c.nonce a
  unfolding spec_fees
  nonce-spec_fees c producer a = ground arith

  work-nonce_of :
      (b : Block) (a : Bytes)
      → SendersComeFirst [] b.transactions
      → nonce_of s (work s b) a ≡ (specified s b).nonce a
  unfolding work spec_block lookup
  work-nonce_of b a first =
      let loaded = fold (load_tx s) empty_working b.transactions in
      ap (λ m. value_or (stored_nonce s a) (lookup a m))
        (nonces-pay_fees (fold run_tx loaded b.transactions) b.validator_address)
      ∙ run-nonce_of b.transactions loaded (accounts_of s) a (loaded-Simulates s b.transactions)
          (load-HasEntries s b.transactions empty_working)
          (load-HasNonce s b.transactions [] empty_working (empty-Tracks s) first)
          (λ j. load-nonce_of s b.transactions [] empty_working j (empty-Tracks s))
      ∙ sym (nonce-spec_fees (fold spec_tx (accounts_of s) b.transactions) b.validator_address a)

module _ (store : LevelDb) (laws : WritesBatches store) (s : State) (words : HoldsWords s) where
  pub apply_block-nonce_of :
      (b : Block) {s' : State} (a : Bytes)
      → apply_block store s b ≡ (s', true)
      → stored_nonce s' a ≡ nonce_of s (work s b) a
  unfolding apply_block get_nonce_locked
  apply_block-nonce_of b {s'} a e =
      let w = work s b in
      let sound = work-IsSound s b words in
      ap (λ f. value_or 0 (decode_number f))
        (get-commit store s (ledger_batch w) (nonce_key a) laws e
          ∙ ledger_batch-nonce w sound (s.db.get (nonce_key a)) a)
      ∙ decode-found_number w.nonces (s.db.get (nonce_key a)) a sound.nonces

  -- Where a batch is written whole and the stored numbers are uint64s, and no sender has been a
  -- recipient earlier in the block, every nonce after a successful `ApplyBlock` is the specified
  -- one.
  pub apply_block-nonce :
      (b : Block) {s' : State} (a : Bytes)
      → SendersComeFirst [] b.transactions
      → apply_block store s b ≡ (s', true)
      → stored_nonce s' a ≡ (specified s b).nonce a
  apply_block-nonce b a first e = apply_block-nonce_of b a e ∙ work-nonce_of s b a first
