-- ===== src/State/Replay/Determined.antt =====
-- After a replay the balances are determined by the genesis file and the blocks alone.
use chainlang.Prelude.{
  ℕ, ◌≡◌, refl, ap, ◌∙◌, true, false, Bool, sym, subst, List, [], ◌∷◌, ◌++◌, Bytes, bytes_eq, All,
  fold, value_or, contains, arith,
}
use chainlang.Config.{GenesisAllocation, ValidatorGenesis}
use chainlang.Crypto.Primitives.{Primitives}
use chainlang.LevelDb.{
  LevelDb, WritesBatches, IteratesAll, not_found, delete, after_op, after_batch, Fetch,
}
use chainlang.Core.Types.{Transaction, Block}
use chainlang.State.Store.{
  State, balance_key, nonce_key, commit, decode_number, get_balance_locked, get_nonce_locked,
}
use chainlang.State.Ledger.{apply_block_locked, apply_block}
use chainlang.State.Ledger.Spec.{Accounts, spec_tx, spec_fees, spec_block}
use chainlang.State.Ledger.Loading.{stored_balance, stored_nonce}
use chainlang.State.Store.Commit.{get-commit}
use chainlang.State.Ledger.Words.{apply_block-HoldsWords}
use chainlang.State.Ledger.Writing.{IsWord}
use chainlang.State.Ledger.Refinement.{apply_block-balance}
use chainlang.State.Ledger.Soundness.{HoldsWords}
use chainlang.State.Genesis.{apply_genesis_locked, apply_genesis}
use chainlang.State.Genesis.Balances.{
  allocated, allocated-IsWord, apply_genesis-balance, apply_genesis-nonce, allocated-congr,
}
use chainlang.State.Replay.{◌then_step◌, clear_batch, replay, reset_and_replay}

-- The balances after one block, as a function of the balances before it.
abbrev pub balances_after : (Bytes → ℕ) → Block → Bytes → ℕ
balances_after f b = (spec_block f (λ _. 0) b).balance

-- Two accounts with the same balances and fees.
record SameFunds (c d : Accounts) : Type 0 where
  balances : (a : Bytes) → c.balance a ≡ d.balance a
  fees : c.fees ≡ d.fees

spec_tx-SameFunds :
    (c d : Accounts) (t : Transaction) → SameFunds c d → SameFunds (spec_tx c t) (spec_tx d t)
unfolding spec_tx
spec_tx-SameFunds c d t same = record {
  balances =
      λ a. ground (arith, same.balances t.from, same.balances t.to, same.balances a, same.fees);
  fees = ground (arith, same.balances t.from, same.fees);
}

run-SameFunds :
    (ts : List Transaction) (c d : Accounts)
    → SameFunds c d
    → SameFunds (fold spec_tx c ts) (fold spec_tx d ts)
run-SameFunds [] c d same = same
run-SameFunds (t ∷ ts) c d same =
    run-SameFunds ts (spec_tx c t) (spec_tx d t) (spec_tx-SameFunds c d t same)

spec_fees-SameFunds :
    (c d : Accounts) (producer a : Bytes)
    → SameFunds c d
    → (spec_fees producer c).balance a ≡ (spec_fees producer d).balance a
unfolding spec_fees
spec_fees-SameFunds c d producer a same =
    ground (arith, same.balances producer, same.balances a, same.fees)

-- The balances of a block depend on the balances before it, and on no nonce.
spec_block-congr :
    (f g n m : Bytes → ℕ) (b : Block) (a : Bytes)
    → ((j : Bytes) → f j ≡ g j)
    → (spec_block f n b).balance a ≡ (spec_block g m b).balance a
unfolding spec_block
spec_block-congr f g n m b a same = spec_fees-SameFunds _ _ b.validator_address a (
    run-SameFunds b.transactions (record { balance = f; nonce = n; fees = 0 })
      (record { balance = g; nonce = m; fees = 0 }) (record { balances = same; fees = refl }))

then_step-true :
    (r : State × Bool) (next : State → State × Bool) {s' : State}
    → r then_step next ≡ (s', true)
    → (m : State) × (r ≡ (m, true)) × (next m ≡ (s', true))
then_step-true (s, true) next e = (s, refl, e)
then_step-true (s, false) next e = cc

-- The exported and the internal methods have one body.
apply_block-locked :
    (store : LevelDb) (s : State) (b : Block) → apply_block_locked store s b ≡ apply_block store s b
unfolding apply_block_locked apply_block
apply_block-locked store s b = refl

-- A replay of one block more.
pub replay-append_one :
    (store : LevelDb) (blocks : List Block) (s : State) (b : Block) {t u : State}
    → replay store s blocks ≡ (t, true)
    → apply_block store t b ≡ (u, true)
    → replay store s (blocks ++ b ∷ []) ≡ (u, true)
unfolding replay
replay-append_one store [] s b {t} {u} e applies =
    let same : s ≡ t = ap (λ (r : State × Bool). r.0) e in
    ap (λ r. r then_step λ next. (next, true))
      (apply_block-locked store s b ∙ ap (λ x. apply_block store x b) same ∙ applies)
replay-append_one store (c ∷ blocks) s b e applies =
    let (m, applied, rest) =
      then_step-true (apply_block_locked store s c) (λ next. replay store next blocks) e in
    ap (λ r. r then_step λ next. replay store next (blocks ++ b ∷ [])) applied
    ∙ replay-append_one store blocks m b rest applies

apply_genesis-locked :
    (p : Primitives) (store : LevelDb) (s : State) (allocation : GenesisAllocation)
    (validators : List ValidatorGenesis)
    → apply_genesis_locked p store s allocation validators
      ≡ apply_genesis p store s allocation validators
unfolding apply_genesis_locked apply_genesis
apply_genesis-locked p store s allocation validators = refl

clear_batch-get :
    (keys : List Bytes) (was : Fetch) (k : Bytes)
    → (contains keys k ≡ false → was ≡ not_found)
    → after_batch was (clear_batch keys) k ≡ not_found
unfolding after_batch contains
clear_batch-get [] was k h = h refl
clear_batch-get (j ∷ keys) was k h =
    clear_batch-get keys (after_op was (delete j) k) k (λ e. ground (arith, h))

module _ (store : LevelDb) (laws : WritesBatches store) where
  clear-empty :
      (s : State) {m : State}
      → IteratesAll s.db
      → commit store s (clear_batch s.db.keys) ≡ (m, true)
      → (k : Bytes) → m.db.get k ≡ not_found
  clear-empty s all e k =
      get-commit store s (clear_batch s.db.keys) k laws e
      ∙ clear_batch-get s.db.keys (s.db.get k) k (all k)

  pub replay-balance :
      (blocks : List Block) (s : State) (f : Bytes → ℕ) {s' : State} (a : Bytes)
      → HoldsWords s
      → ((j : Bytes) → stored_balance s j ≡ f j)
      → replay store s blocks ≡ (s', true)
      → stored_balance s' a ≡ fold balances_after f blocks a
  unfolding replay
  replay-balance [] s f {s'} a words same e =
      ap (λ (x : State). stored_balance x a) (sym (ap (λ (r : State × Bool). r.0) e)) ∙ same a
  replay-balance (b ∷ blocks) s f {s'} a words same e =
      let (m, applied, rest) =
        then_step-true (apply_block_locked store s b) (λ next. replay store next blocks) e in
      let applied' = sym (apply_block-locked store s b) ∙ applied in
      replay-balance blocks m (balances_after f b) a
        (apply_block-HoldsWords store laws s words b applied')
        (λ j.
          apply_block-balance store laws s words b j applied'
          ∙ spec_block-congr (stored_balance s) f (stored_nonce s) (λ _. 0) b j same)
        rest

-- Where a batch is written whole, the iterator yields every stored key and the allocated amounts
-- are uint64s, every balance after a successful `ResetAndReplay` is what the allocation and then
-- the blocks, from empty accounts, specify, whatever the state was before.
pub reset_and_replay-balance :
    (p : Primitives) (store : LevelDb) (s : State) (allocation : GenesisAllocation)
    (validators : List ValidatorGenesis) (blocks : List Block) {s' : State} (a : Bytes)
    → WritesBatches store
    → IteratesAll s.db
    → All (λ (entry : Bytes × ℕ). IsWord entry.1) allocation
    → reset_and_replay p store s allocation validators blocks ≡ (s', true)
    → stored_balance s' a ≡ fold balances_after (allocated (λ _. 0) allocation) blocks a
unfolding reset_and_replay get_balance_locked get_nonce_locked decode_number
reset_and_replay-balance p store s allocation validators blocks {s'} a laws all words e =
    let genesis = λ (empty : State). apply_genesis_locked p store empty allocation validators in
    let clearing = commit store s (clear_batch s.db.keys) in
    let (first, started, rest) =
      then_step-true (clearing then_step genesis) (λ next. replay store next blocks) e in
    let (empty, cleared, made) = then_step-true clearing genesis started in
    let gone = clear-empty store laws s all cleared in
    let made' = sym (apply_genesis-locked p store empty allocation validators) ∙ made in
    let same = λ (j : Bytes).
      apply_genesis-balance p store laws empty allocation validators j words made'
      ∙ allocated-congr allocation (stored_balance empty) (λ _. 0) j
          (ap (λ f. value_or 0 (decode_number f)) (gone (balance_key j))) in
    replay-balance store laws blocks first (allocated (λ _. 0) allocation) a
      (record {
        balances = λ j.
            subst IsWord (sym (same j))
              (allocated-IsWord allocation (λ _. 0) j words (omega arith));
        nonces = λ j.
            subst IsWord
              (sym (
                apply_genesis-nonce p store laws empty allocation validators j
                  (ap (λ f. value_or 0 (decode_number f)) (gone (nonce_key j))) made'))
              (omega arith);
      })
      same rest
