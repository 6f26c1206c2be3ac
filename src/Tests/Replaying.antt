-- ===== src/Tests/Replaying.antt =====
-- A database that is emptied and filled again, as after a longer chain was received.
use chainlang.Prelude.{◌≡◌, refl, true, List, [], ◌∷◌, fold}
use chainlang.LevelDb.{IteratesAll, memory_db, memory_db-WritesBatches}
use chainlang.Core.Types.{Block}
use chainlang.State.Store.{State, commit}
use chainlang.State.Ledger.Loading.{stored_balance}
use chainlang.State.Ledger.{apply_block_locked}
use chainlang.State.Genesis.{genesis_batch, apply_genesis, apply_genesis_locked}
use chainlang.State.Genesis.Balances.{allocated}
use chainlang.State.Replay.{reset_and_replay, replay}
use chainlang.State.Replay.Determined.{balances_after, reset_and_replay-balance}
use chainlang.Tests.Instance.{instance_p}
use chainlang.Tests.Ledger.{
  after_genesis, allocation, allocation_words, fresh, block_of, payment, alice, bob, carol,
}

abbrev blocks : List Block
blocks =
    block_of (payment alice bob 1_000 0 ∷ [])
    ∷ block_of (payment bob carol 400 0 ∷ payment alice carol 20 1 ∷ [])
    ∷ []

abbrev replayed : State
replayed = (reset_and_replay instance_p memory_db after_genesis allocation [] blocks).0

replays :
    reset_and_replay instance_p memory_db after_genesis allocation [] blocks ≡ (replayed, true)
unfolding reset_and_replay replay apply_genesis_locked apply_block_locked commit memory_db
replays = refl

fresh-IteratesAll : IteratesAll fresh.db
fresh-IteratesAll k missing = refl

after_genesis-IteratesAll : IteratesAll after_genesis.db
unfolding apply_genesis memory_db
after_genesis-IteratesAll =
    memory_db-WritesBatches.keys-write fresh.db after_genesis.db
      (genesis_batch instance_p fresh.cfg allocation []) fresh-IteratesAll refl

reset_and_replay-balance_example :
    stored_balance replayed carol ≡ fold balances_after (allocated (λ _. 0) allocation) blocks carol
reset_and_replay-balance_example =
    reset_and_replay-balance instance_p memory_db after_genesis allocation [] blocks carol
      memory_db-WritesBatches after_genesis-IteratesAll allocation_words replays
