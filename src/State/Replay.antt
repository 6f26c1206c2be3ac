-- ===== src/State/Replay.antt =====
-- state/state.go: `ResetAndReplay`, which empties the database, applies genesis and then the blocks.
pub mod Determined
use chainlang.Prelude.{Bool, true, false, List, [], ◌∷◌, map, Bytes}
use chainlang.Config.{GenesisAllocation, ValidatorGenesis}
use chainlang.Crypto.Primitives.{Primitives}
use chainlang.LevelDb.{BatchOp, delete, LevelDb}
use chainlang.Core.Types.{Block}
use chainlang.State.Store.{State, commit}
use chainlang.State.Ledger.{apply_block_locked}
use chainlang.State.Genesis.{apply_genesis_locked}

-- `if err := step(s); err != nil { return err }`: the later steps run only if this one succeeded, and
-- an error keeps what was written before it.
infixl 5 ◌then_step◌
abbrev pub ◌then_step◌ : State × Bool → (State → State × Bool) → State × Bool
(s, true) then_step next = next s
(s, false) then_step next = (s, false)

-- One `delete` for each key of the iterator.
abbrev pub clear_batch : List Bytes → List BatchOp
clear_batch keys = map delete keys

unfoldable pub replay : LevelDb → State → List Block → State × Bool
replay store s [] = (s, true)
replay store s (b ∷ blocks) =
    apply_block_locked store s b then_step λ next. replay store next blocks

unfoldable pub reset_and_replay :
    Primitives
    → LevelDb
    → State
    → GenesisAllocation
    → List ValidatorGenesis
    → List Block
    → State × Bool
unfolding replay
reset_and_replay p store s allocation validators blocks =
    commit store s (clear_batch s.db.keys)
    then_step (λ empty. apply_genesis_locked p store empty allocation validators)
    then_step λ first. replay store first blocks
