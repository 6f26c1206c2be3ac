-- ===== src/Tests/Wrapping.antt =====
-- Bob, who holds 300, sends 2^64 - 100 with a fee of 100.
use chainlang.Prelude.{◌-◌, ◌^◌, ◌≡◌, refl, [], ◌∷◌}
use chainlang.Go.Word.{add64}
use chainlang.LevelDb.{memory_db, memory_db-WritesBatches}
use chainlang.Core.Types.{Transaction, Block}
use chainlang.State.Ledger.Loading.{stored_balance}
use chainlang.State.Ledger.Wrapping.{apply_block_wraps}
use chainlang.Tests.Ledger.{
  alice, bob, payment, block_of, after_genesis, after_genesis-HoldsWords, after, applied,
}

abbrev windfall : Transaction
windfall = payment bob alice (2 ^ 64 - 100) 0

abbrev windfall_block : Block
windfall_block = block_of (windfall ∷ [])

apply_block_wraps_example :
    (stored_balance (after after_genesis windfall_block) alice
      ≡ add64 (stored_balance after_genesis alice) (2 ^ 64 - 100))
    × (stored_balance (after after_genesis windfall_block) bob ≡ stored_balance after_genesis bob)
apply_block_wraps_example =
    apply_block_wraps memory_db memory_db-WritesBatches after_genesis after_genesis-HoldsWords
      windfall_block windfall refl refl (λ e. cc e) (λ e. cc e) (λ e. cc e)
      (applied after_genesis windfall_block)
