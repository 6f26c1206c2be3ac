-- ===== src/Node/Producing.antt =====
-- cmd/node/main.go: one tick of the block producer.
pub mod Outcome
use chainlang.Prelude.{
  ℕ, Bool, true, false, not, Option, none, some, List, [], ◌∷◌, Bytes, bytes_eq, ◌==◌,
  if◌then◌else◌,
}
use chainlang.Go.Word.{pos, add64}
use chainlang.Crypto.Signature.{pubkey_to_address, sign}
use chainlang.Core.Types.{Transaction, Block, new_block}
use chainlang.Core.Chain.{append_block, last_block}
use chainlang.State.Ledger.{apply_block}
use chainlang.Consensus.{ValidatorSet, validator_for_height}
use chainlang.Mempool.{pending}
use chainlang.Node.{
  World, Node, Run, finished, broadcast_block, send, locking, with_chain, validator_set, take_out,
}

module _ (w : World) where
  -- `validatorAddr`
  abbrev pub own_address : Bytes
  own_address = pubkey_to_address w.p (some w.key.public_key)

  -- `set == nil || set.ValidatorForHeight(last.Height+1) == validatorAddr`
  abbrev pub is_in_turn : Option ValidatorSet → ℕ → Bool
  is_in_turn none height = true
  is_in_turn (some set) height = validator_for_height set height == own_address

  -- The block for the transactions, before its signature.
  abbrev pub draft : ℕ → Block → List Transaction → Block
  draft now last txs = new_block w.p now (add64 last.height 1) last.hash own_address txs

  abbrev pub appended : Block → Node → Bool → Run
  appended b n false = finished n
  appended b n true = finished (send (take_out w n b.transactions) (broadcast_block b))

  unfoldable pub append_applied : Node → Block → Run
  append_applied n b = with_chain n (append_block w.json w.os n.chain b) (appended b)

  unfoldable pub applied : Block → Node → Bool → Run
  unfolding append_applied
  applied b n false = finished n
  applied b n true = append_applied n b

  -- The block is applied, appended to the chain and broadcast.
  unfoldable pub install : Node → Block → Run
  install n b =
      let (s, good) = apply_block w.store n.state b in applied b (record n { state = s }) good

  unfoldable pub signed_block : Node → Block → Option Bytes → Run
  unfolding install
  signed_block n b none = finished n
  signed_block n b (some sig) = install n (record b { signature = sig })

  unfoldable pub build : ℕ → Node → Block → List Transaction → Run
  unfolding install
  build now n last [] = finished n
  build now n last (t ∷ ts) =
      let b = draft now last (t ∷ ts) in signed_block n b (sign w.p w.key b.hash)

  unfoldable pub produce_after : ℕ → Node → Option (Option Block) → Run
  unfolding install
  produce_after now n none = finished n
  produce_after now n (some none) = finished n
  produce_after now n (some (some last)) =
      if not (is_in_turn (validator_set w n.state) (add64 last.height 1))
      then finished n
      else build now n last (pending n.pool (pos 100))

  -- One round of the loop, at the time `now`.
  unfoldable pub produce : ℕ → Node → Run
  unfolding install
  produce now n = locking n λ m. with_chain m (last_block w.json m.chain) (produce_after now)
