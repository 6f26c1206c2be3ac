-- ===== src/Node.antt =====
-- cmd/node/main.go: a running node, the parts that its handlers share, and the two loops that every
-- received or produced block goes through.
pub mod Adopting
pub mod Receiving
pub mod Syncing
pub mod Producing
pub mod Session
pub mod Starting
pub mod Sending
pub mod Api
use chainlang.Prelude.{
  ℕ, Bool, true, false, not, Option, none, some, List, [], ◌∷◌, map, Bytes, bytes_eq, nat_eq, ◌==◌,
  if◌then◌else◌, value_or,
}
use chainlang.Prelude.Map.{Map, lookup, insert}
use chainlang.Go.Word.{ℤ}
use chainlang.Config.{GenesisAllocation, ValidatorGenesis}
use chainlang.Crypto.Primitives.{Primitives, PrivateKey}
use chainlang.Crypto.Hash.{hash_hex}
use chainlang.Crypto.Signature.{address_hex}
use chainlang.LevelDb.{LevelDb}
use chainlang.Core.Types.{Transaction, Block}
use chainlang.Core.Files.{Os, Json}
use chainlang.Core.Chain.{
  Chain, Outcome, returned, blocked, lock, at_tip, last_block, write_block, set_tip,
}
use chainlang.State.Store.{State}
use chainlang.State.Ledger.{apply_block}
use chainlang.State.Validators.{get_validator_set, slash_validator}
use chainlang.Consensus.{ValidatorSet, new_set_from_validators, verify_block_validator}
use chainlang.Consensus
use chainlang.Mempool.{Mempool, remove}
use chainlang.P2p.Peers.{PeerSet}
use chainlang.State.Validators as StateValidators

-- What a node does not change: the packages it calls, its key, its address to listen on and what
-- genesis.json held when it started.
pub record World : Type 0 where
  pub p : Primitives
  pub json : Json
  pub os : Os
  pub store : LevelDb
  pub key : PrivateKey
  pub listen : Bytes
  pub allocation : GenesisAllocation
  pub validators : List ValidatorGenesis

-- The messages that a node sends: to all peers, or to the one it is answering.
pub data Sent : Type 0 where
  broadcast_block : Block → Sent
  broadcast_tx : Transaction → Sent
  reply_blocks : List Block → Sent
  ask_blocks : ℕ → ℤ → Sent

-- `doubleSignCheck`: for each height, the hash that each producer signed first.
abbrev pub Signed : Type 0
Signed = Map ℕ (Map Bytes Bytes)

-- `block_mu` says whether `blockMu` is held. The messages stand latest first.
pub record Node : Type 0 where
  pub block_mu : Bool
  pub chain : Chain
  pub state : State
  pub pool : Mempool
  pub peers : PeerSet
  pub signed : Signed
  pub sent : List Sent

-- A handler ends, or waits for ever; then the node is as it left it.
pub data Run : Type 0 where
  finished : Node → Run
  hung : Node → Run

abbrev pub send : Node → Sent → Node
send n message = record n { sent = message ∷ n.sent }

-- `blockMu.Lock()` around a handler's body, which unlocks at each of its ends.
abbrev pub unlocking : Run → Run
unlocking (finished n) = finished (record n { block_mu = false })
unlocking (hung n) = hung n

abbrev pub locking : Node → (Node → Run) → Run
locking n body = if n.block_mu then hung n else unlocking (body (record n { block_mu = true }))

-- A call of the chain.
abbrev pub with_chain {ℓ} : {A : Type ℓ} → Node → Outcome (Chain × A) → (Node → A → Run) → Run
with_chain n blocked next = hung n
with_chain n (returned (c, a)) next = next (record n { chain = c }) a

-- `last, _ := chain.LastBlock()`
abbrev pub last_or_nil : Option (Option Block) → Option Block
last_or_nil none = none
last_or_nil (some last) = last

abbrev pub with_last : World → Node → (Node → Option Block → Run) → Run
with_last w n next = with_chain n (last_block w.json n.chain) λ m last. next m (last_or_nil last)

abbrev pub to_consensus : StateValidators.Validator → Consensus.Validator
to_consensus v = record { address = v.address; stake = v.stake }

abbrev set_of : Option (List StateValidators.Validator) → Option ValidatorSet
set_of none = none
set_of (some []) = none
set_of (some (v ∷ vs)) = some (new_set_from_validators (map to_consensus (v ∷ vs)))

-- `getValidatorSet`: nil for an error and for an empty set.
unfoldable pub validator_set : World → State → Option ValidatorSet
validator_set w s = set_of (get_validator_set w.p s)

-- `set == nil || set.VerifyBlockValidator(b)`
abbrev pub accepts_producer : Option ValidatorSet → Block → Bool
accepts_producer none b = true
accepts_producer (some set) b = verify_block_validator set b

abbrev pub signed_at : Signed → ℕ → Map Bytes Bytes
signed_at signed height = value_or [] (lookup height signed)

abbrev pub differs : Option Bytes → Bytes → Bool
differs none text = false
differs (some prev) text = not (prev == text)

-- `prev, ok := …; ok && prev != b.Hash.Hex()`
unfoldable pub signs_twice : Signed → Block → Bool
signs_twice signed b =
    differs (lookup (address_hex b.validator_address) (signed_at signed b.height)) (hash_hex b.hash)

unfoldable pub record_signed : Signed → Block → Signed
record_signed signed b =
    insert b.height
      (insert (address_hex b.validator_address) (hash_hex b.hash) (signed_at signed b.height))
      signed

abbrev pub slash : World → Node → Block → Node
slash w n b = record n { state = (slash_validator w.p w.store n.state b.validator_address).0 }

-- `last != nil && b.PreviousHash == last.Hash`
abbrev pub extends_tip : Option Block → Block → Bool
extends_tip none b = false
extends_tip (some last) b = b.previous_hash == last.hash

-- `cur != nil && b.PreviousHash != cur.Hash`
abbrev pub breaks_off : Option Block → Block → Bool
breaks_off none b = false
breaks_off (some cur) b = not (b.previous_hash == cur.hash)

-- The chain when `SetTip` waits for itself: the tip is set, and the lock is held.
abbrev tip_left_of : Outcome Chain → Chain → Block → Chain
tip_left_of (returned held) c b = at_tip held b
tip_left_of blocked c b = c

abbrev pub tip_left : Chain → Block → Chain
tip_left c b = tip_left_of (lock c) c b

abbrev tip_run : Node → Block → Outcome (Chain × Bool) → (Node → Run) → Run
tip_run n b blocked next = hung (record n { chain = tip_left n.chain b })
tip_run n b (returned (c, good)) next = next (record n { chain = c })

-- `_ = chain.SetTip(b)`
abbrev pub with_tip : World → Node → Block → (Node → Run) → Run
with_tip w n b next = tip_run n b (set_tip w.json w.os n.chain b) next

abbrev pub take_out : World → Node → List Transaction → Node
take_out w n txs = record n { pool = remove w.p n.pool txs }

-- After `ApplyBlock`. The first continuation is for its error.
abbrev pub settle : World → Node → Block → (Node → Run) → (Node → Run) → State × Bool → Run
settle w n b failed next (s, false) = failed (record n { state = s })
settle w n b failed next (s, true) =
    with_tip w (record n { state = s }) b λ tipped. next (take_out w tipped b.transactions)

-- The block is written, applied, made the tip, and its transactions leave the pool.
unfoldable pub adopt : World → Node → Block → (Node → Run) → (Node → Run) → Run
unfolding apply_block
adopt w n b failed next =
    with_chain n (write_block w.json w.os n.chain b)
      λ m good. settle w m b failed next (apply_block w.store m.state b)
