-- ===== src/Node/Receiving.antt =====
-- cmd/node/main.go, `onConn`: the messages of a peer other than a list of blocks, after the JSON of the
-- payload was read.
pub mod Outcome
use chainlang.Prelude.{
  ℕ, Bool, true, false, not, ◌||◌, ◌&&◌, Option, none, some, List, [], ◌∷◌, Bytes, bytes_eq, ◌==◌,
  if◌then◌else◌,
}
use chainlang.Go.Word.{ℤ, pos, positive_or}
use chainlang.Core.Types.{Transaction, Block, validate_block}
use chainlang.Core.Chain.{has_block, get_blocks_from}
use chainlang.Mempool.{Mempool, AddError, add}
use chainlang.P2p.Peers.{Conn, try_connect}
use chainlang.Node.{
  World, Node, Run, finished, broadcast_block, broadcast_tx, reply_blocks, send, locking,
  with_chain, with_last, validator_set, accepts_producer, signs_twice, record_signed, slash,
  extends_tip, adopt,
}

module _ (w : World) where
  unfoldable pub adopt_if : Bool → Node → Block → Run
  unfolding adopt
  adopt_if false n b = finished n
  adopt_if true n b = adopt w n b finished (λ done. finished (send done (broadcast_block b)))

  unfoldable pub unless_twice : Bool → Node → Block → Run
  unfolding adopt_if
  unless_twice true n b = finished (slash w n b)
  unless_twice false n b =
      with_last w (record n { signed = record_signed n.signed b })
        (λ m last. adopt_if (extends_tip last b) m b)

  -- What is done with a block that is valid, new and of the producer in turn.
  unfoldable pub accept_block : Node → Block → Run
  unfolding unless_twice signs_twice record_signed
  accept_block n b = unless_twice (signs_twice n.signed b) n b

  unfoldable pub accept_if : Bool → Node → Block → Run
  unfolding accept_block
  accept_if false n b = finished n
  accept_if true n b = accept_block n b

  unfoldable pub check_known : Node → Block → Bool → Run
  unfolding accept_if
  check_known n b known = accept_if (not known && accepts_producer (validator_set w n.state) b) n b

  unfoldable pub check_if : Bool → Node → Block → Run
  unfolding check_known
  check_if false n b = finished n
  check_if true n b =
      with_chain n (has_block w.json n.chain b.hash) (λ m known. check_known m b known)

  unfoldable pub check_block : Node → Block → Run
  unfolding check_if
  check_block n b = check_if (validate_block w.p b) n b

  -- `KindNewBlock`
  unfoldable pub on_new_block : Node → Block → Run
  unfolding check_block
  on_new_block n b = locking n (λ m. check_block m b)

  abbrev pub added : Node → Transaction → Mempool × Option AddError → Node
  added n tx (pool, none) = send (record n { pool = pool }) (broadcast_tx tx)
  added n tx (pool, some e) = record n { pool = pool }

  -- `KindNewTx`, and POST /tx. It does not take `blockMu`.
  unfoldable pub on_new_tx : Node → Transaction → Node
  unfolding add
  on_new_tx n tx = added n tx (add w.p (some n.state) n.pool tx)

  abbrev pub reply : Node → Option (List Block) → Run
  reply n none = finished n
  reply n (some []) = finished n
  reply n (some (b ∷ bs)) = finished (send n (reply_blocks (b ∷ bs)))

  -- `KindGetBlocks`; the fuel is for the walk over the blocks.
  unfoldable pub on_get_blocks : ℕ → Node → ℕ → ℤ → Run
  unfolding get_blocks_from
  on_get_blocks fuel n from max =
      with_chain n (get_blocks_from w.json fuel n.chain from (pos (positive_or 50 max)))
        λ m blocks. reply m blocks

  -- `KindHello`
  unfoldable pub on_hello : (Bytes → Option Conn) → Node → Bytes → Node
  unfolding try_connect
  on_hello dial n addr =
      if addr == [] || addr == w.listen
      then n
      else record n { peers = try_connect dial n.peers addr }

  -- `KindPeers`
  unfoldable pub on_peers : (Bytes → Option Conn) → Node → List Bytes → Node
  unfolding on_hello
  on_peers dial n [] = n
  on_peers dial n (addr ∷ addrs) = on_peers dial (on_hello dial n addr) addrs
