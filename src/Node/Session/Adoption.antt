-- ===== src/Node/Session/Adoption.antt =====
-- cmd/node/main.go: `onConn` with a peer that answers the request for blocks.
use chainlang.Prelude.{
  ◌≡◌, ap, ◌∙◌, true, Option, List, ◌∷◌, Bytes, ◌<◌, ℕ, length, All, if◌then◌else◌, [], false,
}
use chainlang.Core.Types.{Block}
use chainlang.Core.Chain.Free.{written_disk}
use chainlang.State.Store.{State}
use chainlang.State.Ledger.{apply_block}
use chainlang.P2p.Messages.{Wire}
use chainlang.P2p.Transport.{Link}
use chainlang.P2p.Transport.Framing.{IsReliable}
use chainlang.P2p.Peers.{Conn, PeerSet, add_peer}
use chainlang.Node.{World, Node, hung, Sent, reply_blocks, record_signed}
use chainlang.Node.Adopting.{waiting}
use chainlang.Node.Receiving.Outcome.{IsIdle, IsAcceptable}
use chainlang.Node.Syncing.Outcome.{on_blocks_extends}
use chainlang.Node.Session.{handle, occur}
use chainlang.Node.Session.Conversation.{over, on_conn}
use chainlang.Node.Session.Delivery.{
  IsSendable, stream_of, resume, until_hung, conversation, on_conn-stream_of,
}

module _ (w : World) (wire : Wire) (walk_fuel : ℕ) (dial : Bytes → Option Conn) where
  abbrev with_peers : Node → PeerSet → Node
  with_peers n set = record n { peers = set }

  -- A peer is added to an idle node and answers with a list whose first block the node can accept and
  -- apply. Then the node is left in `SetTip` for ever, with this peer, this block as its tip, its file
  -- as os.WriteFile writes it and the state after it, and with `blockMu` and the lock of the chain
  -- held. Neither the other blocks nor any later message of the peer are handled, and the peer is not
  -- removed when it closes the connection.
  pub on_conn_extends :
      (n : Node) (c : Conn) (remote : Bytes) (link : Link) (b : Block) (bs : List Block)
      (ss : List Sent) (fuel : ℕ) {set : PeerSet} {s : State}
      → IsReliable link
      → All (IsSendable wire) (reply_blocks (b ∷ bs) ∷ ss)
      → length (reply_blocks (b ∷ bs) ∷ ss) < fuel
      → add_peer n.peers c remote false ≡ (set, true)
      → IsIdle n
      → IsAcceptable w n b
      → apply_block w.store n.state b ≡ (s, true)
      → on_conn w wire walk_fuel dial fuel n c remote
          (stream_of wire link (reply_blocks (b ∷ bs) ∷ ss))
        ≡ over (
            hung (
              waiting
                (record n { peers = set; block_mu = true; signed = record_signed n.signed b })
                (written_disk w.json w.os n.chain.disk b)
                s
                b))
  unfolding until_hung occur handle
  on_conn_extends n c remote link b bs ss fuel {set} {s} reliable h lt joins idle ok applies =
      let m = with_peers n set in
      let says = conversation w wire walk_fuel dial remote (reply_blocks (b ∷ bs) ∷ ss) in
      let idle' : IsIdle m = record { unlocked = idle.unlocked; free = idle.free } in
      let ok' : IsAcceptable w m b = record {
        valid = ok.valid;
        unknown = ok.unknown;
        in_turn = ok.in_turn;
        once = ok.once;
        follows = ok.follows;
      } in
      on_conn-stream_of w wire walk_fuel dial n c remote link (reply_blocks (b ∷ bs) ∷ ss) fuel
        reliable h lt
      ∙ ap (λ r. over (until_hung w (if r.1 then says else []) (with_peers n r.0))) joins
      ∙ ap (λ r. over (resume (until_hung w (conversation w wire walk_fuel dial remote ss)) r))
          (on_blocks_extends w m b bs idle' ok' applies)
