-- ===== src/Tests/Answering.antt =====
-- A peer that answers with two blocks and then sends a transaction.
use chainlang.Prelude.{
  ◌≡◌, refl, true, false, Option, none, some, List, [], ◌∷◌, ◌++◌, take, drop, Bytes, arith, length,
  All,
}
use chainlang.P2p.Messages.{Kind, Wire, kind_new_tx, kind_blocks}
use chainlang.P2p.Peers.{PeerSet, new_peer_set, add_peer}
use chainlang.Core.Chain.Free.{written_disk}
use chainlang.Node.{Sent, hung, reply_blocks, broadcast_tx, record_signed}
use chainlang.Node.Adopting.{waiting}
use chainlang.Node.Session.Conversation.{over, on_conn}
use chainlang.Node.Session.Delivery.{kind_of, payload_of, IsSendable, stream_of}
use chainlang.Node.Session.Adoption.{on_conn_extends}
use chainlang.Tests.Hashing.{signed_tx}
use chainlang.Tests.Ledger.{after_genesis, after, applied}
use chainlang.Tests.Disk.{second}
use chainlang.Tests.Running.{world, node_one, node_one-IsIdle, next_block, next_block-IsAcceptable}
use chainlang.Tests.Talking.{toy_wire, append_link, append_link-IsReliable, new_conn}

abbrev split_message : Bytes → Option (Kind × Bytes)
split_message [] = none
split_message (size ∷ text) = some (take size text, drop size text)

-- The length of the kind, the kind and one byte.
abbrev answer_wire : Wire
answer_wire = record toy_wire {
  marshal_payload = λ payload. some (b'p' ∷ []);
  marshal_message = λ kind raw. some (length kind ∷ kind ++ raw);
  unmarshal_message = split_message;
  unmarshal_blocks = λ raw. some (some next_block ∷ some second ∷ []);
}

abbrev answer : List Sent
answer = reply_blocks (next_block ∷ second ∷ []) ∷ broadcast_tx signed_tx ∷ []

answer-IsSendable : All (IsSendable answer_wire) answer
unfolding kind_of payload_of
answer-IsSendable = (
  record {
    raw = b'p' ∷ [];
    carried = record {
      text = length kind_blocks ∷ kind_blocks ++ b'p' ∷ [];
      marshals = refl;
      encodes = refl;
      not_empty = λ e. cc e;
      one_line = ground arith;
      decodes = refl;
    };
    read_back = refl;
  },
  (
    record {
      raw = b'p' ∷ [];
      carried = record {
        text = length kind_new_tx ∷ kind_new_tx ++ b'p' ∷ [];
        marshals = refl;
        encodes = refl;
        not_empty = λ e. cc e;
        one_line = ground arith;
        decodes = refl;
      };
      read_back = refl;
    },
    tt,
  ),
)

abbrev joined : PeerSet
joined = (add_peer node_one.peers new_conn new_conn.remote false).0

joins : add_peer node_one.peers new_conn new_conn.remote false ≡ (joined, true)
unfolding add_peer new_peer_set
joins = refl

on_conn_extends_example :
    on_conn world answer_wire 9
      (λ addr. none)
      3
      node_one
      new_conn
      new_conn.remote
      (stream_of answer_wire append_link answer)
    ≡ over (
        hung (
          waiting
            (record node_one {
              peers = joined;
              block_mu = true;
              signed = record_signed node_one.signed next_block;
            })
            (written_disk world.json world.os node_one.chain.disk next_block)
            (after after_genesis next_block)
            next_block))
on_conn_extends_example =
    on_conn_extends world answer_wire 9 (λ addr. none) node_one new_conn new_conn.remote append_link
      next_block (second ∷ []) (broadcast_tx signed_tx ∷ []) 3 append_link-IsReliable
      answer-IsSendable (omega arith) joins node_one-IsIdle next_block-IsAcceptable
      (applied after_genesis next_block)
