-- ===== src/Tests/Talking.antt =====
-- Messages on a connection, and a request to the explorer.
use chainlang.Prelude.{
  ◌+◌, ◌≡◌, refl, true, false, Option, none, some, List, [], ◌∷◌, ◌++◌, drop, Bytes, nat_beq, arith,
  length, replicate, All, if◌then◌else◌,
}
use chainlang.Go.Word.{pos}
use chainlang.P2p.Messages.{Kind, Payload, Wire, get_blocks_payload, kind_new_tx, kind_get_blocks}
use chainlang.P2p.Transport.{Link}
use chainlang.P2p.Peers.{Conn, new_peer_set, add_peer}
use chainlang.P2p.Transport.Framing.{IsReliable}
use chainlang.Node.{Node, Sent, ask_blocks, broadcast_tx}
use chainlang.Node.Session.{accepted}
use chainlang.Node.Session.Conversation.{over, on_conn}
use chainlang.Node.Session.Delivery.{
  kind_of, payload_of, IsSendable, stream_of, until_hung, conversation, on_conn-stream_of,
}
use chainlang.Tests.Hashing.{signed_tx}
use chainlang.Tests.Disk.{chain_three}
use chainlang.Tests.Running.{world, node_one}

-- A height is its number of bytes, and every other payload one byte.
abbrev toy_payload : Payload → Option Bytes
toy_payload (get_blocks_payload request) = some (replicate request.from_height b'x')
toy_payload _ = some (b't' ∷ [])

abbrev toy_kind : Bytes → Kind
toy_kind text =
    if nat_beq (length text) (length kind_new_tx + 1) then kind_new_tx else kind_get_blocks

abbrev toy_message : Bytes → Option (Kind × Bytes)
toy_message text = some (toy_kind text, drop (length (toy_kind text)) text)

abbrev pub toy_wire : Wire
toy_wire = record {
  marshal_payload = toy_payload;
  marshal_message = λ kind raw. some (kind ++ raw);
  unmarshal_message = toy_message;
  unmarshal_hello = λ raw. none;
  unmarshal_get_blocks = λ raw. some (record { from_height = length raw; max = pos 100 });
  unmarshal_blocks = λ raw. none;
  unmarshal_peers = λ raw. none;
  unmarshal_block = λ raw. none;
  unmarshal_tx = λ raw. some signed_tx;
}

abbrev pub append_link : Link
append_link stream text = (stream ++ text, true)

pub append_link-IsReliable : IsReliable append_link
append_link-IsReliable stream text = refl

abbrev talk : List Sent
talk = ask_blocks 3 (pos 100) ∷ broadcast_tx signed_tx ∷ []

talk-IsSendable : All (IsSendable toy_wire) talk
unfolding kind_of payload_of
talk-IsSendable = (
  record {
    raw = replicate 3 b'x';
    carried = record {
      text = kind_get_blocks ++ replicate 3 b'x';
      marshals = refl;
      encodes = refl;
      not_empty = λ e. cc e;
      one_line = ground arith;
      decodes = refl;
    };
    read_back = refl;
  },
  (
    record {
      raw = b't' ∷ [];
      carried = record {
        text = kind_new_tx ++ b't' ∷ [];
        marshals = refl;
        encodes = refl;
        not_empty = λ e. cc e;
        one_line = ground arith;
        decodes = refl;
      };
      read_back = refl;
    },
    tt,
  ),
)

abbrev pub new_conn : Conn
new_conn = record { id = 7; remote = b'r' ∷ [] }

on_conn-stream_of_example :
    on_conn world toy_wire 9
      (λ addr. none)
      5
      node_one
      new_conn
      new_conn.remote
      (stream_of toy_wire append_link talk)
    ≡ over (
        until_hung world
          (accepted new_conn new_conn.remote
            ∷ (if (add_peer node_one.peers new_conn new_conn.remote false).1
                then conversation world toy_wire 9 (λ addr. none) new_conn.remote talk
                else []))
          node_one)
on_conn-stream_of_example =
    on_conn-stream_of world toy_wire 9 (λ addr. none) node_one new_conn new_conn.remote append_link
      talk 5 append_link-IsReliable talk-IsSendable (omega arith)

-- The connection becomes a peer.
new_conn-added : (add_peer node_one.peers new_conn new_conn.remote false).1 ≡ true
unfolding add_peer new_peer_set
new_conn-added = refl

abbrev node_three : Node
node_three = record node_one { chain = chain_three }
