-- ===== src/Node/Session/Conversation.antt =====
-- cmd/node/main.go, `onConn`: the life of one connection. Between two of its messages no other goroutine
-- acts here; what others do in between are events of Node.Session.
use chainlang.Prelude.{ℕ, zero, suc, Bool, true, false, Option, none, some, List, Bytes}
use chainlang.Core.Types.{Block}
use chainlang.P2p.Messages.{Kind, Wire}
use chainlang.P2p.Transport.{read_message}
use chainlang.P2p.Peers.{Conn, PeerSet, add_peer, remove_peer}
use chainlang.Node.{World, Node, Run, finished, hung}
use chainlang.Node.Session.{handle}
use chainlang.Node.Session.Dispatch.{Dispatched, skipped, handled, holds_nil, dispatch}

-- `onConn` ends or waits for ever in a handler; or it has come to blocks of which one is a nil pointer;
-- or it is about to read the stream.
pub data Conversation : Type 0 where
  over : Run → Conversation
  met_nil : Node → List (Option Block) → Conversation
  reading : Node → Bytes → Conversation

module _ (w : World) (wire : Wire) (walk_fuel : ℕ) (dial : Bytes → Option Conn) where
  -- The next round of the loop comes only when the handler has returned.
  abbrev pub go_on : (Node → Conversation) → Run → Conversation
  go_on next (finished n) = next n
  go_on next (hung n) = over (hung n)

  unfoldable pub answer : (Node → Conversation) → Node → Dispatched → Conversation
  unfolding handle
  answer next n skipped = next n
  answer next n (handled message) = go_on next (handle w walk_fuel dial n message)
  answer next n (holds_nil bs) = met_nil n bs

  -- If there is no message to read, the deferred `RemovePeer` runs and `onConn` returns.
  unfoldable pub after_read :
      (Node → Conversation) → Node → Bytes → Option (Kind × Bytes) → Conversation
  unfolding remove_peer dispatch
  after_read next n remote none = over (finished (record n { peers = remove_peer n.peers remote }))
  after_read next n remote (some (kind, raw)) = answer next n (dispatch wire kind raw)

  -- The loop over `ReadMessage`, at most `fuel` times.
  unfoldable pub converse : ℕ → Node → Bytes → Bytes → Conversation
  unfolding read_message after_read
  converse zero n remote stream = reading n stream
  converse (suc fuel) n remote stream =
      let (o, rest) = read_message wire stream in
      after_read (λ m. converse fuel m remote rest) n remote o

  unfoldable pub if_added : ℕ → Node → Bytes → Bytes → PeerSet × Bool → Conversation
  unfolding converse
  if_added fuel n remote stream (added, true) =
      converse fuel (record n { peers = added }) remote stream
  if_added fuel n remote stream (kept, false) = over (finished (record n { peers = kept }))

  -- `onConn`, with the bytes that the other side has written when it closes.
  unfoldable pub on_conn : ℕ → Node → Conn → Bytes → Bytes → Conversation
  unfolding add_peer if_added
  on_conn fuel n c remote stream = if_added fuel n remote stream (add_peer n.peers c remote false)
