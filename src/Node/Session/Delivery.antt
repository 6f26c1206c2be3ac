-- ===== src/Node/Session/Delivery.antt =====
-- p2p/transport.go and cmd/node/main.go: from the calls of `Send` to the handlers of `onConn`.
use chainlang.Prelude.{
  Option, true, false, ◌<◌, if◌then◌else◌, ℕ, zero, suc, bytes_beq, Bool, ◌≡◌, refl, ap, ◌∙◌, some,
  List, [], ◌∷◌, ◌++◌, map, Bytes, append_assoc, arith, length, All,
}
use chainlang.P2p.Messages.{
  Kind, kind_new_tx, kind_new_block, kind_get_blocks, kind_blocks, Payload, block_payload,
  tx_payload, blocks_payload, get_blocks_payload, Wire, IsCarried,
}
use chainlang.Core.Types.{Block}
use chainlang.P2p.Transport.{Link, send}
use chainlang.P2p.Transport.Framing.{IsReliable, send-IsCarried, read_message-IsCarried}
use chainlang.Node.{
  World, Node, Run, finished, hung, Sent, broadcast_block, broadcast_tx, reply_blocks, ask_blocks,
}
use chainlang.Node.Session.{
  Event, accepted, received, closed, handle, occur, Message, get_blocks, blocks, new_block, new_tx,
}
use chainlang.Node.Session.Dispatch.{handled, known_blocks, dispatch}
use chainlang.Node.Session.Conversation.{
  Conversation, over, go_on, answer, after_read, converse, if_added, on_conn,
}
use chainlang.P2p.Peers.{Conn, PeerSet, add_peer}

-- The arguments of `Send` and `Broadcast` for each message.
unfoldable pub kind_of : Sent → Kind
kind_of (broadcast_block b) = kind_new_block
kind_of (broadcast_tx tx) = kind_new_tx
kind_of (reply_blocks bs) = kind_blocks
kind_of (ask_blocks from max) = kind_get_blocks

unfoldable pub payload_of : Sent → Payload
payload_of (broadcast_block b) = block_payload b
payload_of (broadcast_tx tx) = tx_payload tx
payload_of (reply_blocks bs) = blocks_payload bs
payload_of (ask_blocks from max) = get_blocks_payload (record { from_height = from; max = max })

-- The message as its receiver takes it.
abbrev pub understood : Sent → Message
understood (broadcast_block b) = new_block b
understood (broadcast_tx tx) = new_tx tx
understood (reply_blocks bs) = blocks bs
understood (ask_blocks from max) = get_blocks from max

module _ (wire : Wire) where
  -- json.Unmarshal reads the payload back.
  abbrev pub IsReadBack : Sent → Bytes → Type 0
  IsReadBack (broadcast_block b) raw = wire.unmarshal_block raw ≡ some b
  IsReadBack (broadcast_tx tx) raw = wire.unmarshal_tx raw ≡ some tx
  IsReadBack (reply_blocks bs) raw = wire.unmarshal_blocks raw ≡ some (map some bs)
  IsReadBack (ask_blocks from max) raw =
      wire.unmarshal_get_blocks raw ≡ some (record { from_height = from; max = max })

  pub record IsSendable (s : Sent) : Type 0 where
    pub raw : Bytes
    pub carried : IsCarried wire (kind_of s) (some (payload_of s)) raw
    pub read_back : IsReadBack s raw

  -- What the calls of `Send` write, each in one call of `Write`, in the order of these calls. `Broadcast`
  -- has a goroutine for each call, so the order need not be that of the broadcasts.
  unfoldable pub stream_of : Link → List Sent → Bytes
  unfolding send kind_of payload_of
  stream_of link [] = []
  stream_of link (s ∷ ss) =
      (send wire link [] (kind_of s) (some (payload_of s))).0 ++ stream_of link ss

  known_blocks-some : (bs : List Block) → known_blocks (map some bs) ≡ some bs
  unfolding known_blocks
  known_blocks-some [] = refl
  known_blocks-some (b ∷ bs) = rw (known_blocks-some bs) refl

  dispatch-understood :
      (s : Sent) (raw : Bytes)
      → IsReadBack s raw
      → dispatch wire (kind_of s) raw ≡ handled (understood s)
  unfolding dispatch kind_of bytes_beq
  dispatch-understood (broadcast_block b) raw e = rw e refl
  dispatch-understood (broadcast_tx tx) raw e = rw e refl
  dispatch-understood (reply_blocks bs) raw e = rw (e, known_blocks-some bs) refl
  dispatch-understood (ask_blocks from max) raw e = rw e refl

  abbrev pub lines : (ss : List Sent) → All IsSendable ss → Bytes
  lines [] h = []
  lines (s ∷ ss) h = h.0.carried.text ++ 10 ∷ lines ss h.1

  stream_of-lines :
      (link : Link)
      → IsReliable link
      → (ss : List Sent) (h : All IsSendable ss) → stream_of link ss ≡ lines ss h
  unfolding stream_of
  stream_of-lines link reliable [] h = refl
  stream_of-lines link reliable (s ∷ ss) h =
      ap (λ (r : Bytes × Bool). r.0 ++ stream_of link ss)
        (send-IsCarried wire h.0.carried link [] reliable)
      ∙ append_assoc h.0.carried.text (10 ∷ []) (stream_of link ss)
      ∙ ap (λ t. h.0.carried.text ++ 10 ∷ t) (stream_of-lines link reliable ss h.1)

abbrev pub resume : (Node → Run) → Run → Run
resume next (finished n) = next n
resume next (hung n) = hung n

-- The events one after the other, until a handler waits for ever.
unfoldable pub until_hung : World → List Event → Node → Run
unfolding occur
until_hung w [] n = finished n
until_hung w (e ∷ es) n = resume (until_hung w es) (occur w e n)

module _ (w : World) (wire : Wire) (walk_fuel : ℕ) (dial : Bytes → Option Conn) where
  -- A peer that says this and closes the connection.
  abbrev pub conversation : Bytes → List Sent → List Event
  conversation remote [] = closed remote ∷ []
  conversation remote (s ∷ ss) = received walk_fuel dial (understood s) ∷ conversation remote ss

  go_on-until_hung :
      (es : List Event) (next : Node → Conversation)
      → ((n : Node) → next n ≡ over (until_hung w es n))
      → (r : Run) → go_on w wire walk_fuel dial next r ≡ over (resume (until_hung w es) r)
  go_on-until_hung es next same (finished n) = same n
  go_on-until_hung es next same (hung n) = refl

  converse-lines :
      (remote : Bytes) (fuel : ℕ) (ss : List Sent) (h : All (IsSendable wire) ss)
      → length ss < fuel
      → (n : Node)
      → converse w wire walk_fuel dial fuel n remote (lines wire ss h)
        ≡ over (until_hung w (conversation remote ss) n)
  unfolding converse until_hung occur answer after_read
  converse-lines remote zero ss h lt n = absurd (omega arith)
  converse-lines remote (suc fuel) [] h lt n = refl
  converse-lines remote (suc fuel) (s ∷ ss) h lt n =
      let next = λ (m : Node). converse w wire walk_fuel dial fuel m remote (lines wire ss h.1) in
      ap
        (λ (r : Option (Kind × Bytes) × Bytes).
          after_read w wire walk_fuel dial (λ m. converse w wire walk_fuel dial fuel m remote r.1) n
            remote r.0)
        (read_message-IsCarried wire h.0.carried (lines wire ss h.1))
      ∙ ap (answer w wire walk_fuel dial next n) (dispatch-understood wire s h.0.raw h.0.read_back)
      ∙ go_on-until_hung (conversation remote ss) next
          (converse-lines remote fuel ss h.1 (omega arith))
          (handle w walk_fuel dial n (understood s))

  if_added-lines :
      (n : Node) (remote : Bytes) (fuel : ℕ) (ss : List Sent) (h : All (IsSendable wire) ss)
      → length ss < fuel
      → (r : PeerSet × Bool)
      → if_added w wire walk_fuel dial fuel n remote (lines wire ss h) r
        ≡ over
            (until_hung w (if r.1 then conversation remote ss else []) (record n { peers = r.0 }))
  unfolding until_hung if_added
  if_added-lines n remote fuel ss h lt (added, true) =
      converse-lines remote fuel ss h lt (record n { peers = added })
  if_added-lines n remote fuel ss h lt (kept, false) = refl

  -- `onConn` on a connection that carries what is written to it, whose stream is what `Send` writes for
  -- some messages, in the order of the writes, where the JSON of each can be read back: the node goes
  -- through the events of Node.Session one after the other, first the connection, then, if it became a
  -- peer, each message in that order, and last its end. The first message whose handler waits for ever
  -- is the last that is handled, and if none does, `onConn` returns.
  pub on_conn-stream_of :
      (n : Node) (c : Conn) (remote : Bytes) (link : Link) (ss : List Sent) (fuel : ℕ)
      → IsReliable link
      → All (IsSendable wire) ss
      → length ss < fuel
      → on_conn w wire walk_fuel dial fuel n c remote (stream_of wire link ss)
        ≡ over (
            until_hung w
              (accepted c remote
                ∷ (if (add_peer n.peers c remote false).1 then conversation remote ss else []))
              n)
  unfolding on_conn until_hung occur
  on_conn-stream_of n c remote link ss fuel reliable h lt =
      ap (on_conn w wire walk_fuel dial fuel n c remote) (stream_of-lines wire link reliable ss h)
      ∙ if_added-lines n remote fuel ss h lt (add_peer n.peers c remote false)
