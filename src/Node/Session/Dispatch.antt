-- ===== src/Node/Session/Dispatch.antt =====
-- cmd/node/main.go, `onConn`: from the lines of a connection to the handlers.
use chainlang.Prelude.{Option, none, some, List, [], ◌∷◌, Bytes, bytes_eq, ◌==◌, if◌then◌else◌}
use chainlang.Core.Types.{Block}
use chainlang.P2p.Messages.{
  Kind, kind_new_tx, kind_new_block, kind_get_blocks, kind_blocks, kind_get_peers, kind_peers,
  kind_hello, HelloPayload, GetBlocksPayload, Wire,
}
use chainlang.Node.Session.{Message, hello, get_blocks, blocks, new_block, new_tx, get_peers, peers}

-- What a line comes to: nothing, a message for its handler, or blocks of which one is a nil pointer.
pub data Dispatched : Type 0 where
  skipped : Dispatched
  handled : Message → Dispatched
  holds_nil : List (Option Block) → Dispatched

abbrev add_known : Block → Option (List Block) → Option (List Block)
add_known b none = none
add_known b (some bs) = some (b ∷ bs)

-- The blocks, if no pointer is nil.
unfoldable pub known_blocks : List (Option Block) → Option (List Block)
known_blocks [] = some []
known_blocks (none ∷ bs) = none
known_blocks (some b ∷ bs) = add_known b (known_blocks bs)

abbrev handed {ℓ} : {A : Type ℓ} → (A → Message) → Option A → Dispatched
handed message none = skipped
handed message (some a) = handled (message a)

abbrev handed_blocks : List (Option Block) → Option (List Block) → Dispatched
handed_blocks bs none = holds_nil bs
handed_blocks bs (some known) = handled (blocks known)

abbrev dispatch_blocks : Option (List (Option Block)) → Dispatched
unfolding known_blocks
dispatch_blocks none = skipped
dispatch_blocks (some bs) = handed_blocks bs (known_blocks bs)

module _ (wire : Wire) where
  -- The `switch kind` with the `json.Unmarshal` of each case.
  unfoldable pub dispatch : Kind → Bytes → Dispatched
  unfolding dispatch_blocks
  dispatch kind raw =
      if kind == kind_hello
      then handed (λ (h : HelloPayload). hello h.listen_addr) (wire.unmarshal_hello raw)
      else if kind == kind_get_blocks
      then handed (λ (r : GetBlocksPayload). get_blocks r.from_height r.max)
          (wire.unmarshal_get_blocks raw)
      else if kind == kind_blocks
      then dispatch_blocks (wire.unmarshal_blocks raw)
      else if kind == kind_new_block
      then handed new_block (wire.unmarshal_block raw)
      else if kind == kind_new_tx
      then handed new_tx (wire.unmarshal_tx raw)
      else if kind == kind_get_peers
      then handled get_peers
      else if kind == kind_peers
      then handed peers (wire.unmarshal_peers raw)
      else skipped
