-- ===== src/Node/Api.antt =====
-- cmd/node/main.go: the HTTP API of a running node. A handler is given what the request says; reading
-- the JSON of a body and the number in a query is outside.
pub mod Explorer
use chainlang.Prelude.{
  ℕ, ◌+◌, ◌-◌, Bool, not, Option, none, some, List, [], Bytes, bytes_eq, ◌==◌, leb, ltb, nat_beq,
  value_or, if◌then◌else◌,
}
use chainlang.Go.Word.{ℤ, pos, negsuc}
use chainlang.Crypto.Hash.{hash_hex, hash_from_hex}
use chainlang.Crypto.Signature.{address_from_hex}
use chainlang.Core.Types.{Transaction, Block, tx_hash}
use chainlang.Core.Chain.{
  Chain, Outcome, returned, ◌and_then◌, last_block, get_block, get_blocks_from,
}
use chainlang.Core.Chain.Loading.{get_block_by_height}
use chainlang.State.Store.{State, get_balance, get_nonce}
use chainlang.Mempool.{Mempool, AddError, add}
use chainlang.Mempool as Mempool
use chainlang.P2p.Peers.{peer_count}
use chainlang.Node.{World, Node, last_or_nil, broadcast_tx, send}

-- A status and what the body says. A nil slice and an empty one are both `[]`. The time since the last
-- block is counted from a timestamp, if there is one.
pub data Response : Type 0 where
  method_not_allowed : Response
  bad_request : Response
  not_found : Response
  accepted : Bytes → Response
  status_text : ℕ → ℕ → Response
  account_json : ℕ → ℕ → Response
  blocks_json : List Block → Response
  block_json : Option Block → Response
  metrics_json : ℕ → ℕ → ℕ → Option ℕ → Response

-- `limit`, given what was scanned of the query.
abbrev pub limited : ℕ → ℕ
limited n = if nat_beq n 0 then 20 else if ltb 100 n then 20 else n

unfoldable pub limit_of : Option ℤ → ℕ
limit_of none = 20
limit_of (some (pos n)) = limited n
limit_of (some (negsuc n)) = 20

-- The height of the first of the last `limit` blocks.
unfoldable pub first_height : ℕ → ℕ → ℕ
first_height height limit = if leb limit height then height - limit + 1 else 0

abbrev pub height_of : Option Block → ℕ
height_of none = 0
height_of (some last) = last.height

abbrev pub stamp_of : Option Block → Option ℕ
stamp_of none = none
stamp_of (some last) = if ltb 0 last.timestamp then some last.timestamp else none

module _ (w : World) where
  abbrev pub tx_reply : Node → Transaction → Mempool × Option AddError → Node × Response
  tx_reply n tx (pool, some e) = (record n { pool = pool }, bad_request)
  tx_reply n tx (pool, none) =
      (send (record n { pool = pool }) (broadcast_tx tx), accepted (hash_hex (tx_hash w.p tx)))

  abbrev tx_body : Node → Option Transaction → Node × Response
  unfolding add
  tx_body n none = (n, bad_request)
  tx_body n (some tx) = tx_reply n tx (add w.p (some n.state) n.pool tx)

  -- POST /tx
  unfoldable pub serve_tx : Node → Bool → Option Transaction → Node × Response
  unfolding tx_body
  serve_tx n is_post body = if not is_post then (n, method_not_allowed) else tx_body n body

  abbrev pub last_known : Node → Outcome (Chain × Option Block)
  unfolding last_block
  last_known n = last_block w.json n.chain and_then λ r. returned (r.0, last_or_nil r.1)

  -- GET /status
  unfoldable pub serve_status : Node → Outcome (Chain × Response)
  unfolding last_known
  serve_status n =
      last_known n and_then λ r. returned (r.0, status_text (height_of r.1) (Mempool.size n.pool))

  abbrev account_reply : State → Option Bytes → Response
  account_reply s none = bad_request
  account_reply s (some addr) =
      account_json (value_or 0 (get_balance s addr)) (value_or 0 (get_nonce s addr))

  -- GET /account; a missing address is `[]`.
  unfoldable pub serve_account : Node → Bool → Bytes → Response
  serve_account n is_get text =
      if not is_get
      then method_not_allowed
      else if text == []
      then bad_request
      else account_reply n.state (address_from_hex text)

  abbrev pub listed : Chain × Option (List Block) → Outcome (Chain × Response)
  listed (c, blocks) = returned (c, blocks_json (value_or [] blocks))

  abbrev pub recent : ℕ → ℕ → Chain × Option Block → Outcome (Chain × Response)
  unfolding get_blocks_from first_height
  recent fuel limit (c, none) = returned (c, blocks_json [])
  recent fuel limit (c, some last) =
      get_blocks_from w.json fuel c (first_height last.height limit) (pos limit) and_then listed

  -- GET /blocks; the fuel is for the walk over the blocks.
  unfoldable pub serve_blocks : ℕ → Node → Bool → Option ℤ → Outcome (Chain × Response)
  unfolding recent last_known limit_of
  serve_blocks fuel n is_get query =
      if not is_get
      then returned (n.chain, method_not_allowed)
      else last_known n and_then recent fuel (limit_of query)

  abbrev by_hash : Chain × Option Block → Outcome (Chain × Response)
  by_hash (c, none) = returned (c, not_found)
  by_hash (c, some b) = returned (c, block_json (some b))

  abbrev by_height : Option (Option Block) → Response
  by_height none = not_found
  by_height (some b) = block_json b

  abbrev height_reply : Node → Option ℕ → Response
  unfolding get_block_by_height
  height_reply n none = bad_request
  height_reply n (some height) = by_height (get_block_by_height w.json w.os n.chain.disk height)

  -- GET /block; a missing value is `[]`, and the last argument is what was scanned of the height.
  unfoldable pub serve_block : Node → Bool → Bytes → Bytes → Option ℕ → Outcome (Chain × Response)
  unfolding height_reply get_block
  serve_block n is_get hash height scanned =
      if not is_get
      then returned (n.chain, method_not_allowed)
      else if not (hash == [])
      then get_block w.json n.chain (hash_from_hex hash) and_then by_hash
      else if not (height == [])
      then returned (n.chain, height_reply n scanned)
      else returned (n.chain, bad_request)

  -- GET /metrics
  unfoldable pub serve_metrics : Node → Bool → Outcome (Chain × Response)
  unfolding last_known
  serve_metrics n is_get =
      if not is_get
      then returned (n.chain, method_not_allowed)
      else last_known n and_then λ r. returned (
        r.0,
        metrics_json (height_of r.1) (Mempool.size n.pool) (peer_count n.peers) (stamp_of r.1),
      )
