-- ===== src/Loadgen.antt =====
-- cmd/loadgen/main.go: many signed transactions of one key, sent to a node by several goroutines.
pub mod Acceptance
pub mod Indices
use chainlang.Prelude.{
  ℕ, zero, suc, ◌+◌, true, Option, none, some, List, [], ◌∷◌, ◌++◌, Bytes, ltb, replicate,
  if◌then◌else◌, bytes_eq, ◌==◌,
}
use chainlang.Config.{min_fee}
use chainlang.Go.Word.{add64}
use chainlang.Crypto.Primitives.{Primitives, PrivateKey}
use chainlang.Crypto.Keyfile.{KeyDisk, KeyStore, load_key}
use chainlang.Crypto.Signature.{pubkey_to_address, address_hex, marshal_pubkey, sign}
use chainlang.Core.Types.{Transaction, tx_hash}
use chainlang.Node.{World, Node}
use chainlang.Node.Api.{Response, serve_tx}
use chainlang.Node.Sending.{is_accepted, node_api}
use chainlang.Node.Starting.{Attempt, done, refused, ◌and_run◌, checked, pointed}

-- `to[19] = 1`
abbrev pub sink : Bytes
sink = replicate 19 0 ++ 1 ∷ []

-- The indices that one goroutine sends: `for i := offset; i < total; i += concurrency`. An int is
-- unbounded here, and the fuel is for the loop.
unfoldable pub indices : ℕ → ℕ → ℕ → ℕ → List ℕ
indices zero total concurrency i = []
indices (suc fuel) total concurrency i =
    let rest = indices fuel total concurrency (i + concurrency) in
    if ltb i total then i ∷ rest else []

abbrev pub unsigned_load : Primitives → PrivateKey → ℕ → ℕ → Transaction
unsigned_load p priv nonce i = record {
  from = pubkey_to_address p (some priv.public_key);
  to = sink;
  amount = 1;
  fee = min_fee;
  nonce = add64 nonce i;
  sender_pubkey = marshal_pubkey p (some priv.public_key);
  signature = [];
}

abbrev pub signed_load : Transaction → Option Bytes → Option Transaction
signed_load tx none = none
signed_load tx (some sig) = some (record tx { signature = sig })

-- The transaction of an index, for the nonce that the node gave at first.
unfoldable pub load_tx : Primitives → PrivateKey → ℕ → ℕ → Option Transaction
unfolding sign tx_hash
load_tx p priv nonce i =
    let tx = unsigned_load p priv nonce i in signed_load tx (sign p priv (tx_hash p tx))

abbrev pub counted : ℕ → Node × Response → Node × ℕ
counted count (n, response) = (n, if is_accepted response then suc count else count)

module _ (w : World) where
  unfoldable pub post_if : Option Transaction → Node × ℕ → Node × ℕ
  unfolding serve_tx
  post_if none (n, count) = (n, count)
  post_if (some tx) (n, count) = counted count (serve_tx w n true (some tx))

  -- The posts of all goroutines, in the order in which the node takes them, and how many it accepts.
  unfoldable pub post_all : PrivateKey → ℕ → List ℕ → Node × ℕ → Node × ℕ
  unfolding post_if load_tx
  post_all priv nonce [] r = r
  post_all priv nonce (i ∷ is) r = post_all priv nonce is (post_if (load_tx w.p priv nonce i) r)

-- The loop that counts what comes on `done` and reports. The channel holds `pending` messages; when it is
-- empty and the count is short, the timeout ends the loop.
unfoldable pub count_done : ℕ → ℕ → ℕ → ℕ
count_done total accepted zero = accepted
count_done total accepted (suc pending) =
    let rest = count_done total (suc accepted) pending in
    if ltb accepted total then rest else accepted

-- `main`: the node after it, and the number that is reported. `order` has the indices of all goroutines in the
-- order in which the node takes their posts. An end by `log.Fatal` is an error.
unfoldable pub run_load :
    World → KeyStore → KeyDisk → Bytes → ℕ → List ℕ → Node → Attempt (Node × ℕ)
unfolding load_key node_api address_hex post_all count_done
run_load w keys disk path total order n =
    if path == []
    then refused
    else checked (load_key keys disk path) and_run λ loaded. pointed loaded and_run λ priv.
        let from = address_hex (pubkey_to_address w.p (some priv.public_key)) in
        checked ((node_api w).account_nonce n from) and_run λ nonce.
        let (after, count) = post_all w priv nonce order (n, 0) in
        done (after, count_done total 0 count)
