-- ===== src/Node/Sending.antt =====
-- cmd/node/main.go, `runSend` and `runKeygen`: a transaction from a key file to a node's HTTP API. The
-- API is a parameter; a node's own handlers can stand for it.
pub mod Acceptance
use chainlang.Prelude.{ℕ, Bool, true, false, Option, none, some, [], Bytes, nat_beq, if◌then◌else◌}
use chainlang.Crypto.Primitives.{Primitives, PrivateKey}
use chainlang.Crypto.Hash.{hash_hex}
use chainlang.Crypto.Signature.{
  pubkey_to_address, address_hex, address_from_hex, marshal_pubkey, sign,
}
use chainlang.Crypto.Keyfile.{KeyDisk, KeyStore, save_key, load_key}
use chainlang.Core.Types.{Transaction, tx_hash}
use chainlang.Node.{World, Node}
use chainlang.Node.Api.{Response, accepted, account_json, serve_account, serve_tx}
use chainlang.Node.Starting.{Attempt, done, refused, ◌and_run◌, checked, pointed, succeeded}

-- What a command asks of a node, which may change by it: the nonce of GET /account for an address text,
-- and whether POST /tx was answered with the status Accepted. `none` is an error.
pub record Api (S : Type 0) : Type 0 where
  pub account_nonce : S → Bytes → Option ℕ
  pub post_tx : S → Transaction → S × Option Bool

-- The fields of `runSend`'s transaction before its signature.
abbrev pub unsigned_tx : Primitives → PrivateKey → Bytes → ℕ → ℕ → ℕ → Transaction
unsigned_tx p priv to amount fee nonce = record {
  from = pubkey_to_address p (some priv.public_key);
  to = to;
  amount = amount;
  fee = fee;
  nonce = nonce;
  sender_pubkey = marshal_pubkey p (some priv.public_key);
  signature = [];
}

abbrev signed_by : Transaction → Option Bytes → Option Transaction
signed_by tx none = none
signed_by tx (some sig) = some (record tx { signature = sig })

-- The transaction with its signature; `none` is an error of `Sign`.
unfoldable pub signed_tx : Primitives → PrivateKey → Bytes → ℕ → ℕ → ℕ → Option Transaction
unfolding sign tx_hash
signed_tx p priv to amount fee nonce =
    let tx = unsigned_tx p priv to amount fee nonce in signed_by tx (sign p priv (tx_hash p tx))

abbrev posted {ℓ} : {S : Type ℓ} → S × Option Bool → Attempt S
posted (s, none) = refused
posted (s, some false) = refused
posted (s, some true) = done s

module _ (p : Primitives) (keys : KeyStore) {S : Type 0} (api : Api S) where
  -- A nonce of 0 stands for the one that the node gives.
  abbrev pub nonce_of : S → Bytes → ℕ → Option ℕ
  nonce_of s from nonce =
      if nat_beq nonce 0 then api.account_nonce s (address_hex from) else some nonce

  -- `runSend`: the node after it, and the text of the hash that is printed.
  unfoldable pub run_send : KeyDisk → Bytes → Bytes → ℕ → ℕ → ℕ → S → Attempt (S × Bytes)
  unfolding load_key address_from_hex address_hex signed_tx tx_hash
  run_send disk path to_hex amount fee nonce s =
      if nat_beq amount 0
      then refused
      else checked (load_key keys disk path) and_run λ loaded. pointed loaded and_run λ priv.
          checked (address_from_hex to_hex) and_run λ to.
          checked (nonce_of s (pubkey_to_address p (some priv.public_key)) nonce) and_run λ n.
          checked (signed_tx p priv to amount fee n) and_run λ tx.
          posted (api.post_tx s tx) and_run λ after. done (after, hash_hex (tx_hash p tx))

-- `runKeygen`, with what `GenerateKey` returned: the address that is printed.
unfoldable pub run_keygen :
    Primitives → KeyStore → Option PrivateKey → KeyDisk → Bytes → Attempt (KeyDisk × Bytes)
unfolding save_key address_hex
run_keygen p keys generated disk path = checked generated and_run λ priv.
    succeeded (save_key keys disk path (some priv)) and_run λ saved.
    done (saved, address_hex (pubkey_to_address p (some priv.public_key)))

abbrev pub nonce_in : Response → Option ℕ
nonce_in (account_json balance nonce) = some nonce
nonce_in _ = none

abbrev pub is_accepted : Response → Bool
is_accepted (accepted hash) = true
is_accepted _ = false

-- A node that is asked directly.
unfoldable pub node_api : World → Api Node
unfolding serve_account serve_tx
node_api w = record {
  account_nonce = λ n text. nonce_in (serve_account w n true text);
  post_tx = λ n tx.
      let (after, response) = serve_tx w n true (some tx) in (after, some (is_accepted response));
}
