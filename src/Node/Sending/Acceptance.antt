-- ===== src/Node/Sending/Acceptance.antt =====
-- A node takes the transaction that `runSend` makes.
use chainlang.Prelude.{
  ℕ, ◌≤◌, ◌<◌, ◌≡◌, ap, true, false, some, [], Bytes, bytes_eq, ◌==◌, ==_refl, ==_cases, inl, inr,
  length, arith, ltb,
}
use chainlang.Go.Hex.{decode_string}
use chainlang.Config.{min_fee}
use chainlang.Crypto.Primitives.{Primitives, PrivateKey}
use chainlang.Crypto.Signature.{
  pubkey_to_address, address_hex, address_from_hex, marshal_pubkey, unmarshal_pubkey, sign,
  SignsSoundly, verify-sign, IsAddress, address_from_hex-address_hex,
}
use chainlang.Crypto.Keyfile.{KeyStore}
use chainlang.Core.Types.{Transaction, tx_hash, verify_signature}
use chainlang.State.Store.{get_nonce}
use chainlang.Mempool.{has_hash}
use chainlang.Mempool.Adding.{AccountAllows}
use chainlang.Node.{World, Node}
use chainlang.Node.Sending.{unsigned_tx}

-- A key whose signatures verify and whose public half can be read back from its bytes.
pub record IsUsable (p : Primitives) (priv : PrivateKey) : Type 0 where
  pub sound : SignsSoundly p priv
  pub read_back :
      unmarshal_pubkey p (marshal_pubkey p (some priv.public_key)) ≡ some priv.public_key

module _ (p : Primitives) (priv : PrivateKey) (usable : IsUsable p priv) (to : Bytes)
    (amount fee nonce : ℕ) where
  abbrev tx_with : Bytes → Transaction
  tx_with sig = record (unsigned_tx p priv to amount fee nonce) { signature = sig }

  -- What a usable key signs passes `VerifySignature`.
  pub verify_signature-signed :
      (sig : Bytes)
      → sign p priv (tx_hash p (unsigned_tx p priv to amount fee nonce)) ≡ some sig
      → verify_signature p (tx_with sig) ≡ true
  unfolding verify_signature tx_hash
  verify_signature-signed sig signs =
      let (verifies, size) =
        verify-sign p priv (tx_hash p (unsigned_tx p priv to amount fee nonce)) usable.sound
          signs in
      let own = ==_refl (pubkey_to_address p (some priv.public_key)) in
      let long : ltb (length sig) 64 ≡ false = ground arith in
      rw (usable.read_back, long, own) verifies

-- The node's state lets the key's owner send the transaction next, and its pool has room and does not
-- hold it yet.
pub record IsExpected (w : World) (n : Node) (priv : PrivateKey) (tx : Transaction) : Type 0 where
  pub nonce : get_nonce n.state (pubkey_to_address w.p (some priv.public_key)) ≡ some tx.nonce
  pub allowed : AccountAllows (some n.state) tx
  pub room : length n.pool.txs < n.pool.max
  pub pays : min_fee ≤ tx.fee
  pub fresh : has_hash w.p n.pool.txs (tx_hash w.p tx) ≡ false

not_empty : (a : Bytes) → IsAddress a → (address_hex a == []) ≡ false
unfolding address_from_hex decode_string
not_empty a h = elim (==_cases (address_hex a) []) [
  | inl (e, same) ↦ cc (address_from_hex-address_hex a h, ap address_from_hex same)
  | inr (e, _) ↦ e
]

module _ (w : World) (keys : KeyStore) (n : Node) (priv : PrivateKey) where
  abbrev own_address : Bytes
  own_address = pubkey_to_address w.p (some priv.public_key)
