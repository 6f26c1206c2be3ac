-- ===== src/Core/Types/Validity.antt =====
-- Which blocks and transactions pass their own checks.
use chainlang.Prelude.{
  ℕ, ◌≤◌, ◌≡◌, refl, true, some, List, [], ◌∷◌, arith, length, Bytes, ap, sym, ◌∙◌, bytes_eq,
  bytes_beq, bytes_beq_iff, ==_refl, Option-cases, inl, inr, map,
}
use chainlang.Crypto.Primitives.{Primitives, PublicKey}
use chainlang.Crypto.Hash.{hash_bytes}
use chainlang.Crypto.Signature.{pubkey_to_address, unmarshal_pubkey, verify}
use chainlang.Crypto.Merkle
use chainlang.Core.Types.{
  Transaction, Block, tx_hash, tx_hashes, verify_signature, validate_block, new_block,
  genesis_block, block_hash, tx_payload,
}

module _ (p : Primitives) where
  -- A block that `NewBlock` builds passes `ValidateBlock`, and so does the genesis block.
  pub validate_block-new_block :
      (now height : ℕ) (prev_hash validator : Bytes) (txs : List Transaction)
      → (validate_block p (new_block p now height prev_hash validator txs) ≡ true)
        × (validate_block p (genesis_block p validator) ≡ true)
  unfolding validate_block new_block genesis_block block_hash bytes_beq
  validate_block-new_block now height prev_hash validator txs =
      (simp ==_refl, simp (Merkle.merkle_root-nil p, ==_refl))

  -- What passing `VerifySignature` says: the sender's key parses, its address is `From`, and the
  -- signature has at least 64 bytes and verifies over the transaction's hash.
  pub verify_signature_sound :
      (t : Transaction)
      → verify_signature p t ≡ true
      → (k : PublicKey) × (unmarshal_pubkey p t.sender_pubkey ≡ some k)
        × (pubkey_to_address p (some k) ≡ t.from)
        × (64 ≤ length t.signature)
        × (verify p (some k) (tx_hash p t) t.signature ≡ true)
  unfolding verify_signature
  verify_signature_sound t h = elim (Option-cases (unmarshal_pubkey p t.sender_pubkey)) [
    | inl unparsed ↦ cc (rw unparsed at h)
    | inr (k, parsed) ↦
        let h' = rw parsed at h in
        (
          k,
          parsed,
          ground (arith, bytes_beq_iff (pubkey_to_address p (some k)) t.from),
          ground arith,
          ground arith,
        )
  ]

  tx_hashes-eq :
      (ts : List Transaction)
      → tx_hashes p ts ≡ map (λ a. hash_bytes p (p.marshal_tx a)) (map tx_payload ts)
  unfolding tx_hashes tx_hash
  tx_hashes-eq [] = refl
  tx_hashes-eq (t ∷ ts) = ap (λ l. tx_hash p t ∷ l) (tx_hashes-eq ts)

  -- `ValidateBlock` looks neither at the block's signature nor at the keys and signatures of its
  -- transactions: they can be exchanged and its answer is the same.
  pub validate_block_ignores_signatures :
      (b : Block) (sig : Bytes) (txs : List Transaction)
      → map tx_payload txs ≡ map tx_payload b.transactions
      → validate_block p (record b { transactions = txs; signature = sig }) ≡ validate_block p b
  unfolding validate_block block_hash
  validate_block_ignores_signatures b sig txs same =
      let hashes : tx_hashes p txs ≡ tx_hashes p b.transactions =
        tx_hashes-eq txs
        ∙ ap (map (λ a. hash_bytes p (p.marshal_tx a))) same
        ∙ sym (tx_hashes-eq b.transactions) in
      rw hashes
