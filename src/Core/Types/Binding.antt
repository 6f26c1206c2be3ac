-- ===== src/Core/Types/Binding.antt =====
-- A hash stands for what was hashed, up to collisions of SHA-256.
use chainlang.Prelude.{
  ◌≡◌, inl, inr, ◌⊎◌, true, List, [], ◌∷◌, ap, bytes_eq, bytes_beq_iff, arith, ◌∙◌, sym,
}
use chainlang.Crypto.Primitives.{Primitives, TxPayload, BlockPayload, Collision}
use chainlang.Crypto.Hash.{hash_bytes_binding}
use chainlang.Core.Types.{
  Transaction, Block, tx_payload, tx_hash, tx_hashes, block_payload, block_hash, validate_block,
}

-- json.Marshal tells different payloads apart.
pub record EncodesFaithfully (p : Primitives) : Type 0 where
  pub tx_injective : (a b : TxPayload) → p.marshal_tx a ≡ p.marshal_tx b → a ≡ b
  pub block_injective : (a b : BlockPayload) → p.marshal_block a ≡ p.marshal_block b → a ≡ b

-- The transactions move the same amounts between the same accounts; their signatures may differ.
pub record SameTransfer (t u : Transaction) : Type 0 where
  pub from : t.from ≡ u.from
  pub to : t.to ≡ u.to
  pub amount : t.amount ≡ u.amount
  pub fee : t.fee ≡ u.fee
  pub nonce : t.nonce ≡ u.nonce

abbrev pub SameTransfers : List Transaction → List Transaction → Type 0
SameTransfers [] [] = Unit
SameTransfers [] (u ∷ us) = ⊥
SameTransfers (t ∷ ts) [] = ⊥
SameTransfers (t ∷ ts) (u ∷ us) = SameTransfer t u × SameTransfers ts us

-- Everything but the hash and the signatures.
pub record SameContents (b c : Block) : Type 0 where
  pub height : b.height ≡ c.height
  pub timestamp : b.timestamp ≡ c.timestamp
  pub previous_hash : b.previous_hash ≡ c.previous_hash
  pub merkle_root : b.merkle_root ≡ c.merkle_root
  pub validator_address : b.validator_address ≡ c.validator_address
  pub transfers : SameTransfers b.transactions c.transactions

pub validate_block-hash :
    (p : Primitives) (b : Block) → validate_block p b ≡ true → block_hash p b ≡ b.hash
unfolding validate_block
validate_block-hash p b h = ground (arith, bytes_beq_iff (block_hash p b) b.hash)

module _ (p : Primitives) (faithful : EncodesFaithfully p) where
  -- Where the JSON package tells payloads apart, transactions with one hash agree in sender,
  -- recipient, amount, fee and nonce, or there is a collision of SHA-256.
  pub tx_hash_binding :
      (s t : Transaction) → tx_hash p s ≡ tx_hash p t → (tx_payload s ≡ tx_payload t) ⊎ Collision p
  unfolding tx_hash
  tx_hash_binding s t e =
      elim (hash_bytes_binding p (p.marshal_tx (tx_payload s)) (p.marshal_tx (tx_payload t)) e) [
        | inl same ↦ inl (faithful.tx_injective _ _ same)
        | inr collision ↦ inr collision
      ]

  transactions_binding :
      (ts us : List Transaction)
      → tx_hashes p ts ≡ tx_hashes p us
      → SameTransfers ts us ⊎ Collision p
  unfolding tx_hashes
  transactions_binding [] [] e = inl tt
  transactions_binding [] (u ∷ us) e = cc e
  transactions_binding (t ∷ ts) [] e = cc e
  transactions_binding (t ∷ ts) (u ∷ us) e = elim (tx_hash_binding t u cc) [
    | inr collision ↦ inr collision
    | inl same ↦ elim (transactions_binding ts us cc) [
      | inr collision ↦ inr collision
      | inl others ↦ inl (
        record {
          from = ap (λ x. x.from) same;
          to = ap (λ x. x.to) same;
          amount = ap (λ x. x.amount) same;
          fee = ap (λ x. x.fee) same;
          nonce = ap (λ x. x.nonce) same;
        },
        others,
      )
    ]
  ]

  block_hash_binding :
      (b c : Block)
      → block_hash p b ≡ block_hash p c
      → (block_payload p b ≡ block_payload p c) ⊎ Collision p
  unfolding block_hash
  block_hash_binding b c e =
      elim (hash_bytes_binding p (p.marshal_block (block_payload p b))
        (p.marshal_block (block_payload p c)) e) [
          | inl same ↦ inl (faithful.block_injective _ _ same)
          | inr collision ↦ inr collision
        ]

  -- Where the JSON package tells payloads apart, two blocks that pass `ValidateBlock` under one
  -- hash agree in height, timestamp, parent, Merkle root and producer, and transaction by transaction
  -- in sender, recipient, amount, fee and nonce, or there is a collision of SHA-256.
  pub validate_block_binding :
      (b c : Block)
      → validate_block p b ≡ true
      → validate_block p c ≡ true
      → b.hash ≡ c.hash
      → SameContents b c ⊎ Collision p
  validate_block_binding b c hb hc e =
      let hashes = validate_block-hash p b hb ∙ e ∙ sym (validate_block-hash p c hc) in
      elim (block_hash_binding b c hashes) [
        | inr collision ↦ inr collision
        | inl same ↦
            elim (transactions_binding b.transactions c.transactions (ap (λ x. x.tx_hashes) same)) [
              | inr collision ↦ inr collision
              | inl transfers ↦ inl (record {
                height = ap (λ x. x.height) same;
                timestamp = ap (λ x. x.timestamp) same;
                previous_hash = ap (λ x. x.previous_hash) same;
                merkle_root = ap (λ x. x.merkle_root) same;
                validator_address = ap (λ x. x.validator_address) same;
                transfers = transfers;
              })
            ]
      ]
