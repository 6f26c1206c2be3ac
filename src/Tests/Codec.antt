-- ===== src/Tests/Codec.antt =====
-- A text for a block, each string behind its length, that is read back.
use chainlang.Prelude.{
  ℕ, zero, suc, ◌≤◌, ◌≡◌, refl, ap, ap₂, ◌∙◌, Option, none, some, List, [], ◌∷◌, Bytes, map, take,
  drop, get_or, length, length-append, take-append_length, drop-append_length, arith,
}
use chainlang.Core.Types.{Transaction, Block}
use chainlang.Tests.Instance.{pack}

unfoldable pub unpack : ℕ → Bytes → List Bytes
unpack zero text = []
unpack (suc fuel) [] = []
unpack (suc fuel) (n ∷ text) = take n text ∷ unpack fuel (drop n text)

abbrev pub unpack_all : Bytes → List Bytes
unpack_all text = unpack (length text) text

unpack-pack : (fuel : ℕ) (xs : List Bytes) → length xs ≤ fuel → unpack fuel (pack xs) ≡ xs
unfolding unpack pack
unpack-pack zero [] enough = refl
unpack-pack zero (x ∷ xs) enough = absurd (omega arith)
unpack-pack (suc fuel) [] enough = refl
unpack-pack (suc fuel) (x ∷ xs) enough =
    ap₂ (λ s rest. s ∷ unpack fuel rest) (take-append_length x (pack xs))
      (drop-append_length x (pack xs))
    ∙ ap (λ rest. x ∷ rest) (unpack-pack fuel xs (omega arith))

length-pack : (xs : List Bytes) → length xs ≤ length (pack xs)
unfolding pack
length-pack [] = omega arith
length-pack (x ∷ xs) = omega (arith, length-pack xs, length-append x (pack xs))

pub unpack_all-pack : (xs : List Bytes) → unpack_all (pack xs) ≡ xs
unpack_all-pack xs = unpack-pack (length (pack xs)) xs (length-pack xs)

unfoldable write_tx : Transaction → Bytes
unfolding pack
write_tx t = t.amount ∷ t.fee ∷ t.nonce ∷ pack (t.from ∷ t.to ∷ t.sender_pubkey ∷ t.signature ∷ [])

abbrev tx_of : Bytes → List Bytes → Transaction
tx_of text strings = record {
  from = get_or strings 0 [];
  to = get_or strings 1 [];
  amount = get_or text 0 0;
  fee = get_or text 1 0;
  nonce = get_or text 2 0;
  sender_pubkey = get_or strings 2 [];
  signature = get_or strings 3 [];
}

unfoldable read_tx : Bytes → Transaction
unfolding unpack
read_tx text = tx_of text (unpack_all (drop 3 text))

read_tx-write_tx : (t : Transaction) → read_tx (write_tx t) ≡ t
unfolding read_tx write_tx
read_tx-write_tx t =
    ap (tx_of (t.amount ∷ t.fee ∷ t.nonce ∷ []))
      (unpack_all-pack (t.from ∷ t.to ∷ t.sender_pubkey ∷ t.signature ∷ []))

unfoldable pub write_block_text : Block → Bytes
unfolding pack write_tx
write_block_text b =
    b.height
    ∷ b.timestamp
    ∷ pack (
        b.previous_hash
        ∷ b.merkle_root
        ∷ b.validator_address
        ∷ b.signature
        ∷ b.hash
        ∷ map write_tx b.transactions)

abbrev block_of : ℕ → ℕ → List Bytes → Block
block_of height timestamp strings = record {
  height = height;
  timestamp = timestamp;
  previous_hash = get_or strings 0 [];
  merkle_root = get_or strings 1 [];
  validator_address = get_or strings 2 [];
  transactions = map read_tx (drop 5 strings);
  signature = get_or strings 3 [];
  hash = get_or strings 4 [];
}

unfoldable pub read_block_text : Bytes → Option Block
unfolding unpack read_tx
read_block_text [] = none
read_block_text (height ∷ []) = none
read_block_text (height ∷ timestamp ∷ text) = some (block_of height timestamp (unpack_all text))

read_txs : (ts : List Transaction) → map read_tx (map write_tx ts) ≡ ts
read_txs [] = refl
read_txs (t ∷ ts) = ap₂ (λ u us. u ∷ us) (read_tx-write_tx t) (read_txs ts)

pub read_block_text-write_block_text : (b : Block) → read_block_text (write_block_text b) ≡ some b
unfolding read_block_text write_block_text
read_block_text-write_block_text b =
    ap (λ strings. some (block_of b.height b.timestamp strings))
      (unpack_all-pack (
        b.previous_hash
        ∷ b.merkle_root
        ∷ b.validator_address
        ∷ b.signature
        ∷ b.hash
        ∷ map write_tx b.transactions))
    ∙ ap (λ ts. some (record b { transactions = ts })) (read_txs b.transactions)
