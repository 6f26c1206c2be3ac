-- ===== src/Mempool/Removing.antt =====
-- What `Remove` leaves in the pool.
use chainlang.Prelude.{
  ◌≤◌, ◌≡◌, refl, true, false, not, ◌&&◌, inl, inr, List, [], ◌∷◌, Bytes, bytes_eq, ==_cases, arith,
  length, contains, Bool-cases, subst,
}
use chainlang.Crypto.Primitives.{Primitives}
use chainlang.Core.Types.{Transaction, tx_hash, tx_hashes}
use chainlang.Mempool.{Mempool, has_hash, keep_others, remove}

module _ (p : Primitives) where
  pub has_hash-keep_others :
      (hashes : List Bytes) (txs : List Transaction) (h : Bytes)
      → has_hash p (keep_others p hashes txs) h ≡ has_hash p txs h && not (contains hashes h)
  unfolding has_hash keep_others
  has_hash-keep_others hashes [] h = refl
  has_hash-keep_others hashes (t ∷ ts) h = elim (==_cases (tx_hash p t) h) [
    | inl (e, same) ↦ elim (Bool-cases (contains hashes (tx_hash p t))) [
      | inl c ↦
          let c' = subst (λ x. contains hashes x ≡ true) same c in
          ground (arith, has_hash-keep_others hashes ts h)
      | inr c ↦
          let c' = subst (λ x. contains hashes x ≡ false) same c in
          ground (arith, has_hash-keep_others hashes ts h)
    ]
    | inr (e, differ) ↦ elim (Bool-cases (contains hashes (tx_hash p t))) [
      | inl c ↦ ground (arith, has_hash-keep_others hashes ts h)
      | inr c ↦ ground (arith, has_hash-keep_others hashes ts h)
    ]
  ]

  contains-nil : (txs : List Transaction) (h : Bytes) → has_hash p txs h ≡ has_hash p txs h && true
  contains-nil txs h = ground arith

  -- After `Remove`, a hash is in the pool exactly if it was in the pool and is not the hash of an
  -- included transaction.
  pub has_hash-remove :
      (m : Mempool) (included : List Transaction) (h : Bytes)
      → has_hash p (remove p m included).txs h
        ≡ has_hash p m.txs h && not (contains (tx_hashes p included) h)
  unfolding remove tx_hashes contains
  has_hash-remove m [] h = contains-nil m.txs h
  has_hash-remove m (t ∷ ts) h = has_hash-keep_others (tx_hashes p (t ∷ ts)) m.txs h

  pub length-keep_others :
      (hashes : List Bytes) (txs : List Transaction)
      → length (keep_others p hashes txs) ≤ length txs
  unfolding keep_others
  length-keep_others hashes [] = omega arith
  length-keep_others hashes (t ∷ ts) = ground (arith, length-keep_others hashes ts)
