-- ===== src/Mempool/Invariant.antt =====
-- The invariant of the pool: it is never over its capacity, and it holds distinct signed transactions
-- that pay the minimum fee.
use chainlang.Prelude.{
  ◌≤◌, ◌≡◌, refl, true, false, ◌||◌, inl, inr, List, [], ◌∷◌, ◌++◌, Bytes, bytes_eq, ◌==◌, ==_cases,
  ==_refl, arith, length, contains, Bool-cases, All, All-append, length-append, Option, subst, sym,
}
use chainlang.Config.{min_fee}
use chainlang.Crypto.Primitives.{Primitives}
use chainlang.Go.Word.{ℤ}
use chainlang.Core.Types.{Transaction, tx_hash, tx_hashes, verify_signature}
use chainlang.State.Store.{State}
use chainlang.Mempool.{Mempool, has_hash, keep_others, remove, add, new}
use chainlang.Mempool.Adding.{Acceptable, add_sound}
use chainlang.Mempool.Removing.{has_hash-keep_others, length-keep_others}

module _ (p : Primitives) where
  abbrev pub HasDistinctHashes : List Transaction → Type 0
  HasDistinctHashes [] = Unit
  HasDistinctHashes (t ∷ ts) = (has_hash p ts (tx_hash p t) ≡ false) × HasDistinctHashes ts

  abbrev pub IsPayingAndSigned : Transaction → Type 0
  IsPayingAndSigned t = (verify_signature p t ≡ true) × (min_fee ≤ t.fee)

  pub record IsValidPool (m : Mempool) : Type 0 where
    pub bounded : length m.txs ≤ m.max
    pub checked : All IsPayingAndSigned m.txs
    pub distinct : HasDistinctHashes m.txs

  has_hash-append_one :
      (txs : List Transaction) (t : Transaction) (h : Bytes)
      → has_hash p (txs ++ t ∷ []) h ≡ has_hash p txs h || (tx_hash p t == h)
  unfolding has_hash
  has_hash-append_one [] t h = ground arith
  has_hash-append_one (x ∷ xs) t h = ground (arith, has_hash-append_one xs t h)

  differ_symm : (a b : Bytes) → (a == b) ≡ false → (b == a) ≡ false
  differ_symm a b e = elim (==_cases b a) [
    | inl (f, same) ↦ cc (e, subst (λ x. (a == x) ≡ true) (sym same) (==_refl a))
    | inr (f, _) ↦ f
  ]

  append-HasDistinctHashes :
      (txs : List Transaction) (t : Transaction)
      → HasDistinctHashes txs
      → has_hash p txs (tx_hash p t) ≡ false
      → HasDistinctHashes (txs ++ t ∷ [])
  unfolding has_hash
  append-HasDistinctHashes [] t d e = (refl, tt)
  append-HasDistinctHashes (x ∷ xs) t d e = (
    ground (
      arith,
      d.0,
      e,
      has_hash-append_one xs t (tx_hash p x),
      differ_symm (tx_hash p x) (tx_hash p t),
    ),
    append-HasDistinctHashes xs t d.1 (ground arith),
  )

  keep_others-HasDistinctHashes :
      (hashes : List Bytes) (txs : List Transaction)
      → HasDistinctHashes txs
      → HasDistinctHashes (keep_others p hashes txs)
  unfolding keep_others
  keep_others-HasDistinctHashes hashes [] d = tt
  keep_others-HasDistinctHashes hashes (t ∷ ts) d =
      elim (Bool-cases (contains hashes (tx_hash p t))) [
        | inl c ↦ rw c (keep_others-HasDistinctHashes hashes ts d.1)
        | inr c ↦ rw c (
          ground (arith, has_hash-keep_others p hashes ts (tx_hash p t)),
          keep_others-HasDistinctHashes hashes ts d.1,
        )
      ]

  keep_others-All :
      (P : Transaction → Type 0) (hashes : List Bytes) (txs : List Transaction)
      → All P txs
      → All P (keep_others p hashes txs)
  unfolding keep_others
  keep_others-All P hashes [] h = tt
  keep_others-All P hashes (t ∷ ts) h = elim (Bool-cases (contains hashes (tx_hash p t))) [
    | inl c ↦ rw c (keep_others-All P hashes ts h.1)
    | inr c ↦ rw c (h.0, keep_others-All P hashes ts h.1)
  ]

  accepted-IsValidPool :
      (st : Option State) (m : Mempool) (tx : Transaction)
      → IsValidPool m
      → Acceptable p st m tx
      → IsValidPool (record m { txs = m.txs ++ tx ∷ [] })
  accepted-IsValidPool st m tx v a = record {
    bounded = let room = a.room in omega (arith, length-append m.txs (tx ∷ []));
    checked = All-append IsPayingAndSigned m.txs (tx ∷ []) v.checked ((a.signed, a.pays), tt);
    distinct = append-HasDistinctHashes m.txs tx v.distinct a.fresh;
  }

  -- `Add` keeps the invariant, whatever the state answers and whether it accepts or not.
  pub add-IsValidPool :
      (st : Option State) (m : Mempool) (tx : Transaction)
      → IsValidPool m
      → IsValidPool (add p st m tx).0
  add-IsValidPool st m tx v = elim (add_sound p st m tx) [
    | inl (e, a) ↦ subst (λ r. IsValidPool r.0) (sym e) (accepted-IsValidPool st m tx v a)
    | inr (_, e) ↦ subst (λ r. IsValidPool r.0) (sym e) v
  ]

  pub remove-IsValidPool :
      (m : Mempool) (included : List Transaction)
      → IsValidPool m
      → IsValidPool (remove p m included)
  unfolding remove
  remove-IsValidPool m [] v = v
  remove-IsValidPool m (t ∷ ts) v =
      let hashes = tx_hashes p (t ∷ ts) in
      let b = v.bounded in
      record {
        bounded = omega (arith, length-keep_others p hashes m.txs);
        checked = keep_others-All IsPayingAndSigned hashes m.txs v.checked;
        distinct = keep_others-HasDistinctHashes hashes m.txs v.distinct;
      }

  pub new-IsValidPool : (n : ℤ) → IsValidPool (new n)
  unfolding new
  new-IsValidPool n = record { bounded = omega arith; checked = tt; distinct = tt }

  -- The calls that change a pool, with the state that `Add` reads at its call.
  pub data Step : Mempool → Mempool → Type 0 where
    added : (st : Option State) (m : Mempool) (tx : Transaction) → Step m (add p st m tx).0
    removed : (m : Mempool) (included : List Transaction) → Step m (remove p m included)

  pub data Reachable (n : ℤ) : Mempool → Type 0 where
    created : Reachable n (new n)
    stepped : {m m' : Mempool} → Reachable n m → Step m m' → Reachable n m'

  Step-IsValidPool : {m m' : Mempool} → Step m m' → IsValidPool m → IsValidPool m'
  Step-IsValidPool (added st m tx) v = add-IsValidPool st m tx v
  Step-IsValidPool (removed m included) v = remove-IsValidPool m included v

  -- A pool made by `New` and changed only by calls of `Add` and `Remove`, in any number and order,
  -- is within its capacity, and holds signed transactions with distinct hashes that pay the minimum fee.
  pub Reachable-IsValidPool : {n : ℤ} {m : Mempool} → Reachable n m → IsValidPool m
  Reachable-IsValidPool {n} created = new-IsValidPool n
  Reachable-IsValidPool (stepped r s) = Step-IsValidPool s (Reachable-IsValidPool r)
