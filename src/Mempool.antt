-- ===== src/Mempool.antt =====
-- mempool/mempool.go: the pool of pending transactions. The pool's pointer to the state is not stored:
-- what it points to is an argument of the call that reads it, `none` for a nil pointer.
pub mod Adding
pub mod Removing
pub mod Invariant
use chainlang.Prelude.{
  ℕ, Bool, false, not, ◌||◌, Option, none, some, List, [], ◌∷◌, ◌++◌, Bytes, bytes_eq, ◌==◌,
  nat_beq, ltb, leb, length, take, if◌then◌else◌, contains,
}
use chainlang.Go.Word.{ℤ, positive_or, add64}
use chainlang.Crypto.Primitives.{Primitives}
use chainlang.Core.Types.{Transaction, tx_hash, tx_hashes, verify_signature, satisfies_min_fee}
use chainlang.State.Store.{State, get_balance, get_nonce}

-- The errors of the package, and an error of the state passed on.
pub data AddError : Type 0 where
  mempool_full invalid_signature fee_too_low bad_nonce insufficient_balance duplicate : AddError
  state_error : AddError

pub record Mempool : Type 0 where
  pub txs : List Transaction
  pub max : ℕ

unfoldable pub new : ℤ → Mempool
new max_size = record { txs = []; max = positive_or 10000 max_size }

abbrev pub check_account : Option ℕ → Option ℕ → Transaction → Option AddError
check_account none _ tx = some state_error
check_account (some bal) none tx = some state_error
check_account (some bal) (some nonce) tx =
    if not (nat_beq tx.nonce nonce)
    then some bad_nonce
    else if ltb bal (add64 tx.amount tx.fee)
    then some insufficient_balance
    else none

abbrev pub check_state : Option State → Transaction → Option AddError
check_state none tx = none
check_state (some s) tx = check_account (get_balance s tx.from) (get_nonce s tx.from) tx

module _ (p : Primitives) where
  -- `m.txs[i].TxHash() == h` for some i
  unfoldable pub has_hash : List Transaction → Bytes → Bool
  has_hash [] h = false
  has_hash (t ∷ ts) h = tx_hash p t == h || has_hash ts h

  abbrev pub append_new : Option AddError → Mempool → Transaction → Mempool × Option AddError
  append_new (some e) m tx = (m, some e)
  append_new none m tx =
      if has_hash m.txs (tx_hash p tx)
      then (m, some duplicate)
      else (record m { txs = m.txs ++ tx ∷ [] }, none)

  -- The pool after the call, and its error.
  unfoldable pub add : Option State → Mempool → Transaction → Mempool × Option AddError
  unfolding has_hash
  add st m tx =
      if leb m.max (length m.txs)
      then (m, some mempool_full)
      else if not (verify_signature p tx)
      then (m, some invalid_signature)
      else if not (satisfies_min_fee tx)
      then (m, some fee_too_low)
      else append_new (check_state st tx) m tx

  unfoldable pub keep_others : List Bytes → List Transaction → List Transaction
  keep_others hashes [] = []
  keep_others hashes (t ∷ ts) =
      let rest = keep_others hashes ts in if contains hashes (tx_hash p t) then rest else t ∷ rest

  unfoldable pub remove : Mempool → List Transaction → Mempool
  unfolding keep_others
  remove m [] = m
  remove m (t ∷ ts) = record m { txs = keep_others (tx_hashes p (t ∷ ts)) m.txs }

-- The first `n` transactions, or all of them where there are fewer or `n` is not positive.
unfoldable pub pending : Mempool → ℤ → List Transaction
pending m n =
    let wanted = positive_or (length m.txs) n in
    take (if ltb (length m.txs) wanted then length m.txs else wanted) m.txs

unfoldable pub size : Mempool → ℕ
size m = length m.txs
