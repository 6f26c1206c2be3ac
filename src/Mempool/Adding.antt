-- ===== src/Mempool/Adding.antt =====
-- When `Add` accepts a transaction, and what it does then.
use chainlang.Prelude.{
  ℕ, ◌≤◌, ◌<◌, ◌≡◌, refl, ◌⊎◌, inl, inr, true, false, Option, none, some, [], ◌∷◌, ◌++◌, bytes_eq,
  arith, length, leb, Option-cases, Bool-cases,
}
use chainlang.Config.{min_fee}
use chainlang.Go.Word.{add64}
use chainlang.Crypto.Primitives.{Primitives}
use chainlang.Core.Types.{Transaction, tx_hash, verify_signature, satisfies_min_fee}
use chainlang.State.Store.{State, get_balance, get_nonce}
use chainlang.Mempool.{
  Mempool, AddError, mempool_full, invalid_signature, fee_too_low, duplicate, check_state,
  check_account, has_hash, add,
}

-- The account can send the transaction next: its nonce is the transaction's, and its balance covers
-- the wrapped total.
abbrev pub AccountAllows : Option State → Transaction → Type 0
AccountAllows none tx = Unit {0}
AccountAllows (some s) tx =
    (bal : ℕ) × (get_balance s tx.from ≡ some bal)
    × (get_nonce s tx.from ≡ some tx.nonce)
    × (add64 tx.amount tx.fee ≤ bal)

pub record Acceptable (p : Primitives) (st : Option State) (m : Mempool) (tx : Transaction)
    : Type 0 where
  pub room : length m.txs < m.max
  pub signed : verify_signature p tx ≡ true
  pub pays : min_fee ≤ tx.fee
  pub allowed : AccountAllows st tx
  pub fresh : has_hash p m.txs (tx_hash p tx) ≡ false

check_account-allows :
    (b n : Option ℕ) (tx : Transaction)
    → check_account b n tx ≡ none
    → (bal : ℕ) × (b ≡ some bal) × (n ≡ some tx.nonce) × (add64 tx.amount tx.fee ≤ bal)
check_account-allows none n tx e = cc
check_account-allows (some bal) none tx e = cc
check_account-allows (some bal) (some nonce) tx e = (bal, refl, ground arith, ground arith)

check_state-allows :
    (st : Option State) (tx : Transaction) → check_state st tx ≡ none → AccountAllows st tx
check_state-allows none tx e = tt
check_state-allows (some s) tx e =
    check_account-allows (get_balance s tx.from) (get_nonce s tx.from) tx e

allows-check_state :
    (st : Option State) (tx : Transaction) → AccountAllows st tx → check_state st tx ≡ none
allows-check_state none tx h = refl
allows-check_state (some s) tx (bal, b, n, enough) = rw (b, n) (ground arith)

module _ (p : Primitives) (st : Option State) (m : Mempool) (tx : Transaction) where
  -- A transaction that is acceptable (room, its signature, the minimum fee, what the state allows, and
  -- no pooled transaction with its hash) is accepted and put at the end.
  pub add_complete :
      Acceptable p st m tx → add p st m tx ≡ (record m { txs = m.txs ++ tx ∷ [] }, none)
  unfolding add satisfies_min_fee
  add_complete h =
      let state_allows = allows-check_state st tx h.allowed in
      let fresh = h.fresh in
      let room = h.room in let signed = h.signed in let pays = h.pays in ground arith

  -- A transaction that was accepted was acceptable and is now last in the pool; one that was refused
  -- changed nothing.
  pub add_sound :
      ((add p st m tx ≡ (record m { txs = m.txs ++ tx ∷ [] }, none)) × Acceptable p st m tx)
      ⊎ ((e : AddError) × (add p st m tx ≡ (m, some e)))
  unfolding add satisfies_min_fee
  add_sound = elim (Bool-cases (leb m.max (length m.txs))) [
    | inl full ↦ inr (mempool_full, ground arith)
    | inr room ↦ elim (Bool-cases (verify_signature p tx)) [
      | inr unsigned ↦ inr (invalid_signature, ground arith)
      | inl signed ↦ elim (Bool-cases (satisfies_min_fee tx)) [
        | inr low ↦ inr (fee_too_low, ground arith)
        | inl pays ↦ elim (Option-cases (check_state st tx)) [
          | inr (x, e) ↦ inr (x, ground arith)
          | inl e ↦ elim (Bool-cases (has_hash p m.txs (tx_hash p tx))) [
            | inl old ↦ inr (duplicate, ground arith)
            | inr fresh ↦
                let a : Acceptable p st m tx = record {
                  room = ground arith;
                  signed = signed;
                  pays = ground arith;
                  allowed = check_state-allows st tx e;
                  fresh = fresh;
                } in
                inl (add_complete a, a)
          ]
        ]
      ]
    ]
  ]
