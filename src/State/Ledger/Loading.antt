-- ===== src/State/Ledger/Loading.antt =====
-- The first loop caches the stored balance of every sender and recipient, and nothing else.
use chainlang.Prelude.{
  ℕ, ◌≡◌, refl, Bool, true, List, [], ◌∷◌, Bytes, bytes_eq, bytes_beq_iff, ◌==◌, ==_refl,
  if◌then◌else◌, value_or, is_some, ◌∙◌, fold, arith, All,
}
use chainlang.Prelude.Map.{lookup, lookup-insert}
use chainlang.Core.Types.{Transaction}
use chainlang.State.Store.{State, get_balance_locked, get_nonce_locked}
use chainlang.State.Ledger.{Working, load_sender, load_balance, load_tx}

module _ (s : State) where
  -- The balance and the nonce that the database holds for an address.
  abbrev pub stored_balance : Bytes → ℕ
  stored_balance a = value_or 0 (get_balance_locked s a)

  abbrev pub stored_nonce : Bytes → ℕ
  stored_nonce a = value_or 0 (get_nonce_locked s a)

  -- What the block will have written for an address: the cached value, or the stored one.
  abbrev pub balance_of : Working → Bytes → ℕ
  balance_of w a = value_or (stored_balance a) (lookup a w.balances)

  abbrev pub nonce_of : Working → Bytes → ℕ
  nonce_of w a = value_or (stored_nonce a) (lookup a w.nonces)

  abbrev pub is_loaded : Working → Bytes → Bool
  is_loaded w a = is_some (lookup a w.balances)

  pub load_balance-balance_of :
      (w : Working) (addr a : Bytes) → balance_of (load_balance s w addr) a ≡ balance_of w a
  load_balance-balance_of w addr a =
      ground (arith, lookup-insert addr a (stored_balance addr) w.balances, bytes_beq_iff addr a)

  load_sender-balance_of :
      (w : Working) (addr a : Bytes) → balance_of (load_sender s w addr) a ≡ balance_of w a
  load_sender-balance_of w addr a =
      ground (arith, lookup-insert addr a (stored_balance addr) w.balances, bytes_beq_iff addr a)

  pub load_balance-is_loaded :
      (w : Working) (addr a : Bytes)
      → is_loaded (load_balance s w addr) a ≡ (if addr == a then true else is_loaded w a)
  load_balance-is_loaded w addr a =
      ground (arith, lookup-insert addr a (stored_balance addr) w.balances, bytes_beq_iff addr a)

  pub load_sender-is_loaded :
      (w : Working) (addr a : Bytes)
      → is_loaded (load_sender s w addr) a ≡ (if addr == a then true else is_loaded w a)
  load_sender-is_loaded w addr a =
      ground (arith, lookup-insert addr a (stored_balance addr) w.balances, bytes_beq_iff addr a)

  load_tx-balance_of :
      (w : Working) (t : Transaction) (a : Bytes) → balance_of (load_tx s w t) a ≡ balance_of w a
  unfolding load_tx
  load_tx-balance_of w t a =
      load_balance-balance_of (load_sender s w t.from) t.to a ∙ load_sender-balance_of w t.from a

  pub load_tx-is_loaded :
      (w : Working) (t : Transaction) (a : Bytes)
      → is_loaded (load_tx s w t) a
        ≡ (if t.to == a then true else if t.from == a then true else is_loaded w a)
  unfolding load_tx
  load_tx-is_loaded w t a =
      rw (load_balance-is_loaded (load_sender s w t.from) t.to a, load_sender-is_loaded w t.from a)

  -- Loading any transactions changes no balance that will be written.
  pub load-balance_of :
      (ts : List Transaction) (w : Working) (a : Bytes)
      → balance_of (fold (load_tx s) w ts) a ≡ balance_of w a
  load-balance_of [] w a = refl
  load-balance_of (t ∷ ts) w a = load-balance_of ts (load_tx s w t) a ∙ load_tx-balance_of w t a

  pub load-keeps :
      (ts : List Transaction) (w : Working) (a : Bytes)
      → is_loaded w a ≡ true
      → is_loaded (fold (load_tx s) w ts) a ≡ true
  load-keeps [] w a h = h
  load-keeps (t ∷ ts) w a h =
      load-keeps ts (load_tx s w t) a (rw (load_tx-is_loaded w t a, h) (ground arith))

  -- The sender and the recipient of a transaction have entries in the map of balances.
  abbrev pub HasEntries : Working → Transaction → Type 0
  HasEntries w t = (is_loaded w t.from ≡ true) × (is_loaded w t.to ≡ true)

  -- After the first loop every transaction has its two entries.
  pub load-HasEntries :
      (ts : List Transaction) (w : Working) → All (HasEntries (fold (load_tx s) w ts)) ts
  load-HasEntries [] w = tt
  load-HasEntries (t ∷ ts) w = (
    (
      load-keeps ts (load_tx s w t) t.from
          (rw (load_tx-is_loaded w t t.from, ==_refl t.from) (ground arith)),
      load-keeps ts (load_tx s w t) t.to (rw (load_tx-is_loaded w t t.to, ==_refl t.to)),
    ),
    load-HasEntries ts (load_tx s w t),
  )

  load_tx-total_fees : (w : Working) (t : Transaction) → (load_tx s w t).total_fees ≡ w.total_fees
  unfolding load_tx
  load_tx-total_fees w t = ground arith

  -- Loading collects no fees.
  pub load-total_fees :
      (ts : List Transaction) (w : Working) → (fold (load_tx s) w ts).total_fees ≡ w.total_fees
  load-total_fees [] w = refl
  load-total_fees (t ∷ ts) w = load-total_fees ts (load_tx s w t) ∙ load_tx-total_fees w t
