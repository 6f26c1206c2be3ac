-- ===== src/State/Ledger/NonceLoading.antt =====
-- The nonces that the first loop caches: one only for an address that it
-- meets first as a sender.
use chainlang.Prelude.{
  ◌≡◌, refl, ap, ◌∙◌, true, false, not, ◌&&◌, List, [], ◌∷◌, Bytes, bytes_eq, bytes_beq_iff,
  value_or, fold, arith, All, contains, ◌==◌, ==_refl, if◌then◌else◌,
}
use chainlang.Prelude.Map.{lookup, lookup-insert}
use chainlang.Core.Types.{Transaction}
use chainlang.State.Store.{State}
use chainlang.State.Ledger.{Working, has_key, load_sender, load_balance, load_tx, empty_working}
use chainlang.State.Ledger.Loading.{
  stored_nonce, nonce_of, load_sender-is_loaded, load_balance-is_loaded,
}

-- No transaction's sender stands among `rs` or among the recipients of the transactions before it.
abbrev pub SendersComeFirst : List Bytes → List Transaction → Type 0
SendersComeFirst rs [] = Unit
SendersComeFirst rs (t ∷ ts) = (contains rs t.from ≡ false) × SendersComeFirst (t.to ∷ rs) ts

abbrev pub HasNonce : Working → Transaction → Type 0
HasNonce w t = has_key w.nonces t.from ≡ true

module _ (s : State) where
  -- Only addresses with a balance have a nonce cached, and each of those outside `rs` has one.
  pub record Tracks (rs : List Bytes) (w : Working) : Type 0 where
    pub loaded : (a : Bytes) → has_key w.nonces a ≡ true → has_key w.balances a ≡ true
    pub complete :
        (a : Bytes)
        → contains rs a ≡ false
        → has_key w.balances a ≡ true
        → has_key w.nonces a ≡ true

  pub load_sender-has_nonce :
      (w : Working) (addr a : Bytes)
      → has_key (load_sender s w addr).nonces a
        ≡ (if addr == a && not (has_key w.balances addr) then true else has_key w.nonces a)
  load_sender-has_nonce w addr a =
      ground (arith, lookup-insert addr a (stored_nonce s addr) w.nonces)

  pub nonces-load_balance : (w : Working) (addr : Bytes) → (load_balance s w addr).nonces ≡ w.nonces
  nonces-load_balance w addr = ground arith

  load_sender-Tracks :
      (rs : List Bytes) (w : Working) (addr : Bytes)
      → Tracks rs w
      → Tracks rs (load_sender s w addr)
  load_sender-Tracks rs w addr h = record {
    loaded = λ a e.
        ground
          (arith, h.loaded a, load_sender-has_nonce w addr a, load_sender-is_loaded s w addr a);
    complete = λ a e1 e2. ground (
      arith,
      h.complete a,
      load_sender-has_nonce w addr a,
      load_sender-is_loaded s w addr a,
      bytes_beq_iff addr a,
    );
  }

  load_balance-Tracks :
      (rs : List Bytes) (w : Working) (addr : Bytes)
      → Tracks rs w
      → Tracks (addr ∷ rs) (load_balance s w addr)
  unfolding contains
  load_balance-Tracks rs w addr h = record {
    loaded = λ a e. ground (
      arith,
      h.loaded a,
      ap (λ m. lookup a m) (nonces-load_balance w addr),
      load_balance-is_loaded s w addr a,
    );
    complete = λ a e1 e2. ground (
      arith,
      h.complete a,
      ap (λ m. lookup a m) (nonces-load_balance w addr),
      load_balance-is_loaded s w addr a,
    );
  }

  pub load_tx-Tracks :
      (rs : List Bytes) (w : Working) (t : Transaction)
      → Tracks rs w
      → Tracks (t.to ∷ rs) (load_tx s w t)
  unfolding load_tx
  load_tx-Tracks rs w t h =
      load_balance-Tracks rs (load_sender s w t.from) t.to (load_sender-Tracks rs w t.from h)

  load_sender-nonce_of :
      (rs : List Bytes) (w : Working) (addr a : Bytes)
      → Tracks rs w
      → nonce_of s (load_sender s w addr) a ≡ nonce_of s w a
  load_sender-nonce_of rs w addr a h = ground (
    arith,
    lookup-insert addr a (stored_nonce s addr) w.nonces,
    h.loaded addr,
    bytes_beq_iff addr a,
  )

  pub load_tx-nonce_of :
      (rs : List Bytes) (w : Working) (t : Transaction) (a : Bytes)
      → Tracks rs w
      → nonce_of s (load_tx s w t) a ≡ nonce_of s w a
  unfolding load_tx
  load_tx-nonce_of rs w t a h =
      ap (λ m. value_or (stored_nonce s a) (lookup a m))
        (nonces-load_balance (load_sender s w t.from) t.to)
      ∙ load_sender-nonce_of rs w t.from a h

  pub load_tx-HasNonce :
      (rs : List Bytes) (w : Working) (t : Transaction)
      → Tracks rs w
      → contains rs t.from ≡ false
      → has_key (load_tx s w t).nonces t.from ≡ true
  unfolding load_tx
  load_tx-HasNonce rs w t h first =
      ap (λ m. has_key m t.from) (nonces-load_balance (load_sender s w t.from) t.to)
      ∙ (load_sender-Tracks rs w t.from h).complete t.from first
          (load_sender-is_loaded s w t.from t.from ∙ rw (==_refl t.from))

  pub load_tx-keeps_nonce :
      (w : Working) (t : Transaction) (a : Bytes)
      → has_key w.nonces a ≡ true
      → has_key (load_tx s w t).nonces a ≡ true
  unfolding load_tx
  load_tx-keeps_nonce w t a e =
      ap (λ m. has_key m a) (nonces-load_balance (load_sender s w t.from) t.to)
      ∙ load_sender-has_nonce w t.from a
      ∙ ground arith

  load-keeps_nonce :
      (ts : List Transaction) (w : Working) (a : Bytes)
      → has_key w.nonces a ≡ true
      → has_key (fold (load_tx s) w ts).nonces a ≡ true
  load-keeps_nonce [] w a e = e
  load-keeps_nonce (t ∷ ts) w a e =
      load-keeps_nonce ts (load_tx s w t) a (load_tx-keeps_nonce w t a e)

  -- Loading changes no nonce that will be written.
  pub load-nonce_of :
      (ts : List Transaction) (rs : List Bytes) (w : Working) (a : Bytes)
      → Tracks rs w
      → nonce_of s (fold (load_tx s) w ts) a ≡ nonce_of s w a
  load-nonce_of [] rs w a h = refl
  load-nonce_of (t ∷ ts) rs w a h =
      load-nonce_of ts (t.to ∷ rs) (load_tx s w t) a (load_tx-Tracks rs w t h)
      ∙ load_tx-nonce_of rs w t a h

  -- Where the senders come first, each of them has its nonce cached.
  pub load-HasNonce :
      (ts : List Transaction) (rs : List Bytes) (w : Working)
      → Tracks rs w
      → SendersComeFirst rs ts
      → All (HasNonce (fold (load_tx s) w ts)) ts
  load-HasNonce [] rs w h first = tt
  load-HasNonce (t ∷ ts) rs w h first = (
    load-keeps_nonce ts (load_tx s w t) t.from (load_tx-HasNonce rs w t h first.0),
    load-HasNonce ts (t.to ∷ rs) (load_tx s w t) (load_tx-Tracks rs w t h) first.1,
  )

  pub empty-Tracks : Tracks [] empty_working
  unfolding lookup
  empty-Tracks = record { loaded = λ a e. e; complete = λ a e1 e2. e2 }
