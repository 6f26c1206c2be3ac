-- ===== src/State/Ledger/Writing.antt =====
-- The batch: every cached entry is written once under its key, so that the values read back after a
-- successful write are the cached ones.
use chainlang.Prelude.{
  ℕ, ◌<◌, ◌^◌, ◌≡◌, refl, ap, ◌∙◌, none, some, Option, [], ◌∷◌, map, Bytes, bytes_eq, bytes_beq,
  Option-cases, value_or, arith, bytes_beq_iff, inl, inr,
}
use chainlang.Prelude.Map.{Map, lookup, IsProper, lookup-IsProper}
use chainlang.Go.Word.{put_uint64, length-put_uint64, read_uint64-put_uint64}
use chainlang.LevelDb.{Fetch, found, after_batch, after_batch-append}
use chainlang.State.Store.{balance_key, nonce_key, decode_number, set_balance, set_nonce}
use chainlang.State.Ledger.{Working, ledger_batch}

-- A uint64.
abbrev pub IsWord : ℕ → Type 0
IsWord n = n < 2 ^ 64

abbrev pub found_number : Fetch → Option ℕ → Fetch
found_number was none = was
found_number was (some v) = found (put_uint64 v)

pub decode_number-found : (v : ℕ) → IsWord v → decode_number (found (put_uint64 v)) ≡ some v
unfolding decode_number
decode_number-found v h = rw length-put_uint64 (ap some (read_uint64-put_uint64 v h))

-- An entry decides what is read under its own key, and no other entry has that key.
balances-after :
    (m : Map Bytes ℕ) (was : Fetch) (a : Bytes)
    → IsProper IsWord m
    → after_batch was (map (λ entry. set_balance entry.0 entry.1) m) (balance_key a)
      ≡ found_number was (lookup a m)
unfolding after_batch lookup bytes_beq
balances-after [] was a h = refl
balances-after ((j, v) ∷ m) was a h = ground (
  arith,
  balances-after m (found (put_uint64 v)) a h.2,
  balances-after m was a h.2,
  bytes_beq_iff j a,
)

nonces-after :
    (m : Map Bytes ℕ) (was : Fetch) (a : Bytes)
    → IsProper IsWord m
    → after_batch was (map (λ entry. set_nonce entry.0 entry.1) m) (nonce_key a)
      ≡ found_number was (lookup a m)
unfolding after_batch lookup bytes_beq
nonces-after [] was a h = refl
nonces-after ((j, v) ∷ m) was a h = ground (
  arith,
  nonces-after m (found (put_uint64 v)) a h.2,
  nonces-after m was a h.2,
  bytes_beq_iff j a,
)

nonces-leave_balances :
    (m : Map Bytes ℕ) (was : Fetch) (a : Bytes)
    → after_batch was (map (λ entry. set_nonce entry.0 entry.1) m) (balance_key a) ≡ was
unfolding after_batch bytes_beq
nonces-leave_balances [] was a = refl
nonces-leave_balances ((j, v) ∷ m) was a = nonces-leave_balances m was a

balances-leave_nonces :
    (m : Map Bytes ℕ) (was : Fetch) (a : Bytes)
    → after_batch was (map (λ entry. set_balance entry.0 entry.1) m) (nonce_key a) ≡ was
unfolding after_batch bytes_beq
balances-leave_nonces [] was a = refl
balances-leave_nonces ((j, v) ∷ m) was a = balances-leave_nonces m was a

-- Both maps list each address once and hold words.
pub record IsSound (w : Working) : Type 0 where
  pub balances : IsProper IsWord w.balances
  pub nonces : IsProper IsWord w.nonces

module _ (w : Working) (sound : IsSound w) (was : Fetch) (a : Bytes) where
  pub ledger_batch-balance :
      after_batch was (ledger_batch w) (balance_key a) ≡ found_number was (lookup a w.balances)
  unfolding ledger_batch
  ledger_batch-balance =
      after_batch-append was (map (λ entry. set_balance entry.0 entry.1) w.balances)
        (map (λ entry. set_nonce entry.0 entry.1) w.nonces) (balance_key a)
      ∙ nonces-leave_balances w.nonces _ a
      ∙ balances-after w.balances was a sound.balances

  pub ledger_batch-nonce :
      after_batch was (ledger_batch w) (nonce_key a) ≡ found_number was (lookup a w.nonces)
  unfolding ledger_batch
  ledger_batch-nonce =
      after_batch-append was (map (λ entry. set_balance entry.0 entry.1) w.balances)
        (map (λ entry. set_nonce entry.0 entry.1) w.nonces) (nonce_key a)
      ∙ nonces-after w.nonces _ a sound.nonces
      ∙ ap (λ f. found_number f (lookup a w.nonces)) (balances-leave_nonces w.balances was a)

-- Reading back a number that was written, or that was there before.
pub decode-found_number :
    (m : Map Bytes ℕ) (was : Fetch) (a : Bytes)
    → IsProper IsWord m
    → value_or 0 (decode_number (found_number was (lookup a m)))
      ≡ value_or (value_or 0 (decode_number was)) (lookup a m)
decode-found_number m was a h = elim (Option-cases (lookup a m)) [
  | inl missing ↦ rw missing
  | inr (v, e) ↦ rw (e, decode_number-found v (lookup-IsProper IsWord a m h e))
]
