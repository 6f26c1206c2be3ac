-- ===== src/State/Genesis/Balances.antt =====
-- The balances and nonces after genesis.
use chainlang.Prelude.{
  ℕ, ◌≡◌, refl, ap, ◌∙◌, true, Option, none, some, List, [], ◌∷◌, ◌++◌, Bytes, bytes_eq, bytes_beq,
  value_or, arith, All,
}
use chainlang.Config.{GenesisAllocation, ValidatorGenesis}
use chainlang.Crypto.Primitives.{Primitives}
use chainlang.Crypto.Signature.{address_from_hex}
use chainlang.LevelDb.{Fetch, LevelDb, WritesBatches, after_batch, after_batch-append}
use chainlang.State.Store.{
  State, balance_key, nonce_key, decode_number, get_balance_locked, get_nonce_locked,
}
use chainlang.State.Store.Commit.{get-commit}
use chainlang.State.Ledger.Spec.{update}
use chainlang.State.Ledger.Loading.{stored_balance, stored_nonce}
use chainlang.State.Ledger.Writing.{IsWord, decode_number-found}
use chainlang.State.Genesis.{
  account_records, allocation_batch, accepts, stake_records, stake_batch, accepted_texts,
  texts_record, genesis_batch, apply_genesis,
}

-- What one entry of the allocation does to the balances.
abbrev pub allocate : (Bytes → ℕ) → Option Bytes → ℕ → Bytes → ℕ
allocate f none amount = f
allocate f (some addr) amount = update f addr amount

-- The allocation, in the order in which the map is ranged over: a later entry for an address wins.
abbrev pub allocated : (Bytes → ℕ) → GenesisAllocation → Bytes → ℕ
allocated f [] = f
allocated f ((text, amount) ∷ entries) =
    allocated (allocate f (address_from_hex text) amount) entries

abbrev number : Fetch → ℕ
number f = value_or 0 (decode_number f)

account_records-number :
    (o : Option Bytes) (amount : ℕ) (f : Bytes → ℕ) (was : Fetch) (a : Bytes)
    → IsWord amount
    → number was ≡ f a
    → number (after_batch was (account_records o amount) (balance_key a)) ≡ allocate f o amount a
unfolding after_batch bytes_beq
account_records-number none amount f was a w e = e
account_records-number (some addr) amount f was a w e = ground (arith, decode_number-found amount w)

allocation-number :
    (entries : GenesisAllocation) (f : Bytes → ℕ) (was : Fetch) (a : Bytes)
    → All (λ (entry : Bytes × ℕ). IsWord entry.1) entries
    → number was ≡ f a
    → number (after_batch was (allocation_batch entries) (balance_key a)) ≡ allocated f entries a
unfolding allocation_batch after_batch
allocation-number [] f was a words e = e
allocation-number ((text, amount) ∷ entries) f was a words e =
    let records = account_records (address_from_hex text) amount in
    ap number (after_batch-append was records (allocation_batch entries) (balance_key a))
    ∙ allocation-number entries (allocate f (address_from_hex text) amount)
        (after_batch was records (balance_key a)) a words.1
        (account_records-number (address_from_hex text) amount f was a words.0 e)

account_records-nonce :
    (o : Option Bytes) (amount : ℕ) (was : Fetch) (a : Bytes)
    → number was ≡ 0
    → number (after_batch was (account_records o amount) (nonce_key a)) ≡ 0
unfolding after_batch bytes_beq
account_records-nonce none amount was a e = e
account_records-nonce (some addr) amount was a e =
    ground (arith, decode_number-found 0 (omega arith))

allocation-nonce :
    (entries : GenesisAllocation) (was : Fetch) (a : Bytes)
    → number was ≡ 0
    → number (after_batch was (allocation_batch entries) (nonce_key a)) ≡ 0
unfolding allocation_batch after_batch
allocation-nonce [] was a e = e
allocation-nonce ((text, amount) ∷ entries) was a e =
    let records = account_records (address_from_hex text) amount in
    ap number (after_batch-append was records (allocation_batch entries) (nonce_key a))
    ∙ allocation-nonce entries (after_batch was records (nonce_key a)) a
        (account_records-nonce (address_from_hex text) amount was a e)

stake_records-balance :
    (o : Option Bytes) (stake : ℕ) (was : Fetch) (a : Bytes)
    → after_batch was (stake_records o stake) (balance_key a) ≡ was
unfolding after_batch bytes_beq
stake_records-balance none stake was a = refl
stake_records-balance (some addr) stake was a = refl

stakes-balance :
    (least : ℕ) (vs : List ValidatorGenesis) (was : Fetch) (a : Bytes)
    → after_batch was (stake_batch least vs) (balance_key a) ≡ was
unfolding stake_batch after_batch
stakes-balance least [] was a = refl
stakes-balance least (v ∷ vs) was a =
    after_batch-append was (stake_records (accepts least v) v.stake) (stake_batch least vs)
      (balance_key a)
    ∙ stakes-balance least vs _ a
    ∙ stake_records-balance (accepts least v) v.stake was a

texts_record-balance :
    (p : Primitives) (texts : List Bytes) (was : Fetch) (a : Bytes)
    → after_batch was (texts_record p texts) (balance_key a) ≡ was
unfolding after_batch bytes_beq
texts_record-balance p [] was a = refl
texts_record-balance p (x ∷ xs) was a = refl

stake_records-nonce :
    (o : Option Bytes) (stake : ℕ) (was : Fetch) (a : Bytes)
    → after_batch was (stake_records o stake) (nonce_key a) ≡ was
unfolding after_batch bytes_beq
stake_records-nonce none stake was a = refl
stake_records-nonce (some addr) stake was a = refl

stakes-nonce :
    (least : ℕ) (vs : List ValidatorGenesis) (was : Fetch) (a : Bytes)
    → after_batch was (stake_batch least vs) (nonce_key a) ≡ was
unfolding stake_batch after_batch
stakes-nonce least [] was a = refl
stakes-nonce least (v ∷ vs) was a =
    after_batch-append was (stake_records (accepts least v) v.stake) (stake_batch least vs)
      (nonce_key a)
    ∙ stakes-nonce least vs _ a
    ∙ stake_records-nonce (accepts least v) v.stake was a

texts_record-nonce :
    (p : Primitives) (texts : List Bytes) (was : Fetch) (a : Bytes)
    → after_batch was (texts_record p texts) (nonce_key a) ≡ was
unfolding after_batch bytes_beq
texts_record-nonce p [] was a = refl
texts_record-nonce p (x ∷ xs) was a = refl

-- Genesis moves no nonce away from zero.
pub apply_genesis-nonce :
    (p : Primitives) (store : LevelDb) (laws : WritesBatches store) (s : State)
    (allocation : GenesisAllocation) (validators : List ValidatorGenesis) {s' : State} (a : Bytes)
    → stored_nonce s a ≡ 0
    → apply_genesis p store s allocation validators ≡ (s', true)
    → stored_nonce s' a ≡ 0
unfolding apply_genesis genesis_batch get_nonce_locked
apply_genesis-nonce p store laws s allocation validators {s'} a zero_before e =
    let least = s.cfg.least_stake in
    let was = s.db.get (nonce_key a) in
    let stakes = stake_batch least validators in
    let texts = texts_record p (accepted_texts least validators) in
    let after = after_batch was (allocation_batch allocation) (nonce_key a) in
    ap number (
      get-commit store s (allocation_batch allocation ++ (stakes ++ texts)) (nonce_key a) laws e
      ∙ after_batch-append was (allocation_batch allocation) (stakes ++ texts) (nonce_key a)
      ∙ after_batch-append after stakes texts (nonce_key a)
      ∙ texts_record-nonce p (accepted_texts least validators)
          (after_batch after stakes (nonce_key a)) a
      ∙ stakes-nonce least validators after a)
    ∙ allocation-nonce allocation was a zero_before

-- Where a batch is written whole and the amounts are uint64s, every address has after a successful
-- `ApplyGenesis` the balance that the allocation gives it, or the balance it had if the allocation
-- does not name it, whatever the validators stake.
pub apply_genesis-balance :
    (p : Primitives) (store : LevelDb) (laws : WritesBatches store) (s : State)
    (allocation : GenesisAllocation) (validators : List ValidatorGenesis) {s' : State} (a : Bytes)
    → All (λ (entry : Bytes × ℕ). IsWord entry.1) allocation
    → apply_genesis p store s allocation validators ≡ (s', true)
    → stored_balance s' a ≡ allocated (stored_balance s) allocation a
unfolding apply_genesis genesis_batch get_balance_locked
apply_genesis-balance p store laws s allocation validators {s'} a words e =
    let least = s.cfg.least_stake in
    let was = s.db.get (balance_key a) in
    let stakes = stake_batch least validators in
    let texts = texts_record p (accepted_texts least validators) in
    let after = after_batch was (allocation_batch allocation) (balance_key a) in
    ap number (
      get-commit store s (allocation_batch allocation ++ (stakes ++ texts)) (balance_key a) laws e
      ∙ after_batch-append was (allocation_batch allocation) (stakes ++ texts) (balance_key a)
      ∙ after_batch-append after stakes texts (balance_key a)
      ∙ texts_record-balance p (accepted_texts least validators)
          (after_batch after stakes (balance_key a)) a
      ∙ stakes-balance least validators after a)
    ∙ allocation-number allocation (stored_balance s) was a words refl

allocate-IsWord :
    (f : Bytes → ℕ) (o : Option Bytes) (amount : ℕ) (a : Bytes)
    → IsWord amount
    → IsWord (f a)
    → IsWord (allocate f o amount a)
allocate-IsWord f none amount a w h = h
allocate-IsWord f (some addr) amount a w h = ground arith

-- The allocated balances are words where the amounts and the balances before are.
pub allocated-IsWord :
    (entries : GenesisAllocation) (f : Bytes → ℕ) (a : Bytes)
    → All (λ (entry : Bytes × ℕ). IsWord entry.1) entries
    → IsWord (f a)
    → IsWord (allocated f entries a)
allocated-IsWord [] f a words h = h
allocated-IsWord ((text, amount) ∷ entries) f a words h =
    allocated-IsWord entries (allocate f (address_from_hex text) amount) a words.1
      (allocate-IsWord f (address_from_hex text) amount a words.0 h)

allocate-congr :
    (f g : Bytes → ℕ) (o : Option Bytes) (amount : ℕ) (a : Bytes)
    → f a ≡ g a
    → allocate f o amount a ≡ allocate g o amount a
allocate-congr f g none amount a same = same
allocate-congr f g (some addr) amount a same = ground arith

pub allocated-congr :
    (entries : GenesisAllocation) (f g : Bytes → ℕ) (a : Bytes)
    → f a ≡ g a
    → allocated f entries a ≡ allocated g entries a
allocated-congr [] f g a same = same
allocated-congr ((text, amount) ∷ entries) f g a same =
    allocated-congr entries (allocate f (address_from_hex text) amount)
      (allocate g (address_from_hex text) amount) a
      (allocate-congr f g (address_from_hex text) amount a same)
