-- ===== src/State/Store.antt =====
-- state/state.go: the keys of the database, its numbers, and the reads and writes of one account.
pub mod Commit
use chainlang.Prelude.{
  ℕ, Bool, true, false, Option, none, some, List, [], ◌∷◌, ◌++◌, Bytes, if◌then◌else◌, ltb, length,
  value_or, is_some, ◌≡◌, refl, ap, sym, ◌∙◌,
}
use mathlib.Core.Option.{some-injective}
use chainlang.Config.{ChainConfig, default_chain_config}
use chainlang.Go.Word.{put_uint64, read_uint64}
use chainlang.LevelDb.{Db, Fetch, found, not_found, failed, BatchOp, put, LevelDb}

pub record State : Type 0 where
  pub db : Db
  pub cfg : ChainConfig

-- "b:", "n:" and "vs:" in ASCII
abbrev pub prefix_balance : Bytes
prefix_balance = b'b' ∷ b':' ∷ []

abbrev pub prefix_nonce : Bytes
prefix_nonce = b'n' ∷ b':' ∷ []

abbrev pub prefix_validator : Bytes
prefix_validator = b'v' ∷ b's' ∷ b':' ∷ []

-- "validator_list"
abbrev pub key_validator_list : Bytes
key_validator_list =
    b'v' ∷ b'a' ∷ b'l' ∷ b'i' ∷ b'd' ∷ b'a' ∷ b't' ∷ b'o' ∷ b'r' ∷ b'_' ∷ b'l' ∷ b'i' ∷ b's' ∷ b't'
    ∷ []

abbrev pub balance_key : Bytes → Bytes
balance_key addr = prefix_balance ++ addr

abbrev pub nonce_key : Bytes → Bytes
nonce_key addr = prefix_nonce ++ addr

abbrev pub validator_stake_key : Bytes → Bytes
validator_stake_key addr = prefix_validator ++ addr

-- A stored number: 0 if there is none or it is shorter than eight bytes; `none` is 0 with an error.
unfoldable pub decode_number : Fetch → Option ℕ
decode_number not_found = some 0
decode_number failed = none
decode_number (found val) = some (if ltb (length val) 8 then 0 else read_uint64 val)

unfoldable pub get_balance : State → Bytes → Option ℕ
unfolding decode_number
get_balance s addr = decode_number (s.db.get (balance_key addr))

unfoldable pub get_nonce : State → Bytes → Option ℕ
unfolding decode_number
get_nonce s addr = decode_number (s.db.get (nonce_key addr))

-- The reads that the other operations make while they hold the lock.
unfoldable pub get_balance_locked : State → Bytes → Option ℕ
unfolding decode_number
get_balance_locked s addr = decode_number (s.db.get (balance_key addr))

unfoldable pub get_nonce_locked : State → Bytes → Option ℕ
unfolding decode_number
get_nonce_locked s addr = decode_number (s.db.get (nonce_key addr))

unfoldable pub get_validator_stake_locked : State → Bytes → Option ℕ
unfolding decode_number
get_validator_stake_locked s addr = decode_number (s.db.get (validator_stake_key addr))

-- The record that each setter adds to a batch.
abbrev pub set_balance : Bytes → ℕ → BatchOp
set_balance addr amount = put (balance_key addr) (put_uint64 amount)

abbrev pub set_nonce : Bytes → ℕ → BatchOp
set_nonce addr nonce = put (nonce_key addr) (put_uint64 nonce)

abbrev pub set_validator_stake : Bytes → ℕ → BatchOp
set_validator_stake addr stake = put (validator_stake_key addr) (put_uint64 stake)

written : State → Option Db → State × Bool
written s none = (s, false)
written s (some d) = (record s { db = d }, true)

-- `return s.db.Write(batch, nil)`: the state after the call, and whether the error is nil.
unfoldable pub commit : LevelDb → State → List BatchOp → State × Bool
unfolding written
commit store s batch = written s (store.write s.db batch)

abbrev opened_with : ChainConfig → Option Db → Option State
opened_with cfg none = none
opened_with cfg (some db) = some (record { db = db; cfg = cfg })

-- `Open`, with what `leveldb.OpenFile` makes of the stored database; a nil configuration is `none`, and so
-- is an error.
unfoldable pub open_state : (Db → Option Db) → Db → Option ChainConfig → Option State
open_state open_file db cfg = opened_with (value_or default_chain_config cfg) (open_file db)

pub open_state-some :
    (open_file : Db → Option Db) (db : Db) (cfg : ChainConfig) {s : State}
    → open_state open_file db (some cfg) ≡ some s
    → (stored : Db) × (open_file db ≡ some stored) × (record { db = stored; cfg = cfg } ≡ s)
unfolding open_state
open_state-some open_file db cfg {s} e = go (open_file db) refl
  where
    go :
        (o : Option Db)
        → open_file db ≡ o
        → (stored : Db) × (open_file db ≡ some stored) × (record { db = stored; cfg = cfg } ≡ s)
    go none f = cc (f, e)
    go (some stored) f = (stored, f, some-injective _ _ (sym (ap (opened_with cfg) f) ∙ e))

pub open_state-opens :
    (open_file : Db → Option Db) (db : Db) (cfg : ChainConfig) {stored : Db}
    → open_file db ≡ some stored
    → open_state open_file db (some cfg) ≡ some (record { db = stored; cfg = cfg })
unfolding open_state
open_state-opens open_file db cfg e = ap (opened_with cfg) e

written_succeeds : (s : State) (o : Option Db) → is_some o ≡ true → (written s o).1 ≡ true
unfolding written
written_succeeds s none e = cc e
written_succeeds s (some d) e = refl

pub commit_succeeds :
    (store : LevelDb) (s : State) (batch : List BatchOp)
    → is_some (store.write s.db batch) ≡ true
    → (commit store s batch).1 ≡ true
unfolding commit
commit_succeeds store s batch e = written_succeeds s (store.write s.db batch) e
