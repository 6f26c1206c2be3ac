-- ===== src/State/Validators.antt =====
-- state/state.go: the validator set, read and slashed.
pub mod Slashing
use chainlang.Prelude.{
  ℕ, Bool, true, false, Option, none, some, List, [], ◌∷◌, Bytes, bytes_eq, ◌==◌, nat_beq, ltb,
  length, if◌then◌else◌, value_or, ◌≡◌, ◌<◌, All,
}
use chainlang.Crypto.Primitives.{Primitives}
use chainlang.Crypto.Signature.{address_from_hex, address_hex}
use chainlang.LevelDb.{Fetch, found, not_found, failed, BatchOp, put, delete, LevelDb}
use chainlang.State.Store.{
  State, key_validator_list, get_validator_stake_locked, set_validator_stake, commit,
}

pub record Validator : Type 0 where
  pub address : Bytes
  pub stake : ℕ

-- One round of the loop of `GetValidatorSet`: a text that is no address is passed over, and so is an
-- address without stake.
abbrev pub collect_text : State → Option Bytes → List Validator → List Validator
collect_text s none rest = rest
collect_text s (some addr) rest =
    let stake = value_or 0 (get_validator_stake_locked s addr) in
    if ltb 0 stake then record { address = addr; stake = stake } ∷ rest else rest

unfoldable pub collect : State → List Bytes → List Validator
collect s [] = []
collect s (text ∷ texts) = collect_text s (address_from_hex text) (collect s texts)

-- The stored list of texts. A failed read returns no bytes, which is tested before the error is.
unfoldable pub stored_texts : Primitives → Fetch → Option (List Bytes)
stored_texts p not_found = some []
stored_texts p failed = some []
stored_texts p (found val) = if nat_beq (length val) 0 then some [] else p.unmarshal_strings val

collect_all : State → Option (List Bytes) → Option (List Validator)
collect_all s none = none
collect_all s (some texts) = some (collect s texts)

-- `none` is the error of the JSON decoder.
unfoldable pub get_validator_set : Primitives → State → Option (List Validator)
unfolding stored_texts collect_all
get_validator_set p s = collect_all s (stored_texts p (s.db.get key_validator_list))

-- The texts that differ from one.
unfoldable pub without : Bytes → List Bytes → List Bytes
without text [] = []
without text (x ∷ xs) = let rest = without text xs in if x == text then rest else x ∷ rest

abbrev pub list_record : Primitives → List Bytes → BatchOp
list_record p [] = delete key_validator_list
list_record p (x ∷ xs) = put key_validator_list (p.marshal_strings (x ∷ xs))

unfoldable pub slash_batch : Primitives → Bytes → List Bytes → List BatchOp
unfolding without
slash_batch p addr texts =
    set_validator_stake addr 0 ∷ list_record p (without (address_hex addr) texts) ∷ []

slash_texts : Primitives → LevelDb → State → Bytes → Option (List Bytes) → State × Bool
slash_texts p store s addr none = (s, false)
slash_texts p store s addr (some texts) = commit store s (slash_batch p addr texts)

slash_fetched : Primitives → LevelDb → State → Bytes → Fetch → State × Bool
unfolding slash_texts
slash_fetched p store s addr not_found = (s, true)
slash_fetched p store s addr failed = (s, false)
slash_fetched p store s addr (found val) = slash_texts p store s addr (p.unmarshal_strings val)

unfoldable pub slash_validator : Primitives → LevelDb → State → Bytes → State × Bool
unfolding slash_fetched slash_batch commit
slash_validator p store s addr = slash_fetched p store s addr (s.db.get key_validator_list)

abbrev pub IsAscii : Bytes → Type 0
IsAscii text = All (λ c. c < 128) text

-- A list of ASCII strings that json.Marshal wrote is read back, and no JSON text is empty.
pub record EncodesStrings (p : Primitives) : Type 0 where
  pub unmarshal-marshal :
      (texts : List Bytes)
      → All IsAscii texts
      → p.unmarshal_strings (p.marshal_strings texts) ≡ some texts
  pub unmarshal-nil : p.unmarshal_strings [] ≡ none
