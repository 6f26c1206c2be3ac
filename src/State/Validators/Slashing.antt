-- ===== src/State/Validators/Slashing.antt =====
-- After a slashing the validator set is the set before without the slashed address, in the same order.
use chainlang.Prelude.{
  ℕ, ◌≡◌, ◌≢◌, refl, ap, sym, ◌∙◌, true, false, Option, none, some, List, [], ◌∷◌, Bytes, bytes_eq,
  bytes_beq, bytes_beq_iff, ◌==◌, ==_refl, ==_false, ==_cases, inl, inr, Bool-cases, length,
  nat_beq, if◌then◌else◌, value_or, All, arith,
}
use chainlang.Crypto.Primitives.{Primitives}
use chainlang.Crypto.Signature.{
  address_from_hex, address_hex, IsAddress, address_from_hex-address_hex,
}
use chainlang.LevelDb.{Fetch, found, LevelDb, WritesBatches, after_op, after_batch}
use chainlang.State.Store.{
  State, key_validator_list, validator_stake_key, get_validator_stake_locked, set_validator_stake,
  commit, decode_number,
}
use chainlang.State.Store.Commit.{get-commit}
use chainlang.State.Ledger.Writing.{decode_number-found}
use mathlib.Core.Option.{some-injective}
use chainlang.State.Validators.{
  Validator, collect_text, collect, stored_texts, get_validator_set, without, list_record,
  collect_all, slash_batch, slash_validator, IsAscii, EncodesStrings,
}

-- The validators whose address differs from one.
abbrev pub others : Bytes → List Validator → List Validator
others addr [] = []
others addr (v ∷ vs) = let rest = others addr vs in if v.address == addr then rest else v ∷ rest

abbrev pub stake_of : State → Bytes → ℕ
stake_of s a = value_or 0 (get_validator_stake_locked s a)

-- The state after has the same stakes but for one address, which has none.
record Slashed (s s' : State) (addr : Bytes) : Type 0 where
  gone : stake_of s' addr ≡ 0
  kept : (a : Bytes) → a ≢ addr → stake_of s' a ≡ stake_of s a

module _ (s s' : State) (addr : Bytes) (slashed : Slashed s s' addr) where
  collect_text-others :
      (o : Option Bytes) (vs : List Validator)
      → collect_text s' o (others addr vs) ≡ others addr (collect_text s o vs)
  collect_text-others none vs = refl
  collect_text-others (some a) vs =
      ground (arith, slashed.gone, slashed.kept a, bytes_beq_iff a addr)

  collect-others : (texts : List Bytes) → collect s' texts ≡ others addr (collect s texts)
  unfolding collect
  collect-others [] = refl
  collect-others (text ∷ texts) =
      rw (collect-others texts) (collect_text-others (address_from_hex text) (collect s texts))

  -- Texts of the slashed address need not be in the list, since it has no stake.
  collect-without :
      (text : Bytes) (texts : List Bytes)
      → address_from_hex text ≡ some addr
      → collect s' (without text texts) ≡ collect s' texts
  unfolding collect without
  collect-without text [] e = refl
  collect-without text (x ∷ xs) e = elim (==_cases x text) [
    | inl (hit, same) ↦
        rw (hit, ap address_from_hex same ∙ e, slashed.gone) (collect-without text xs e)
    | inr (miss, differ) ↦ rw (miss, collect-without text xs e)
  ]

All-without :
    (text : Bytes) (texts : List Bytes) → All IsAscii texts → All IsAscii (without text texts)
unfolding without
All-without text [] h = tt
All-without text (x ∷ xs) h = elim (Bool-cases (x == text)) [
  | inl hit ↦ rw hit (All-without text xs h.1)
  | inr miss ↦ rw miss (h.0, All-without text xs h.1)
]

module _ (p : Primitives) where
  stake-list_record :
      (left : List Bytes) (was : Fetch) (a : Bytes)
      → after_op was (list_record p left) (validator_stake_key a) ≡ was
  unfolding bytes_beq
  stake-list_record [] was a = refl
  stake-list_record (x ∷ left) was a = refl

  stake-after :
      (addr a : Bytes) (texts : List Bytes) (was : Fetch)
      → value_or 0
          (decode_number (after_batch was (slash_batch p addr texts) (validator_stake_key a)))
        ≡ (if addr == a then 0 else value_or 0 (decode_number was))
  unfolding slash_batch after_batch bytes_beq
  stake-after addr a texts was =
      rw
        (stake-list_record (without (address_hex addr) texts)
          (after_op was (set_validator_stake addr 0) (validator_stake_key a)) a)
        (ground (arith, decode_number-found 0 (omega arith)))

  module _ (json : EncodesStrings p) where
    nonempty-parsed :
        (val : Bytes) {texts : List Bytes}
        → p.unmarshal_strings val ≡ some texts
        → nat_beq (length val) 0 ≡ false
    nonempty-parsed [] e = cc (json.unmarshal-nil)
    nonempty-parsed (b ∷ val) e = ground arith

    stored_texts-list_record :
        (left : List Bytes) (was : Fetch)
        → All IsAscii left
        → stored_texts p (after_op was (list_record p left) key_validator_list) ≡ some left
    unfolding stored_texts bytes_beq
    stored_texts-list_record [] was ascii = refl
    stored_texts-list_record (x ∷ left) was ascii =
        let parsed = json.unmarshal-marshal (x ∷ left) ascii in
        rw (nonempty-parsed (p.marshal_strings (x ∷ left)) parsed) parsed

    list-after :
        (addr : Bytes) (texts : List Bytes) (was : Fetch)
        → All IsAscii texts
        → stored_texts p (after_batch was (slash_batch p addr texts) key_validator_list)
          ≡ some (without (address_hex addr) texts)
    unfolding slash_batch after_batch
    list-after addr texts was ascii =
        stored_texts-list_record (without (address_hex addr) texts)
          (after_op was (set_validator_stake addr 0) key_validator_list)
          (All-without (address_hex addr) texts ascii)

    module _ (store : LevelDb) (laws : WritesBatches store) (s : State) (addr : Bytes)
        (address : IsAddress addr) (texts : List Bytes) (ascii : All IsAscii texts) where
      slash-Slashed :
          {s' : State} → commit store s (slash_batch p addr texts) ≡ (s', true) → Slashed s s' addr
      unfolding get_validator_stake_locked
      slash-Slashed {s'} e =
          let after = λ (a : Bytes).
            ap (λ f. value_or 0 (decode_number f))
              (get-commit store s (slash_batch p addr texts) (validator_stake_key a) laws e)
            ∙ stake-after addr a texts (s.db.get (validator_stake_key a)) in
          record {
            gone = after addr ∙ rw (==_refl addr);
            kept = λ a other. after a ∙ rw (==_false addr a (λ same. other (sym same)));
          }

      slash-set :
          {s' : State}
          → commit store s (slash_batch p addr texts) ≡ (s', true)
          → get_validator_set p s' ≡ some (others addr (collect s texts))
      unfolding get_validator_set
      slash-set {s'} e =
          let slashed = slash-Slashed e in
          ap (collect_all s') (
            ap (stored_texts p)
              (get-commit store s (slash_batch p addr texts) key_validator_list laws e)
            ∙ list-after addr texts (s.db.get key_validator_list) ascii)
          ∙ ap some (
              collect-without s s' addr slashed (address_hex addr) texts
                (address_from_hex-address_hex addr address)
              ∙ collect-others s s' addr slashed texts)

-- Where a batch is written whole and the JSON package reads lists of ASCII strings back, and a list
-- of ASCII texts is stored, a slashing of an address that succeeds removes exactly that address
-- from the set that `GetValidatorSet` returns, and keeps the order and the stakes of the others.
pub get_validator_set-slash_validator :
    (p : Primitives) (store : LevelDb) (s : State) (addr val : Bytes) (texts : List Bytes)
    (vs : List Validator) {s' : State}
    → EncodesStrings p
    → WritesBatches store
    → IsAddress addr
    → s.db.get key_validator_list ≡ found val
    → p.unmarshal_strings val ≡ some texts
    → All IsAscii texts
    → get_validator_set p s ≡ some vs
    → slash_validator p store s addr ≡ (s', true)
    → get_validator_set p s' ≡ some (others addr vs)
unfolding get_validator_set stored_texts slash_validator
get_validator_set-slash_validator p store s addr val texts vs {s'} json laws address stored parsed
      ascii before e =
    let nonempty = nonempty-parsed p json val parsed in
    let same : collect s texts ≡ vs =
      some-injective _ _ (rw (stored, nonempty, parsed) at before) in
    let done : commit store s (slash_batch p addr texts) ≡ (s', true) = rw (stored, parsed) at e in
    slash-set p json store laws s addr address texts ascii done
    ∙ ap (λ l. some (others addr l)) same
