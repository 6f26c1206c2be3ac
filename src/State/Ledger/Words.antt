-- ===== src/State/Ledger/Words.antt =====
-- `ApplyBlock` keeps the stored numbers within uint64.
use chainlang.Prelude.{ℕ, ◌≡◌, subst, sym, true, Option-cases, inl, inr, Bytes, bytes_eq, value_or}
use chainlang.Prelude.Map.{Map, lookup, IsProper, lookup-IsProper}
use chainlang.LevelDb.{LevelDb, WritesBatches}
use chainlang.Core.Types.{Block}
use chainlang.State.Store.{State}
use chainlang.State.Ledger.{work, apply_block}
use chainlang.State.Ledger.Loading.{stored_balance, stored_nonce}
use chainlang.State.Ledger.Writing.{IsWord}
use chainlang.State.Ledger.Soundness.{HoldsWords, work-IsSound}
use chainlang.State.Ledger.Refinement.{apply_block-balance_of}
use chainlang.State.Ledger.Nonces.{apply_block-nonce_of}

value_or-IsWord :
    (d : ℕ) (m : Map Bytes ℕ) (a : Bytes)
    → IsWord d
    → IsProper IsWord m
    → IsWord (value_or d (lookup a m))
value_or-IsWord d m a h proper = elim (Option-cases (lookup a m)) [
  | inl missing ↦ subst (λ o. IsWord (value_or d o)) (sym missing) h
  | inr (v, e) ↦ subst (λ o. IsWord (value_or d o)) (sym e) (lookup-IsProper IsWord a m proper e)
]

-- Where a batch is written whole, a successful `ApplyBlock` on a database of uint64s leaves a
-- database of uint64s.
pub apply_block-HoldsWords :
    (store : LevelDb) (laws : WritesBatches store) (s : State) (words : HoldsWords s) (b : Block)
    {s' : State}
    → apply_block store s b ≡ (s', true)
    → HoldsWords s'
apply_block-HoldsWords store laws s words b {s'} e =
    let sound = work-IsSound s b words in
    record {
      balances = λ a. subst IsWord (sym (apply_block-balance_of store laws s words b a e)) (
          value_or-IsWord (stored_balance s a) (work s b).balances a (words.balances a)
            sound.balances);
      nonces = λ a.
          subst IsWord (sym (apply_block-nonce_of store laws s words b a e))
            (value_or-IsWord (stored_nonce s a) (work s b).nonces a (words.nonces a) sound.nonces);
    }
