-- ===== src/State/Ledger/Soundness.antt =====
-- The working maps stay proper: no address is listed twice and every number is a word.
use chainlang.Prelude.{
  ℕ, true, false, Bool, not, if◌then◌else◌, List, [], ◌∷◌, Bytes, bytes_eq, fold, arith, ltb,
}
use chainlang.Prelude.Map.{insert-IsProper}
use chainlang.Go.Word.{add64, sub64}
use chainlang.Core.Types.{Transaction, Block}
use chainlang.State.Store.{State}
use chainlang.State.Ledger.{
  Working, at, has_key, load_sender, load_balance, load_tx, run_tx, pay_fees, work, empty_working,
}
use chainlang.State.Ledger.Loading.{stored_balance, stored_nonce}
use chainlang.State.Ledger.Writing.{IsWord, IsSound}

pub add64-IsWord : (a b : ℕ) → IsWord (add64 a b)
unfolding add64
add64-IsWord a b = omega arith

pub sub64-IsWord : (a b : ℕ) → IsWord (sub64 a b)
unfolding sub64
sub64-IsWord a b = omega arith

-- The numbers in the database are uint64s.
pub record HoldsWords (s : State) : Type 0 where
  pub balances : (a : Bytes) → IsWord (stored_balance s a)
  pub nonces : (a : Bytes) → IsWord (stored_nonce s a)

IsSound-if : (b : Bool) {w w' : Working} → IsSound w → IsSound w' → IsSound (if b then w else w')
IsSound-if true h h' = h
IsSound-if false h h' = h'

module _ (s : State) (words : HoldsWords s) where
  load_sender-IsSound : (w : Working) (a : Bytes) → IsSound w → IsSound (load_sender s w a)
  load_sender-IsSound w a h =
      IsSound-if (not (has_key w.balances a))
        (record {
          balances =
              insert-IsProper IsWord a (stored_balance s a) w.balances (words.balances a)
                h.balances;
          nonces = insert-IsProper IsWord a (stored_nonce s a) w.nonces (words.nonces a) h.nonces;
        })
        h

  load_balance-IsSound : (w : Working) (a : Bytes) → IsSound w → IsSound (load_balance s w a)
  load_balance-IsSound w a h =
      IsSound-if (not (has_key w.balances a))
        (record {
          balances =
              insert-IsProper IsWord a (stored_balance s a) w.balances (words.balances a)
                h.balances;
          nonces = h.nonces;
        })
        h

  load-IsSound : (ts : List Transaction) (w : Working) → IsSound w → IsSound (fold (load_tx s) w ts)
  unfolding load_tx
  load-IsSound [] w h = h
  load-IsSound (t ∷ ts) w h =
      load-IsSound ts (load_tx s w t)
        (load_balance-IsSound (load_sender s w t.from) t.to (load_sender-IsSound w t.from h))

  pay_fees-IsSound : (w : Working) (producer : Bytes) → IsSound w → IsSound (pay_fees s producer w)
  unfolding pay_fees
  pay_fees-IsSound w producer h =
      let loaded = load_balance-IsSound w producer h in
      IsSound-if (ltb 0 w.total_fees)
        (record {
          balances = insert-IsProper IsWord producer _ _ (add64-IsWord _ _) loaded.balances;
          nonces = loaded.nonces;
        })
        h

run_tx-IsSound : (w : Working) (t : Transaction) → IsSound w → IsSound (run_tx w t)
unfolding run_tx
run_tx-IsSound w t h =
    IsSound-if (ltb (at w.balances t.from) (add64 t.amount t.fee))
      (record { balances = h.balances; nonces = h.nonces })
      (record {
        balances =
            insert-IsProper IsWord t.to _ _ (add64-IsWord _ _)
              (insert-IsProper IsWord t.from _ w.balances (sub64-IsWord _ _) h.balances);
        nonces = insert-IsProper IsWord t.from _ w.nonces (add64-IsWord _ _) h.nonces;
      })

run-IsSound : (ts : List Transaction) (w : Working) → IsSound w → IsSound (fold run_tx w ts)
run-IsSound [] w h = h
run-IsSound (t ∷ ts) w h = run-IsSound ts (run_tx w t) (run_tx-IsSound w t h)

-- After the three passes the working maps are proper.
pub work-IsSound : (s : State) (b : Block) → HoldsWords s → IsSound (work s b)
unfolding work
work-IsSound s b words = pay_fees-IsSound s words _ b.validator_address (
    run-IsSound b.transactions _
      (load-IsSound s words b.transactions empty_working (record { balances = tt; nonces = tt })))
