-- ===== src/State/Ledger/Supply.antt =====
-- The sum of the balances over a block: it grows by the fees of the transactions that were skipped,
-- and by nothing else, as long as no sum overflows.
use chainlang.Prelude.{
  ℕ, ◌+◌, ◌-◌, ◌≤◌, ◌<◌, ◌^◌, ◌≡◌, refl, ap, ap₂, ◌∙◌, true, false, List, [], ◌∷◌, Bytes, bytes_eq,
  fold, arith, All, contains, Distinct, bytes_beq_iff, if◌then◌else◌, Bool-cases, inl, inr, ltb,
}
use chainlang.Go.Word.{add64, sub64}
use chainlang.LevelDb.{LevelDb, WritesBatches}
use chainlang.Core.Types.{Transaction, Block}
use chainlang.State.Store.{State}
use chainlang.State.Ledger.{apply_block}
use chainlang.State.Ledger.Spec.{
  Accounts, update, transfer, is_skipped, spec_tx, spec_fees, spec_block,
}
use chainlang.State.Ledger.Loading.{stored_balance}
use chainlang.State.Ledger.Soundness.{HoldsWords}
use chainlang.State.Ledger.Refinement.{specified, accounts_of, apply_block-balance}

abbrev pub total : (Bytes → ℕ) → List Bytes → ℕ
total f [] = 0
total f (a ∷ accts) = f a + total f accts

total-congr :
    (f g : Bytes → ℕ) (accts : List Bytes)
    → ((a : Bytes) → f a ≡ g a)
    → total f accts ≡ total g accts
total-congr f g [] h = refl
total-congr f g (a ∷ accts) h = ap₂ ◌+◌ (h a) (total-congr f g accts h)

total-update_other :
    (f : Bytes → ℕ) (k : Bytes) (v : ℕ) (accts : List Bytes)
    → contains accts k ≡ false
    → total (update f k v) accts ≡ total f accts
unfolding contains
total-update_other f k v [] h = refl
total-update_other f k v (a ∷ accts) h =
    ground (arith, total-update_other f k v accts, bytes_beq_iff k a, bytes_beq_iff a k)

total-update :
    (f : Bytes → ℕ) (k : Bytes) (v : ℕ) (accts : List Bytes)
    → Distinct accts
    → contains accts k ≡ true
    → total (update f k v) accts + f k ≡ total f accts + v
unfolding contains
total-update f k v [] d h = cc
total-update f k v (a ∷ accts) d h = ground (
  arith,
  total-update f k v accts d.1,
  total-update_other f k v accts,
  bytes_beq_iff k a,
  bytes_beq_iff a k,
)

le-total :
    (f : Bytes → ℕ) (k : Bytes) (accts : List Bytes) → contains accts k ≡ true → f k ≤ total f accts
unfolding contains
le-total f k [] h = cc
le-total f k (a ∷ accts) h = ground (arith, le-total f k accts, bytes_beq_iff a k)

add64-exact : (a b : ℕ) → a + b < 2 ^ 64 → add64 a b ≡ a + b
unfolding add64
add64-exact a b h = omega arith

sub64-exact : (a b : ℕ) → b ≤ a → a < 2 ^ 64 → sub64 a b ≡ a - b
unfolding sub64
sub64-exact a b h w = omega arith

abbrev pub sum_fees : List Transaction → ℕ
sum_fees [] = 0
sum_fees (t ∷ ts) = t.fee + sum_fees ts

-- The fees of the transactions that are skipped when the list is run from `c`.
abbrev pub skipped_fees : Accounts → List Transaction → ℕ
skipped_fees c [] = 0
skipped_fees c (t ∷ ts) =
    (if is_skipped c.balance t then t.fee else 0) + skipped_fees (spec_tx c t) ts

-- The list names the sender and the recipient of the transaction, whose total is a word.
pub record Fits (accts : List Bytes) (t : Transaction) : Type 0 where
  pub sender : contains accts t.from ≡ true
  pub recipient : contains accts t.to ≡ true
  pub no_wrap : t.amount + t.fee < 2 ^ 64

module _ (accts : List Bytes) (distinct : Distinct accts) where
  total-transfer :
      (f : Bytes → ℕ) (t : Transaction)
      → Fits accts t
      → total f accts < 2 ^ 64
      → is_skipped f t ≡ false
      → total (transfer f t) accts + t.fee ≡ total f accts
  total-transfer f t fits small paid =
      let sum = add64-exact t.amount t.fee fits.no_wrap in
      let from_le = le-total f t.from accts fits.sender in
      let covered : t.amount + t.fee ≤ f t.from = ground (arith, sum) in
      let spent = sub64 (f t.from) (add64 t.amount t.fee) in
      let spent_eq : spent ≡ f t.from - (t.amount + t.fee) =
        ap (sub64 (f t.from)) sum
        ∙ sub64-exact (f t.from) (t.amount + t.fee) covered (omega arith) in
      let debited = update f t.from spent in
      let after_debit = total-update f t.from spent accts distinct fits.sender in
      let to_le = le-total debited t.to accts fits.recipient in
      let credit = add64-exact (debited t.to) t.amount (omega arith) in
      let after_credit =
        total-update debited t.to (add64 (debited t.to) t.amount) accts distinct fits.recipient in
      omega arith

  spec_tx-total :
      (c : Accounts) (t : Transaction)
      → Fits accts t
      → total c.balance accts + c.fees + t.fee < 2 ^ 64
      → total (spec_tx c t).balance accts + (spec_tx c t).fees
        ≡ total c.balance accts + c.fees + (if is_skipped c.balance t then t.fee else 0)
  unfolding spec_tx
  spec_tx-total c t fits small =
      let collected = add64-exact c.fees t.fee (omega arith) in
      elim (Bool-cases (is_skipped c.balance t)) [
        | inl skipped ↦ rw (skipped, collected) (omega arith)
        | inr paid ↦
            let moved = total-transfer c.balance t fits (omega arith) paid in
            rw (paid, collected) (omega arith)
      ]

  run-total :
      (ts : List Transaction) (c : Accounts)
      → All (Fits accts) ts
      → total c.balance accts + c.fees + sum_fees ts < 2 ^ 64
      → (total (fold spec_tx c ts).balance accts + (fold spec_tx c ts).fees
          ≡ total c.balance accts + c.fees + skipped_fees c ts)
        × (skipped_fees c ts ≤ sum_fees ts)
  run-total [] c fits small = (omega arith, omega arith)
  run-total (t ∷ ts) c fits small =
      let one = spec_tx-total c t fits.0 (omega arith) in
      let at_most : (if is_skipped c.balance t then t.fee else 0) ≤ t.fee = ground arith in
      let rest = run-total ts (spec_tx c t) fits.1 (omega arith) in (omega arith, omega arith)

  spec_fees-total :
      (producer : Bytes) (c : Accounts)
      → contains accts producer ≡ true
      → total c.balance accts + c.fees < 2 ^ 64
      → total (spec_fees producer c).balance accts ≡ total c.balance accts + c.fees
  unfolding spec_fees
  spec_fees-total producer c known small =
      let bound = le-total c.balance producer accts known in
      let paid = add64-exact (c.balance producer) c.fees (omega arith) in
      let v = add64 (c.balance producer) c.fees in
      elim (Bool-cases (ltb 0 c.fees)) [
        | inl some_fees ↦
            let moved = total-update c.balance producer v accts distinct known in
            rw some_fees (omega arith)
        | inr no_fees ↦ rw no_fees (ground arith)
      ]

-- Where a batch is written whole and the stored numbers are uint64s, over a list of different
-- accounts that holds every sender, every recipient and the producer, a successful `ApplyBlock`
-- adds to the sum of the balances exactly the fees of the transactions it skips, if no
-- transaction's total wraps and the sum with all fees is below 2^64.
pub apply_block-total :
    (store : LevelDb) (laws : WritesBatches store) (s : State) (words : HoldsWords s) (b : Block)
    {s' : State} (accts : List Bytes)
    → Distinct accts
    → All (Fits accts) b.transactions
    → contains accts b.validator_address ≡ true
    → total (stored_balance s) accts + sum_fees b.transactions < 2 ^ 64
    → apply_block store s b ≡ (s', true)
    → total (stored_balance s') accts
      ≡ total (stored_balance s) accts + skipped_fees (accounts_of s) b.transactions
unfolding spec_block
apply_block-total store laws s words b {s'} accts distinct fits producer small e =
    let (kept, at_most) =
      run-total accts distinct b.transactions (accounts_of s) fits (omega arith) in
    let last = fold spec_tx (accounts_of s) b.transactions in
    let paid = spec_fees-total accts distinct b.validator_address last producer (omega arith) in
    let same =
      total-congr (stored_balance s') (specified s b).balance accts
        (λ a. apply_block-balance store laws s words b a e) in
    omega arith
