-- ===== src/Loadgen/Acceptance.antt =====
-- How many of the transactions a node accepts before its next block.
use chainlang.Prelude.{
  ℕ, zero, suc, ◌+◌, bytes_eq, ◌==◌, ◌^◌, ◌≤◌, ◌<◌, ◌≡◌, ◌≢◌, ◌⊎◌, refl, ap, sym, ◌∙◌, subst, inl,
  inr, false, Option, none, some, List, [], ◌∷◌, Bytes, All, Distinct, contains, nat_eq,
  nat_beq_iff, arith,
}
use chainlang.Go.Word.{add64}
use chainlang.Crypto.Primitives.{PrivateKey}
use chainlang.Crypto.Signature.{pubkey_to_address, address_hex, sign}
use chainlang.Core.Types.{Transaction, tx_hash}
use chainlang.State.Store.{State, get_nonce}
use chainlang.Mempool.{add}
use chainlang.Mempool.Adding.{add_sound}
use chainlang.Node.{World, Node}
use chainlang.Node.Api.{serve_tx, tx_reply}
use chainlang.Loadgen.{
  unsigned_load, signed_load, load_tx, counted, post_if, post_all, count_done, run_load,
}
use chainlang.Crypto.Keyfile.{KeyDisk, KeyStore, load_key}
use chainlang.Node.Sending.{node_api}
use chainlang.Node.Starting.{done, checked, pointed}
use chainlang.Node.Starting.Inversion.{done_injective, if-done, and_run-done}

add64_injective : (nonce i j : ℕ) → i < 2 ^ 64 → j < 2 ^ 64 → add64 nonce i ≡ add64 nonce j → i ≡ j
unfolding add64
add64_injective nonce i j hi hj e = omega arith

module _ (w : World) (priv : PrivateKey) (nonce : ℕ) where
  abbrev sender : Bytes
  sender = pubkey_to_address w.p (some priv.public_key)

  -- The state's nonce is the one of the index.
  abbrev IsNext : State → ℕ → Type 0
  IsNext s i = get_nonce s sender ≡ some (add64 nonce i)

  -- What one post leaves: the state, and a count that is one higher only if the index was next.
  record IsPosted (n : Node) (count i : ℕ) (r : Node × ℕ) : Type 0 where
    state : r.0.state ≡ n.state
    count_after : (r.1 ≡ count) ⊎ ((r.1 ≡ suc count) × IsNext n.state i)

  replied-IsPosted :
      (n : Node) (count i : ℕ) (tx : Transaction)
      → tx.from ≡ sender
      → tx.nonce ≡ add64 nonce i
      → IsPosted n count i (counted count (tx_reply w n tx (add w.p (some n.state) n.pool tx)))
  replied-IsPosted n count i tx from own = elim (add_sound w.p (some n.state) n.pool tx) [
    | inl (e, ok) ↦
        let next : IsNext n.state i =
          subst (λ a. get_nonce n.state a ≡ some (add64 nonce i)) from
            (ok.allowed.2 ∙ ap some own) in
        subst (λ r. IsPosted n count i (counted count (tx_reply w n tx r))) (sym e)
          (record { state = refl; count_after = inr (refl, next) })
    | inr (x, e) ↦
        subst (λ r. IsPosted n count i (counted count (tx_reply w n tx r))) (sym e)
          (record { state = refl; count_after = inl refl })
  ]

  posted :
      (n : Node) (count i : ℕ)
      → IsPosted n count i (post_if w (load_tx w.p priv nonce i) (n, count))
  unfolding load_tx post_if serve_tx
  posted n count i = go (sign w.p priv (tx_hash w.p (unsigned_load w.p priv nonce i)))
    where
      go :
          (o : Option Bytes)
          → IsPosted n count i
              (post_if w (signed_load (unsigned_load w.p priv nonce i) o) (n, count))
      go none = record { state = refl; count_after = inl refl }
      go (some sig) =
          replied-IsPosted n count i (record (unsigned_load w.p priv nonce i) { signature = sig })
            refl refl

  -- Where no index is next, none is accepted.
  none_accepted :
      (is : List ℕ) (r : Node × ℕ) (s : State)
      → r.0.state ≡ s
      → All (λ i. get_nonce s sender ≢ some (add64 nonce i)) is
      → (post_all w priv nonce is r).1 ≡ r.1
  unfolding post_all
  none_accepted [] r s same h = refl
  none_accepted (i ∷ is) (n, count) s same h =
      let after = post_if w (load_tx w.p priv nonce i) (n, count) in
      let one = posted n count i in
      let rest = none_accepted is after s (one.state ∙ same) h.1 in
      elim one.count_after [
        | inl e ↦ rest ∙ e
        | inr (_, next) ↦ absurd (h.0 (ap (λ t. get_nonce t sender) (sym same) ∙ next))
      ]

  -- The others of a list of different indices are not next.
  others_wait :
      (s : State) (i : ℕ) (is : List ℕ)
      → IsNext s i
      → i < 2 ^ 64
      → All (λ j. j < 2 ^ 64) is
      → contains is i ≡ false
      → All (λ j. get_nonce s sender ≢ some (add64 nonce j)) is
  unfolding contains
  others_wait s i [] next hi h apart = tt
  others_wait s i (j ∷ is) next hi h apart = (
    λ e.
        let same : add64 nonce j ≡ add64 nonce i = cc (next, e) in
        let eq = add64_injective nonce j i h.0 hi same in
        let found = (nat_beq_iff j i).1 eq in cc (apart, found),
    others_wait s i is next hi h.1 (ground (arith, apart)),
  )

  accepts_one :
      (is : List ℕ) (r : Node × ℕ)
      → All (λ i. i < 2 ^ 64) is
      → Distinct is
      → (post_all w priv nonce is r).1 ≤ suc r.1
  unfolding post_all
  accepts_one [] r h distinct = omega arith
  accepts_one (i ∷ is) (n, count) h distinct =
      let after = post_if w (load_tx w.p priv nonce i) (n, count) in
      let one = posted n count i in
      elim one.count_after [
        | inl e ↦ let rest = accepts_one is after h.1 distinct.1 in omega arith
        | inr (e, next) ↦
            let waits = others_wait n.state i is next h.0 h.1 distinct.0 in
            let rest = none_accepted is after n.state one.state waits in omega arith
      ]

-- Of the transactions that the load generator makes with one key for different indices, a node accepts
-- at most one before it applies a block, in whatever order they come: the pool takes a transaction
-- only with the nonce that the state has for its sender.
post_all_bounded :
    (w : World) (n : Node) (priv : PrivateKey) (nonce : ℕ) (is : List ℕ)
    → All (λ i. i < 2 ^ 64) is
    → Distinct is
    → (post_all w priv nonce is (n, 0)).1 ≤ 1
post_all_bounded w n priv nonce is h distinct = accepts_one w priv nonce is (n, 0) h distinct

-- The count is no higher than the messages.
count_done_bounded :
    (total accepted pending : ℕ) → count_done total accepted pending ≤ accepted + pending
unfolding count_done
count_done_bounded total accepted zero = omega arith
count_done_bounded total accepted (suc pending) =
    let rest = count_done_bounded total (suc accepted) pending in ground (arith, rest)

module _ (w : World) (priv : PrivateKey) (nonce : ℕ) where
  post_all-state : (is : List ℕ) (r : Node × ℕ) → (post_all w priv nonce is r).0.state ≡ r.0.state
  unfolding post_all
  post_all-state [] r = refl
  post_all-state (i ∷ is) (n, count) =
      post_all-state is (post_if w (load_tx w.p priv nonce i) (n, count))
      ∙ (posted w priv nonce n count i).state

-- Where the load generator goes through at a node, it reports at most one accepted transaction, whatever
-- its total, and in whatever order its goroutines' posts come, each index at most once, with no block
-- in between; and the node's ledger is as it was.
pub run_load_bounded :
    (w : World) (n : Node) (keys : KeyStore) (disk : KeyDisk) (path : Bytes) (total : ℕ)
    (order : List ℕ) (after : Node) (reported : ℕ)
    → All (λ i. i < 2 ^ 64) order
    → Distinct order
    → run_load w keys disk path total order n ≡ done (after, reported)
    → (reported ≤ 1) × (after.state ≡ n.state)
unfolding run_load
run_load_bounded w n keys disk path total order after reported below distinct e =
    let (named, e0) = if-done (path == []) _ e in
    let (loaded, reads, e1) = and_run-done (checked (load_key keys disk path)) _ e0 in
    let (priv, is_key, e2) = and_run-done (pointed loaded) _ e1 in
    let from = address_hex (pubkey_to_address w.p (some priv.public_key)) in
    let (nonce, gives, e3) = and_run-done (checked ((node_api w).account_nonce n from)) _ e2 in
    let r = post_all w priv nonce order (n, 0) in
    let same : ◌≡◌ {A = Node × ℕ} (r.0, count_done total 0 r.1) (after, reported) =
      done_injective (r.0, count_done total 0 r.1) (after, reported) e3 in
    let count : count_done total 0 r.1 ≡ reported = ap (λ (x : Node × ℕ). x.1) same in
    let one = post_all_bounded w n priv nonce order below distinct in
    let most = count_done_bounded total 0 r.1 in
    (
      omega arith,
      ap (λ (x : Node × ℕ). x.0.state) (sym same) ∙ post_all-state w priv nonce order (n, 0),
    )
