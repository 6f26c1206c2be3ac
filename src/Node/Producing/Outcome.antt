-- ===== src/Node/Producing/Outcome.antt =====
-- What one tick of the producer leaves: nothing, a block that every node in the same state accepts, or
-- a state that is ahead of the chain.
use chainlang.Prelude.{
  ℕ, ◌≡◌, refl, ap, sym, ◌∙◌, subst, Bool, true, false, not, Option, none, some, List, [], ◌∷◌,
  Bytes, bytes_eq, ◌==◌, if◌then◌else◌, ◌⊎◌,
}
use chainlang.Go.Word.{pos, add64}
use chainlang.Crypto.Signature.{sign}
use chainlang.Core.Types.{Transaction, Block, new_block, validate_block}
use chainlang.Core.Types.Validity.{validate_block-new_block, validate_block_ignores_signatures}
use chainlang.Core.Chain.{returned, Chain, last_block, append_block}
use chainlang.Core.Chain.Free.{IsFree, last_read, last_block-IsFree, append_block-Advanced}
use chainlang.State.Store.{State}
use chainlang.State.Ledger.{apply_block}
use chainlang.State.Ledger.Refinement.{apply_block_failed}
use chainlang.Consensus.{ValidatorSet, validator_for_height, verify_block_validator}
use chainlang.Mempool.{pending, remove}
use chainlang.Node.{
  World, Node, Run, finished, hung, broadcast_block, with_chain, unlocking, validator_set,
  accepts_producer,
}
use chainlang.Node.Receiving.Outcome.{IsIdle}
use chainlang.Node.Producing.{
  own_address, is_in_turn, draft, appended, append_applied, applied, install, signed_block, build,
  produce_after, produce,
}

-- `last` is what `LastBlock` returns, and the block follows it, passes `ValidateBlock`, holds the first 100 pooled transactions, is of the
-- producer in turn and signed with the node's key.
pub record IsNext (w : World) (n : Node) (last b : Block) : Type 0 where
  pub is_last : last_read w.json n.chain ≡ some (some last)
  pub valid : validate_block w.p b ≡ true
  pub height : b.height ≡ add64 last.height 1
  pub follows : b.previous_hash ≡ last.hash
  pub transactions : b.transactions ≡ pending n.pool (pos 100)
  pub in_turn : accepts_producer (validator_set w n.state) b ≡ true
  pub signed : sign w.p w.key b.hash ≡ some b.signature

pub data Produced (w : World) (n : Node) : Run → Type 0 where
  -- Nothing has changed.
  skipped : {m : Node} → m ≡ n → Produced w n (finished m)
  -- The state is that after a block which `AppendBlock` reported no success for.
  unrecorded :
      {m : Node} {s : State}
      → (last b : Block) → IsNext w n last b
      → apply_block w.store n.state b ≡ (s, true)
      → m.state ≡ s
      → m.pool ≡ n.pool
      → m.sent ≡ n.sent
      → append_block w.json w.os n.chain b ≡ returned (m.chain, false)
      → (m.chain.last_hash ≡ n.chain.last_hash) ⊎ (m.chain.last_hash ≡ b.hash)
      → IsIdle m
      → Produced w n (finished m)
  -- The block is the tip, its transactions have left the pool, and it is broadcast.
  made :
      {m : Node} {s : State}
      → (last b : Block) → IsNext w n last b
      → apply_block w.store n.state b ≡ (s, true)
      → m.state ≡ s
      → m.pool ≡ remove w.p n.pool b.transactions
      → m.sent ≡ broadcast_block b ∷ n.sent
      → append_block w.json w.os n.chain b ≡ returned (m.chain, true)
      → m.chain.last_hash ≡ b.hash
      → IsIdle m
      → Produced w n (finished m)

module _ (w : World) (n : Node) (idle : IsIdle n) where
  abbrev busy : Node
  busy = record n { block_mu = true }

  abbrev Ends : Run → Type 0
  Ends r = Produced w n (unlocking r)

  skip : Ends (finished busy)
  skip = skipped (ap (λ t. record n { block_mu = t }) (sym idle.unlocked))

  appended-Ends :
      (last b : Block) {s : State} (r : Chain × Bool)
      → IsNext w n last b
      → apply_block w.store n.state b ≡ (s, true)
      → append_block w.json w.os n.chain b ≡ returned r
      → IsFree r.0
      → (r.0.last_hash ≡ n.chain.last_hash) ⊎ (r.0.last_hash ≡ b.hash)
      → (r.1 ≡ true → r.0.last_hash ≡ b.hash)
      → Ends (appended w b (record busy { state = s; chain = r.0 }) r.1)
  appended-Ends last b (c, false) next applies returns free tip moved =
      unrecorded last b next applies refl refl refl returns tip
        (record { unlocked = refl; free = free })
  appended-Ends last b (c, true) next applies returns free tip moved =
      made last b next applies refl refl refl returns (moved refl)
        (record { unlocked = refl; free = free })

  applied-Ends :
      (last b : Block) (r : State × Bool)
      → IsNext w n last b
      → apply_block w.store n.state b ≡ r
      → Ends (applied w b (record busy { state = r.0 }) r.1)
  unfolding applied append_applied
  applied-Ends last b (s, false) next applies = skipped (
      ap (λ x. record n { block_mu = false; state = x })
        (apply_block_failed w.store n.state b applies)
      ∙ ap (λ t. record n { block_mu = t }) (sym idle.unlocked))
  applied-Ends last b (s, true) next applies =
      let (r, returns, advanced) = append_block-Advanced w.json w.os n.chain idle.free b in
      subst Ends (sym (ap (λ o. with_chain (record busy { state = s }) o (appended w b)) returns)) (
        appended-Ends last b r next applies returns advanced.free_after advanced.tip
          (λ good. (advanced.moved good).0))

  turn-accepts_producer :
      (o : Option ValidatorSet) (b : Block)
      → b.validator_address ≡ own_address w
      → is_in_turn w o b.height ≡ true
      → accepts_producer o b ≡ true
  unfolding verify_block_validator
  turn-accepts_producer none b own turn = refl
  turn-accepts_producer (some set) b own turn =
      ap (λ a. validator_for_height set b.height == a) own ∙ turn

  -- The block that the node builds in its turn can be accepted.
  draft-IsNext :
      (now : ℕ) (last : Block) (sig : Bytes) (txs : List Transaction)
      → last_read w.json n.chain ≡ some (some last)
      → is_in_turn w (validator_set w n.state) (add64 last.height 1) ≡ true
      → pending n.pool (pos 100) ≡ txs
      → sign w.p w.key (draft w now last txs).hash ≡ some sig
      → IsNext w n last (record (draft w now last txs) { signature = sig })
  unfolding new_block
  draft-IsNext now last sig txs tip turn pool signs =
      let b = draft w now last txs in
      record {
        is_last = tip;
        valid =
            validate_block_ignores_signatures w.p b sig b.transactions refl
            ∙ (validate_block-new_block w.p now (add64 last.height 1) last.hash (own_address w)
                txs).0;
        height = refl;
        follows = refl;
        transactions = sym pool;
        in_turn =
            turn-accepts_producer (validator_set w n.state) (record b { signature = sig }) refl
              turn;
        signed = signs;
      }

  signed_block-Ends :
      (now : ℕ) (last : Block) (txs : List Transaction) (o : Option Bytes)
      → last_read w.json n.chain ≡ some (some last)
      → sign w.p w.key (draft w now last txs).hash ≡ o
      → is_in_turn w (validator_set w n.state) (add64 last.height 1) ≡ true
      → pending n.pool (pos 100) ≡ txs
      → Ends (signed_block w busy (draft w now last txs) o)
  unfolding signed_block install
  signed_block-Ends now last txs none tip signs turn pool = skip
  signed_block-Ends now last txs (some sig) tip signs turn pool =
      let b : Block = record (draft w now last txs) { signature = sig } in
      applied-Ends last b (apply_block w.store n.state b)
        (draft-IsNext now last sig txs tip turn pool signs) refl

  build-Ends :
      (now : ℕ) (last : Block) (txs : List Transaction)
      → last_read w.json n.chain ≡ some (some last)
      → is_in_turn w (validator_set w n.state) (add64 last.height 1) ≡ true
      → pending n.pool (pos 100) ≡ txs
      → Ends (build w now busy last txs)
  unfolding build
  build-Ends now last [] tip turn pool = skip
  build-Ends now last (t ∷ ts) tip turn pool =
      signed_block-Ends now last (t ∷ ts) (sign w.p w.key (draft w now last (t ∷ ts)).hash) tip refl
        turn pool

  turn-Ends :
      (now : ℕ) (last : Block) (turn : Bool)
      → last_read w.json n.chain ≡ some (some last)
      → is_in_turn w (validator_set w n.state) (add64 last.height 1) ≡ turn
      → Ends (if not turn then finished busy else build w now busy last (pending n.pool (pos 100)))
  turn-Ends now last false tip e = skip
  turn-Ends now last true tip e = build-Ends now last (pending n.pool (pos 100)) tip e refl

  produce_after-Ends :
      (now : ℕ) (o : Option (Option Block))
      → last_read w.json n.chain ≡ o
      → Ends (produce_after w now busy o)
  unfolding produce_after
  produce_after-Ends now none e = skip
  produce_after-Ends now (some none) e = skip
  produce_after-Ends now (some (some last)) e =
      turn-Ends now last (is_in_turn w (validator_set w n.state) (add64 last.height 1)) e refl

  -- A tick of the producer at an idle node ends. It changes nothing; or it makes the next block, which
  -- passes `ValidateBlock`, follows the last block, holds the first pooled transactions, is of the
  -- producer in turn and signed, and makes it the tip, applies it, takes its transactions from the pool
  -- and broadcasts it; or the state is that after such a block but `AppendBlock` failed, and the pool
  -- still holds its transactions.
  pub produce-Produced : (now : ℕ) → Produced w n (produce w now n)
  unfolding produce
  produce-Produced now =
      let body = λ (m : Node). with_chain m (last_block w.json m.chain) (produce_after w now) in
      subst (Produced w n)
        (sym (
          ap (λ held. if held then hung n else unlocking (body busy)) idle.unlocked
          ∙ ap (λ o. unlocking (with_chain busy o (produce_after w now)))
              (last_block-IsFree w.json n.chain idle.free)))
        (produce_after-Ends now (last_read w.json n.chain) refl)
