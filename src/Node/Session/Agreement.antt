-- ===== src/Node/Session/Agreement.antt =====
-- Two nodes: the block that one produces, the other applies.
use chainlang.Prelude.{
  ℕ, suc, ◌≡◌, ◌≢◌, ap, sym, ◌∙◌, subst, true, false, Option, none, some, List, [], ◌∷◌, Bytes,
  bytes_eq, ◌==◌, ==_refl, length, arith, is_some,
}
use mathlib.Core.Option.{some-injective}
use chainlang.Crypto.Primitives.{PrivateKey}
use chainlang.Core.Types.{Block}
use chainlang.Core.Chain.{read_block}
use chainlang.Core.Chain.Free.{last_read}
use chainlang.State.Store.{State}
use chainlang.State.Ledger.{apply_block}
use chainlang.Node.{
  World, Node, Run, finished, Sent, broadcast_block, validator_set, accepts_producer, signs_twice,
  extends_tip, last_or_nil,
}
use chainlang.Node.Receiving.{on_new_block}
use chainlang.Node.Receiving.Outcome.{IsIdle, IsAcceptable, on_new_block-Received}
use chainlang.Node.Producing.{produce}
use chainlang.Node.Producing.Outcome.{IsNext, Produced, skipped, unrecorded, made, produce-Produced}
use chainlang.Node.Session.{left_by}
use chainlang.Node.Session.Stopped.{Received-adopted}

longer : {A : Type 0} (x : A) (xs ys : List A) → ys ≡ x ∷ xs → ys ≢ xs
longer x xs ys e f =
    let a : length ys ≡ suc (length xs) = ap length e in
    let b : length ys ≡ length xs = ap length f in omega arith

abbrev block_in : Sent → Option Block
block_in (broadcast_block b) = some b
block_in _ = none

abbrev first_block : List Sent → Option Block
first_block [] = none
first_block (s ∷ ss) = block_in s

module _ (w : World) (key : PrivateKey) (listen : Bytes) (n m : Node) (b : Block) where
  -- The node of the other key has the producer's state and last block, does not store the block and
  -- knows of no other that its producer signed for the height.
  pub record IsLevel : Type 0 where
    pub idle : IsIdle m
    pub state : m.state ≡ n.state
    pub tip : last_read w.json m.chain ≡ last_read w.json n.chain
    pub unknown : is_some (read_block w.json m.chain.disk b.hash) ≡ false
    pub once : signs_twice m.signed b ≡ false

  abbrev other : World
  other = record w { key = key; listen = listen }

  IsNext-IsAcceptable : (last : Block) → IsLevel → IsNext w n last b → IsAcceptable other m b
  unfolding validator_set
  IsNext-IsAcceptable last level next = record {
    valid = next.valid;
    unknown = level.unknown;
    in_turn =
        subst (λ s. accepts_producer (validator_set w s) b ≡ true) (sym level.state) next.in_turn;
    once = level.once;
    follows =
        ap (λ o. extends_tip (last_or_nil o) b) (level.tip ∙ next.is_last)
        ∙ ap (λ h. h == last.hash) next.follows
        ∙ ==_refl last.hash;
  }

  -- What the other node has then.
  abbrev pub Agrees : Node → Type 0
  Agrees done =
      ((left_by (on_new_block other m b)).state ≡ done.state)
      × ((left_by (on_new_block other m b)).chain.last_hash ≡ done.chain.last_hash)

  made-Agrees :
      (last : Block) {s : State} (done : Node)
      → IsLevel
      → IsNext w n last b
      → apply_block w.store n.state b ≡ (s, true)
      → done.state ≡ s
      → done.chain.last_hash ≡ b.hash
      → Agrees done
  made-Agrees last {s} done level next applies state tip =
      let (d, e) =
        Received-adopted other m b (IsNext-IsAcceptable last level next)
          (ap (λ t. apply_block w.store t b) level.state ∙ applies)
          (on_new_block-Received other m b level.idle) in
      (ap (λ r. (left_by r).state) e ∙ sym state, ap (λ r. (left_by r).chain.last_hash) e ∙ sym tip)

  Produced-Agrees :
      (r : Run) (done : Node)
      → r ≡ finished done
      → done.sent ≡ broadcast_block b ∷ n.sent
      → IsLevel
      → Produced w n r
      → Agrees done
  Produced-Agrees r done e sent level (skipped {m = k} same) =
      let ended : k ≡ done = ap left_by e in
      let silent : done.sent ≡ n.sent = ap (λ (x : Node). x.sent) (sym ended ∙ same) in
      absurd (longer (broadcast_block b) n.sent done.sent sent silent)
  Produced-Agrees r done e sent level
        (unrecorded {m = k} last c next applies state pool quiet fails tip idle) =
      let ended : k ≡ done = ap left_by e in
      let silent : done.sent ≡ n.sent = ap (λ (x : Node). x.sent) (sym ended) ∙ quiet in
      absurd (longer (broadcast_block b) n.sent done.sent sent silent)
  Produced-Agrees r done e sent level
        (made {m = k} {s = s} last c next applies state pool said appends tip idle) =
      let ended : k ≡ done = ap left_by e in
      let same : c ≡ b =
        some-injective _ _ (ap first_block (sym said ∙ ap (λ (x : Node). x.sent) ended ∙ sent)) in
      made-Agrees last done level (subst (IsNext w n last) same next)
        (ap (apply_block w.store n.state) (sym same) ∙ applies)
        (ap (λ (x : Node). x.state) (sym ended) ∙ state)
        (ap (λ (x : Node). x.chain.last_hash) (sym ended) ∙ tip ∙ ap (λ (x : Block). x.hash) same)

  -- The block that an idle node produces and broadcasts, another node that has the same state and the
  -- same last block applies, if it does not store the block yet and knows of no other that the producer
  -- signed for its height: both nodes then have the same state and the same tip.
  pub on_new_block-produce :
      (now : ℕ) (done : Node)
      → IsIdle n
      → produce w now n ≡ finished done
      → done.sent ≡ broadcast_block b ∷ n.sent
      → IsLevel
      → Agrees done
  on_new_block-produce now done idle e sent level =
      Produced-Agrees (produce w now n) done e sent level (produce-Produced w n idle now)
