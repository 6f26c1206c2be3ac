-- ===== src/Node/Receiving/Outcome.antt =====
-- What becomes of a block that a peer announces: it is ignored, its producer is slashed, or the node
-- applies it and waits for ever in `SetTip`.
use chainlang.Prelude.{
  ◌≡◌, refl, ap, sym, subst, Bool, true, false, not, ◌&&◌, Option, is_some, arith, if◌then◌else◌,
}
use chainlang.Core.Types.{Block, validate_block}
use chainlang.Core.Files.{Disk}
use chainlang.Core.Chain.{read_block}
use chainlang.Core.Chain.Free.{written_disk, IsFree, has_block-IsFree, last_block-IsFree, last_read}
use chainlang.State.Store.{State}
use chainlang.State.Ledger.{apply_block}
use chainlang.State.Ledger.Refinement.{apply_block_failed}
use chainlang.Node.{
  World, Node, Run, finished, send, broadcast_block, hung, with_chain, unlocking, last_or_nil,
  validator_set, accepts_producer, signs_twice, record_signed, slash, extends_tip,
}
use chainlang.Node.Adopting.{waiting, adopt_hangs, adopt_fails}
use chainlang.Node.Receiving.{
  adopt_if, unless_twice, accept_block, accept_if, check_known, check_if, check_block, on_new_block,
}

-- No handler is in the critical section, and nobody holds the lock of the chain.
pub record IsIdle (n : Node) : Type 0 where
  pub unlocked : n.block_mu ≡ false
  pub free : IsFree n.chain

-- The block that the tip names, if it can be read.
abbrev pub tip_block : World → Node → Option Block
tip_block w n = last_or_nil (last_read w.json n.chain)

-- The block passes `ValidateBlock`, is not stored, is of the producer in turn (if there are validators),
-- is the first that this producer signed for its height, and follows the tip.
pub record IsAcceptable (w : World) (n : Node) (b : Block) : Type 0 where
  pub valid : validate_block w.p b ≡ true
  pub unknown : is_some (read_block w.json n.chain.disk b.hash) ≡ false
  pub in_turn : accepts_producer (validator_set w n.state) b ≡ true
  pub once : signs_twice n.signed b ≡ false
  pub follows : extends_tip (tip_block w n) b ≡ true

-- The two nodes have the same tip, pool and peers.
pub record SameTip (n m : Node) : Type 0 where
  pub height : m.chain.height ≡ n.chain.height
  pub last_hash : m.chain.last_hash ≡ n.chain.last_hash
  pub pool : m.pool ≡ n.pool
  pub sent : m.sent ≡ n.sent

pub data Received (w : World) (n : Node) (b : Block) : Run → Type 0 where
  -- The ledger is as it was; if the block was acceptable, `ApplyBlock` failed.
  ignored :
      {m : Node}
      → IsIdle m
      → SameTip n m
      → m.state ≡ n.state
      → (IsAcceptable w n b → (apply_block w.store n.state b).1 ≡ false)
      → Received w n b (finished m)
  -- The producer had signed another block for the height.
  slashed :
      {m : Node}
      → IsIdle m
      → SameTip n m
      → signs_twice n.signed b ≡ true
      → m.state ≡ (slash w n b).state
      → Received w n b (finished m)
  -- The block was applied.
  adopted :
      (d : Disk)
      → {s : State} → IsAcceptable w n b
      → apply_block w.store n.state b ≡ (s, true)
      → Received w n b
          (hung (waiting (record n { block_mu = true; signed = record_signed n.signed b }) d s b))

module _ (w : World) (n : Node) (b : Block) (idle : IsIdle n) where
  abbrev busy : Node
  busy = record n { block_mu = true }

  abbrev noted : Node
  noted = record busy { signed = record_signed n.signed b }

  abbrev Ends : Run → Type 0
  Ends r = Received w n b (unlocking r)

  ignore :
      (m : Node)
      → IsFree m.chain
      → SameTip n m
      → m.state ≡ n.state
      → (IsAcceptable w n b → (apply_block w.store n.state b).1 ≡ false)
      → Ends (finished m)
  ignore m free same state why =
      ignored (record { unlocked = refl; free = free })
        (record {
          height = same.height;
          last_hash = same.last_hash;
          pool = same.pool;
          sent = same.sent;
        })
        state why

  busy-SameTip : SameTip n busy
  busy-SameTip = record { height = refl; last_hash = refl; pool = refl; sent = refl }

  noted-SameTip : SameTip n noted
  noted-SameTip = record { height = refl; last_hash = refl; pool = refl; sent = refl }

  applied-Ends :
      (r : State × Bool)
      → apply_block w.store n.state b ≡ r
      → IsAcceptable w n b
      → Ends (adopt_if w true noted b)
  unfolding adopt_if
  applied-Ends (s, true) applies ok =
      let d = written_disk w.json w.os n.chain.disk b in
      let hangs =
        adopt_hangs w noted b finished (λ done. finished (send done (broadcast_block b))) idle.free
          applies in
      subst Ends (sym hangs) (adopted d ok applies)
  applied-Ends (s, false) applies ok =
      let d = written_disk w.json w.os n.chain.disk b in
      let fails =
        adopt_fails w noted b finished (λ done. finished (send done (broadcast_block b))) idle.free
          applies in
      subst Ends (sym fails) (
        ignore (record noted { chain = record n.chain { disk = d }; state = s }) idle.free
          (record { height = refl; last_hash = refl; pool = refl; sent = refl })
          (apply_block_failed w.store n.state b applies)
          (λ _. ap (λ (q : State × Bool). q.1) applies))

  adopt_if-Ends :
      (e : Bool)
      → extends_tip (tip_block w n) b ≡ e
      → (e ≡ true → IsAcceptable w n b)
      → Ends (adopt_if w e noted b)
  unfolding adopt_if
  adopt_if-Ends true follows ok = applied-Ends (apply_block w.store n.state b) refl (ok refl)
  adopt_if-Ends false stops ok =
      ignore noted idle.free noted-SameTip refl (λ a. cc (a.follows, stops))

  unless_twice-Ends :
      (t : Bool)
      → signs_twice n.signed b ≡ t
      → (t ≡ false → extends_tip (tip_block w n) b ≡ true → IsAcceptable w n b)
      → Ends (unless_twice w t busy b)
  unfolding unless_twice
  unless_twice-Ends true twice ok =
      slashed (record { unlocked = refl; free = idle.free })
        (record { height = refl; last_hash = refl; pool = refl; sent = refl }) twice refl
  unless_twice-Ends false once ok =
      subst Ends
        (sym (
          ap (λ o. with_chain noted o λ m last. adopt_if w (extends_tip (last_or_nil last) b) m b)
            (last_block-IsFree w.json n.chain idle.free)))
        (adopt_if-Ends (extends_tip (tip_block w n) b) refl (λ follows. ok refl follows))

  accept_if-Ends :
      (a : Bool)
      → (not (is_some (read_block w.json n.chain.disk b.hash))
          && accepts_producer (validator_set w n.state) b)
        ≡ a
      → validate_block w.p b ≡ true
      → Ends (accept_if w a busy b)
  unfolding accept_if accept_block
  accept_if-Ends true good valid = unless_twice-Ends (signs_twice n.signed b) refl λ once follows.
      record {
        valid = valid;
        unknown = ground arith;
        in_turn = ground arith;
        once = once;
        follows = follows;
      }
  accept_if-Ends false bad valid =
      ignore busy idle.free busy-SameTip refl
        (λ a. let unknown = a.unknown in let in_turn = a.in_turn in ground arith)

  check_if-Ends : (v : Bool) → validate_block w.p b ≡ v → Ends (check_if w v busy b)
  unfolding check_if check_known
  check_if-Ends false invalid = ignore busy idle.free busy-SameTip refl (λ a. cc (a.valid, invalid))
  check_if-Ends true valid =
      subst Ends
        (sym (
          ap (λ o. with_chain busy o λ m known. check_known w m b known)
            (has_block-IsFree w.json n.chain idle.free b.hash)))
        (accept_if-Ends _ refl valid)

  -- Every block that a peer announces to an idle node ends in one of three ways. It is ignored, and
  -- then it was not acceptable or `ApplyBlock` fails on it: tip, pool and state stay. Its producer is
  -- slashed, since it signed another block for the height: tip and pool stay. Or it was acceptable and
  -- was applied, and the handler never ends.
  pub on_new_block-Received : Received w n b (on_new_block w n b)
  unfolding on_new_block check_block
  on_new_block-Received =
      subst (Received w n b)
        (sym (ap (λ held. if held then hung n else unlocking (check_block w busy b)) idle.unlocked))
        (check_if-Ends (validate_block w.p b) refl)
