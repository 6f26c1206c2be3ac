-- ===== src/Node/Syncing/Outcome.antt =====
-- What becomes of a list of blocks from a peer that extends the tip, or that replaces the chain.
use chainlang.Prelude.{
  ◌≡◌, refl, ap, ◌∙◌, true, false, not, Option, none, some, List, [], ◌∷◌, bytes_eq, ◌==◌, ltb,
  fold, if◌then◌else◌,
}
use chainlang.Core.Types.{Block}
use chainlang.Core.Files.{Disk}
use chainlang.Core.Chain.{has_block}
use chainlang.Core.Chain.Free.{
  IsFree, written_disk, has_block-IsFree, last_block-IsFree, write_block-IsFree,
}
use chainlang.State.Store.{State}
use chainlang.State.Ledger.{apply_block}
use chainlang.State.Replay.{reset_and_replay}
use chainlang.Consensus.{ValidatorSet}
use chainlang.Node.{
  World, Node, Run, finished, hung, broadcast_block, send, with_chain, with_last, unlocking,
  validator_set, accepts_producer, signs_twice, record_signed, extends_tip, breaks_off, last_or_nil,
  adopt,
}
use chainlang.Node.Adopting.{waiting, adopt_hangs, with_tip_hangs}
use chainlang.Node.Receiving.Outcome.{IsIdle, IsAcceptable, tip_block}
use chainlang.Node.Syncing.{
  starts_chain, tip_of, is_linked, link_next, sign_next, check_next, extend_blocks, write_each,
  replayed, replace_chain, reorganise, sync, on_blocks,
}

module _ (w : World) where
  -- The disk when the blocks' files were written one after the other.
  abbrev pub written_disks : Disk → List Block → Disk
  written_disks = fold (written_disk w.json w.os)

  abbrev busy : Node → Node
  busy n = record n { block_mu = true }

  -- On an idle node the handler comes to `sync`, with the last block.
  on_blocks-sync :
      (n : Node) (b : Block) (bs : List Block)
      → IsIdle n
      → on_blocks w n (b ∷ bs) ≡ unlocking (sync w (busy n) (tip_block w n) b bs)
  unfolding on_blocks
  on_blocks-sync n b bs idle =
      ap
        (λ held.
          if held then hung n else unlocking (with_last w (busy n) (λ k last. sync w k last b bs)))
        idle.unlocked
      ∙ ap (λ o. unlocking (with_chain (busy n) o λ k last. sync w k (last_or_nil last) b bs))
          (last_block-IsFree w.json n.chain idle.free)

  extends_tip-breaks_off :
      (o : Option Block) (b : Block) → extends_tip o b ≡ true → breaks_off o b ≡ false
  extends_tip-breaks_off none b e = cc e
  extends_tip-breaks_off (some last) b e = ap not e

  module _ (m : Node) (b : Block) (bs : List Block) (free : IsFree m.chain) where
    abbrev noted : Node
    noted = record m { signed = record_signed m.signed b }

    sync-extends :
        (o : Option Block)
        → extends_tip o b ≡ true
        → sync w m o b bs ≡ extend_blocks w (validator_set w m.state) (b ∷ bs) m
    unfolding sync
    sync-extends none e = cc e
    sync-extends (some last) e = rw e refl

    check_next-adopt :
        (set : Option ValidatorSet) (rest : Node → Run)
        → accepts_producer set b ≡ true
        → signs_twice m.signed b ≡ false
        → extends_tip (tip_block w m) b ≡ true
        → check_next w set m b rest false
          ≡ adopt w noted b finished (λ done. rest (send done (broadcast_block b)))
    unfolding check_next sign_next link_next
    check_next-adopt set rest in_turn once follows =
        let next = λ (k : Node) (cur : Option Block). link_next w (breaks_off cur b) k b rest in
        ap (λ t. if not t then rest m else sign_next w (signs_twice m.signed b) m b rest) in_turn
        ∙ ap (λ t. sign_next w t m b rest) once
        ∙ ap (λ o. with_chain noted o λ k last. next k (last_or_nil last))
            (last_block-IsFree w.json m.chain free)
        ∙ ap (λ t. link_next w t noted b rest) (extends_tip-breaks_off (tip_block w m) b follows)

    extend_blocks-adopt :
        IsAcceptable w m b
        → extend_blocks w (validator_set w m.state) (b ∷ bs) m
          ≡ adopt w noted b finished
              (λ done. extend_blocks w (validator_set w m.state) bs (send done (broadcast_block b)))
    unfolding extend_blocks
    extend_blocks-adopt ok =
        let set = validator_set w m.state in
        let rest = extend_blocks w set bs in
        ap
          (λ t.
            if not t
            then rest m
            else with_chain m (has_block w.json m.chain b.hash)
                (λ k known. check_next w set k b rest known))
          ok.valid
        ∙ ap (λ o. with_chain m o (λ k known. check_next w set k b rest known))
            (has_block-IsFree w.json m.chain free b.hash)
        ∙ ap (λ known. check_next w set m b rest known) ok.unknown
        ∙ check_next-adopt set rest ok.in_turn ok.once ok.follows

    -- Each block is written, in order; the disk changes and nothing else.
    write_each-ends :
        (cs : List Block) (k : Node) (next : Node → Run)
        → IsFree k.chain
        → write_each w cs k next
          ≡ next (record k { chain = record k.chain { disk = written_disks k.chain.disk cs } })
    unfolding write_each
    write_each-ends [] k next e = refl
    write_each-ends (c ∷ cs) k next e =
        let d = written_disk w.json w.os k.chain.disk c in
        ap (λ o. with_chain k o λ j wrote. write_each w cs j next)
          (write_block-IsFree w.json w.os k.chain e c)
        ∙ write_each-ends cs (record k { chain = record k.chain { disk = d } }) next e

    replace_chain_hangs :
        {s : State}
        → reset_and_replay w.p w.store m.state w.allocation w.validators (b ∷ bs) ≡ (s, true)
        → replace_chain w m b bs
          ≡ hung (waiting m (written_disks m.chain.disk (b ∷ bs)) s (tip_of b bs))
    unfolding replace_chain
    replace_chain_hangs {s} replays =
        let next = λ (k : Node).
          replayed w k b bs
            (reset_and_replay w.p w.store k.state w.allocation w.validators (b ∷ bs)) in
        let d = written_disks m.chain.disk (b ∷ bs) in
        let k : Node = record m { chain = record m.chain { disk = d } } in
        write_each-ends (b ∷ bs) m next free
        ∙ ap (replayed w k b bs) replays
        ∙ with_tip_hangs w (record k { state = s }) (tip_of b bs) _ free

    sync-replaces :
        (last : Block)
        → (b.previous_hash == last.hash) ≡ false
        → is_linked w b bs ≡ true
        → ltb last.height (tip_of b bs).height ≡ true
        → starts_chain b ≡ true
        → sync w m (some last) b bs ≡ replace_chain w m b bs
    unfolding sync reorganise
    sync-replaces last other linked longer starts = rw (other, linked, longer, starts) refl

  -- A list of blocks from a peer whose first block an idle node can accept and apply: the node asks
  -- os.WriteFile to put the block's JSON in the file that its hash names, and writes no other file; it
  -- applies this block, notes who signed it, has it as its tip, and waits for ever in `SetTip`, with
  -- `blockMu` and the lock of the chain held; it does not come to the other blocks of the list.
  pub on_blocks_extends :
      (n : Node) (b : Block) (bs : List Block) {s : State}
      → IsIdle n
      → IsAcceptable w n b
      → apply_block w.store n.state b ≡ (s, true)
      → on_blocks w n (b ∷ bs)
        ≡ hung (
            waiting
              (record n { block_mu = true; signed = record_signed n.signed b })
              (written_disk w.json w.os n.chain.disk b)
              s
              b)
  on_blocks_extends n b bs {s} idle ok applies =
      let m = busy n in
      let ok' : IsAcceptable w m b = record {
        valid = ok.valid;
        unknown = ok.unknown;
        in_turn = ok.in_turn;
        once = ok.once;
        follows = ok.follows;
      } in
      let rest = λ (done : Node).
        extend_blocks w (validator_set w m.state) bs (send done (broadcast_block b)) in
      on_blocks-sync n b bs idle
      ∙ ap unlocking (
          sync-extends m b bs idle.free (tip_block w n) ok.follows
          ∙ extend_blocks-adopt m b bs idle.free ok'
          ∙ adopt_hangs w (noted m b bs idle.free) b finished rest idle.free applies)

  -- A list of blocks from a peer that does not extend an idle node's tip, whose blocks after the first are
  -- valid and linked, whose first block has height 0 and no parent, and which is higher than the tip:
  -- if the replay of the list from genesis succeeds, the files of all blocks of the list were written
  -- in order, the replay's result is the node's state and the last block its tip, and the node waits for ever in `SetTip`. The first block need not be valid, and no block
  -- need be signed or of the producer in turn.
  pub on_blocks_replaces :
      (n : Node) (last b : Block) (bs : List Block) {s : State}
      → IsIdle n
      → tip_block w n ≡ some last
      → (b.previous_hash == last.hash) ≡ false
      → is_linked w b bs ≡ true
      → ltb last.height (tip_of b bs).height ≡ true
      → starts_chain b ≡ true
      → reset_and_replay w.p w.store n.state w.allocation w.validators (b ∷ bs) ≡ (s, true)
      → on_blocks w n (b ∷ bs)
        ≡ hung (
            waiting
              (record n { block_mu = true })
              (written_disks n.chain.disk (b ∷ bs))
              s
              (tip_of b bs))
  on_blocks_replaces n last b bs {s} idle tip other linked longer starts replays =
      on_blocks-sync n b bs idle
      ∙ ap (λ o. unlocking (sync w (busy n) o b bs)) tip
      ∙ ap unlocking (
          sync-replaces (busy n) b bs idle.free last other linked longer starts
          ∙ replace_chain_hangs (busy n) b bs idle.free replays)
