-- ===== src/Node/Syncing.antt =====
-- cmd/node/main.go, `onConn`: a list of blocks from a peer.
pub mod Outcome
use chainlang.Prelude.{
  Bool, true, false, not, ◌||◌, ◌&&◌, Option, none, some, List, [], ◌∷◌, bytes_eq, ◌==◌, nat_beq,
  ltb, if◌then◌else◌, fold,
}
use chainlang.Go.Word.{pos, add64}
use chainlang.Crypto.Hash.{is_zero}
use chainlang.Core.Types.{Block, validate_block}
use chainlang.Core.Chain.{has_block, write_block}
use chainlang.State.Genesis.{apply_genesis}
use chainlang.State.Replay.{reset_and_replay}
use chainlang.State.Store.{State}
use chainlang.Consensus.{ValidatorSet}
use chainlang.Node.{
  World, Node, Run, finished, broadcast_block, ask_blocks, send, locking, with_chain, with_last,
  with_tip, validator_set, accepts_producer, signs_twice, record_signed, slash, breaks_off,
  take_out, adopt,
}

-- `Height == 0 && PreviousHash.IsZero()`
unfoldable pub starts_chain : Block → Bool
unfolding is_zero
starts_chain b = nat_beq b.height 0 && is_zero b.previous_hash

abbrev pub tip_of : Block → List Block → Block
tip_of b [] = b
tip_of b (c ∷ cs) = tip_of c cs

module _ (w : World) where
  -- `b.ValidateBlock()` and the link to the block before, for every block but the first.
  unfoldable pub is_linked : Block → List Block → Bool
  is_linked prev [] = true
  is_linked prev (b ∷ bs) =
      let rest = is_linked b bs in
      if not (b.previous_hash == prev.hash) || not (validate_block w.p b) then false else rest

  unfoldable pub link_next : Bool → Node → Block → (Node → Run) → Run
  unfolding adopt
  link_next true n b rest = finished n
  link_next false n b rest = adopt w n b finished (λ done. rest (send done (broadcast_block b)))

  unfoldable pub sign_next : Bool → Node → Block → (Node → Run) → Run
  unfolding link_next
  sign_next true n b rest = rest (slash w n b)
  sign_next false n b rest =
      with_last w (record n { signed = record_signed n.signed b })
        (λ m cur. link_next (breaks_off cur b) m b rest)

  unfoldable pub check_next : Option ValidatorSet → Node → Block → (Node → Run) → Bool → Run
  unfolding sign_next signs_twice
  check_next set n b rest known =
      if known || not (accepts_producer set b)
      then rest n
      else sign_next (signs_twice n.signed b) n b rest

  -- The first block extends the tip: the blocks go through one after the other.
  unfoldable pub extend_blocks : Option ValidatorSet → List Block → Node → Run
  unfolding check_next
  extend_blocks set [] n = finished n
  extend_blocks set (b ∷ bs) n =
      let rest = extend_blocks set bs in
      if not (validate_block w.p b)
      then rest n
      else with_chain n (has_block w.json n.chain b.hash) (λ m known. check_next set m b rest known)

  abbrev pub begin_state : Option Block → Node → Block → Node
  begin_state (some cur) n b = n
  begin_state none n b =
      if nat_beq b.height 0
      then record n { state = (apply_genesis w.p w.store n.state w.allocation w.validators).0 }
      else n

  unfoldable pub begin_next : Option Block → Node → Block → (Node → Run) → Run
  unfolding adopt
  begin_next cur n b rest =
      if breaks_off cur b then finished n else adopt w (begin_state cur n b) b finished rest

  -- The node has no block yet.
  unfoldable pub begin_blocks : List Block → Node → Run
  unfolding begin_next
  begin_blocks [] n = finished n
  begin_blocks (b ∷ bs) n =
      let rest = begin_blocks bs in
      if not (validate_block w.p b)
      then finished n
      else with_last w n (λ m cur. begin_next cur m b rest)

  unfoldable pub write_each : List Block → Node → (Node → Run) → Run
  write_each [] n next = next n
  write_each (b ∷ bs) n next =
      with_chain n (write_block w.json w.os n.chain b) (λ m good. write_each bs m next)

  abbrev pub take_out_all : Node → List Block → Node
  take_out_all n blocks = fold (λ m (b : Block). take_out w m b.transactions) n blocks

  abbrev pub replayed : Node → Block → List Block → State × Bool → Run
  replayed n b bs (s, false) = finished (record n { state = s })
  replayed n b bs (s, true) =
      with_tip w (record n { state = s }) (tip_of b bs)
        (λ tipped. finished (take_out_all tipped (b ∷ bs)))

  -- A longer chain from genesis takes the place of the node's.
  unfoldable pub replace_chain : Node → Block → List Block → Run
  unfolding write_each reset_and_replay
  replace_chain n b bs = write_each (b ∷ bs) n (λ m.
      replayed m b bs (reset_and_replay w.p w.store m.state w.allocation w.validators (b ∷ bs)))

  unfoldable pub reorganise : Node → Block → Block → List Block → Run
  unfolding replace_chain starts_chain is_linked
  reorganise n last b bs =
      if not (is_linked b bs) || not (ltb last.height (tip_of b bs).height)
      then finished n
      else if starts_chain b
      then replace_chain n b bs
      else finished (send n (ask_blocks 0 (pos 10_000)))

  unfoldable pub sync : Node → Option Block → Block → List Block → Run
  unfolding extend_blocks begin_blocks reorganise starts_chain
  sync n none b bs = if starts_chain b then begin_blocks (b ∷ bs) n else finished n
  sync n (some last) b bs =
      if b.previous_hash == last.hash
      then extend_blocks (validator_set w n.state) (b ∷ bs) n
      else reorganise n last b bs

  -- `KindBlocks`
  unfoldable pub on_blocks : Node → List Block → Run
  unfolding sync
  on_blocks n [] = finished n
  on_blocks n (b ∷ bs) = locking n (λ m. with_last w m (λ k last. sync k last b bs))

  abbrev pub asked : Node → Option Block → Run
  asked n none = finished n
  asked n (some last) = finished (send n (ask_blocks (add64 last.height 1) (pos 100)))

  -- The request for blocks, two seconds after the start.
  unfoldable pub request_blocks : Node → Run
  request_blocks n = with_last w n asked
