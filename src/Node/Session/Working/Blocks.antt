-- ===== src/Node/Session/Working/Blocks.antt =====
-- The bodies of the handlers of a list of blocks.
use chainlang.Prelude.{
  Bytes, refl, ap, sym, subst, Bool, true, false, not, ◌||◌, Option, none, some, List, [], ◌∷◌,
  if◌then◌else◌, bytes_eq, ◌==◌, nat_beq, ltb,
}
use chainlang.Go.Word.{pos}
use chainlang.Core.Types.{Block, validate_block}
use chainlang.Core.Chain.{has_block}
use chainlang.Core.Chain.Free.{written_disk, write_block-IsFree}
use chainlang.State.Store.{State}
use chainlang.State.Genesis.{apply_genesis}
use chainlang.State.Replay.{reset_and_replay}
use chainlang.Consensus.{ValidatorSet}
use chainlang.Node.{
  World, send, broadcast_block, ask_blocks, Node, Run, finished, with_chain, with_last, adopt,
  record_signed, signs_twice, accepts_producer, validator_set, slash, breaks_off,
}
use chainlang.Node.Adopting.{with_tip_hangs}
use chainlang.Node.Syncing.{
  sync, extend_blocks, check_next, sign_next, link_next, begin_blocks, begin_next, begin_state,
  reorganise, replace_chain, replayed, write_each, is_linked, starts_chain, tip_of,
}
use chainlang.Node.Session.Working.{
  IsWorking, Ends, Keeps, with_last-Ends, with_known-Ends, adopt-Ends, IsWorking-disk,
  IsWorking-state,
}

module _ (w : World) (first : Bytes) where
  pub link_next-Ends :
      (t : Bool) (n : Node) (b : Block) (rest : Node → Run)
      → IsWorking w first n
      → Ends w first (link_next w t n b rest)
  unfolding link_next
  link_next-Ends true n b rest h = h
  link_next-Ends false n b rest h =
      adopt-Ends w first n b (λ done. rest (send done (broadcast_block b))) h

  pub sign_next-Ends :
      (t : Bool) (n : Node) (b : Block) (rest : Node → Run)
      → Keeps w first rest
      → IsWorking w first n
      → Ends w first (sign_next w t n b rest)
  unfolding sign_next
  sign_next-Ends true n b rest k h =
      k (slash w n b)
        (record { pool = h.pool; peers = h.peers; free = h.free; held = h.held; own = h.own })
  sign_next-Ends false n b rest k h =
      let m : Node = record n { signed = record_signed n.signed b } in
      let hm : IsWorking w first m = record {
        pool = h.pool;
        peers = h.peers;
        free = h.free;
        held = h.held;
        own = h.own;
      } in
      with_last-Ends w first m (λ j cur. link_next w (breaks_off cur b) j b rest) hm
        (λ cur. link_next-Ends (breaks_off cur b) m b rest hm)

  pub check_next-Ends :
      (set : Option ValidatorSet) (n : Node) (b : Block) (rest : Node → Run) (skips : Bool)
      → Keeps w first rest
      → IsWorking w first n
      → Ends w first (if skips then rest n else sign_next w (signs_twice n.signed b) n b rest)
  check_next-Ends set n b rest true k h = k n h
  check_next-Ends set n b rest false k h = sign_next-Ends (signs_twice n.signed b) n b rest k h

  extend_if :
      (set : Option ValidatorSet) (b : Block) (rest : Node → Run)
      → Keeps w first rest
      → (n : Node) → IsWorking w first n
      → (skips : Bool)
      → Ends w first (
          if skips
          then rest n
          else with_chain n
              (has_block w.json n.chain b.hash)
              (λ m known. check_next w set m b rest known))
  unfolding check_next
  extend_if set b rest k n h true = k n h
  extend_if set b rest k n h false =
      with_known-Ends w first n b (λ m known. check_next w set m b rest known) h
        (λ known. check_next-Ends set n b rest (known || not (accepts_producer set b)) k h)

  pub extend_blocks-Ends :
      (set : Option ValidatorSet) (bs : List Block) → Keeps w first (extend_blocks w set bs)
  unfolding extend_blocks check_next
  extend_blocks-Ends set [] n h = h
  extend_blocks-Ends set (b ∷ bs) n h =
      extend_if set b (extend_blocks w set bs) (extend_blocks-Ends set bs) n h
        (not (validate_block w.p b))

  pub begin_blocks-Ends : (bs : List Block) → Keeps w first (begin_blocks w bs)
  unfolding begin_blocks begin_next
  begin_blocks-Ends [] n h = h
  begin_blocks-Ends (b ∷ bs) n h = go (not (validate_block w.p b))
    where
      rest : Node → Run
      rest = begin_blocks w bs

      begun : (cur : Option Block) → IsWorking w first (begin_state w cur n b)
      begun (some cur) = h
      begun none = go (nat_beq b.height 0)
        where
          go :
              (t : Bool)
              → IsWorking w first (
                  if t
                  then record n {
                    state = (apply_genesis w.p w.store n.state w.allocation w.validators).0;
                  }
                  else n)
          go true = IsWorking-state w first n _ h
          go false = h

      next :
          (cur : Option Block) (t : Bool)
          → Ends w first (if t then finished n else adopt w (begin_state w cur n b) b finished rest)
      next cur true = h
      next cur false = adopt-Ends w first (begin_state w cur n b) b rest (begun cur)

      go :
          (stops : Bool)
          → Ends w first
              (if stops then finished n else with_last w n (λ m cur. begin_next w cur m b rest))
      go true = h
      go false =
          with_last-Ends w first n (λ m cur. begin_next w cur m b rest) h
            (λ cur. next cur (breaks_off cur b))

  write_each-Ends :
      (bs : List Block) (next : Node → Run)
      → Keeps w first next
      → Keeps w first (λ n. write_each w bs n next)
  unfolding write_each
  write_each-Ends [] next k n h = k n h
  write_each-Ends (b ∷ bs) next k n h =
      let d = written_disk w.json w.os n.chain.disk b in
      let writes = write_block-IsFree w.json w.os n.chain h.free b in
      subst (Ends w first) (sym (ap (λ o. with_chain n o λ m wrote. write_each w bs m next) writes))
        (write_each-Ends bs next k (record n { chain = record n.chain { disk = d } })
          (IsWorking-disk w first n d h))

  replayed-Ends :
      (b : Block) (bs : List Block) (r : State × Bool) → Keeps w first (λ n. replayed w n b bs r)
  replayed-Ends b bs (s, false) n h = IsWorking-state w first n s h
  replayed-Ends b bs (s, true) n h =
      subst (Ends w first) (sym (with_tip_hangs w (record n { state = s }) (tip_of b bs) _ h.free))
        (h.pool, h.peers, h.held, refl)

  replace_chain-Ends : (b : Block) (bs : List Block) → Keeps w first (λ n. replace_chain w n b bs)
  unfolding replace_chain
  replace_chain-Ends b bs n h =
      write_each-Ends (b ∷ bs) _
        (λ m.
          replayed-Ends b bs
            (reset_and_replay w.p w.store m.state w.allocation w.validators (b ∷ bs)) m)
        n h

  Ends-if :
      (t : Bool) (r s : Run) → Ends w first r → Ends w first s → Ends w first (if t then r else s)
  Ends-if true r s h k = h
  Ends-if false r s h k = k

  reorganise-Ends :
      (last b : Block) (bs : List Block) → Keeps w first (λ n. reorganise w n last b bs)
  unfolding reorganise
  reorganise-Ends last b bs n h =
      let asked : IsWorking w first (send n (ask_blocks 0 (pos 10_000))) = record {
        pool = h.pool;
        peers = h.peers;
        free = h.free;
        held = h.held;
        own = h.own;
      } in
      Ends-if (not (is_linked w b bs) || not (ltb last.height (tip_of b bs).height)) (finished n) _
        h
        (Ends-if (starts_chain b) (replace_chain w n b bs)
          (finished (send n (ask_blocks 0 (pos 10_000)))) (replace_chain-Ends b bs n h) asked)

  pub sync-Ends :
      (last : Option Block) (b : Block) (bs : List Block) → Keeps w first (λ n. sync w n last b bs)
  unfolding sync
  sync-Ends none b bs n h = Ends-if (starts_chain b) _ _ (begin_blocks-Ends (b ∷ bs) n h) h
  sync-Ends (some last) b bs n h =
      Ends-if (b.previous_hash == last.hash) _ _
        (extend_blocks-Ends (validator_set w n.state) (b ∷ bs) n h) (reorganise-Ends last b bs n h)
