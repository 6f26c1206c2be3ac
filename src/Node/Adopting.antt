-- ===== src/Node/Adopting.antt =====
-- `WriteBlock`, `ApplyBlock` and `SetTip` one after the other, on a chain whose lock is free.
use chainlang.Prelude.{◌≡◌, ap, ◌∙◌, true, false}
use chainlang.Core.Types.{Block}
use chainlang.Core.Files.{Disk}
use chainlang.Core.Chain.{held_by_writer}
use chainlang.Core.Chain.Storing.{set_tip_blocked}
use chainlang.Core.Chain.Free.{IsFree, written_disk, write_block-IsFree, set_tip-IsFree}
use chainlang.State.Store.{State}
use chainlang.State.Ledger.{apply_block}
use chainlang.Node.{
  World, Node, Run, hung, with_chain, with_tip, tip_run, tip_left_of, settle, adopt,
}

-- The node that waits in `SetTip`, after the block was written and applied.
abbrev pub waiting : Node → Disk → State → Block → Node
waiting n d s b = record n {
  chain = record n.chain { mu = held_by_writer; disk = d; height = b.height; last_hash = b.hash };
  state = s;
}

module _ (w : World) where
  pub with_tip_hangs :
      (n : Node) (b : Block) (next : Node → Run)
      → IsFree n.chain
      → with_tip w n b next ≡ hung (waiting n n.chain.disk n.state b)
  with_tip_hangs n b next free =
      ap (λ o. tip_run n b o next) (set_tip_blocked w.json w.os n.chain b)
      ∙ ap (λ o. hung (record n { chain = tip_left_of o n.chain b }))
          (set_tip-IsFree w.json w.os n.chain free b)

  module _ (n : Node) (b : Block) (failed next : Node → Run) (free : IsFree n.chain) where
    abbrev written : Node
    written = record n { chain = record n.chain { disk = written_disk w.json w.os n.chain.disk b } }

    -- Where the block can be applied, the node waits for ever.
    pub adopt_hangs :
        {s : State}
        → apply_block w.store n.state b ≡ (s, true)
        → adopt w n b failed next ≡ hung (waiting n (written_disk w.json w.os n.chain.disk b) s b)
    unfolding adopt
    adopt_hangs {s} applies =
        ap (λ o. with_chain n o λ k wrote. settle w k b failed next (apply_block w.store k.state b))
          (write_block-IsFree w.json w.os n.chain free b)
        ∙ ap (settle w written b failed next) applies
        ∙ with_tip_hangs (record written { state = s }) b _ free

    -- Where it cannot, only the disk has changed.
    pub adopt_fails :
        {s : State}
        → apply_block w.store n.state b ≡ (s, false)
        → adopt w n b failed next ≡ failed (record written { state = s })
    unfolding adopt
    adopt_fails {s} applies =
        ap (λ o. with_chain n o λ k wrote. settle w k b failed next (apply_block w.store k.state b))
          (write_block-IsFree w.json w.os n.chain free b)
        ∙ ap (settle w written b failed next) applies
