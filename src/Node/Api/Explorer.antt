-- ===== src/Node/Api/Explorer.antt =====
-- What GET /blocks shows of a chain.
use chainlang.Prelude.{◌≡◌, ap, ap₂, ◌∙◌, false, none, some, List, ◌∷◌, if◌then◌else◌}
use chainlang.Crypto.Hash.{is_zero}
use chainlang.Core.Types.{Block}
use chainlang.Core.Chain.{read_block}
use chainlang.Core.Chain.Free.{IsFree, last_read, wrap_found}
use chainlang.Core.Chain.Walking.{IsBranch, branch-IsReadable}
use chainlang.Node.{World, Node}

module _ (w : World) (n : Node) (b : Block) (bs : List Block) where
  -- A chain whose lock is free, and from whose tip linked blocks lead down to genesis.
  pub record HasBranch : Type 0 where
    pub free : IsFree n.chain
    pub last_hash : n.chain.last_hash ≡ b.hash
    pub height : n.chain.height ≡ b.height
    pub nonzero : is_zero b.hash ≡ false
    pub branch : IsBranch w.json n.chain.disk (b ∷ bs)

  pub last_read-HasBranch : HasBranch → last_read w.json n.chain ≡ some (some b)
  last_read-HasBranch h =
      let readable = (branch-IsReadable w.json n.chain.disk (b ∷ bs) h.branch).0 in
      ap (λ t. if is_zero t then some none else wrap_found (read_block w.json n.chain.disk t))
        h.last_hash
      ∙ ap₂ (λ t o. if t then some none else wrap_found o) h.nonzero readable
