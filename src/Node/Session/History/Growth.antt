-- ===== src/Node/Session/History/Growth.antt =====
-- A chain that grows by the blocks that the node produces.
use mathlib.Core.Option.{some-injective}
use mathlib.Core.List.{reverse, reverse-cons}
use chainlang.Prelude.{
  suc, ◌^◌, ◌≤◌, ◌<◌, ◌≡◌, ◌≢◌, ◌⊎◌, inl, inr, refl, ap, sym, ◌∙◌, subst, true, false, Option, some,
  List, [], ◌∷◌, ◌++◌, Bytes, All, arith,
}
use chainlang.Go.Word.{add64}
use chainlang.Crypto.Signature.{sign}
use chainlang.Crypto.Hash.{is_zero}
use chainlang.Crypto.Primitives.{Primitives}
use chainlang.Core.Types.{Block}
use chainlang.Core.Files.{Json, Os}
use chainlang.Core.Types.Binding.{EncodesFaithfully}
use chainlang.Core.Chain.{Chain, returned, append_block, read_block}
use chainlang.Core.Chain.Storing.{KeepsFiles, RestoresBlock}
use chainlang.Core.Chain.Appending.{IsBytes, Appended, append_block-Appended}
use chainlang.Core.Chain.Walking.{IsBranch}
use chainlang.Core.Chain.Growing.{
  Weakness, HasByteDigests, IsStamped, IsStamped-valid, nonzero_hash, all_differ, branch_heights,
  IsBranch-disk,
}
use chainlang.State.Store.{State}
use chainlang.State.Ledger.{apply_block}
use chainlang.State.Replay.{replay}
use chainlang.State.Replay.Determined.{replay-append_one}
use chainlang.Node.{World, Node}
use chainlang.Node.Api.Explorer.{HasBranch, last_read-HasBranch}
use chainlang.Node.Receiving.Outcome.{IsIdle}
use chainlang.Node.Producing.Outcome.{IsNext}
use chainlang.Node.Session.Stopped.{SameLedger}
use chainlang.Node.Session.History.Quiet.{SameLedger-IsIdle}

-- The node is idle, its chain is `fresh` on top of `old`, the latest block first, it has signed the
-- fresh blocks, and replaying them in order on `s` gives its state.
pub record Grown (w : World) (s : State) (old : List Block) (n : Node) : Type 0 where
  pub fresh : List Block
  pub tip : Block
  pub rest : List Block
  pub split : ◌≡◌ {A = List Block} (tip ∷ rest) (fresh ++ old)
  pub idle : IsIdle n
  pub branch : HasBranch w n tip rest
  pub stamped : All (IsStamped w.p) (tip ∷ rest)
  pub signed : All (λ (b : Block). sign w.p w.key b.hash ≡ some b.signature) fresh
  pub replays : replay w.store s (reverse fresh) ≡ (n.state, true)

-- The packages keep files, restore blocks and tell payloads apart.
pub record Keeps (p : Primitives) (json : Json) (os : Os) : Type 0 where
  pub files : KeepsFiles os
  pub restores : (b : Block) → RestoresBlock json b
  pub faithful : EncodesFaithfully p
  pub digests : HasByteDigests p

module _ (w : World) where
  HasBranch-chain :
      {n m : Node} (b : Block) (bs : List Block)
      → m.chain ≡ n.chain
      → HasBranch w n b bs
      → HasBranch w m b bs
  HasBranch-chain b bs e h = record {
    free = ap (λ (c : Chain). c.mu) e ∙ h.free;
    last_hash = ap (λ (c : Chain). c.last_hash) e ∙ h.last_hash;
    height = ap (λ (c : Chain). c.height) e ∙ h.height;
    nonzero = h.nonzero;
    branch = subst (λ (c : Chain). IsBranch w.json c.disk (b ∷ bs)) (sym e) h.branch;
  }

  module _ (s : State) (old : List Block) where
    Grown-SameLedger : {n m : Node} → SameLedger n m → Grown w s old n → Grown w s old m
    Grown-SameLedger same g = record {
      fresh = g.fresh;
      tip = g.tip;
      rest = g.rest;
      split = g.split;
      idle = SameLedger-IsIdle same g.idle;
      branch = HasBranch-chain g.tip g.rest same.chain g.branch;
      stamped = g.stamped;
      signed = g.signed;
      replays = g.replays ∙ ap (λ (t : State). (t, true)) (sym same.state);
    }

    -- What was readable still is, after another block is appended.
    unaffected :
        (d : Bytes → Option Block) (e : Bytes → Option Block) (b : Block) (cs : List Block)
        → ((h : Bytes) → IsBytes h → h ≢ b.hash → e h ≡ d h)
        → All (IsStamped w.p) cs
        → All (λ (c : Block). c.hash ≢ b.hash) cs
        → All (λ (c : Block). e c.hash ≡ d c.hash) cs
    unaffected d e b [] same stamped apart = tt
    unaffected d e b (c ∷ cs) same stamped apart =
        (same c.hash stamped.0.bytes apart.0, unaffected d e b cs same stamped.1 apart.1)

    -- The chain has grown by one block at most.
    abbrev pub Advances : {n : Node} → Grown w s old n → Node → Type 0
    Advances g m = ((k : Grown w s old m) × (k.tip.height ≤ suc g.tip.height)) ⊎ Weakness w.p

    pub SameLedger-Advances : {n m : Node} (g : Grown w s old n) → SameLedger n m → Advances g m
    unfolding Grown-SameLedger
    SameLedger-Advances g same = inl (Grown-SameLedger same g, omega arith)

    module _ (keeps : Keeps w.p w.json w.os) (n m : Node) (g : Grown w s old n) (b : Block) where
      appended_to :
          append_block w.json w.os n.chain b ≡ returned (m.chain, true)
          → IsBytes b.hash
          → Appended w.json n.chain b (m.chain, true)
      appended_to appends bytes =
          let (r, returns, appended) =
            append_block-Appended w.json w.os keeps.files b (keeps.restores b) n.chain g.branch.free
              bytes in
          subst (Appended w.json n.chain b) (cc (returns, appends)) appended

      grown_branch :
          Appended w.json n.chain b (m.chain, true)
          → b.height ≡ suc g.tip.height
          → b.previous_hash ≡ g.tip.hash
          → is_zero b.hash ≡ false
          → All (λ (c : Block). c.hash ≢ b.hash) (g.tip ∷ g.rest)
          → HasBranch w m b (g.tip ∷ g.rest)
      grown_branch appended height follows nonzero apart =
          let (reads, tip, tall) = appended.on_success refl in
          record {
            free = appended.free;
            last_hash = tip;
            height = tall;
            nonzero = nonzero;
            branch = (
              reads,
              height,
              follows,
              ap is_zero follows ∙ g.branch.nonzero,
              IsBranch-disk w.json n.chain.disk m.chain.disk (g.tip ∷ g.rest)
                  (unaffected (read_block w.json n.chain.disk) (read_block w.json m.chain.disk) b
                    (g.tip ∷ g.rest) appended.others g.stamped apart)
                  g.branch.branch,
            );
          }

      grown_by :
          {t : State}
          → IsNext w n g.tip b
          → IsStamped w.p b
          → apply_block w.store n.state b ≡ (t, true)
          → m.state ≡ t
          → IsIdle m
          → HasBranch w m b (g.tip ∷ g.rest)
          → Grown w s old m
      grown_by next stamp applies state idle branch = record {
        fresh = b ∷ g.fresh;
        tip = b;
        rest = g.tip ∷ g.rest;
        split = ap (λ bs. b ∷ bs) g.split;
        idle = idle;
        branch = branch;
        stamped = (stamp, g.stamped);
        signed = (next.signed, g.signed);
        replays =
            ap (replay w.store s) (reverse-cons b g.fresh)
            ∙ replay-append_one w.store (reverse g.fresh) s b g.replays applies
            ∙ ap (λ (x : State). (x, true)) (sym state);
      }

      next_height : IsNext w n g.tip b → suc g.tip.height < 2 ^ 64 → b.height ≡ suc g.tip.height
      unfolding add64
      next_height next below = let e = next.height in omega arith

      -- A produced block on top.
      pub Grown-made :
          {t : State} (last : Block)
          → suc g.tip.height < 2 ^ 64
          → IsNext w n last b
          → apply_block w.store n.state b ≡ (t, true)
          → m.state ≡ t
          → append_block w.json w.os n.chain b ≡ returned (m.chain, true)
          → IsIdle m
          → Advances g m
      unfolding grown_by
      Grown-made last below next' applies state appends idle =
          let found = last_read-HasBranch w n g.tip g.rest g.branch in
          let is_tip : last ≡ g.tip =
            some-injective _ _ (some-injective _ _ (sym next'.is_last ∙ found)) in
          let next = subst (λ x. IsNext w n x b) is_tip next' in
          let stamp = IsStamped-valid w.p keeps.digests b next.valid in
          let height = next_height next below in
          let lower =
            branch_heights w.json n.chain.disk g.tip g.rest b.height g.branch.branch
              (omega arith) in
          elim (nonzero_hash w.p b next.valid) [
            | inr weak ↦ inr weak
            | inl nonzero ↦
                elim (all_differ w.p keeps.faithful b next.valid (g.tip ∷ g.rest) g.stamped lower) [
                  | inr weak ↦ inr weak
                  | inl apart ↦ inl (
                    grown_by next stamp applies state idle (
                        grown_branch (appended_to appends stamp.bytes) height next.follows nonzero
                          apart),
                    omega arith,
                  )
                ]
          ]
