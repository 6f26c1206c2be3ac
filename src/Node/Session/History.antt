-- ===== src/Node/Session/History.antt =====
-- The blocks that a node produces: whatever events follow, its chain is what it had and these blocks
-- on top, and its state is that after them.
pub mod Quiet
pub mod Growth
use chainlang.Prelude.{
  ℕ, ◌+◌, ◌^◌, ◌<◌, ◌≡◌, ◌⊎◌, inl, inr, refl, sym, subst, Bool, true, false, List, [], ◌∷◌, Bytes,
  All, arith, length, fold, Bool-cases, bytes_eq,
}
use mathlib.Core.List.{reverse}
use chainlang.Core.Types.{Block}
use chainlang.Core.Chain.Reliable.{IsReliable, append_block_succeeds}
use chainlang.Core.Chain.Growing.{Weakness, IsStamped}
use chainlang.State.Replay.{replay}
use chainlang.State.Store.{State}
use chainlang.LevelDb.{WritesBatches}
use chainlang.State.Ledger.Soundness.{HoldsWords}
use chainlang.State.Ledger.Loading.{stored_balance}
use chainlang.State.Replay.Determined.{balances_after, replay-balance}
use chainlang.Node.{World, Node, Run}
use chainlang.Node.Api.Explorer.{HasBranch}
use chainlang.Node.Receiving.Outcome.{IsIdle}
use chainlang.Node.Producing.{produce}
use chainlang.Node.Producing.Outcome.{Produced, skipped, unrecorded, made, produce-Produced}
use chainlang.Node.Session.{
  Event, accepted, received, closed, ticked, woken, occur, left_by, after_events,
}
use chainlang.Node.Session.Stopped.{SameLedger}
use chainlang.Node.Session.History.Quiet.{brings_blocks, is_tick, occur-quiet}
use chainlang.Node.Session.History.Growth.{Grown, Keeps, Advances, SameLedger-Advances, Grown-made}

module _ (w : World) (keeps : Keeps w.p w.json w.os) (reliable : IsReliable w.json w.os) where
  module _ (s : State) (old : List Block) where
    Produced-Advances :
        {n : Node} (g : Grown w s old n) (r : Run)
        → g.tip.height + 1 < 2 ^ 64
        → Produced w n r
        → Advances w s old g (left_by r)
    Produced-Advances {n} g r below (skipped {m = k} same) =
        SameLedger-Advances w s old g
          (subst (SameLedger n) (sym same) (record { block_mu = refl; chain = refl; state = refl }))
    Produced-Advances {n} g r below
          (unrecorded {m = k} last b next applies state pool quiet fails tip idle) =
        let good =
          append_block_succeeds w.json w.os keeps.files reliable b n.chain (k.chain, false) fails in
        cc good
    Produced-Advances {n} g r below
          (made {m = k} last b next applies state pool said appends tip idle) =
        Grown-made w s old keeps n k g b last (omega arith) next applies state appends idle

    ticked-Advances :
        {n : Node} (g : Grown w s old n) (now : ℕ)
        → g.tip.height + 1 < 2 ^ 64
        → Advances w s old g (left_by (occur w (ticked now) n))
    unfolding occur
    ticked-Advances {n} g now below =
        Produced-Advances g (produce w now n) below (produce-Produced w n g.idle now)

    occur-Advances :
        {n : Node} (g : Grown w s old n) (e : Event)
        → brings_blocks e ≡ false
        → g.tip.height + 1 < 2 ^ 64
        → Advances w s old g (left_by (occur w e n))
    occur-Advances {n} g (ticked now) quiet below = ticked-Advances g now below
    occur-Advances {n} g (accepted c remote) quiet below =
        SameLedger-Advances w s old g (occur-quiet w n g.idle (accepted c remote) quiet refl)
    occur-Advances {n} g (received fuel dial message) quiet below =
        SameLedger-Advances w s old g
          (occur-quiet w n g.idle (received fuel dial message) quiet refl)
    occur-Advances {n} g (closed remote) quiet below =
        SameLedger-Advances w s old g (occur-quiet w n g.idle (closed remote) quiet refl)
    occur-Advances {n} g woken quiet below =
        SameLedger-Advances w s old g (occur-quiet w n g.idle woken quiet refl)

    events-Grown :
        (es : List Event) (n : Node) (g : Grown w s old n)
        → All (λ e. brings_blocks e ≡ false) es
        → g.tip.height + length es < 2 ^ 64
        → Grown w s old (after_events w n es) ⊎ Weakness w.p
    events-Grown [] n g quiet below = inl g
    events-Grown (e ∷ es) n g quiet below = elim (occur-Advances g e quiet.0 (omega arith)) [
      | inr weak ↦ inr weak
      | inl (k, next) ↦ events-Grown es (left_by (occur w e n)) k quiet.1 (omega arith)
    ]

  module _ (n : Node) (b : Block) (bs : List Block) (es : List Event) where
    -- After any events that bring no block of a peer, the chain of a node that was idle over linked valid
    -- blocks is the blocks that it has produced and signed since on top of those, linked, valid and
    -- readable; the node is idle; and replaying the produced blocks in order on the state that it had
    -- gives its state. Or there is a collision of SHA-256, or an input whose digest is zero. The disk
    -- and the JSON package do not fail; the disk keeps what is written, JSON reads back every block and
    -- tells payloads apart; digests are of bytes; and the height of the tip and the number of events
    -- together stay below 2^64.
    pub after_events-Grown :
        IsIdle n
        → HasBranch w n b bs
        → All (IsStamped w.p) (b ∷ bs)
        → All (λ e. brings_blocks e ≡ false) es
        → b.height + length es < 2 ^ 64
        → Grown w n.state (b ∷ bs) (after_events w n es) ⊎ Weakness w.p
    unfolding replay
    after_events-Grown idle branch stamped quiet below =
        events-Grown n.state (b ∷ bs) es n
          (record {
            fresh = [];
            tip = b;
            rest = bs;
            split = refl;
            idle = idle;
            branch = branch;
            stamped = stamped;
            signed = tt;
            replays = refl;
          })
          quiet below
