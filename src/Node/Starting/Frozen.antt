-- ===== src/Node/Starting/Frozen.antt =====
-- A started node of which one handler waits for ever.
use chainlang.Prelude.{◌≡◌, sym, subst, ◌++◌, fold-append, Bool, true, Option, List, Bytes}
use chainlang.P2p.Peers.{Conn}
use chainlang.Node.{World, Node}
use chainlang.Node.Session.{Event, occur, left_by, after_events}
use chainlang.Node.Session.Stopped.{SameLedger, IsStopped, events-SameLedger}
use chainlang.Node.Starting.{Machine, DataDir, done, start}
use chainlang.Node.Starting.Soundness.{start-IsSound}

module _ (m : Machine) where
  -- Once `blockMu` is held after an event at a node that was started, it is held for good: whatever
  -- events follow, the chain, with its lock, and the state stay as they are.
  pub start-SameLedger :
      (listens : Bool) (dial : Bytes → Option Conn) (seeds : List Bytes) (listen : Bytes)
      (data_dir : DataDir) (w : World) (n : Node) (es later : List Event)
      → start m listens dial seeds listen data_dir ≡ done (w, n)
      → (after_events w n es).block_mu ≡ true
      → SameLedger (after_events w n es) (after_events w n (es ++ later))
  start-SameLedger listens dial seeds listen data_dir w n es later e held =
      let sound = start-IsSound m listens dial seeds listen data_dir w n es e in
      let stopped : IsStopped (after_events w n es) = record {
        held = held;
        chain_held = sound.stopped held;
      } in
      subst (SameLedger (after_events w n es))
        (sym (fold-append (λ n e. left_by (occur w e n)) n es later))
        (events-SameLedger w later (after_events w n es) stopped)
