-- ===== src/Node/Session/Working/Production.antt =====
-- The body of the producer's tick.
use chainlang.Prelude.{
  ℕ, ◌≡◌, ◌⊎◌, inl, inr, refl, ap, sym, subst, Bool, true, false, not, Option, none, some, List, [],
  ◌∷◌, Bytes, if◌then◌else◌, bytes_eq,
}
use chainlang.Go.Word.{pos, add64}
use chainlang.Core.Types.{Transaction, Block}
use chainlang.Core.Chain.{Chain, last_block}
use chainlang.Core.Chain.Free.{last_read, last_block-IsFree, append_block-Advanced}
use chainlang.State.Ledger.{apply_block}
use chainlang.Crypto.Signature.{sign}
use chainlang.Mempool.{pending}
use chainlang.Mempool.Invariant.{remove-IsValidPool}
use chainlang.Node.{World, Node, finished, with_chain, validator_set}
use chainlang.Node.Producing.{
  draft, is_in_turn, produce_after, appended, append_applied, applied, install, signed_block, build,
}
use chainlang.Node.Session.Working.{Ends, Keeps, IsOwn}

module _ (w : World) (first : Bytes) where
  appended-Ends : (b : Block) (good : Bool) → Keeps w first (λ n. appended w b n good)
  appended-Ends b false n h = h
  appended-Ends b true n h = record {
    pool = remove-IsValidPool w.p n.pool b.transactions h.pool;
    peers = h.peers;
    free = h.free;
    held = h.held;
    own = h.own;
  }

  advanced-IsOwn :
      (n : Node) (c : Chain) (b : Block)
      → sign w.p w.key b.hash ≡ some b.signature
      → IsOwn w first n.chain.last_hash
      → (c.last_hash ≡ n.chain.last_hash) ⊎ (c.last_hash ≡ b.hash)
      → IsOwn w first c.last_hash
  advanced-IsOwn n c b signs own (inl e) = subst (IsOwn w first) (sym e) own
  advanced-IsOwn n c b signs own (inr e) = inr (b, e, signs)

  applied-Ends :
      (b : Block) (good : Bool)
      → sign w.p w.key b.hash ≡ some b.signature
      → Keeps w first (λ n. applied w b n good)
  unfolding applied append_applied
  applied-Ends b false signs n h = h
  applied-Ends b true signs n h =
      let (r, returns, advanced) = append_block-Advanced w.json w.os n.chain h.free b in
      subst (Ends w first) (sym (ap (λ o. with_chain n o (appended w b)) returns)) (
        appended-Ends b r.1 (record n { chain = r.0 })
          (record {
            pool = h.pool;
            peers = h.peers;
            free = advanced.free_after;
            held = h.held;
            own = advanced-IsOwn n r.0 b signs h.own advanced.tip;
          }))

  signed_block-Ends :
      (b : Block) (o : Option Bytes)
      → sign w.p w.key b.hash ≡ o
      → Keeps w first (λ n. signed_block w n b o)
  unfolding signed_block install
  signed_block-Ends b none e n h = h
  signed_block-Ends b (some sig) e n h =
      let r = apply_block w.store n.state (record b { signature = sig }) in
      applied-Ends (record b { signature = sig }) r.1 e (record n { state = r.0 })
        (record { pool = h.pool; peers = h.peers; free = h.free; held = h.held; own = h.own })

  build-Ends :
      (now : ℕ) (last : Block) (txs : List Transaction)
      → Keeps w first (λ n. build w now n last txs)
  unfolding build
  build-Ends now last [] n h = h
  build-Ends now last (t ∷ ts) n h =
      let b = draft w now last (t ∷ ts) in signed_block-Ends b (sign w.p w.key b.hash) refl n h

  turn-Ends :
      (now : ℕ) (last : Block) (txs : List Transaction) (passes : Bool)
      → Keeps w first (λ n. if passes then finished n else build w now n last txs)
  turn-Ends now last txs true n h = h
  turn-Ends now last txs false n h = build-Ends now last txs n h

  produce_after-Ends :
      (now : ℕ) (o : Option (Option Block)) → Keeps w first (λ n. produce_after w now n o)
  unfolding produce_after
  produce_after-Ends now none n h = h
  produce_after-Ends now (some none) n h = h
  produce_after-Ends now (some (some last)) n h =
      turn-Ends now last (pending n.pool (pos 100))
        (not (is_in_turn w (validator_set w n.state) (add64 last.height 1))) n h

  pub produced-Ends :
      (now : ℕ)
      → Keeps w first (λ n. with_chain n (last_block w.json n.chain) (produce_after w now))
  produced-Ends now n h =
      subst (Ends w first)
        (sym (
          ap (λ o. with_chain n o (produce_after w now)) (last_block-IsFree w.json n.chain h.free)))
        (produce_after-Ends now (last_read w.json n.chain) n h)
