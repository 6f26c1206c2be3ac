-- ===== src/State/Store/Commit.antt =====
-- A commit that reports no error has written its whole batch; one that fails changes nothing.
use chainlang.Prelude.{◌≡◌, refl, arith, ap, ◌∙◌, true, false, none, some, Option, List, Bytes}
use chainlang.LevelDb.{Db, BatchOp, LevelDb, WritesBatches, after_batch}
use chainlang.State.Store.{State, written, commit}

module _ (store : LevelDb) (s : State) (ops : List BatchOp) where
  pub commit_written :
      {s' : State}
      → commit store s ops ≡ (s', true)
      → (d : Db) × (store.write s.db ops ≡ some d) × (s' ≡ record s { db = d })
  unfolding commit written
  commit_written {s'} e = go (store.write s.db ops) refl e
    where
      go :
          (o : Option Db)
          → store.write s.db ops ≡ o
          → written s o ≡ (s', true)
          → (d : Db) × (store.write s.db ops ≡ some d) × (s' ≡ record s { db = d })
      go none w h = cc
      go (some d) w h = (d, w, cc)

  pub commit_failed : {s' : State} → commit store s ops ≡ (s', false) → s' ≡ s
  unfolding commit written
  commit_failed {s'} e = ground arith

  -- What is read after a successful commit.
  pub get-commit :
      {s' : State} (k : Bytes)
      → WritesBatches store
      → commit store s ops ≡ (s', true)
      → s'.db.get k ≡ after_batch (s.db.get k) ops k
  get-commit {s'} k laws e =
      let (d, w, same) = commit_written e in
      ap (λ (x : State). x.db.get k) same ∙ laws.get-write s.db d ops k w
