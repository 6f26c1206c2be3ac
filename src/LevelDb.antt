-- ===== src/LevelDb.antt =====
-- github.com/syndtr/goleveldb, as the program uses it. An open database is what `Get` returns for
-- each key and the keys that an iterator yields; `Write` is a parameter, with what the package
-- documents about it.
use chainlang.Prelude.{
  ◌≡◌, refl, false, Option, some, List, [], ◌∷◌, ◌++◌, Bytes, bytes_eq, ◌==◌, if◌then◌else◌, arith,
  contains, subst,
}
use mathlib.Core.Option.{some-injective}

-- What `db.Get` returns: a value, `ErrNotFound`, or another error.
pub data Fetch : Type 0 where
  found : Bytes → Fetch
  not_found failed : Fetch

pub record Db : Type 0 where
  pub get : Bytes → Fetch
  pub keys : List Bytes

-- One record of a `leveldb.Batch`.
pub data BatchOp : Type 0 where
  put : Bytes → Bytes → BatchOp
  delete : Bytes → BatchOp

-- `db.Write(batch, nil)`; `none` is an error.
pub record LevelDb : Type 0 where
  pub write : Db → List BatchOp → Option Db

abbrev pub after_op : Fetch → BatchOp → Bytes → Fetch
after_op was (put j v) k = if j == k then found v else was
after_op was (delete j) k = if j == k then not_found else was

-- What `Get` returns for a key after the records of a batch, in their order.
unfoldable pub after_batch : Fetch → List BatchOp → Bytes → Fetch
after_batch was [] k = was
after_batch was (op ∷ ops) k = after_batch (after_op was op k) ops k

-- A batch that was written is applied whole and in order, and an iterator yields every stored key.
pub record WritesBatches (store : LevelDb) : Type 0 where
  pub get-write :
      (d d' : Db) (ops : List BatchOp) (k : Bytes)
      → store.write d ops ≡ some d'
      → d'.get k ≡ after_batch (d.get k) ops k
  pub keys-write :
      (d d' : Db) (ops : List BatchOp)
      → ((k : Bytes) → contains d.keys k ≡ false → d.get k ≡ not_found)
      → store.write d ops ≡ some d'
      → (k : Bytes) → contains d'.keys k ≡ false
      → d'.get k ≡ not_found

-- The iterator of the database yields every key that holds a value.
abbrev pub IteratesAll : Db → Type 0
IteratesAll d = (k : Bytes) → contains d.keys k ≡ false → d.get k ≡ not_found

pub after_batch-append :
    (was : Fetch) (xs ys : List BatchOp) (k : Bytes)
    → after_batch was (xs ++ ys) k ≡ after_batch (after_batch was xs k) ys k
unfolding after_batch
after_batch-append was [] ys k = refl
after_batch-append was (op ∷ xs) ys k = after_batch-append (after_op was op k) xs ys k

-- The keys of a database after a batch; a deleted key may stay listed.
written_keys : List Bytes → List BatchOp → List Bytes
written_keys ks [] = ks
written_keys ks (put j v ∷ ops) = written_keys (j ∷ ks) ops
written_keys ks (delete j ∷ ops) = written_keys ks ops

-- A database in memory whose writes never fail.
unfoldable pub memory_db : LevelDb
unfolding after_batch written_keys
memory_db = record {
  write = λ d ops.
      some (record { get = λ k. after_batch (d.get k) ops k; keys = written_keys d.keys ops });
}

abbrev pub empty_db : Db
empty_db = record { get = λ k. not_found; keys = [] }

written_keys-not_found :
    (ks : List Bytes) (ops : List BatchOp) (k : Bytes) (was : Fetch)
    → (contains ks k ≡ false → was ≡ not_found)
    → contains (written_keys ks ops) k ≡ false
    → after_batch was ops k ≡ not_found
unfolding after_batch written_keys contains
written_keys-not_found ks [] k was h e = h e
written_keys-not_found ks (put j v ∷ ops) k was h e =
    written_keys-not_found (j ∷ ks) ops k (after_op was (put j v) k) (λ e'. ground (arith, h)) e
written_keys-not_found ks (delete j ∷ ops) k was h e =
    written_keys-not_found ks ops k (after_op was (delete j) k) (λ e'. ground (arith, h e')) e

-- It meets the laws.
pub memory_db-WritesBatches : WritesBatches memory_db
unfolding memory_db
memory_db-WritesBatches = record {
  get-write = λ d d' ops k e.
      subst (λ (x : Db). x.get k ≡ after_batch (d.get k) ops k) (some-injective _ d' e) refl;
  keys-write = λ d d' ops all e.
      subst IteratesAll (some-injective _ d' e)
        (λ k. written_keys-not_found d.keys ops k (d.get k) (all k));
}
