-- ===== src/Tests/Disk.antt =====
-- A disk in memory, and a chain of three blocks on it.
use mathlib.Core.Option.{some-injective}
use mathlib.Core.List.{reverse}
use chainlang.Prelude.{
  ℕ, zero, suc, ◌≡◌, ◌↔◌, refl, ap, sym, Bool, true, false, Option, none, some, [], ◌∷◌, Bytes,
  bytes_beq, bytes_beq_iff, replicate, take, drop, if◌then◌else◌, arith,
}
use chainlang.Go.Word.{pos, positive_or}
use chainlang.Config.{default_chain_config}
use chainlang.Crypto.Hash.{zero_hash, hash_hex, is_zero}
use chainlang.Go.Hex.{encode_to_string}
use chainlang.Core.Types.{Block}
use chainlang.Core.Files.{FilePath, meta_path, genesis_path, block_path, Disk, Os, Json}
use chainlang.Core.Chain.{
  held_by_readers, Chain, returned, blocked, block_name, append_block, read_block, get_blocks_from,
  set_tip, Outcome, save,
}
use chainlang.Core.Chain.Loading.{new_chain}
use chainlang.Core.Chain.Restarting.{new_chain-append_block}
use chainlang.Core.Chain.Storing.{KeepsFiles, RestoresBlock, set_tip_blocked}
use chainlang.Core.Chain.Appending.{IsBytes, Appended, append_block-Appended}
use chainlang.Core.Chain.Walking.{IsBranch, get_blocks_from-branch}
use chainlang.Tests.Ledger.{carol}

unfoldable pub path_beq : FilePath → FilePath → Bool
path_beq meta_path meta_path = true
path_beq meta_path _ = false
path_beq genesis_path genesis_path = true
path_beq genesis_path _ = false
path_beq (block_path a) (block_path b) = bytes_beq a b
path_beq (block_path a) _ = false

pub path_beq_iff : (p q : FilePath) → (path_beq p q ≡ true) ↔ (p ≡ q)
unfolding path_beq
path_beq_iff meta_path meta_path = (λ e. refl, λ e. refl)
path_beq_iff meta_path genesis_path = (λ e. cc e, λ e. cc e)
path_beq_iff meta_path (block_path b) = (λ e. cc e, λ e. cc e)
path_beq_iff genesis_path meta_path = (λ e. cc e, λ e. cc e)
path_beq_iff genesis_path genesis_path = (λ e. refl, λ e. refl)
path_beq_iff genesis_path (block_path b) = (λ e. cc e, λ e. cc e)
path_beq_iff (block_path a) meta_path = (λ e. cc e, λ e. cc e)
path_beq_iff (block_path a) genesis_path = (λ e. cc e, λ e. cc e)
path_beq_iff (block_path a) (block_path b) =
    (λ e. ap block_path ((bytes_beq_iff a b).0 e), λ e. (bytes_beq_iff a b).1 (cc e))

abbrev pub memory_os : Os
memory_os = record {
  write_file = λ d p x. (λ q. if path_beq q p then some x else d q, true);
  rename = λ d p q. (λ r. if path_beq r q then d p else if path_beq r p then none else d r, true);
  remove_file = λ d p q. if path_beq q p then none else d q;
  make_dirs = λ d. true;
  is_missing = λ d p. true;
  read_dir = λ d. some [];
}

pub memory_os-KeepsFiles : KeepsFiles memory_os
memory_os-KeepsFiles = record {
  write-read = λ d p x e. ground (arith, path_beq_iff p p);
  write-other = λ d p x q other. ground (arith, path_beq_iff q p);
  rename-read = λ d p q e. ground (arith, path_beq_iff q q);
  rename-other = λ d p q r a b. ground (arith, path_beq_iff r p, path_beq_iff r q);
  remove-other = λ d p q other. ground (arith, path_beq_iff q p);
}

abbrev block_at : ℕ → Bytes → Bytes → Block
block_at height previous own = record {
  height = height;
  timestamp = 0;
  previous_hash = previous;
  merkle_root = zero_hash;
  validator_address = carol;
  transactions = [];
  signature = [];
  hash = own;
}

abbrev pub genesis : Block
genesis = block_at 0 zero_hash (replicate 32 1)

abbrev pub second : Block
second = block_at 1 (replicate 32 1) (replicate 32 2)

abbrev pub third : Block
third = block_at 2 (replicate 32 2) (replicate 32 3)

-- The file of a block holds its height.
abbrev parse_height : Bytes → Option Block
parse_height (zero ∷ []) = some genesis
parse_height (suc zero ∷ []) = some second
parse_height (suc (suc zero) ∷ []) = some third
parse_height _ = none

abbrev pub parse_meta : Bytes → Option (ℕ × Bytes)
parse_meta [] = none
parse_meta (height ∷ last) = some (height, last)

abbrev pub height_json : Json
height_json = record {
  marshal_file = λ b. some (b.height ∷ []);
  marshal_indent = λ b. some (b.height ∷ []);
  unmarshal_file = parse_height;
  marshal_meta = λ height last. some (height ∷ last);
  unmarshal_meta = parse_meta;
  marshal_genesis = λ g. some [];
  unmarshal_genesis = λ text. none;
}

second-RestoresBlock : RestoresBlock height_json second
second-RestoresBlock x e = ap parse_height (sym (some-injective _ _ e))

abbrev disk_one : Disk
disk_one = λ p. if path_beq p (block_path (block_name genesis.hash)) then some (0 ∷ []) else none

abbrev pub chain_one : Chain
chain_one = record {
  mu = held_by_readers 0;
  disk = disk_one;
  cfg = default_chain_config;
  height = 0;
  last_hash = genesis.hash;
}

second-IsBytes : IsBytes second.hash
second-IsBytes = ground arith

append_block-Appended_example :
    (r : Chain × Bool) × (append_block height_json memory_os chain_one second ≡ returned r)
    × Appended height_json chain_one second r
append_block-Appended_example =
    append_block-Appended height_json memory_os memory_os-KeepsFiles second second-RestoresBlock
      chain_one refl second-IsBytes

set_tip_blocked_example : set_tip height_json memory_os chain_one second ≡ blocked
set_tip_blocked_example = set_tip_blocked height_json memory_os chain_one second

abbrev pub chain_three : Chain
chain_three = record {
  mu = held_by_readers 0;
  disk = λ p.
      if path_beq p (block_path (block_name third.hash))
      then some (2 ∷ [])
      else if path_beq p (block_path (block_name second.hash))
      then some (1 ∷ [])
      else disk_one p;
  cfg = default_chain_config;
  height = 2;
  last_hash = third.hash;
}

pub third_nonzero : is_zero third.hash ≡ false
unfolding is_zero
third_nonzero = refl

pub three-IsBranch : IsBranch height_json chain_three.disk (third ∷ second ∷ genesis ∷ [])
unfolding read_block path_beq bytes_beq hash_hex encode_to_string is_zero
three-IsBranch = (refl, refl, refl, refl, (refl, refl, refl, refl, (refl, refl, refl)))

get_blocks_from-branch_example :
    get_blocks_from height_json 3 chain_three 1 (pos 1)
    ≡ returned (
      record chain_three { mu = held_by_readers 0 },
      some (take (positive_or 10_000 (pos 1)) (drop 1 (reverse (third ∷ second ∷ genesis ∷ [])))),
    )
get_blocks_from-branch_example =
    get_blocks_from-branch height_json 2 chain_three 1 (pos 1) third (second ∷ genesis ∷ []) refl
      refl refl third_nonzero three-IsBranch (omega arith)

abbrev chain_after : Outcome (Chain × Bool) → Chain
chain_after blocked = chain_one
chain_after (returned r) = r.0

abbrev chain_two : Chain
chain_two = chain_after (append_block height_json memory_os chain_one second)

appends_second : append_block height_json memory_os chain_one second ≡ returned (chain_two, true)
unfolding append_block save
appends_second = refl

new_chain-append_block_example :
    new_chain height_json memory_os chain_two.disk (some default_chain_config)
    ≡ some (record {
      mu = held_by_readers 0;
      disk = chain_two.disk;
      cfg = default_chain_config;
      height = second.height;
      last_hash = second.hash;
    })
new_chain-append_block_example =
    new_chain-append_block height_json memory_os memory_os-KeepsFiles second chain_one chain_two
      default_chain_config (λ height last text e. ap parse_meta (sym (some-injective _ _ e)))
      appends_second refl
