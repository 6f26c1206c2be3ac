-- ===== src/Core/Chain/Loading.antt =====
-- core/chain.go: `NewChain`, `GetGenesis` and `GetBlockByHeight`, which take no lock.
use chainlang.Prelude.{
  ℕ, Bool, not, ◌||◌, Option, none, some, List, [], ◌∷◌, Bytes, bytes_eq, ◌==◌, nat_beq,
  if◌then◌else◌, value_or,
}
use chainlang.Go.Paths.{ext}
use chainlang.Config.{ChainConfig, default_chain_config}
use chainlang.Crypto.Hash.{zero_hash}
use chainlang.Core.Types.{Block}
use chainlang.Core.Files.{meta_path, block_path, Disk, Os, Json, GenesisFile}
use chainlang.Core.Genesis.{load_genesis_from_file}
use chainlang.Core.Chain.{Chain, held_by_readers, parse_block}

abbrev fresh_chain : Disk → ChainConfig → ℕ → Bytes → Chain
fresh_chain d cfg height last = record {
  mu = held_by_readers 0;
  disk = d;
  cfg = cfg;
  height = height;
  last_hash = last;
}

abbrev pub with_meta : Disk → ChainConfig → Option (ℕ × Bytes) → Option Chain
with_meta d cfg none = none
with_meta d cfg (some (height, last)) = some (fresh_chain d cfg height last)

abbrev pub from_meta : Json → Os → Disk → ChainConfig → Option Bytes → Option Chain
from_meta json os d cfg none =
    if os.is_missing d meta_path then some (fresh_chain d cfg 0 zero_hash) else none
from_meta json os d cfg (some text) = with_meta d cfg (json.unmarshal_meta text)

-- A nil configuration is `none`, and so is an error.
unfoldable pub new_chain : Json → Os → Disk → Option ChainConfig → Option Chain
new_chain json os d cfg =
    if not (os.make_dirs d)
    then none
    else from_meta json os d (value_or default_chain_config cfg) (d meta_path)

abbrev block_of_file : Option GenesisFile → Option (Option Block)
block_of_file none = none
block_of_file (some g) = some g.block

-- `none` is an error, and `some none` a nil block.
unfoldable pub get_genesis : Json → Disk → Option (Option Block)
get_genesis json d = block_of_file (load_genesis_from_file json d)

abbrev pub json_ext : Bytes
json_ext = b'.' ∷ b'j' ∷ b's' ∷ b'o' ∷ b'n' ∷ []

abbrev pub is_block_entry : Bytes × Bool → Bool
is_block_entry (name, is_dir) = not (is_dir || not (ext name == json_ext))

-- What is found in one file of the directory: `none` is passed over.
abbrev pub entry_block : Json → Disk → Bytes × Bool → Option Block
entry_block json d entry =
    if is_block_entry entry then parse_block json (d (block_path entry.0)) else none

abbrev pub take_if_height : ℕ → Option Block → Option Block → Option Block
take_if_height height none rest = rest
take_if_height height (some b) rest = if nat_beq b.height height then some b else rest

unfoldable pub scan : Json → Disk → ℕ → List (Bytes × Bool) → Option Block
unfolding ext
scan json d height [] = none
scan json d height (entry ∷ entries) =
    take_if_height height (entry_block json d entry) (scan json d height entries)

abbrev scanned : Option Block → Option (Option Block)
scanned none = none
scanned (some b) = some (some b)

abbrev scan_all : Json → Disk → ℕ → Option (List (Bytes × Bool)) → Option (Option Block)
scan_all json d height none = none
scan_all json d height (some entries) = scanned (scan json d height entries)

unfoldable pub get_block_by_height : Json → Os → Disk → ℕ → Option (Option Block)
unfolding get_genesis scan
get_block_by_height json os d height =
    if nat_beq height 0 then get_genesis json d else scan_all json d height (os.read_dir d)
