-- ===== src/Core/Files.antt =====
-- The files of a node's data directory, with the calls of os and encoding/json that read and write
-- them. Both packages are parameters.
use chainlang.Prelude.{ℕ, Bool, Option, List, Bytes}
use chainlang.Config.{GenesisAllocation, ValidatorGenesis}
use chainlang.Core.Types.{Block}

-- chain.json, genesis.json, and a file of the directory of blocks under its name.
pub data FilePath : Type 0 where
  meta_path : FilePath
  genesis_path : FilePath
  block_path : Bytes → FilePath

-- What os.ReadFile returns for each file; `none` is an error.
abbrev pub Disk : Type 0
Disk = FilePath → Option Bytes

-- os.WriteFile and os.Rename, with whether the error is nil; os.Remove; whether os.MkdirAll succeeds;
-- whether the error of a read says that there is no such file; and the names that os.ReadDir returns
-- for the directory of blocks, each with whether it is a directory, or `none` for an error.
pub record Os : Type 0 where
  pub write_file : Disk → FilePath → Bytes → Disk × Bool
  pub rename : Disk → FilePath → FilePath → Disk × Bool
  pub remove_file : Disk → FilePath → Disk
  pub make_dirs : Disk → Bool
  pub is_missing : Disk → FilePath → Bool
  pub read_dir : Disk → Option (List (Bytes × Bool))

-- What genesis.json holds. The block is a pointer.
pub record GenesisFile : Type 0 where
  pub block : Option Block
  pub allocation : GenesisAllocation
  pub validators : List ValidatorGenesis

-- encoding/json at blocks, at the metadata of the chain and at the genesis file; `none` is an error.
pub record Json : Type 0 where
  pub marshal_file : Block → Option Bytes
  pub marshal_indent : Block → Option Bytes
  pub unmarshal_file : Bytes → Option Block
  pub marshal_meta : ℕ → Bytes → Option Bytes
  pub unmarshal_meta : Bytes → Option (ℕ × Bytes)
  pub marshal_genesis : GenesisFile → Option Bytes
  pub unmarshal_genesis : Bytes → Option GenesisFile
