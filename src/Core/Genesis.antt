-- ===== src/Core/Genesis.antt =====
-- core/genesis.go: the genesis file.
use chainlang.Prelude.{Bool, false, Option, none, some, List, Bytes, if◌then◌else◌, not}
use chainlang.Config.{ChainConfig, ValidatorGenesis}
use chainlang.Crypto.Primitives.{Primitives}
use chainlang.Core.Types.{genesis_block}
use chainlang.Core.Files.{genesis_path, Disk, Os, GenesisFile, Json}

abbrev pub write_encoded : Os → Disk → Option Bytes → Disk × Bool
write_encoded os d none = (d, false)
write_encoded os d (some text) = os.write_file d genesis_path text

abbrev pub genesis_of : Primitives → ChainConfig → Bytes → List ValidatorGenesis → GenesisFile
genesis_of p cfg validator validators = record {
  block = some (genesis_block p validator);
  allocation = cfg.genesis;
  validators = validators;
}

unfoldable pub write_genesis_file :
    Primitives → Json → Os → Disk → ChainConfig → Bytes → List ValidatorGenesis → Disk × Bool
write_genesis_file p json os d cfg validator validators =
    if not (os.make_dirs d)
    then (d, false)
    else write_encoded os d (json.marshal_genesis (genesis_of p cfg validator validators))

abbrev pub parse_genesis : Json → Option Bytes → Option GenesisFile
parse_genesis json none = none
parse_genesis json (some text) = json.unmarshal_genesis text

unfoldable pub load_genesis_from_file : Json → Disk → Option GenesisFile
load_genesis_from_file json d = parse_genesis json (d genesis_path)
