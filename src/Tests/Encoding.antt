-- ===== src/Tests/Encoding.antt =====
-- An instance of the JSON package that reads back what it writes, and a digest of bytes.
use mathlib.Core.Option.{some-injective}
use chainlang.Prelude.{
  ℕ, ◌%◌, ◌≡◌, refl, ap, ap₂, sym, ◌∙◌, Option, none, some, List, [], ◌∷◌, Bytes, map, get_or,
  arith,
}
use chainlang.Crypto.Primitives.{Primitives}
use chainlang.Core.Types.{Block}
use chainlang.Core.Types.Binding.{EncodesFaithfully}
use chainlang.Core.Files.{Json, GenesisFile}
use chainlang.Config.{ValidatorGenesis}
use chainlang.Core.Chain.Appending.{IsBytes}
use chainlang.Core.Chain.Growing.{HasByteDigests}
use chainlang.Core.Chain.Reliable.{IsReliable}
use chainlang.Core.Chain.Storing.{RestoresBlock}
use chainlang.Tests.Instance.{digest, pack, instance_p, instance-EncodesFaithfully}
use chainlang.Tests.Disk.{height_json, memory_os, parse_meta}
use chainlang.Tests.Codec.{
  unpack, unpack_all, unpack_all-pack, write_block_text, read_block_text,
  read_block_text-write_block_text,
}

abbrev write_entry : Bytes × ℕ → Bytes
write_entry (text, amount) = amount ∷ text

abbrev read_entry : Bytes → Bytes × ℕ
read_entry [] = ([], 0)
read_entry (amount ∷ text) = (text, amount)

abbrev write_stake : ValidatorGenesis → Bytes
write_stake v = v.stake ∷ v.address

abbrev read_stake : Bytes → ValidatorGenesis
read_stake [] = record { address = []; stake = 0 }
read_stake (stake ∷ address) = record { address = address; stake = stake }

read_entries : (es : List (Bytes × ℕ)) → map read_entry (map write_entry es) ≡ es
read_entries [] = refl
read_entries ((text, amount) ∷ es) = ap (λ l. (text, amount) ∷ l) (read_entries es)

read_stakes : (vs : List ValidatorGenesis) → map read_stake (map write_stake vs) ≡ vs
read_stakes [] = refl
read_stakes (v ∷ vs) = ap (λ l. v ∷ l) (read_stakes vs)

abbrev write_optional : Option Block → Bytes
write_optional none = []
write_optional (some b) = write_block_text b

read-write_optional : (o : Option Block) → read_block_text (write_optional o) ≡ o
unfolding read_block_text
read-write_optional none = refl
read-write_optional (some b) = read_block_text-write_block_text b

unfoldable write_genesis_text : GenesisFile → Bytes
unfolding pack write_block_text
write_genesis_text g = pack (
    write_optional g.block
    ∷ pack (map write_entry g.allocation)
    ∷ pack (map write_stake g.validators)
    ∷ [])

abbrev genesis_file_of : List Bytes → GenesisFile
genesis_file_of strings = record {
  block = read_block_text (get_or strings 0 []);
  allocation = map read_entry (unpack_all (get_or strings 1 []));
  validators = map read_stake (unpack_all (get_or strings 2 []));
}

unfoldable read_genesis_text : Bytes → Option GenesisFile
unfolding unpack read_block_text
read_genesis_text text = some (genesis_file_of (unpack_all text))

read_genesis_text-write_genesis_text :
    (g : GenesisFile) → read_genesis_text (write_genesis_text g) ≡ some g
unfolding read_genesis_text write_genesis_text
read_genesis_text-write_genesis_text g =
    let allocation = pack (map write_entry g.allocation) in
    let validators = pack (map write_stake g.validators) in
    ap (λ strings. some (genesis_file_of strings))
      (unpack_all-pack (write_optional g.block ∷ allocation ∷ validators ∷ []))
    ∙ ap
        (λ (o : Option Block). some (record {
          block = o;
          allocation = map read_entry (unpack_all allocation);
          validators = map read_stake (unpack_all validators);
        }))
        (read-write_optional g.block)
    ∙ ap₂ (λ es vs. some (record { block = g.block; allocation = es; validators = vs }))
        (ap (map read_entry) (unpack_all-pack (map write_entry g.allocation))
          ∙ read_entries g.allocation)
        (ap (map read_stake) (unpack_all-pack (map write_stake g.validators))
          ∙ read_stakes g.validators)

unfoldable pub block_json : Json
unfolding write_block_text read_block_text write_genesis_text read_genesis_text
block_json = record height_json {
  marshal_file = λ b. some (write_block_text b);
  unmarshal_file = read_block_text;
  marshal_genesis = λ g. some (write_genesis_text g);
  unmarshal_genesis = read_genesis_text;
}

pub block_json_reads_genesis :
    (g : GenesisFile) (text : Bytes)
    → block_json.marshal_genesis g ≡ some text
    → block_json.unmarshal_genesis text ≡ some g
unfolding block_json
block_json_reads_genesis g text e =
    ap read_genesis_text (sym (some-injective _ _ e)) ∙ read_genesis_text-write_genesis_text g

pub block_json_reads_meta :
    (height : ℕ) (last text : Bytes)
    → block_json.marshal_meta height last ≡ some text
    → block_json.unmarshal_meta text ≡ some (height, last)
unfolding block_json
block_json_reads_meta height last text e = ap parse_meta (sym (some-injective _ _ e))

pub block_json-RestoresBlock : (b : Block) → RestoresBlock block_json b
unfolding block_json
block_json-RestoresBlock b x e =
    ap read_block_text (sym (some-injective _ _ e)) ∙ read_block_text-write_block_text b

pub block_json-IsReliable : IsReliable block_json memory_os
unfolding block_json
block_json-IsReliable = record {
  writes = λ d p x. refl;
  renames = λ d p q x there. refl;
  marshals = λ b. refl;
  marshals_meta = λ height last. refl;
}

abbrev low_byte : ℕ → ℕ
low_byte b = b % 256

low_bytes-IsBytes : (x : Bytes) → IsBytes (map low_byte x)
low_bytes-IsBytes [] = tt
low_bytes-IsBytes (b ∷ x) = (omega arith, low_bytes-IsBytes x)

unfoldable pub byte_p : Primitives
unfolding instance_p
byte_p = record instance_p { sha256 = λ b. map low_byte (digest b) }

pub byte_p-HasByteDigests : HasByteDigests byte_p
unfolding byte_p
byte_p-HasByteDigests x = low_bytes-IsBytes (digest x)

pub byte_p-EncodesFaithfully : EncodesFaithfully byte_p
unfolding byte_p
byte_p-EncodesFaithfully = record {
  tx_injective = instance-EncodesFaithfully.tx_injective;
  block_injective = instance-EncodesFaithfully.block_injective;
}
