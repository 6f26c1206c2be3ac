-- ===== src/Crypto/Keyfile.antt =====
-- crypto/keyfile.go: a private key in a file. os and encoding/json are parameters.
use chainlang.Prelude.{Bool, true, false, Option, none, some, [], ◌∷◌, Bytes}
use chainlang.Go.Hex.{encode_to_string, decode_string}
use chainlang.Go.Word.{set_bytes}
use chainlang.Go.Natural.{big_bytes}
use chainlang.Crypto.Primitives.{PrivateKey}
pub mod RoundTrip

pub record KeyFile : Type 0 where
  pub d : Bytes
  pub x : Bytes
  pub y : Bytes

-- What os.ReadFile returns for each path; `none` is an error.
abbrev pub KeyDisk : Type 0
KeyDisk = Bytes → Option Bytes

-- os.WriteFile, with whether the error is nil, and encoding/json at a key; `none` is an error.
pub record KeyStore : Type 0 where
  pub write_file : KeyDisk → Bytes → Bytes → KeyDisk × Bool
  pub marshal_indent : KeyFile → Option Bytes
  pub unmarshal : Bytes → Option KeyFile

abbrev pub key_file : PrivateKey → KeyFile
key_file priv = record {
  d = encode_to_string (big_bytes priv.d);
  x = encode_to_string (big_bytes priv.public_key.x);
  y = encode_to_string (big_bytes priv.public_key.y);
}

-- A key that was read: `some none` is a nil key with no error.
abbrev pub Loaded : Type 0
Loaded = Option (Option PrivateKey)

abbrev big_key : Bytes → Bytes → Bytes → PrivateKey
big_key d x y = record { public_key = record { x = set_bytes x; y = set_bytes y }; d = set_bytes d }

-- `err != nil || len(d) == 0` returns `nil, err`, and each later error returns.
abbrev pub decode_key : Bytes × Bool → Bytes × Bool → Bytes × Bool → Loaded
decode_key (d, false) x y = none
decode_key ([], true) x y = some none
decode_key (c ∷ d, true) (x, false) y = none
decode_key (c ∷ d, true) (x, true) (y, false) = none
decode_key (c ∷ d, true) (x, true) (y, true) = some (some (big_key (c ∷ d) x y))

abbrev pub parse_key : Option KeyFile → Loaded
parse_key none = none
parse_key (some k) = decode_key (decode_string k.d) (decode_string k.x) (decode_string k.y)

module _ (store : KeyStore) where
  abbrev pub write_key : KeyDisk → Bytes → Option Bytes → KeyDisk × Bool
  write_key disk path none = (disk, false)
  write_key disk path (some text) = store.write_file disk path text

  -- A nil key is not written, and is no error.
  unfoldable pub save_key : KeyDisk → Bytes → Option PrivateKey → KeyDisk × Bool
  save_key disk path none = (disk, true)
  save_key disk path (some priv) = write_key disk path (store.marshal_indent (key_file priv))

  abbrev pub read_key : Option Bytes → Loaded
  read_key none = none
  read_key (some text) = parse_key (store.unmarshal text)

  unfoldable pub load_key : KeyDisk → Bytes → Loaded
  load_key disk path = read_key (disk path)
