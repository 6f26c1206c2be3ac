-- ===== src/Crypto/Keyfile/RoundTrip.antt =====
-- A key that was saved is loaded again.
use chainlang.Prelude.{
  ℕ, zero, suc, ◌≡◌, refl, ap, ap₂, sym, ◌∙◌, true, false, Option, none, some, [], ◌∷◌, Bytes, All,
  ◌<◌, nat_beq, if◌then◌else◌, arith,
}
use chainlang.Go.Hex.{
  encode_to_string, decode_string, decode_string-encode_to_string, encode_to_string-IsAscii,
}
use chainlang.Go.Word.{set_bytes}
use chainlang.Go.Natural.{big_bytes, set_bytes-big_bytes, All-big_bytes, big_bytes_filled}
use chainlang.Crypto.Primitives.{PrivateKey}
use chainlang.Crypto.Keyfile.{
  KeyFile, KeyDisk, KeyStore, key_file, Loaded, big_key, decode_key, parse_key, write_key, save_key,
  read_key, load_key,
}

-- A file that was written is read back, and json.Unmarshal returns what json.MarshalIndent wrote of
-- ASCII strings.
pub record KeepsKeys (store : KeyStore) : Type 0 where
  pub write-read :
      (disk : KeyDisk) (path text : Bytes)
      → (store.write_file disk path text).1 ≡ true
      → (store.write_file disk path text).0 path ≡ some text
  pub unmarshal-marshal :
      (k : KeyFile) (text : Bytes)
      → All (λ c. c < 128) k.d
      → All (λ c. c < 128) k.x
      → All (λ c. c < 128) k.y
      → store.marshal_indent k ≡ some text
      → store.unmarshal text ≡ some k

-- What is read of a key's file: no key if its number is 0.
abbrev pub loaded : PrivateKey → Loaded
loaded priv = if nat_beq priv.d 0 then some none else some (some priv)

decoded : (x : ℕ) → decode_string (encode_to_string (big_bytes x)) ≡ (big_bytes x, true)
decoded x = decode_string-encode_to_string (big_bytes x) (All-big_bytes x)

decode_key-d :
    (d : Bytes) (n x y : ℕ)
    → big_bytes n ≡ d
    → decode_key (d, true) (big_bytes x, true) (big_bytes y, true)
      ≡ loaded (record { public_key = record { x = x; y = y }; d = n })
unfolding set_bytes big_bytes
decode_key-d [] zero x y e = refl
decode_key-d [] (suc n) x y e = absurd (big_bytes_filled (suc n) (omega arith) e)
decode_key-d (c ∷ d) zero x y e = cc (e)
decode_key-d (c ∷ d) (suc n) x y e =
    let positive : nat_beq (suc n) 0 ≡ false = ground arith in
    rw positive (
      ap (λ (k : PrivateKey). some (some k))
        (ap (λ r. big_key r (big_bytes x) (big_bytes y)) (sym e)
          ∙ ap
              (λ m. record {
                public_key = record { x = set_bytes (big_bytes x); y = set_bytes (big_bytes y) };
                d = m;
              })
              (set_bytes-big_bytes (suc n))
          ∙ ap₂ (λ a b. record { public_key = record { x = a; y = b }; d = suc n })
              (set_bytes-big_bytes x) (set_bytes-big_bytes y)))

parse_key-key_file : (priv : PrivateKey) → parse_key (some (key_file priv)) ≡ loaded priv
parse_key-key_file priv =
    rw (decoded priv.d, decoded priv.public_key.x, decoded priv.public_key.y)
      (decode_key-d (big_bytes priv.d) priv.d priv.public_key.x priv.public_key.y refl)

module _ (store : KeyStore) (keeps : KeepsKeys store) where
  load_written :
      (disk : KeyDisk) (path : Bytes) (priv : PrivateKey) (o : Option Bytes)
      → store.marshal_indent (key_file priv) ≡ o
      → (write_key store disk path o).1 ≡ true
      → load_key store (write_key store disk path o).0 path ≡ loaded priv
  unfolding load_key
  load_written disk path priv none e good = cc good
  load_written disk path priv (some text) e good =
      ap (read_key store) (keeps.write-read disk path text good)
      ∙ ap parse_key (
          keeps.unmarshal-marshal (key_file priv) text
            (encode_to_string-IsAscii (big_bytes priv.d) (All-big_bytes priv.d))
            (encode_to_string-IsAscii (big_bytes priv.public_key.x)
              (All-big_bytes priv.public_key.x))
            (encode_to_string-IsAscii (big_bytes priv.public_key.y)
              (All-big_bytes priv.public_key.y))
            e)
      ∙ parse_key-key_file priv

  -- If `SaveKey` of a key returns no error, `LoadKey` of the path returns the same key; but of a key
  -- whose number is 0 it returns nil and no error.
  pub load_key-save_key :
      (disk : KeyDisk) (path : Bytes) (priv : PrivateKey)
      → (save_key store disk path (some priv)).1 ≡ true
      → load_key store (save_key store disk path (some priv)).0 path
        ≡ (if nat_beq priv.d 0 then some none else some (some priv))
  unfolding save_key
  load_key-save_key disk path priv good =
      load_written disk path priv (store.marshal_indent (key_file priv)) refl good
