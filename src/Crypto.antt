-- ===== src/Crypto.antt =====
-- Package crypto: hashes, addresses, signatures, key files and the Merkle root.
pub mod Keyfile
pub mod Primitives
pub mod Hash
pub mod Signature
pub mod Merkle
