-- ===== src/Crypto/Merkle.antt =====
-- crypto/merkle.go: the Merkle root. Each call hashes one level and calls itself on it, so the
-- recursion is on the length of the list, as an accessibility proof.
mod Defs
pub mod Duplicate
pub mod Binding
unfoldable pub use Defs.{merkle_root, next_level}
pub use Defs.{merkle_root-nil}
