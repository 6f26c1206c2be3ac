-- ===== src/Tests.antt =====
-- Instances of the parameters, and runs of the program on small inputs.
pub mod Instance
pub mod Hashing
pub mod Pool
pub mod Ledger
pub mod Running
pub mod Replaying
pub mod Validators
pub mod Disk
pub mod Commands
pub mod Talking
pub mod Answering
pub mod Wrapping
pub mod Dialling
pub mod Codec
pub mod Encoding
pub mod Growing
pub mod Lifetime
pub mod Syncing
pub mod Frozen
