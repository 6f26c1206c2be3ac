-- ===== src/State.antt =====
-- Package state: balances, nonces and validators in LevelDB, and the operations on them.
pub mod Store
pub mod Ledger
pub mod Genesis
pub mod Validators
pub mod Replay
