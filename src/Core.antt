-- ===== src/Core.antt =====
-- Package core: transactions and blocks, genesis, and the chain on disk.
pub mod Types
pub mod Chain
pub mod Files
pub mod Genesis
