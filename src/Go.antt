-- ===== src/Go.antt =====
-- What the program takes from Go itself: machine words, byte orders and hexadecimal text.
pub mod Natural
pub mod Word
pub mod Hex
pub mod Paths
