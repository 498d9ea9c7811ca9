-- ===== src/User.antt =====
-- The user programs and their library, user/*.c.
pub mod Library
pub mod Grep
pub mod Printf
pub mod Shell
