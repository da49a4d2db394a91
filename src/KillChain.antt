-- ===== src/KillChain.antt =====
-- `app/killchain.py`: alerts linked by a shared actor within a time gap, as chains of tactics.
-- An id is a number. A time is what `_epoch` gives, `none` for a value that is no time.
pub mod Tactics
pub mod DisjointSet
pub mod Gather
pub mod Chains
pub mod Pivots
mod Tests
