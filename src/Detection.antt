-- ===== src/Detection.antt =====
-- `app/detection/engine.py`: the Sigma-compatible detection engine.
pub mod Flatten
pub mod Glob
pub mod Encode
pub mod Scalar
pub mod Selection
pub mod Condition
pub mod Logsource
pub mod Rule
pub mod Gate
pub mod Engine
mod Tests
