-- ===== src/Cim.antt =====
-- `app/cim/spec.py` and `app/cim/match.py`: the data models, and which of them an event is in.
pub mod Spec
pub mod Match
pub mod Plan
pub mod Agree
pub mod Cache
mod Tests
