-- ===== src/Enrich.antt =====
-- Enrichment of events: the special-purpose address ranges.
pub mod Ranges
mod Tests
