-- ===== src/Value.antt =====
-- The values that parsed YAML and JSON hold, and `app/models.py`.
--
-- A float is held by its text, since the sources only print floats or print and parse them again.
-- The keys of a `dict` are texts.
pub mod Defs
pub mod Render
pub mod Event
