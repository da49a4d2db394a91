-- ===== src/KillChain/Pivots.antt =====
-- `_pivot_entities` of `app/killchain.py`: the actors that tie a chain together.
pub mod Shared
use siem_lite.Prelude.{
  ℕ, ◌+◌, ◌==◌, leb, ltb, Bool, ◌&&◌, ◌||◌, List, [], ◌∷◌, ◌++◌, Option, none, some, if◌then◌else◌,
}
use siem_lite.Prelude.Dict.{get, set}
use siem_lite.Prelude.Sort.{text_le, sorted}
use siem_lite.Text.Chars.{text_eq}
use siem_lite.KillChain.Chains.{Entity, entity, Alert, alert_entities}

-- `counts.get(ent, 0)`
abbrev pub or_zero : Option ℕ → ℕ
or_zero none = 0
or_zero (some n) = n

abbrev pub Tally : Type 0
Tally = List (Entity × ℕ)

-- `counts`, after these actors
unfoldable pub tally : List Entity → Tally → Tally
unfolding get set
tally [] counts = counts
tally (x ∷ xs) counts = tally xs (set entity x (or_zero (get entity x counts) + 1) counts)

abbrev pub all_entities : List Alert → List Entity
all_entities [] = []
all_entities (a ∷ alerts) = alert_entities a ++ all_entities alerts

-- `shared`
unfoldable pub shared : Tally → Tally
shared [] = []
shared ((x, n) ∷ counts) = let rest = shared counts in if leb 2 n then (x, n) ∷ rest else rest

abbrev entity_le : Entity → Entity → Bool
entity_le (a, b) (c, d) = if text_eq a c then text_le b d else text_le a c

-- By falling count, then by type and value.
abbrev pub pivot_le : Entity × ℕ → Entity × ℕ → Bool
pivot_le (x, n) (y, m) = ltb m n || (n == m && entity_le x y)

-- `_pivot_entities`
unfoldable pub pivot_entities : List Alert → Tally
unfolding tally shared sorted text_le
pivot_entities alerts = sorted pivot_le (shared (tally (all_entities alerts) []))
