-- ===== src/SourceHealth.antt =====
-- `app/sourcehealth.py`: which log sources have gone silent, and the alert for one.
--
-- Times and ages are whole seconds; an age is an integer, since a source may have sent an event
-- stamped ahead of the clock, and a source with no event has no age. SHA-256 enters as a function of
-- the text that is hashed.
pub mod Order
pub mod Identity
mod Tests
use siem_lite.Prelude.{
  ℕ, zero, suc, ◌+◌, ◌*◌, ◌/◌, ◌%◌, ◌-◌, ◌==◌, Bool, true, false, not, ◌&&◌, ◌||◌, List, [], ◌∷◌,
  ◌++◌, Option, none, some, map, if◌then◌else◌, is_empty, ltb, leb, max, keep,
}
use siem_lite.Prelude.Sort.{sorted}
use siem_lite.Text.Chars.{Text, codes, text_eq, strip}
use siem_lite.Text.Number.{show_number}
use siem_lite.Value.Defs.{ℤ, pos, negsuc}

-- A row of `db.source_activity`.
pub record Activity : Type 0 where
  pub vendor : Option Text
  pub log_type : Option Text
  pub last_seen : Option ℕ
  pub n : ℕ

abbrev pub text_or_empty : Option Text → Text
text_or_empty none = []
text_or_empty (some s) = s

abbrev pub or_text : Text → Text → Text
or_text [] t = t
or_text (c ∷ s) t = c ∷ s

abbrev pub key_of : Text → Text → Text
key_of (c ∷ v) (d ∷ lt) = (c ∷ v) ++ codes "/" ++ (d ∷ lt)
key_of v lt = or_text v (or_text lt (codes "unknown"))

unfoldable pub source_key : Option Text → Option Text → Text
unfolding strip
source_key vendor log_type = key_of (strip (text_or_empty vendor)) (strip (text_or_empty log_type))

-- `s // 60` and the rest of the branches, for a whole number of seconds
unfoldable pub human_age : ℕ → Text
unfolding show_number
human_age s =
    if ltb s 60
    then show_number s ++ codes "s"
    else if ltb s 3600
    then show_number (s / 60) ++ codes "m"
    else if ltb s 86400
    then (if s / 60 % 60 == 0
        then show_number (s / 60 / 60) ++ codes "h"
        else show_number (s / 60 / 60) ++ codes "h " ++ show_number (s / 60 % 60) ++ codes "m")
    else (if s % 86400 / 3600 == 0
        then show_number (s / 86400) ++ codes "d"
        else show_number (s / 86400) ++ codes "d " ++ show_number (s % 86400 / 3600) ++ codes "h")

-- `(now - last).total_seconds() if last else inf`
pub data Age : Type 0 where
  seconds : ℤ → Age
  never : Age

abbrev pub minus : ℕ → ℕ → ℤ
minus a b = if leb b a then pos (a - b) else negsuc (b - a - 1)

abbrev pub age_of : ℕ → Option ℕ → Age
age_of now none = never
age_of now (some last) = seconds (minus now last)

-- `age > silence_seconds`
abbrev pub is_older : Age → ℕ → Bool
is_older never limit = true
is_older (seconds (pos a)) limit = ltb limit a
is_older (seconds (negsuc a)) limit = false

pub record SourceState : Type 0 where
  pub key : Text
  pub vendor : Option Text
  pub log_type : Option Text
  pub last_seen : Option ℕ
  pub event_count : ℕ
  pub age : Age
  pub is_silent : Bool

-- `r.get("vendor") or None`
abbrev pub or_none : Option Text → Option Text
or_none none = none
or_none (some []) = none
or_none (some (c ∷ s)) = some (c ∷ s)

unfoldable pub state_of : ℕ → ℕ → Activity → SourceState
unfolding source_key
state_of now silence r = record {
  key = source_key r.vendor r.log_type;
  vendor = or_none r.vendor;
  log_type = or_none r.log_type;
  last_seen = r.last_seen;
  event_count = r.n;
  age = age_of now r.last_seen;
  is_silent = is_older (age_of now r.last_seen) silence;
}

-- `-a <= -b`: at least as old
abbrev pub int_ge : ℤ → ℤ → Bool
int_ge (pos a) (pos b) = leb b a
int_ge (pos a) (negsuc b) = true
int_ge (negsuc a) (pos b) = false
int_ge (negsuc a) (negsuc b) = leb a b

abbrev pub age_ge : Age → Age → Bool
age_ge never b = true
age_ge (seconds a) never = false
age_ge (seconds a) (seconds b) = int_ge a b

-- The order of the key `(s.status != "silent", -s.age_seconds)`.
abbrev pub before_or_equal : SourceState → SourceState → Bool
before_or_equal a b =
    (a.is_silent && not b.is_silent)
    || (((a.is_silent && b.is_silent) || (not a.is_silent && not b.is_silent))
        && age_ge a.age b.age)

-- `n < max(1, min_events)` is left out.
abbrev pub is_established : ℕ → Activity → Bool
is_established min_events r = not (ltb r.n (max 1 min_events))

unfoldable pub assess : ℕ → ℕ → ℕ → List Activity → List SourceState
unfolding sorted state_of
assess now silence min_events rows =
    sorted before_or_equal (map (state_of now silence) (keep (is_established min_events) rows))

-- The text that `silent_alert` hashes.
abbrev pub silent_text : Text → ℕ → Text
silent_text key bucket = codes "srchealth|" ++ key ++ codes "|" ++ show_number bucket

-- `int(now.timestamp() // max(1, repeat_seconds))`
abbrev pub repeat_bucket : ℕ → ℕ → ℕ
repeat_bucket now repeat = now / max 1 repeat

unfoldable pub silent_hash : (Text → Text) → SourceState → ℕ → ℕ → Text
unfolding show_number
silent_hash sha256 s now repeat = sha256 (silent_text s.key (repeat_bucket now repeat))

-- The sources that `run_check` alerts on.
abbrev pub silent_sources : ℕ → ℕ → ℕ → List Activity → List SourceState
silent_sources now silence min_events rows =
    keep (λ (s : SourceState). s.is_silent) (assess now silence min_events rows)
