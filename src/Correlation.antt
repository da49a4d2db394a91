-- ===== src/Correlation.antt =====
-- `app/detection/correlation.py`: the window of a correlation rule and the alert for one group over
-- its threshold. SHA-256 enters as a function of the text that is hashed.
pub mod Window
pub mod Identity
mod Tests
use siem_lite.Prelude.{
  ℕ, ◌+◌, ◌*◌, ◌/◌, ◌%◌, ◌-◌, ◌==◌, Bool, true, false, not, ◌&&◌, ◌||◌, List, [], ◌∷◌, ◌++◌, Option,
  none, some, map, if◌then◌else◌, is_empty, all_of, max,
}
use siem_lite.Prelude.Dict
use siem_lite.Prelude.Sort.{sorted, text_le}
use siem_lite.Text.Chars.{Text, codes, text, text_eq, is_space, strip_left, lower_char, join}
use siem_lite.Text.Number.{is_digit, read_number, show_number}
use siem_lite.Value.Defs.{
  ℤ, pos, negsuc, Value, null, boolean, int, real, str, Fields, field_or_null, or_else,
}
use siem_lite.Value.Render.{show}

-- The longest prefix of digits, and the rest.
abbrev pub keep_digit : ℕ → Bool → Text × Text → Text × Text → Text × Text
keep_digit c true (digits, rest) whole = (c ∷ digits, rest)
keep_digit c false found whole = whole

unfoldable pub span_digits : Text → Text × Text
span_digits [] = ([], [])
span_digits (c ∷ s) = keep_digit c (is_digit c) (span_digits s) ([], c ∷ s)

-- `_UNIT`, by the unit's lower-case letter
unfoldable pub unit_seconds : ℕ → Option ℕ
unit_seconds c =
    if c == b's'
    then some 1
    else if c == b'm'
    then some 60
    else if c == b'h'
    then some 3600
    else if c == b'd'
    then some 86400
    else none

abbrev pub default_window : ℤ
default_window = pos 300

abbrev pub after_unit : ℕ → Text → Option ℕ → ℤ
after_unit n s none = default_window
after_unit n s (some k) = if all_of is_space s then pos (n * k) else default_window

-- What follows the digits: a unit, then spaces.
abbrev pub with_unit : ℕ → Text → ℤ
with_unit n [] = default_window
with_unit n (c ∷ s) = after_unit n s (unit_seconds (lower_char c))

abbrev pub matched_window : Text × Text → ℤ
matched_window ([], rest) = default_window
matched_window (d ∷ digits, rest) = with_unit (read_number (d ∷ digits)) (strip_left rest)

-- `_WINDOW_RE.match(s)` and what follows
unfoldable pub window_of_text : Text → ℤ
unfolding span_digits strip_left read_number unit_seconds
window_of_text s = matched_window (span_digits (strip_left s))

-- `window_seconds`, with what `int()` makes of a float
unfoldable pub window_seconds : (Text → ℤ) → Value → ℤ
unfolding window_of_text or_else show
window_seconds truncate (int n) = n
window_seconds truncate (real t) = truncate t
window_seconds truncate (boolean true) = pos 1
window_seconds truncate (boolean false) = pos 0
window_seconds truncate v = window_of_text (show (or_else v (str [])))

-- The part of `CorrelationRule` that an alert is made from.
pub record CorrelationRule : Type 0 where
  pub id : Text
  pub title : Text
  pub level : Text
  pub group_by : List Text
  pub window : ℕ
  pub distinct_field : Option Text
  pub tactics : List Text
  pub techniques : List Text

pub record GroupAlert : Type 0 where
  pub event_time : Value
  pub rule_id : Text
  pub rule_title : Text
  pub level : Text
  pub tactics : List Text
  pub techniques : List Text
  pub src_ip : Value
  pub dst_ip : Value
  pub user_name : Value
  pub host_name : Value
  pub message : Text
  pub dedup_hash : Text

abbrev pub GroupValues : Type 0
GroupValues = List (Text × Value)

-- `{c: row.get(c) for c in rule.group_by}`
unfoldable pub group_values : List Text → Fields → GroupValues → GroupValues
unfolding Dict.set text_eq field_or_null
group_values [] row gv = gv
group_values (c ∷ cs) row gv = group_values cs row (Dict.set text c (field_or_null c row) gv)

abbrev pub value_in : Text → GroupValues → Value
value_in c gv = elim (Dict.get text c gv) [ none ↦ null | some v ↦ v ]

-- `f"{k}={v}"`
abbrev pub assignment : Text → Value → Text
assignment k v = k ++ codes "=" ++ show v

-- `"|".join(f"{k}={gv[k]}" for k in sorted(gv))`
unfoldable pub identity : GroupValues → Text
unfolding sorted text_le join show Dict.get text_eq
identity gv = join (codes "|") (
    map (λ (k : Text). assignment k (value_in k gv))
      (sorted text_le (map (λ (e : Text × Value). e.0) gv)))

-- The text that is hashed.
abbrev pub dedup_text : CorrelationRule → GroupValues → ℕ → Text
dedup_text rule gv bucket =
    codes "corr|" ++ rule.id ++ codes "|" ++ identity gv ++ codes "|" ++ show_number bucket

abbrev shown_values : GroupValues → List Text
shown_values [] = []
shown_values ((k, null) ∷ gv) = shown_values gv
shown_values ((k, v) ∷ gv) = assignment k v ∷ shown_values gv

abbrev dash_if_empty : Text → Text
dash_if_empty [] = 0x2014 ∷ []
dash_if_empty (c ∷ s) = c ∷ s

abbrev pub parts : GroupValues → Text
parts gv = dash_if_empty (join (codes ", ") (shown_values gv))

-- `if rule.distinct_field`
abbrev pub summary : Option Text → Text → Text → ℕ → Text
summary (some (c ∷ s)) n shown window =
    n
    ++ codes " distinct "
    ++ (c ∷ s)
    ++ codes " for "
    ++ shown
    ++ codes " within "
    ++ show_number window
    ++ codes "s"
summary _ n shown window =
    n ++ codes " matching events (" ++ shown ++ codes ") within " ++ show_number window ++ codes "s"

unfoldable pub correlation_alert : (Text → Text) → CorrelationRule → Fields → ℕ → GroupAlert
unfolding group_values identity show_number field_or_null show join Dict.get text_eq
correlation_alert sha256 rule row bucket =
    let gv = group_values rule.group_by row [] in
    record {
      event_time = field_or_null (codes "last_seen") row;
      rule_id = rule.id;
      rule_title = rule.title;
      level = rule.level;
      tactics = rule.tactics;
      techniques = rule.techniques;
      src_ip = value_in (codes "src_ip") gv;
      dst_ip = value_in (codes "dst_ip") gv;
      user_name = value_in (codes "user_name") gv;
      host_name = value_in (codes "host_name") gv;
      message =
          summary rule.distinct_field (show (field_or_null (codes "n") row)) (parts gv) rule.window;
      dedup_hash = sha256 (dedup_text rule gv bucket);
    }

-- `int(now // rule.window)` for a positive window
abbrev pub bucket_of : ℕ → ℕ → ℕ
bucket_of now window = now / window
