-- ===== src/Cim/Match.antt =====
-- The reference walk of `app/cim/match.py`: what it means for an event to be in a data model.
use siem_lite.Prelude.{
  Bool, true, false, not, List, [], ◌∷◌, Option, none, some, is_empty, if◌then◌else◌,
}
use siem_lite.Prelude.Dict
use siem_lite.Prelude.Except.{Except, ok, raise, ◌>>=◌}
use siem_lite.Text.Chars.{Text, codes, text, text_eq, strip, lower, member}
use siem_lite.Value.Defs.{Value, null, boolean, int, real, str, list, dict, Fields, field_or_null}
use siem_lite.Value.Render.{show}
use siem_lite.Value.Event.{NormalizedEvent}
use siem_lite.Detection.Flatten.{normalized}
use siem_lite.Cim.Spec.{
  CimError, no_values, no_jsonb_path, column_not_allowed, unreadable_source, JsonPath, CimTerm,
  CimClause, CimModel,
}

-- A parsed event, or a stored row read back as a mapping.
pub data EventLike : Type 0 where
  event : NormalizedEvent → EventLike
  row : Fields → EventLike

abbrev pub term_columns : List Text
term_columns =
    codes "action"
    ∷ codes "app"
    ∷ codes "host_name"
    ∷ codes "log_type"
    ∷ codes "product"
    ∷ codes "protocol"
    ∷ codes "severity"
    ∷ codes "user_name"
    ∷ codes "vendor"
    ∷ []

-- `_text`
unfoldable pub text_of : Value → Option Text
unfolding strip lower show
text_of null = none
text_of (str s) = some (lower (strip s))
text_of (boolean true) = some (codes "true")
text_of (boolean false) = some (codes "false")
text_of (int n) = some (show (int n))
text_of (real t) = some t
text_of (list _) = none
text_of (dict _) = none

abbrev value_or_null : Option Value → Value
value_or_null none = null
value_or_null (some v) = v

-- One column of the event; it is read for term columns only, all of them normalized fields.
unfoldable pub column_of : EventLike → Text → Value
unfolding Dict.get text_eq normalized field_or_null
column_of (event e) c = value_or_null (Dict.get text c (normalized e))
column_of (row fs) c = field_or_null c fs

-- `_column_texts`
abbrev pub ColumnTexts : Type 0
ColumnTexts = List (Text × Option Text)

unfoldable pub column_texts : EventLike → List Text → ColumnTexts
unfolding text_of column_of
column_texts evt [] = []
column_texts evt (c ∷ cs) = (c, text_of (column_of evt c)) ∷ column_texts evt cs

abbrev as_mapping : Value → Option Fields
as_mapping (dict fs) = some fs
as_mapping _ = none

-- `_raw_of`
unfoldable pub raw_of : EventLike → Option Fields
unfolding field_or_null
raw_of (event e) = some e.raw
raw_of (row fs) = as_mapping (field_or_null (codes "raw") fs)

-- One alternative of `_raw_value`: the walk over the further segments.
unfoldable pub walk : Value → List Text → Value
unfolding field_or_null
walk cur [] = cur
walk (dict fs) (seg ∷ segs) = walk (field_or_null seg fs) segs
walk _ (seg ∷ segs) = null

abbrev pub first_value : Value → Value → Value
first_value null later = later
first_value v later = v

abbrev first_path : Fields → List JsonPath → Value
first_path raw [] = null
first_path raw ((key, segs) ∷ paths) =
    first_value (walk (field_or_null key raw) segs) (first_path raw paths)

-- `_raw_value`: the first alternative that has a value
unfoldable pub raw_value : Option Fields → List JsonPath → Value
unfolding walk field_or_null
raw_value none paths = null
raw_value (some raw) paths = first_path raw paths

-- `_Term`
pub record Term : Type 0 where
  pub column : Text
  pub paths : List JsonPath
  pub values : List Text

-- `_compile_term`
unfoldable pub compile_term : CimTerm → Except CimError Term
unfolding text_eq member
compile_term term =
    if is_empty term.values
    then raise no_values
    else if text_eq term.source.kind (codes "raw")
    then (if is_empty term.source.paths
        then raise no_jsonb_path
        else ok (record { column = []; paths = term.source.paths; values = term.values }))
    else if text_eq term.source.kind (codes "column")
    then (if not (member term.source.name term_columns)
        then raise column_not_allowed
        else ok (record { column = term.source.name; paths = []; values = term.values }))
    else raise unreadable_source

abbrev text_or_none : Option (Option Text) → Option Text
text_or_none none = none
text_or_none (some t) = t

-- `text is not None and text in values`
abbrev pub listed : Option Text → List Text → Bool
listed none values = false
listed (some t) values = member t values

-- `_term_hit`
unfoldable pub term_hit : Term → ColumnTexts → Option Fields → Bool
unfolding Dict.get text_eq member text_of raw_value
term_hit term ctext raw =
    if not (is_empty term.column)
    then listed (text_or_none (Dict.get text term.column ctext)) term.values
    else listed (text_of (raw_value raw term.paths)) term.values

unfoldable pub term_matches : CimTerm → EventLike → Except CimError Bool
unfolding compile_term term_hit column_texts raw_of
term_matches term evt = do
  t ← compile_term term
  ok (term_hit t (column_texts evt term_columns) (raw_of evt))

-- `all(...)` over the terms of a clause: it stops at the first term that fails.
unfoldable pub all_terms : List CimTerm → ColumnTexts → Option Fields → Except CimError Bool
unfolding compile_term term_hit
all_terms [] ctext raw = ok true
all_terms (term ∷ terms) ctext raw = do
  t ← compile_term term
  if term_hit t ctext raw then all_terms terms ctext raw else ok false

unfoldable pub clause_matches : CimClause → EventLike → Except CimError Bool
unfolding all_terms column_texts raw_of
clause_matches [] evt = ok false
clause_matches (t ∷ ts) evt = all_terms (t ∷ ts) (column_texts evt term_columns) (raw_of evt)

-- `any(...)` over the clauses of a model
unfoldable pub any_clause : List CimClause → EventLike → Except CimError Bool
unfolding clause_matches
any_clause [] evt = ok false
any_clause (c ∷ cs) evt = do hit ← clause_matches c evt; if hit then ok true else any_clause cs evt

unfoldable pub model_matches : CimModel → EventLike → Except CimError Bool
unfolding any_clause
model_matches model evt = any_clause model.clauses evt
