-- ===== src/Cim/Spec.antt =====
-- `app/cim/spec.py`: the data models of the registry.
use mathlib.Core.List.{map}
use siem_lite.Prelude.{
  ℕ, Bool, List, [], ◌∷◌, Option, none, some, is_empty, if◌then◌else◌, not, ◌&&◌, ◌||◌,
}
use siem_lite.Text.Chars.{Text, codes, text_eq, strip, lower, member}

-- The reason of a `CimError`.
pub data CimError : Type 0 where
  unknown_kind no_paths stray_paths no_name no_values no_jsonb_path column_not_allowed
        unreadable_source :
      CimError

-- A jsonb path: its first segment, and the further ones. `__post_init__` refuses a path with none.
abbrev pub JsonPath : Type 0
JsonPath = Text × List Text

pub record CimSource : Type 0 where
  pub kind : Text
  pub name : Text
  pub paths : List JsonPath

abbrev pub source_kinds : List Text
source_kinds = codes "column" ∷ codes "raw" ∷ codes "const" ∷ codes "expr" ∷ []

-- `CimSource.__post_init__`: the first objection, if there is one.
unfoldable pub post_init : CimSource → Option CimError
unfolding text_eq member
post_init s =
    if not (member s.kind source_kinds)
    then some unknown_kind
    else if text_eq s.kind (codes "raw")
    then (if is_empty s.paths then some no_paths else none)
    else if not (is_empty s.paths)
    then some stray_paths
    else if (text_eq s.kind (codes "column") || text_eq s.kind (codes "expr")) && is_empty s.name
    then some no_name
    else none

pub record CimTerm : Type 0 where
  pub source : CimSource
  pub values : List Text
  pub label : Text

-- A clause is its terms.
abbrev pub CimClause : Type 0
CimClause = List CimTerm

pub record CimField : Type 0 where
  pub name : Text
  pub source : CimSource
  pub description : Text

pub record CimModel : Type 0 where
  pub name : Text
  pub tag : Text
  pub version : ℕ
  pub description : Text
  pub clauses : List CimClause
  pub fields : List CimField

pub record CimRegistry : Type 0 where
  pub version : ℕ
  pub models : List CimModel

-- `next((m for m in models if p(m)), None)`
abbrev pub first_model : (CimModel → Bool) → List CimModel → Option CimModel
first_model p [] = none
first_model p (m ∷ ms) = if p m then some m else first_model p ms

-- A model is always true in Python, so `or` moves on exactly from None.
abbrev pub or_first : Option CimModel → Option CimModel → Option CimModel
or_first none n = n
or_first (some m) n = some m

unfoldable pub by_name : CimRegistry → Text → Option CimModel
unfolding strip lower text_eq
by_name reg name =
    let low = lower (strip name) in
    if is_empty low
    then none
    else or_first (first_model (λ m. text_eq (lower m.name) low) reg.models)
        (first_model (λ m. text_eq m.tag low) reg.models)

unfoldable pub names : CimRegistry → List Text
names reg = map (λ (m : CimModel). m.name) reg.models

unfoldable pub tags : CimRegistry → List Text
tags reg = map (λ (m : CimModel). m.tag) reg.models
