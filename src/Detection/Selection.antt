-- ===== src/Detection/Selection.antt =====
-- Selections: `_eval_field`, `_keyword_match` and `_eval_selection`.
use siem_lite.Prelude.{
  Bool, true, false, not, ◌&&◌, List, [], ◌∷◌, Option, none, some, if◌then◌else◌, any_of, all_of,
  map,
}
use siem_lite.Text.Chars.{Text, codes, lower, split_on, member, text_eq}
use siem_lite.Text.Search.{contains}
use siem_lite.Value.Defs.{Value, null, list, dict, Fields, end, field, elements, as_list}
use siem_lite.Value.Render.{show}
use siem_lite.Detection.Flatten.{Flat, lookup}
use siem_lite.Detection.Encode.{expand_expected}
use siem_lite.Detection.Scalar.{
  Python, NumOp, lt, lte, gt, gte, StrOp, re, contains_op, startswith, endswith, ReFlags, as_bool,
  re_flags, is_blank, match_numeric, match_value,
}

abbrev num_op : Text → Option NumOp
num_op m =
    if text_eq m (codes "lt")
    then some lt
    else if text_eq m (codes "lte")
    then some lte
    else if text_eq m (codes "gt")
    then some gt
    else if text_eq m (codes "gte")
    then some gte
    else none

abbrev text_op : Text → Option StrOp
text_op m =
    if text_eq m (codes "contains")
    then some contains_op
    else if text_eq m (codes "startswith")
    then some startswith
    else if text_eq m (codes "endswith")
    then some endswith
    else none

-- `next((m for m in mods if ...), None)`
abbrev pub first_some {ℓ} : {A : Type ℓ} → (Text → Option A) → List Text → Option A
first_some f [] = none
first_some f (m ∷ mods) = elim (f m) [ none ↦ first_some f mods | some a ↦ some a ]

unfoldable pub string_op : List Text → Option StrOp
unfolding text_eq member
string_op mods = if member (codes "re") mods then some re else first_some text_op mods

unfoldable pub numeric_op : List Text → Option NumOp
unfolding text_eq
numeric_op mods = first_some num_op mods

-- `re.IGNORECASE`, the default of `_match_value`
abbrev pub plain_flags : ReFlags
plain_flags = record { ignore_case = true; multiline = false; dotall = false }

-- `all(results) if "all" in mods else any(results)`
abbrev pub combine : List Text → (Value → Bool) → List Value → Bool
combine mods p expecteds =
    if member (codes "all") mods then all_of p expecteds else any_of p expecteds

-- The field name and the lower-cased modifiers of `name|mod|mod`.
abbrev pub head_part : List Text → Text
head_part [] = []
head_part (t ∷ ts) = t

abbrev pub tail_parts : List Text → List Text
tail_parts [] = []
tail_parts (t ∷ ts) = ts

module _ (py : Python) where
  -- The body of `_eval_field`, from the field's value and the modifiers on.
  unfoldable pub eval_modified : Flat → Value → List Text → Value → Bool
  unfolding member is_blank as_bool as_list lookup show match_value match_numeric numeric_op
      string_op re_flags expand_expected
  eval_modified flat val mods expected =
      let cased = member (codes "cased") mods in
      if member (codes "exists") mods
      then (if is_blank val then not (as_bool expected) else as_bool expected)
      else if member (codes "fieldref") mods
      then any_of (λ r. match_value py val (lookup flat (show r)) none cased plain_flags false)
          (as_list expected)
      else elim (numeric_op mods) [
        | some num ↦ combine mods (λ e. match_numeric py val e num) (as_list expected)
        | none ↦
            combine mods
              (λ e.
                any_of
                  (λ c.
                    match_value py val c (string_op mods) cased (re_flags mods cased)
                      (member (codes "cidr") mods))
                  (expand_expected e mods))
              (as_list expected)
      ]

  unfoldable pub eval_field : Flat → Text → Value → Bool
  unfolding eval_modified split_on lower lookup
  eval_field flat fieldspec expected =
      let parts = split_on b'|' fieldspec in
      eval_modified flat (lookup flat (head_part parts)) (map lower (tail_parts parts)) expected

  -- `x is not None and k in str(x).lower()`
  holds_keyword : Text → Value → Bool
  unfolding lower show contains
  holds_keyword k null = false
  holds_keyword k x = contains k (lower (show x))

  unfoldable pub keyword_match : Flat → Value → Bool
  unfolding holds_keyword lower show as_list
  keyword_match flat kw =
      any_of (λ (entry : Text × Value). any_of (holds_keyword (lower (show kw))) (as_list entry.1))
        flat

  unfoldable pub eval_map : Flat → Fields → Bool
  unfolding eval_field
  eval_map flat end = true
  eval_map flat (field k v fs) = eval_field flat k v && eval_map flat fs

  unfoldable pub eval_item : Flat → Value → Bool
  unfolding eval_map keyword_match
  eval_item flat (dict fs) = eval_map flat fs
  eval_item flat item = keyword_match flat item

  unfoldable pub eval_selection : Flat → Value → Bool
  unfolding eval_map eval_item elements
  eval_selection flat (dict fs) = eval_map flat fs
  eval_selection flat (list items) = any_of (eval_item flat) (elements items)
  eval_selection flat _ = false
