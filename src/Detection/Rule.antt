-- ===== src/Detection/Rule.antt =====
-- `Rule`, and how one is built from a parsed document. `none` is the exception that Python raises.
use mathlib.Core.List.{map}
use siem_lite.Prelude.{
  ℕ, Bool, true, false, not, ◌&&◌, List, [], ◌∷◌, Option, none, some, if◌then◌else◌, keep, is_empty,
  ◌==◌,
}
use siem_lite.Text.Chars.{
  Text, codes, text_eq, lower, upper, strip, split_on, after_first, member, upper_char,
}
use siem_lite.Text.Number.{is_digit}
use siem_lite.Text.Search.{starts_with, replace}
use siem_lite.Value.Defs.{
  Value, null, str, list, dict, Fields, end, elements, entries, truthy, or_else, field_or_null,
}
use siem_lite.Value.Render.{show}
use siem_lite.Prelude.Options.{◌>>=◌}

pub record Rule : Type 0 where
  pub id : Text
  pub title : Text
  pub level : Text
  pub description : Text
  pub logsource : Value
  pub detection : Value
  pub datamodels : List Text
  pub tactics : List Text
  pub techniques : List Text
  pub atlas_techniques : List Text
  pub fidelity : Text
  pub data_source : List Text
  pub references : List Text
  pub source : Text
  pub enabled : Bool

-- `\d{n}`, and what is left
abbrev pub digits_then : ℕ → (Text → Bool) → Text → Bool
digits_then ℕ.zero k s = k s
digits_then (ℕ.suc n) k [] = false
digits_then (ℕ.suc n) k (c ∷ s) = is_digit c && digits_then n k s

-- `(?:\.\d{3})?` up to the end of the text
abbrev pub sub_technique : Text → Bool
sub_technique [] = true
sub_technique (c ∷ s) = c == b'.' && digits_then 3 is_empty s

-- `_TECH_RE.fullmatch(v)`: `t\d{4}(?:\.\d{3})?` in either case
unfoldable pub is_technique : Text → Bool
is_technique [] = false
is_technique (c ∷ s) = upper_char c == b'T' && digits_then 4 sub_technique s

-- `_ATLAS_RE.fullmatch(v)`: the same behind `aml.`
unfoldable pub is_atlas : Text → Bool
unfolding is_technique text_eq lower
is_atlas (a ∷ m ∷ l ∷ d ∷ s) = text_eq (lower (a ∷ m ∷ l ∷ d ∷ [])) (codes "aml.") && is_technique s
is_atlas _ = false

-- `str(t).strip()`
abbrev stripped : Value → Text
stripped v = strip (show v)

-- The pair (tactics, techniques) so far, with one more tag in front of what follows.
abbrev add_tag : Text → List Text × List Text → List Text × List Text
add_tag t (tactics, techniques) =
    if starts_with (codes "attack.") (lower t)
    then (let v = after_first b'.' t in
        if is_technique v
        then (tactics, upper v ∷ techniques)
        else (lower (replace b'_' (codes " ") v) ∷ tactics, techniques))
    else (tactics, techniques)

unfoldable pub parse_tags : List Value → List Text × List Text
unfolding strip show starts_with lower upper after_first is_technique replace
parse_tags [] = ([], [])
parse_tags (t ∷ ts) = add_tag (stripped t) (parse_tags ts)

abbrev add_atlas : Text → List Text → List Text
add_atlas t rest =
    if starts_with (codes "atlas.") (lower t)
    then (let v = after_first b'.' t in if is_atlas v then upper v ∷ rest else rest)
    else rest

unfoldable pub parse_atlas_tags : List Value → List Text
unfolding strip show starts_with lower upper after_first is_atlas
parse_atlas_tags [] = []
parse_atlas_tags (t ∷ ts) = add_atlas (stripped t) (parse_atlas_tags ts)

abbrev pub fidelities : List Text
fidelities = codes "high" ∷ codes "medium" ∷ codes "hunt" ∷ []

unfoldable pub norm_fidelity : Value → Text
unfolding or_else show strip lower member text_eq
norm_fidelity value =
    let v = lower (strip (show (or_else value (str [])))) in
    if member v fidelities then v else codes "medium"

-- The texts that are left when each is stripped.
unfoldable pub strip_all : List Text → List Text
unfolding strip
strip_all ts = keep (λ t. not (is_empty t)) (map strip ts)

unfoldable pub as_str_list : Value → List Text
unfolding strip_all show split_on elements
as_str_list null = []
as_str_list (str []) = []
as_str_list (list vs) = strip_all (map show (elements vs))
as_str_list v = strip_all (split_on b',' (show v))

-- `for t in tags or []`: a text yields its characters, a `dict` its keys.
unfoldable pub iterate : Value → Option (List Value)
unfolding truthy elements entries
iterate (list vs) = some (elements vs)
iterate (str s) = some (map (λ c. str (c ∷ [])) s)
iterate (dict fs) = some (map (λ (e : Text × Value). str e.0) (entries fs))
iterate v = if truthy v then none else some []

-- `d.get(k) or other`
abbrev get_or_else : Text → Fields → Value → Value
get_or_else k d other = or_else (field_or_null k d) other

unfoldable pub rule_from_dict : Fields → Text → Option Rule
unfolding iterate parse_tags parse_atlas_tags norm_fidelity as_str_list or_else field_or_null show
    lower
rule_from_dict d source = do
  tags ← iterate (field_or_null (codes "tags") d)
  let found = parse_tags tags
  some (record {
    id = show (get_or_else (codes "id") d (get_or_else (codes "title") d (str source)));
    title = show (get_or_else (codes "title") d (str (codes "untitled")));
    level = lower (show (get_or_else (codes "level") d (str (codes "medium"))));
    description = show (get_or_else (codes "description") d (str []));
    logsource = get_or_else (codes "logsource") d (dict end);
    detection = get_or_else (codes "detection") d (dict end);
    datamodels =
        as_str_list (get_or_else (codes "datamodels") d (field_or_null (codes "datamodel") d));
    tactics = found.0;
    techniques = found.1;
    atlas_techniques = parse_atlas_tags tags;
    fidelity = norm_fidelity (field_or_null (codes "fidelity") d);
    data_source =
        as_str_list (get_or_else (codes "data_source") d (field_or_null (codes "data_sources") d));
    references = as_str_list (field_or_null (codes "references") d);
    source = source;
    enabled = true;
  })

-- The loop of `load_rules` over the documents of one file that are `dict`s.
unfoldable pub rules_of_documents : List Value → Text → Option (List Rule)
unfolding rule_from_dict truthy field_or_null
rules_of_documents [] name = some []
rules_of_documents (dict d ∷ docs) name = do
  rest ← rules_of_documents docs name
  if truthy (field_or_null (codes "detection") d)
      then (do r ← rule_from_dict d name; some (r ∷ rest))
      else some rest
rules_of_documents (_ ∷ docs) name = rules_of_documents docs name
