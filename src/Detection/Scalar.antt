-- ===== src/Detection/Scalar.antt =====
-- Matching one value: `_match_scalar`, `_match_value`, the numeric and the network tests.
use siem_lite.Prelude.{
  Bool, true, false, not, ◌||◌, List, [], ◌∷◌, Option, none, some, if◌then◌else◌, any_of, ◌==◌,
}
use siem_lite.Text.Chars.{Text, codes, lower, strip, member, text_eq}
use siem_lite.Text.Search.{starts_with, ends_with, contains}
use siem_lite.Value.Defs.{Value, null, boolean, str, as_list}
use siem_lite.Value.Render.{show}
use siem_lite.Detection.Glob.{glob_match}

-- `re.IGNORECASE`, `re.MULTILINE` and `re.DOTALL`
pub record ReFlags : Type 0 where
  pub ignore_case : Bool
  pub multiline : Bool
  pub dotall : Bool

-- What the engine takes from Python: floats, regular expressions and IP networks.
pub record Python : Type 1 where
  pub Float : Type 0
  -- `float(s)`; `none` is the ValueError
  pub to_float : Text → Option Float
  pub lt_float : Float → Float → Bool
  pub le_float : Float → Float → Bool
  -- `re.search(pattern, s, flags)`; `none` is `re.error`
  pub re_search : Text → Text → ReFlags → Option Bool
  -- `ip_address(x) in ip_network(network, strict=False)`; `none` is the ValueError
  pub in_network : Text → Text → Option Bool

pub data NumOp : Type 0 where
  lt lte gt gte : NumOp

pub data StrOp : Type 0 where
  re contains_op startswith endswith : StrOp

unfoldable pub as_bool : Value → Bool
unfolding show strip lower member
as_bool (boolean b) = b
as_bool v = member (lower (strip (show v))) (codes "true" ∷ codes "1" ∷ codes "yes" ∷ [])

unfoldable pub re_flags : List Text → Bool → ReFlags
unfolding member
re_flags mods cased = record {
  ignore_case = not cased || member (codes "i") mods;
  multiline = member (codes "m") mods;
  dotall = member (codes "s") mods;
}

-- `x is None or x == ""`
unfoldable pub is_blank : Value → Bool
is_blank null = true
is_blank (str []) = true
is_blank _ = false

module _ (py : Python) where
  abbrev to_num : Value → Option py.Float
  to_num v = py.to_float (strip (show v))

  abbrev compare_num : NumOp → py.Float → py.Float → Bool
  compare_num lt a b = py.lt_float a b
  compare_num lte a b = py.le_float a b
  compare_num gt a b = py.lt_float b a
  compare_num gte a b = py.le_float b a

  unfoldable pub match_numeric : Value → Value → NumOp → Bool
  unfolding strip show
  match_numeric x expected op = elim (to_num x) [
    | none ↦ false
    | some a ↦ elim (to_num expected) [ none ↦ false | some b ↦ compare_num op a b ]
  ]

  unfoldable pub match_cidr : Value → Value → Bool
  unfolding strip show
  match_cidr x network = elim (py.in_network (strip (show x)) (strip (show network))) [
    | none ↦ false
    | some b ↦ b
  ]

  -- The part of `_match_scalar` after the regular expressions.
  unfoldable pub match_text : Text → Text → Option StrOp → Bool
  unfolding starts_with ends_with contains text_eq glob_match
  match_text s e (some contains_op) = contains e s
  match_text s e (some startswith) = starts_with e s
  match_text s e (some endswith) = ends_with e s
  match_text s e _ =
      if any_of (λ c. c == b'*') e || any_of (λ c. c == b'?') e then glob_match e s else text_eq s e

  unfoldable pub match_present : Text → Text → Option StrOp → Bool → ReFlags → Bool
  unfolding match_text lower
  match_present s e (some re) cased flags = elim (py.re_search e s flags) [
    | none ↦ false
    | some b ↦ b
  ]
  match_present s e op cased flags =
      if cased then match_text s e op else match_text (lower s) (lower e) op

  match_string : Value → Value → Option StrOp → Bool → ReFlags → Bool
  unfolding match_present is_blank show
  match_string x null op cased flags = is_blank x
  match_string null expected op cased flags = false
  match_string x expected op cased flags = match_present (show x) (show expected) op cased flags

  unfoldable pub match_scalar : Value → Value → Option StrOp → Bool → ReFlags → Bool → Bool
  unfolding match_string match_cidr
  match_scalar x expected op cased flags cidr =
      if cidr then match_cidr x expected else match_string x expected op cased flags

  unfoldable pub match_value : Value → Value → Option StrOp → Bool → ReFlags → Bool → Bool
  unfolding match_scalar as_list
  match_value val expected op cased flags cidr =
      any_of (λ x. match_scalar x expected op cased flags cidr) (as_list val)
