-- ===== src/Triage.antt =====
-- `app/triage/suppression.py`: which alerts an analyst's suppressions silence. The package ipaddress
-- enters as a record: whether a text is a network, and whether an address is in one.
pub mod Criteria
mod Tests
use siem_lite.Prelude.{
  Bool, true, false, not, ◌&&◌, ◌||◌, List, [], ◌∷◌, ◌++◌, Option, none, some, if◌then◌else◌,
  is_empty, any_of, keep,
}
use siem_lite.Text.Chars.{Text, codes, text_eq, lower, strip}
use siem_lite.Value.Defs.{Value, null, str, Fields, field_or_null}
use siem_lite.Value.Render.{show}

-- `ip_network(s, strict=False)` gives a network or raises, and `ip_address(s) in net` answers or
-- raises.
pub record Networks : Type 1 where
  pub Network : Type 0
  pub ip_network : Text → Option Network
  pub holds : Network → Text → Option Bool

pub record Suppression : Type 0 where
  pub name : Text
  pub rule_id : Option Text
  pub vendor : Option Text
  pub user_name : Option Text
  pub host_name : Option Text
  pub src_ip : Option Text

-- Is the criterion set? An empty text is not.
abbrev pub is_set : Option Text → Bool
is_set none = false
is_set (some s) = not (is_empty s)

-- `Suppression.is_empty`
abbrev pub has_no_criteria : Suppression → Bool
has_no_criteria s =
    not (any_of is_set (s.rule_id ∷ s.vendor ∷ s.user_name ∷ s.host_name ∷ s.src_ip ∷ []))

-- `s.rule_id != alert.get("rule_id")`, the other way round
abbrev pub is_text : Text → Value → Bool
is_text s (str t) = text_eq s t
is_text s _ = false

-- `_ci_eq`, for a criterion that is set
unfoldable pub ci_eq : Text → Value → Bool
unfolding lower text_eq show
ci_eq s null = false
ci_eq s v = text_eq (lower s) (lower (show v))

abbrev is_blank_value : Value → Bool
is_blank_value null = true
is_blank_value (str []) = true
is_blank_value _ = false

abbrev or_false : Option Bool → Bool
or_false none = false
or_false (some b) = b

module _ (ip : Networks) where
  abbrev pub in_network : Text → Value → Option ip.Network → Bool
  in_network pattern value none = text_eq (lower (strip pattern)) (lower (strip (show value)))
  in_network pattern value (some net) = or_false (ip.holds net (strip (show value)))

  -- `_ip_match`
  unfoldable pub ip_match : Text → Value → Bool
  unfolding lower strip text_eq show
  ip_match pattern value =
      if is_blank_value value
      then false
      else in_network pattern value (ip.ip_network (strip pattern))

  -- A criterion that is set and fails.
  abbrev pub fails : Option Text → (Text → Bool) → Bool
  fails none test = false
  fails (some s) test = not (is_empty s) && not (test s)

  unfoldable pub matches : Suppression → Fields → Bool
  unfolding field_or_null ci_eq ip_match text_eq
  matches s alert =
      if has_no_criteria s
      then false
      else if fails s.rule_id (λ c. is_text c (field_or_null (codes "rule_id") alert))
      then false
      else if fails s.vendor (λ c. ci_eq c (field_or_null (codes "vendor") alert))
      then false
      else if fails s.user_name (λ c. ci_eq c (field_or_null (codes "user_name") alert))
      then false
      else if fails s.host_name (λ c. ci_eq c (field_or_null (codes "host_name") alert))
      then false
      else not (fails s.src_ip (λ c. ip_match c (field_or_null (codes "src_ip") alert)))

  -- `SuppressionIndex.match`
  unfoldable pub first_match : List Suppression → Fields → Option Suppression
  unfolding matches
  first_match [] alert = none
  first_match (s ∷ rules) alert = if matches s alert then some s else first_match rules alert

-- `SuppressionIndex.__init__` and `SuppressionIndex.add`
unfoldable pub new_index : List Suppression → List Suppression
new_index rules = keep (λ s. not (has_no_criteria s)) rules

unfoldable pub add : Suppression → List Suppression → List Suppression
add s rules = if has_no_criteria s then rules else rules ++ s ∷ []
