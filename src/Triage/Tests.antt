-- ===== src/Triage/Tests.antt =====
-- Tests of the suppressions.
use siem_lite.Prelude.{
  ◌≡◌, refl, true, false, ◌&&◌, [], ◌∷◌, none, some, any_of, all_of, if◌then◌else◌,
}
use siem_lite.Text.Chars.{Text, codes, text_eq}
use siem_lite.Value.Defs.{str, Fields, end, field}
use siem_lite.Triage.{Networks, Suppression, is_set, matches, first_match, new_index}
use siem_lite.Triage.Criteria.{Criterion, criteria, holds, matches-criteria, first_match-new_index}

-- One network holds one address.
abbrev lab : Networks
lab = record {
  Network = Text;
  ip_network = λ s. if text_eq s (codes "10.0.0.0/8") then some s else none;
  holds = λ net s. some (text_eq s (codes "10.0.0.7"));
}

abbrev nothing : Suppression
nothing = record {
  name = codes "nothing";
  rule_id = none;
  vendor = some [];
  user_name = none;
  host_name = none;
  src_ip = none;
}

abbrev scanner : Suppression
scanner = record nothing {
  name = codes "scanner";
  vendor = some (codes "ACME");
  src_ip = some (codes "10.0.0.0/8");
}

abbrev scan : Fields
scan =
    field (codes "vendor") (str (codes "acme"))
      (field (codes "src_ip") (str (codes "10.0.0.7")) end)

silenced : matches lab scanner scan ≡ true
unfolding matches
silenced = refl

not_silenced : matches lab nothing scan ≡ false
unfolding matches
not_silenced = refl

matches-criteria_example : matches lab scanner scan ≡ (
    any_of (λ (c : Criterion). is_set c.0) (criteria lab scanner scan)
    && all_of (holds lab) (criteria lab scanner scan))
matches-criteria_example = matches-criteria lab scanner scan

first_match-new_index_example :
    first_match lab (new_index (nothing ∷ scanner ∷ [])) scan
    ≡ first_match lab (nothing ∷ scanner ∷ []) scan
first_match-new_index_example = first_match-new_index lab (nothing ∷ scanner ∷ []) scan
