-- ===== src/Triage/Criteria.antt =====
-- What a suppression silences, criterion by criterion, and what the index finds.
use siem_lite.Prelude.{
  ◌≡◌, refl, ap, Bool, true, false, not, ◌&&◌, ◌||◌, List, [], ◌∷◌, Option, none, some, arith, inl,
  inr, Bool-cases, if◌then◌else◌, if_false, sym, ◌∙◌, is_empty, any_of, all_of,
}
use siem_lite.Text.Chars.{Text, codes}
use siem_lite.Value.Defs.{Fields, field_or_null}
use siem_lite.Triage.{
  Networks, Suppression, is_set, has_no_criteria, is_text, ci_eq, ip_match, fails, matches,
  first_match, new_index,
}

-- A criterion with the test that it stands for.
abbrev pub Criterion : Type 0
Criterion = Option Text × (Text → Bool)

-- A chain of early returns is a conjunction.
early_returns :
    (some_set a b c d e : Bool)
    → (if not some_set
        then false
        else if a
        then false
        else if b
        then false
        else if c
        then false
        else if d
        then false
        else not e)
      ≡ (some_set && (not a && (not b && (not c && (not d && (not e && true))))))
early_returns false a b c d e = refl
early_returns true true b c d e = refl
early_returns true false true c d e = refl
early_returns true false false true d e = refl
early_returns true false false false true e = refl
early_returns true false false false false true = refl
early_returns true false false false false false = refl

module _ (ip : Networks) where
  -- The five criteria of a suppression against an alert.
  abbrev pub criteria : Suppression → Fields → List Criterion
  criteria s alert =
      (s.rule_id, λ c. is_text c (field_or_null (codes "rule_id") alert))
      ∷ (s.vendor, λ c. ci_eq c (field_or_null (codes "vendor") alert))
      ∷ (s.user_name, λ c. ci_eq c (field_or_null (codes "user_name") alert))
      ∷ (s.host_name, λ c. ci_eq c (field_or_null (codes "host_name") alert))
      ∷ (s.src_ip, λ c. ip_match ip c (field_or_null (codes "src_ip") alert))
      ∷ []

  abbrev pub holds : Criterion → Bool
  holds (none, test) = true
  holds (some c, test) = is_empty c || test c

  holds-fails : (c : Option Text) (test : Text → Bool) → holds (c, test) ≡ not (fails ip c test)
  holds-fails none test = refl
  holds-fails (some c) test = ground arith

  -- A suppression silences an alert exactly if some criterion is set and all that are set hold: one
  -- without criteria silences nothing.
  pub matches-criteria :
      (s : Suppression) (alert : Fields)
      → matches ip s alert ≡ (
          any_of (λ (c : Criterion). is_set c.0) (criteria s alert)
          && all_of holds (criteria s alert))
  unfolding matches
  matches-criteria s alert =
      let at_rule = λ (c : Text). is_text c (field_or_null (codes "rule_id") alert) in
      let at_vendor = λ (c : Text). ci_eq c (field_or_null (codes "vendor") alert) in
      let at_user = λ (c : Text). ci_eq c (field_or_null (codes "user_name") alert) in
      let at_host = λ (c : Text). ci_eq c (field_or_null (codes "host_name") alert) in
      let at_ip = λ (c : Text). ip_match ip c (field_or_null (codes "src_ip") alert) in
      rw
        (
          holds-fails s.rule_id at_rule,
          holds-fails s.vendor at_vendor,
          holds-fails s.user_name at_user,
          holds-fails s.host_name at_host,
          holds-fails s.src_ip at_ip,
        )
        (early_returns _ (fails ip s.rule_id at_rule) (fails ip s.vendor at_vendor)
          (fails ip s.user_name at_user) (fails ip s.host_name at_host) (fails ip s.src_ip at_ip))

  matches-no_criteria :
      (s : Suppression) (alert : Fields) → has_no_criteria s ≡ true → matches ip s alert ≡ false
  unfolding matches
  matches-no_criteria s alert h = rw h refl

  -- What an index is built from decides what it finds: leaving out the suppressions without
  -- criteria changes no answer.
  pub first_match-new_index :
      (rules : List Suppression) (alert : Fields)
      → first_match ip (new_index rules) alert ≡ first_match ip rules alert
  unfolding first_match new_index
  first_match-new_index [] alert = refl
  first_match-new_index (s ∷ rules) alert =
      let kept = new_index rules in
      let built = λ (b : Bool). first_match ip (if not b then s ∷ kept else kept) alert in
      elim (Bool-cases (has_no_criteria s)) [
        | inl e ↦
            ap built e
            ∙ first_match-new_index rules alert
            ∙ sym (
                if_false (matches ip s alert) (some s) (first_match ip rules alert)
                  (matches-no_criteria s alert e))
        | inr e ↦
            ap built e
            ∙ ap (λ (m : Option Suppression). if matches ip s alert then some s else m)
                (first_match-new_index rules alert)
      ]
