-- ===== src/Correlation/Tests.antt =====
-- Tests of the correlation rules.
use siem_lite.Prelude.{ℕ, ◌≡◌, refl, [], ◌∷◌, none}
use siem_lite.Text.Chars.{Text, codes}
use siem_lite.Value.Defs.{pos, str}
use siem_lite.Correlation.{CorrelationRule, GroupValues, identity, window_seconds}
use siem_lite.Correlation.Identity.{dedup_text-bucket}

abbrev burst : CorrelationRule
burst = record {
  id = codes "brute";
  title = codes "Brute force";
  level = codes "high";
  group_by = codes "host_name" ∷ codes "user_name" ∷ [];
  window = 300;
  distinct_field = none;
  tactics = [];
  techniques = [];
}

abbrev group_of : Text → Text → GroupValues
group_of host user = (codes "host_name", str host) ∷ (codes "user_name", str user) ∷ []

five_minutes : window_seconds (λ t. pos 0) (str (codes " 5 M ")) ≡ pos 300
unfolding window_seconds
five_minutes = refl

no_unit : window_seconds (λ t. pos 0) (str (codes "5")) ≡ pos 300
unfolding window_seconds
no_unit = refl

dedup_text-bucket_example :
    (identity (group_of (codes "db1") (codes "alice"))
      ≡ identity (group_of (codes "db1") (codes "alice")))
    × (◌≡◌ {A = ℕ} 7 7)
dedup_text-bucket_example =
    dedup_text-bucket burst (group_of (codes "db1") (codes "alice"))
      (group_of (codes "db1") (codes "alice")) 7 7 refl

-- Two groups whose values hold the separators share an identity.
collision :
    identity (group_of (codes "a|user_name=b") (codes "c"))
    ≡ identity (group_of (codes "a") (codes "b|user_name=c"))
unfolding identity
collision = refl
