-- ===== src/SourceHealth/Tests.antt =====
-- Tests of the source health.
use siem_lite.Prelude.{ℕ, ◌≡◌, refl, Bool, ◌&&◌, List, [], ◌∷◌, Option, some, any_of}
use siem_lite.Prelude.Sort.{IsSorted}
use siem_lite.Text.Chars.{Text, codes, strip}
use siem_lite.SourceHealth.{
  Activity, SourceState, human_age, before_or_equal, is_established, state_of, assess, source_key,
}
use siem_lite.SourceHealth.Order.{assess-IsSorted}
use siem_lite.SourceHealth.Identity.{IsPlain, silent_text-source_key}

age_example : human_age 183900 ≡ codes "2d 3h"
unfolding human_age
age_example = refl

abbrev activity : Text → Option ℕ → ℕ → Activity
activity name last n = record {
  vendor = some name;
  log_type = some (codes "log");
  last_seen = last;
  n = n;
}

abbrev rows : List Activity
rows =
    activity (codes "okta") (some 9900) 50
    ∷ activity (codes "zeek") (some 5000) 50
    ∷ activity (codes "asa") (some 4000) 50
    ∷ activity (codes "blip") (some 1) 2
    ∷ []

assess_example :
    assess 10000 3600 10 rows
    ≡ state_of 10000 3600 (activity (codes "asa") (some 4000) 50)
      ∷ state_of 10000 3600 (activity (codes "zeek") (some 5000) 50)
      ∷ state_of 10000 3600 (activity (codes "okta") (some 9900) 50)
      ∷ []
unfolding assess
assess_example = refl

assess-IsSorted_example :
    IsSorted before_or_equal (assess 10000 3600 10 rows)
    × ((p : SourceState → Bool)
        → any_of p (assess 10000 3600 10 rows)
          ≡ any_of (λ r. is_established 10 r && p (state_of 10000 3600 r)) rows)
assess-IsSorted_example = assess-IsSorted 10000 3600 10 rows

-- Two sources with one key.
keys_shared :
    source_key (some (codes "a/b")) (some (codes "c"))
    ≡ source_key (some (codes "a")) (some (codes "b/c"))
unfolding source_key
keys_shared = refl

okta_source : IsPlain (some (codes "okta ")) (some (codes "log"))
unfolding strip
okta_source = (refl, refl, refl)

spaced_source : IsPlain (some (codes " okta")) (some (codes "log"))
unfolding strip
spaced_source = (refl, refl, refl)

silent_text-source_key_example :
    (strip (codes "okta ") ≡ strip (codes " okta"))
    × (strip (codes "log") ≡ strip (codes "log"))
    × (◌≡◌ {A = ℕ} 2 2)
unfolding source_key
silent_text-source_key_example =
    silent_text-source_key (some (codes "okta ")) (some (codes " okta")) (some (codes "log"))
      (some (codes "log")) 2 2 okta_source spaced_source refl
