-- ===== src/Cim/Tests.antt =====
-- Tests of the data models.
use siem_lite.Prelude.{ℕ, ◌≡◌, refl, List, [], ◌∷◌, arith}
use siem_lite.Prelude.Sort.{sorted, text_le}
use siem_lite.Prelude.Except.{ok}
use siem_lite.Text.Chars.{Text, codes}
use siem_lite.Cim.Spec.{CimRegistry}
use siem_lite.Cim.Match.{event}
use siem_lite.Cim.Plan.{Plan, compile, tags_of_plan, tags_for}
use siem_lite.Cim.Agree.{reference_tags, tags_of_plan-reference}
use siem_lite.Cim.Cache
use siem_lite.Cim.Cache.{SameTags, CacheIsValid}
use siem_lite.Samples.{registry, failed_logon}

abbrev plan_example : Plan
plan_example = record {
  models =
      (
        codes "auth",
        (record {
          column = codes "action";
          paths = [];
          values = codes "failed-logon" ∷ codes "logon" ∷ [];
        }
              ∷ [])
            ∷ (record {
              column = [];
              paths = (codes "EventID", []) ∷ [];
              values = codes "4625" ∷ [];
            }
                ∷ [])
            ∷ [],
      )
      ∷ [];
  columns = codes "action" ∷ [];
}

compile_example : compile registry ≡ ok plan_example
unfolding compile
compile_example = refl

tags_example : tags_of_plan plan_example (event failed_logon) ≡ codes "auth" ∷ []
unfolding tags_of_plan
tags_example = refl

tags_of_plan-reference_example :
    (ts : List Text) × (reference_tags registry.models (event failed_logon) ≡ ok ts)
    × (tags_of_plan plan_example (event failed_logon) ≡ sorted text_le ts)
tags_of_plan-reference_example =
    tags_of_plan-reference registry plan_example (event failed_logon) compile_example

abbrev heap_example : ℕ → CimRegistry
heap_example n = registry

tags_for-SameTags_example :
    SameTags heap_example
      (event failed_logon)
      (compile (heap_example 7))
      (tags_for heap_example (event failed_logon) 7 ((3, 3, plan_example) ∷ []))
tags_for-SameTags_example =
    Cache.tags_for-SameTags heap_example (event failed_logon) 7 ((3, 3, plan_example) ∷ [])
      ((refl, compile_example, tt), omega arith)
