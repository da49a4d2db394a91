-- ===== src/Cim/Cache.antt =====
-- The plan cache of `app/cim/match.py`: no answer depends on what is in it, and it stays small.
use siem_lite.Prelude.{
  ℕ, suc, ◌≤◌, ◌≡◌, refl, true, List, [], ◌∷◌, some, length, arith, inl, inr, Bool-cases,
  Option-cases, ◌==◌, leb,
}
use siem_lite.Prelude.Except.{Except, ok, raise, ◌>>=◌}
use siem_lite.Text.Chars.{Text}
use siem_lite.Cim.Spec.{CimError, CimRegistry}
use siem_lite.Cim.Match.{EventLike}
use siem_lite.Cim.Plan.{
  Plan, compile, tags_of_plan, PlanCache, lookup_plan, store_plan, evict, plan_for, tags_for,
  plan_cache_max,
}

module _ (heap : ℕ → CimRegistry) where
  -- Each entry holds the plan of the registry object under whose identity it is kept.
  abbrev pub Plans : PlanCache → Type 0
  Plans [] = Unit {0}
  Plans ((k, obj, plan) ∷ cache) = (k ≡ obj) × (compile (heap k) ≡ ok plan) × Plans cache

  -- The invariant of the cache.
  abbrev pub CacheIsValid : PlanCache → Type 0
  CacheIsValid cache = Plans cache × (length cache ≤ plan_cache_max)

  Plans-lookup :
      (key obj : ℕ) (plan : Plan) (cache : PlanCache)
      → Plans cache
      → lookup_plan key cache ≡ some (obj, plan)
      → (key ≡ obj) × (compile (heap key) ≡ ok plan)
  Plans-lookup key obj plan [] v h = absurd (ground arith)
  Plans-lookup key obj plan ((k, o, p) ∷ cache) (a, b, v) h = elim (Bool-cases (k == key)) [
    | inl e ↦ let q : k ≡ key = ground arith in rw (← q) (ground arith, ground arith)
    | inr e ↦ Plans-lookup key obj plan cache v (ground arith)
  ]

  Plans-store :
      (key : ℕ) (plan : Plan) (cache : PlanCache)
      → compile (heap key) ≡ ok plan
      → Plans cache
      → Plans (store_plan key plan cache)
  Plans-store key plan [] c v = (refl, c, tt)
  Plans-store key plan ((k, o, p) ∷ cache) c (a, b, v) = elim (Bool-cases (k == key)) [
    | inl e ↦ rw e (refl, c, v)
    | inr e ↦ rw e (a, b, Plans-store key plan cache c v)
  ]

  Plans-evict : (cache : PlanCache) → Plans cache → Plans (evict cache)
  Plans-evict [] v = v
  Plans-evict ((k, o, p) ∷ cache) (a, b, v) =
      elim (Bool-cases (leb plan_cache_max (length ((k, o, p) ∷ cache)))) [
        | inl e ↦ rw e v
        | inr e ↦ rw e (a, b, v)
      ]

  length-store_plan-le :
      (key : ℕ) (plan : Plan) (cache : PlanCache)
      → length (store_plan key plan cache) ≤ suc (length cache)
  length-store_plan-le key plan [] = omega arith
  length-store_plan-le key plan ((k, o, p) ∷ cache) =
      ground (arith, length-store_plan-le key plan cache)

  length-evict-lt :
      (cache : PlanCache)
      → length cache ≤ plan_cache_max
      → suc (length (evict cache)) ≤ plan_cache_max
  length-evict-lt [] h = omega arith
  length-evict-lt (e ∷ cache) h = ground arith

  -- What `_plan` returns, cache and all, against compiling afresh.
  abbrev Agrees : Except CimError Plan → Except CimError (Plan × PlanCache) → Type 0
  Agrees (raise e) r = r ≡ raise e
  Agrees (ok plan) r = (cache : PlanCache) × (r ≡ ok (plan, cache)) × CacheIsValid cache

  Agrees-compile :
      (key : ℕ) (cache : PlanCache) (c : Except CimError Plan)
      → CacheIsValid cache
      → compile (heap key) ≡ c
      → Agrees c (c >>= λ plan. ok (plan, store_plan key plan (evict cache)))
  Agrees-compile key cache (raise e) v h = refl
  Agrees-compile key cache (ok plan) (v, n) h = (
    store_plan key plan (evict cache),
    refl,
    (
      Plans-store key plan (evict cache) h (Plans-evict cache v),
      omega (arith, length-store_plan-le key plan (evict cache), length-evict-lt cache n),
    ),
  )

  plan_for-Agrees :
      (key : ℕ) (cache : PlanCache)
      → CacheIsValid cache
      → Agrees (compile (heap key)) (plan_for heap key cache)
  unfolding plan_for
  plan_for-Agrees key cache v = elim (Option-cases (lookup_plan key cache)) [
    | inl miss ↦ rw (miss, plan_for) (Agrees-compile key cache (compile (heap key)) v refl)
    | inr ((obj, plan), hit) ↦
        let (a, b) = Plans-lookup key obj plan cache v.0 hit in
        let same : (obj == key) ≡ true = ground arith in
        rw (hit, plan_for, same, b) (cache, refl, v)
  ]

  -- The answer of `tags_for` against the answer without a cache.
  abbrev pub SameTags :
      EventLike → Except CimError Plan → Except CimError (List Text × PlanCache) → Type 0
  SameTags evt (raise e) r = r ≡ raise e
  SameTags evt (ok plan) r =
      (cache : PlanCache) × (r ≡ ok (tags_of_plan plan evt, cache)) × CacheIsValid cache

  SameTags-of :
      (evt : EventLike) (c : Except CimError Plan) (r : Except CimError (Plan × PlanCache))
      → Agrees c r
      → SameTags evt c (r >>= λ (plan, cache'). ok (tags_of_plan plan evt, cache'))
  SameTags-of evt (raise e) r a = rw a
  SameTags-of evt (ok plan) r (cache, e, v) = (cache, rw e, v)

  -- With a valid cache `tags_for` answers as if it compiled the registry each time, raises
  -- exactly when compiling raises, and leaves the cache valid and within its bound.
  pub tags_for-SameTags :
      (evt : EventLike) (key : ℕ) (cache : PlanCache)
      → CacheIsValid cache
      → SameTags evt (compile (heap key)) (tags_for heap evt key cache)
  unfolding tags_for
  tags_for-SameTags evt key cache v = SameTags-of evt _ _ (plan_for-Agrees key cache v)
