-- ===== src/Cim/Plan.antt =====
-- The compiled plan, its cache, `tags_for` and `cim_models_for`.
use siem_lite.Prelude.{
  ℕ, Bool, true, false, not, List, [], ◌∷◌, Option, none, some, is_empty, if◌then◌else◌, length,
  leb, ◌==◌,
}
use siem_lite.Prelude.Sort.{sorted, text_le}
use siem_lite.Prelude.Except.{Except, ok, ◌>>=◌}
use siem_lite.Text.Chars.{Text, text_eq, member}
use siem_lite.Value.Defs.{Fields}
use siem_lite.Cim.Spec.{CimError, CimTerm, CimClause, CimModel, CimRegistry}
use siem_lite.Cim.Match.{EventLike, ColumnTexts, column_texts, raw_of, Term, compile_term, term_hit}

-- A model's tag and its clauses of compiled terms.
abbrev pub Compiled : Type 0
Compiled = Text × List (List Term)

pub record Plan : Type 0 where
  pub models : List Compiled
  pub columns : List Text

abbrev pub compile_terms : List CimTerm → Except CimError (List Term)
compile_terms [] = ok []
compile_terms (t ∷ ts) = do c ← compile_term t; cs ← compile_terms ts; ok (c ∷ cs)

abbrev pub compile_clauses : List CimClause → Except CimError (List (List Term))
compile_clauses [] = ok []
compile_clauses (t ∷ ts) = do c ← compile_terms t; cs ← compile_clauses ts; ok (c ∷ cs)

abbrev pub compile_models : List CimModel → Except CimError (List Compiled)
compile_models [] = ok []
compile_models (m ∷ ms) = do
  c ← compile_clauses m.clauses
  cs ← compile_models ms
  ok ((m.tag, c) ∷ cs)

-- A text joins a set if it is not in it.
abbrev add_text : Text → List Text → List Text
add_text t ts = if member t ts then ts else t ∷ ts

abbrev pub term_columns_of : List Term → List Text → List Text
term_columns_of [] cols = cols
term_columns_of (t ∷ ts) cols =
    let rest = term_columns_of ts cols in if is_empty t.column then rest else add_text t.column rest

abbrev pub clause_columns : List (List Term) → List Text → List Text
clause_columns [] cols = cols
clause_columns (c ∷ cs) cols = term_columns_of c (clause_columns cs cols)

abbrev pub model_columns : List Compiled → List Text
model_columns [] = []
model_columns ((tag, clauses) ∷ ms) = clause_columns clauses (model_columns ms)

-- `_compile`
unfoldable pub compile : CimRegistry → Except CimError Plan
unfolding compile_term member text_eq sorted text_le
compile reg = do
  models ← compile_models reg.models
  ok (record { models = models; columns = sorted text_le (model_columns models) })

-- The inner loop of `tags_for`: every term of a clause hits.
unfoldable pub hits_all : List Term → ColumnTexts → Option Fields → Bool
unfolding term_hit
hits_all [] ctext raw = true
hits_all (t ∷ ts) ctext raw = if not (term_hit t ctext raw) then false else hits_all ts ctext raw

-- The middle loop: some clause with terms hits.
unfoldable pub hits_any : List (List Term) → ColumnTexts → Option Fields → Bool
unfolding hits_all
hits_any [] ctext raw = false
hits_any ([] ∷ cs) ctext raw = hits_any cs ctext raw
hits_any ((t ∷ ts) ∷ cs) ctext raw =
    if hits_all (t ∷ ts) ctext raw then true else hits_any cs ctext raw

-- The outer loop.
unfoldable pub hit_tags : List Compiled → ColumnTexts → Option Fields → List Text
unfolding hits_any
hit_tags [] ctext raw = []
hit_tags ((tag, clauses) ∷ ms) ctext raw =
    if hits_any clauses ctext raw then tag ∷ hit_tags ms ctext raw else hit_tags ms ctext raw

unfoldable pub tags_of_plan : Plan → EventLike → List Text
unfolding hit_tags column_texts raw_of sorted text_le
tags_of_plan plan evt =
    sorted text_le (hit_tags plan.models (column_texts evt plan.columns) (raw_of evt))

-- The cache holds, under the identity of a registry object, that object and its plan.
abbrev pub PlanCache : Type 0
PlanCache = List (ℕ × ℕ × Plan)

abbrev pub plan_cache_max : ℕ
plan_cache_max = 8

abbrev pub lookup_plan : ℕ → PlanCache → Option (ℕ × Plan)
lookup_plan key [] = none
lookup_plan key ((k, obj, plan) ∷ cache) =
    if k == key then some (obj, plan) else lookup_plan key cache

-- `_plan_cache[key] = (reg, plan)`
abbrev pub store_plan : ℕ → Plan → PlanCache → PlanCache
store_plan key plan [] = (key, key, plan) ∷ []
store_plan key plan ((k, obj, p) ∷ cache) =
    if k == key then (key, key, plan) ∷ cache else (k, obj, p) ∷ store_plan key plan cache

-- First in, first out.
abbrev pub evict : PlanCache → PlanCache
evict [] = []
evict (e ∷ cache) = if leb plan_cache_max (length (e ∷ cache)) then cache else e ∷ cache

-- `_plan`, over the registry object `key`, whose contents `heap` gives.
module _ (heap : ℕ → CimRegistry) where
  abbrev compile_into : ℕ → PlanCache → Except CimError (Plan × PlanCache)
  compile_into key cache = do
    plan ← compile (heap key)
    ok (plan, store_plan key plan (evict cache))

  unfoldable pub plan_for : ℕ → PlanCache → Except CimError (Plan × PlanCache)
  unfolding compile
  plan_for key cache = elim (lookup_plan key cache) [
    | none ↦ compile_into key cache
    | some (obj, plan) ↦ if obj == key then ok (plan, cache) else compile_into key cache
  ]

  unfoldable pub tags_for : EventLike → ℕ → PlanCache → Except CimError (List Text × PlanCache)
  unfolding plan_for tags_of_plan
  tags_for evt key cache = do
    (plan, cache') ← plan_for key cache
    ok (tags_of_plan plan evt, cache')

-- `clear_plan_cache`
pub clear_plan_cache : PlanCache → PlanCache
clear_plan_cache cache = []

-- `x or None` of a list
abbrev pub none_if_empty : List Text → Option (List Text)
none_if_empty [] = none
none_if_empty (t ∷ ts) = some (t ∷ ts)

-- `cim_models_for` with the membership resolved already
unfoldable pub cim_models_of_tags : List Text → Option (List Text)
unfolding sorted text_le
cim_models_of_tags tags = none_if_empty (sorted text_le tags)
