-- ===== src/Loql/Parser/Closed.antt =====
-- Which queries the grammar of `app/loql/parser.py` can build, independently of the parser: closed
-- expressions, identifiers for every name, whitelisted aggregates, and one source, which comes first.
use siem_lite.Prelude.{◌≡◌, ◌≢◌, Bool, true, false, List, [], ◌∷◌, Option, none, some, All, all_of}
use siem_lite.Text.Chars.{Text, codes, member}
use siem_lite.Loql.Nodes.{
  Agg, Stage, search, filter, evaluate, keep_columns, rename, sort, head, dedup, stats, top, bin,
  timechart, Query,
}
use siem_lite.Loql.Lexer.{is_identifier}
use siem_lite.Loql.Expr.Closed.{IsClosed}
use siem_lite.Loql.Commands.{aggregates}

abbrev pub IsName : Text → Type 0
IsName s = is_identifier s ≡ true

-- What is there, if anything, has the property.
abbrev pub IfThere {ℓ} : {A : Type ℓ} → (A → Type 0) → Option A → Type 0
IfThere P none = Unit
IfThere P (some a) = P a

-- A known aggregate, of a field unless it counts.
unfoldable pub IsClosedAgg : Agg → Type 0
unfolding member
IsClosedAgg a =
    (member a.func aggregates ≡ true)
    × (a.arg ≡ none → a.func ≡ codes "count")
    × IfThere IsName a.arg
    × IsName a.out

unfoldable pub IsClosedStage : Stage → Type 0
unfolding IsClosed IsClosedAgg
IsClosedStage (search e model) = IfThere IsClosed e × IfThere (λ s. s ≢ []) model
IsClosedStage (filter e) = IsClosed e
IsClosedStage (evaluate name e) = IsName name × IsClosed e
IsClosedStage (keep_columns names remove) = All IsName names
IsClosedStage (rename pairs) = All (λ (a, b). IsName a × IsName b) pairs
IsClosedStage (sort keys) = All (λ (a, desc). IsName a) keys
IsClosedStage (head n) = Unit
IsClosedStage (dedup names) = All IsName names
IsClosedStage (stats aggs by) = All IsClosedAgg aggs × All IsName by
IsClosedStage (top field n rare by) = IsName field × All IsName by
IsClosedStage (bin field span out) = IsName field × IfThere IsName out
IsClosedStage (timechart aggs span by) = All IsClosedAgg aggs × IfThere IsName by

-- No data model is read.
abbrev pub reads_none : Stage → Bool
reads_none (search e (some model)) = false
reads_none stage = true

-- A search comes first, and no later stage reads a data model.
abbrev pub is_pipeline : List Stage → Bool
is_pipeline (search e model ∷ stages) = all_of reads_none stages
is_pipeline stages = false

unfoldable pub IsClosedQuery : Query → Type 0
unfolding IsClosedStage
IsClosedQuery q = (is_pipeline q.stages ≡ true) × All IsClosedStage q.stages
