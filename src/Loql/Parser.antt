-- ===== src/Loql/Parser.antt =====
-- `parse` of `app/loql/parser.py`: the stages of a query, in front of them its source.
pub mod Closed
pub mod Total
use siem_lite.Prelude.{
  ℕ, zero, suc, ◌+◌, ◌*◌, ◌==◌, Bool, true, false, ◌&&◌, ◌||◌, not, List, [], ◌∷◌, ◌++◌, Option,
  none, some, length, if◌then◌else◌,
}
use siem_lite.Text.Chars.{Text, codes, text_eq, member, lower, strip}
use siem_lite.Loql.Result.{
  missing_colon, source_not_first, expected_command, misplaced_from, unknown_command, empty_query,
  Result, ok, failed, out_of_fuel, ◌>>=◌, fail,
}
use siem_lite.Loql.Nodes.{
  Expr, Agg, Stage, search, filter, evaluate, keep_columns, rename, sort, head, dedup, stats, top,
  bin, timechart, Query,
}
use siem_lite.Loql.Lexer.{op, pipe, colon, id, kw, eof, Tok, lex}
use siem_lite.Loql.Tokens.{
  is, is_kind, is_name, shown, cur, at, advance, eat, eat_val, name_of, int_of,
}
use siem_lite.Loql.Commands.{
  list_of, parse_expr, search_expr, model_name, alias, agg, by_clause, span_opt, sign, rename_pair,
  sort_key, top_like,
}

-- `_COMMANDS`
pub data Command : Type 0 where
  search_command : Command
  where_command : Command
  eval_command : Command
  fields_command : Command
  rename_command : Command
  sort_command : Command
  head_command : Command
  dedup_command : Command
  stats_command : Command
  top_command : Command
  rare_command : Command
  bin_command : Command
  timechart_command : Command
  datamodel_command : Command

abbrev pub commands : List (Text × Command)
commands =
    (codes "search", search_command)
    ∷ (codes "where", where_command)
    ∷ (codes "eval", eval_command)
    ∷ (codes "fields", fields_command)
    ∷ (codes "rename", rename_command)
    ∷ (codes "sort", sort_command)
    ∷ (codes "head", head_command)
    ∷ (codes "dedup", dedup_command)
    ∷ (codes "stats", stats_command)
    ∷ (codes "top", top_command)
    ∷ (codes "rare", rare_command)
    ∷ (codes "bin", bin_command)
    ∷ (codes "timechart", timechart_command)
    ∷ (codes "datamodel", datamodel_command)
    ∷ []

unfoldable pub find_command : Text → List (Text × Command) → Option Command
unfolding text_eq
find_command name [] = none
find_command name ((word, c) ∷ cs) = if text_eq name word then some c else find_command name cs

module _ (float_text : Text → Text) (stop : ℕ) where
  -- The `_cmd_` functions.
  unfoldable pub run_command : Command → List Tok → Result (Stage × List Tok)
  unfolding list_of parse_expr search_expr model_name alias agg by_clause span_opt rename_pair
      sort_key top_like eat_val name_of int_of text_eq
  run_command search_command ts = do
    (e, rest) ← search_expr float_text stop ts
    ok (search e none, rest)
  run_command where_command ts = do
    (e, rest) ← parse_expr float_text stop false ts
    ok (filter e, rest)
  run_command eval_command ts = do
    (name, rest₁) ← name_of stop ts
    (_, rest₂) ← eat_val stop op (codes "=") rest₁
    (e, rest) ← parse_expr float_text stop false rest₂
    ok (evaluate name e, rest)
  run_command fields_command ts = do
    (names, rest) ← list_of (name_of stop) (sign float_text stop ts).1
    ok (keep_columns names (sign float_text stop ts).0, rest)
  run_command rename_command ts = do
    (pairs, rest) ← list_of (rename_pair float_text stop) ts
    ok (rename pairs, rest)
  run_command sort_command ts = do
    (keys, rest) ← list_of (sort_key float_text stop) ts
    ok (sort keys, rest)
  run_command head_command ts = do (n, rest) ← int_of stop (codes "head") ts; ok (head n, rest)
  run_command dedup_command ts = do
    (names, rest) ← list_of (name_of stop) ts
    ok (dedup names, rest)
  run_command stats_command ts = do
    (aggs, rest₁) ← list_of (agg float_text stop) ts
    (by, rest) ← by_clause float_text stop rest₁
    ok (stats aggs by, rest)
  run_command top_command ts = top_like float_text stop false ts
  run_command rare_command ts = top_like float_text stop true ts
  run_command bin_command ts = do
    (span, rest₁) ← span_opt float_text stop ts
    (field, rest₂) ← name_of stop rest₁
    (out, rest) ← alias float_text stop rest₂
    ok (bin field span out, rest)
  run_command timechart_command ts = do
    (span, rest₁) ← span_opt float_text stop ts
    (aggs, rest₂) ← list_of (agg float_text stop) rest₁
    (by, rest) ← elim (is kw (codes "by") (cur stop rest₂)) [
      | true ↦ do
        (_, rest₃) ← eat_val stop kw (codes "by") rest₂
        (name, rest) ← name_of stop rest₃
        ok (some name, rest)
      | false ↦ ok (none, rest₂)
    ]
    ok (timechart aggs span by, rest)
  run_command datamodel_command ts = do
    (name, rest) ← model_name float_text stop ts
    ok (search none (some name), rest)

  -- What `_COMMANDS` and `getattr` give for a name.
  abbrev pub found_command : Option Command → Text → ℕ → List Tok → Result (Stage × List Tok)
  found_command none name pos ts = fail (unknown_command name) pos
  found_command (some c) name pos ts = run_command c ts

  -- `_command`
  unfoldable pub command : List Tok → Result (Stage × List Tok)
  unfolding run_command find_command lower text_eq
  command ts = elim (is_name (cur stop ts)) [
    | true ↦ elim (text_eq (lower (cur stop ts).val) (codes "from")) [
      | true ↦ fail misplaced_from (cur stop ts).pos
      | false ↦
          let name = lower (cur stop ts).val in
          found_command (find_command name commands) name (cur stop ts).pos (advance stop ts)
    ]
    | false ↦ fail (expected_command (shown (cur stop ts))) (cur stop ts).pos
  ]

  -- `_set_datamodel`; the first stage is a search always.
  unfoldable pub set_datamodel : List Stage → Text → ℕ → Result (List Stage)
  set_datamodel (search none none ∷ []) name pos = ok (search none (some name) ∷ [])
  set_datamodel stages name pos = fail source_not_first pos

  -- A stage of the loop of `parse`, put after the others or into the source.
  unfoldable pub add_stage : List Stage → Stage → ℕ → Result (List Stage)
  unfolding set_datamodel
  add_stage stages (search e (some name)) pos = set_datamodel stages name pos
  add_stage stages stage pos = ok (stages ++ stage ∷ [])

  -- `while self._at("PIPE")` of `parse`
  unfoldable pub more_stages : ℕ → List Stage → List Tok → Result (List Stage × List Tok)
  unfolding command add_stage
  more_stages zero stages ts = out_of_fuel
  more_stages (suc n) stages [] = ok (stages, [])
  more_stages (suc n) stages (t ∷ ts) = elim (is_kind pipe t) [
    | true ↦ do
      (stage, rest) ← command ts
      stages' ← add_stage stages stage (cur stop ts).pos
      more_stages n stages' rest
    | false ↦ ok (stages, t ∷ ts)
  ]

  abbrev pub is_word_tok : Text → Tok → Bool
  is_word_tok w t = is_kind id t && text_eq (lower t.val) w

  abbrev pub at_source : List Tok → Bool
  at_source ts =
      is_word_tok (codes "from") (cur stop ts)
      && is_word_tok (codes "datamodel") (cur stop (advance stop ts))

  -- `_datamodel_prefix`
  unfoldable pub datamodel_prefix : List Tok → Result (Option Text × List Tok)
  unfolding eat model_name text_eq lower
  datamodel_prefix ts = elim (at_source ts) [
    | true ↦
        let rest₁ = advance stop (advance stop ts) in
        elim (at stop colon rest₁) [
          | true ↦ do
            (_, rest₂) ← eat stop colon rest₁
            (name, rest) ← model_name float_text stop rest₂
            ok (some name, rest)
          | false ↦ fail missing_colon (cur stop rest₁).pos
        ]
    | false ↦ ok (none, ts)
  ]

  -- `parse` of `_Parser`
  unfoldable pub parse_tokens : List Tok → Result Query
  unfolding datamodel_prefix search_expr more_stages eat
  parse_tokens ts = do
    (dm, rest₁) ← datamodel_prefix ts
    (e, rest₂) ← elim (at stop pipe rest₁) [
      | true ↦ ok (none, rest₁)
      | false ↦ search_expr float_text stop rest₁
    ]
    (stages, rest₃) ← more_stages (suc (length rest₂)) (search e dm ∷ []) rest₂
    (_, rest) ← eat stop eof rest₃
    ok (record { stages = stages })

-- `parse`
unfoldable pub parse : (Text → Text) → Text → Result Query
unfolding lex parse_tokens strip
parse float_text s = elim (strip s) [
  | [] ↦ failed (record { problem = empty_query; pos = none })
  | c ∷ s' ↦ do toks ← lex s; parse_tokens float_text (length s) toks
]
