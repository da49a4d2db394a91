-- ===== src/Loql/Parser/Total.antt =====
-- `parse` of `app/loql/parser.py` on any text: it ends, and a query that it gives is closed.
use siem_lite.Prelude.{
  ℕ, zero, suc, ◌<◌, ◌≡◌, ◌≢◌, refl, true, false, List, [], ◌∷◌, ◌++◌, Option, none, some, All,
  All-append, All-weaken, all_of, &&-eq-true, subst, length, arith,
}
use siem_lite.Text.Chars.{Text, codes, text_eq, lower, strip}
use siem_lite.Loql.Result.{
  ok, failed, empty_query, ◌>>=◌, Returns, returned, refused, Returns-then, Returns-branch,
  Returns-weaken, Returns-ok, Returns-total, out_of_fuel,
}
use siem_lite.Loql.Nodes.{Stage, search, filter, Query}
use siem_lite.Loql.Lexer.{op, pipe, colon, kw, eof, Tok, lex}
use siem_lite.Loql.Lexer.Places.{IsLexed, lex-IsLexed}
use siem_lite.Loql.Tokens.{
  is, is_kind, is_name, IsNamed, cur, at, advance, eat, name_of, eat-Shorter, eat_val-Shorter,
  name_of-Named,
}
use siem_lite.Loql.Expr.Closed.{IsClosed}
use siem_lite.Loql.Commands.{agg, rename_pair, sort_key, sign}
use siem_lite.Loql.Commands.Lists.{Within, list_of-Returns}
use siem_lite.Loql.Commands.Total.{
  advance-IsNamed, parse_expr-Returns, alias-Returns, by_clause-Returns, rename_pair-Returns,
  sign-IsNamed, sort_key-Returns, agg-Returns, model_name-Returns, search_expr-Returns,
  span_opt-Returns, int_of-Returns, top_like-Returns,
}
use siem_lite.Loql.Parser.{
  Command, search_command, where_command, eval_command, fields_command, rename_command,
  sort_command, head_command, dedup_command, stats_command, top_command, rare_command, bin_command,
  timechart_command, datamodel_command, commands, find_command, run_command, found_command, command,
  set_datamodel, add_stage, more_stages, at_source, datamodel_prefix, parse_tokens, parse,
}
use siem_lite.Loql.Parser.Closed.{
  IsName, IfThere, IsClosedAgg, IsClosedStage, is_pipeline, reads_none, IsClosedQuery,
}

module _ (float_text : Text → Text) (stop : ℕ) where
  run_command-Returns :
      (c : Command) (ts : List Tok)
      → All IsNamed ts
      → Returns (Within IsClosedStage ts) (run_command float_text stop c ts)
  unfolding run_command IsClosedStage text_eq
  run_command-Returns search_command ts w =
      Returns-then (search_expr-Returns float_text stop ts w)
        λ (e, rest) (c, s, w'). returned ((c, tt), s, w')
  run_command-Returns where_command ts w =
      Returns-then (parse_expr-Returns float_text stop false ts w)
        λ (e, rest) (c, s, w'). returned (c, omega arith, w')
  run_command-Returns eval_command ts w =
      Returns-then (name_of-Named stop ts w) λ (name, rest₁) (n, s₁, w₁).
        Returns-then (eat_val-Shorter stop op (codes "=") rest₁ refl w₁) λ (_, rest₂) (s₂, w₂).
          Returns-then (parse_expr-Returns float_text stop false rest₂ w₂)
            λ (e, rest) (c, s₃, w₃). returned ((n, c), omega arith, w₃)
  run_command-Returns fields_command ts w =
      let (s, w') = sign-IsNamed float_text stop ts w in
      Returns-then
        (list_of-Returns IsName (name_of stop) (sign float_text stop ts).1 (name_of-Named stop) w')
        λ (names, rest) (ns, s₂, w₂). returned (ns, omega arith, w₂)
  run_command-Returns rename_command ts w =
      Returns-then
        (list_of-Returns (λ (a, b). IsName a × IsName b) (rename_pair float_text stop) ts
          (rename_pair-Returns float_text stop) w)
        λ (pairs, rest) (ps, s, w'). returned (ps, omega arith, w')
  run_command-Returns sort_command ts w =
      Returns-then
        (list_of-Returns (λ (a, desc). IsName a) (sort_key float_text stop) ts
          (sort_key-Returns float_text stop) w)
        λ (keys, rest) (ks, s, w'). returned (ks, omega arith, w')
  run_command-Returns head_command ts w =
      Returns-then (int_of-Returns float_text stop (codes "head") ts w)
        λ (n, rest) (_, s, w'). returned (tt, s, w')
  run_command-Returns dedup_command ts w =
      Returns-then (list_of-Returns IsName (name_of stop) ts (name_of-Named stop) w)
        λ (names, rest) (ns, s, w'). returned (ns, omega arith, w')
  run_command-Returns stats_command ts w =
      Returns-then
        (list_of-Returns IsClosedAgg (agg float_text stop) ts (agg-Returns float_text stop) w)
        λ (aggs, rest₁) (all, s₁, w₁).
          Returns-then (by_clause-Returns float_text stop rest₁ w₁)
            λ (by, rest) (ns, s₂, w₂). returned ((all, ns), omega arith, w₂)
  run_command-Returns top_command ts w = top_like-Returns float_text stop false ts w
  run_command-Returns rare_command ts w = top_like-Returns float_text stop true ts w
  run_command-Returns bin_command ts w =
      Returns-then (span_opt-Returns float_text stop ts w) λ (span, rest₁) (_, s₁, w₁).
        Returns-then (name_of-Named stop rest₁ w₁) λ (field, rest₂) (n, s₂, w₂).
          Returns-then (alias-Returns float_text stop rest₂ w₂)
            λ (out, rest) (o, s₃, w₃). returned ((n, o), omega arith, w₃)
  run_command-Returns timechart_command ts w =
      Returns-then (span_opt-Returns float_text stop ts w) λ (span, rest₁) (_, s₁, w₁).
        Returns-then
          (list_of-Returns IsClosedAgg (agg float_text stop) rest₁ (agg-Returns float_text stop) w₁)
          λ (aggs, rest₂) (all, s₂, w₂).
            Returns-then {P = Within (IfThere IsName) rest₂}
              (Returns-branch (is kw (codes "by") (cur stop rest₂))
                (λ _.
                  Returns-then (eat_val-Shorter stop kw (codes "by") rest₂ refl w₂)
                    λ (_, rest₃) (s₃, w₃).
                      Returns-then (name_of-Named stop rest₃ w₃)
                        λ (name, rest) (n, s₄, w₄). returned (n, omega arith, w₄))
                (λ _. returned (tt, omega arith, w₂)))
              λ (by, rest) (n, s₃, w₃). returned ((all, n), omega arith, w₃)
  run_command-Returns datamodel_command ts w =
      Returns-then (model_name-Returns float_text stop ts w)
        λ (name, rest) (n, s, w'). returned ((tt, n), s, w')

  found_command-Returns :
      (c : Option Command) (name : Text) (pos : ℕ) (ts : List Tok)
      → All IsNamed ts
      → Returns (Within IsClosedStage ts) (found_command float_text stop c name pos ts)
  found_command-Returns none name pos ts w = refused
  found_command-Returns (some c) name pos ts w = run_command-Returns c ts w

  pub command-Returns :
      (ts : List Tok)
      → All IsNamed ts
      → Returns (Within IsClosedStage ts) (command float_text stop ts)
  unfolding command text_eq
  command-Returns ts w =
      let (s, w') = advance-IsNamed float_text stop ts w in
      let name = lower (cur stop ts).val in
      Returns-branch (is_name (cur stop ts))
        (λ _.
          Returns-branch (text_eq name (codes "from")) (λ _. refused)
            λ _.
              Returns-weaken (λ (stage, rest) (c, s₂, w₂). (c, omega arith, w₂))
                (found_command-Returns (find_command name commands) name (cur stop ts).pos
                  (advance stop ts) w'))
        (λ _. refused)

  -- A closed pipeline.
  abbrev IsBegun : List Stage → Type 0
  IsBegun stages = (is_pipeline stages ≡ true) × All IsClosedStage stages

  all_of-snoc :
      (stages : List Stage) (stage : Stage)
      → all_of reads_none stages ≡ true
      → reads_none stage ≡ true
      → all_of reads_none (stages ++ stage ∷ []) ≡ true
  all_of-snoc [] stage h k = rw k refl
  all_of-snoc (a ∷ stages) stage h k =
      let (here, later) = &&-eq-true (reads_none a) (all_of reads_none stages) h in
      let rest = all_of-snoc stages stage later k in rw (here, rest) refl

  IsBegun-snoc :
      (stages : List Stage) (stage : Stage)
      → IsBegun stages
      → IsClosedStage stage
      → reads_none stage ≡ true
      → IsBegun (stages ++ stage ∷ [])
  IsBegun-snoc [] stage (h, _) c k = absurd (cc)
  IsBegun-snoc (search e model ∷ stages) stage (h, (a, more)) c k =
      (all_of-snoc stages stage h k, (a, All-append IsClosedStage stages (stage ∷ []) more (c, tt)))
  IsBegun-snoc (filter e ∷ stages) stage (h, _) c k = absurd (cc)
  IsBegun-snoc _ stage (h, _) c k = absurd (cc)

  set_datamodel-Returns :
      (stages : List Stage) (name : Text) (pos : ℕ)
      → name ≢ []
      → Returns IsBegun (set_datamodel float_text stop stages name pos)
  unfolding set_datamodel IsClosedStage
  set_datamodel-Returns [] name pos h = refused
  set_datamodel-Returns (search none none ∷ []) name pos h = returned (refl, ((tt, h), tt))
  set_datamodel-Returns _ name pos h = refused

  add_stage-Returns :
      (stages : List Stage) (stage : Stage) (pos : ℕ)
      → IsBegun stages
      → IsClosedStage stage
      → Returns IsBegun (add_stage float_text stop stages stage pos)
  unfolding add_stage IsClosedStage
  add_stage-Returns stages (search e (some name)) pos b (_, h) =
      set_datamodel-Returns stages name pos h
  add_stage-Returns stages stage pos b c = returned (IsBegun-snoc stages stage b c refl)

  more_stages-Returns :
      (n : ℕ) (stages : List Stage) (ts : List Tok)
      → IsBegun stages
      → All IsNamed ts
      → length ts < n
      → Returns (Within IsBegun ts) (more_stages float_text stop n stages ts)
  unfolding more_stages
  more_stages-Returns zero stages ts b w h = absurd (omega arith)
  more_stages-Returns (suc n) stages [] b w h = returned (b, omega arith, w)
  more_stages-Returns (suc n) stages (t ∷ ts) b (v, w) h =
      Returns-branch (is_kind pipe t)
        (λ _. Returns-then (command-Returns ts w) λ (stage, rest) (c, s, w').
          Returns-then (add_stage-Returns stages stage (cur stop ts).pos b c) λ stages' b'.
            Returns-weaken (λ (all, left) (b'', s₂, w₂). (b'', omega arith, w₂))
              (more_stages-Returns n stages' rest b' w' (omega arith)))
        (λ _. returned (b, omega arith, (v, w)))

  datamodel_prefix-Returns :
      (ts : List Tok)
      → All IsNamed ts
      → Returns (Within (IfThere (λ s. s ≢ [])) ts) (datamodel_prefix float_text stop ts)
  unfolding datamodel_prefix text_eq
  datamodel_prefix-Returns ts w =
      let (s₁, w₁) = advance-IsNamed float_text stop ts w in
      let (s₂, w₂) = advance-IsNamed float_text stop (advance stop ts) w₁ in
      let rest₁ = advance stop (advance stop ts) in
      Returns-branch (at_source float_text stop ts)
        (λ _.
          Returns-branch (at stop colon rest₁)
            (λ _. Returns-then (eat-Shorter stop colon rest₁ refl w₂) λ (_, rest₂) (s₃, w₃).
              Returns-then (model_name-Returns float_text stop rest₂ w₃)
                λ (name, rest) (n, s₄, w₄). returned (n, omega arith, w₄))
            (λ _. refused))
        (λ _. returned (tt, omega arith, w))

  eat_eof-Returns : (ts : List Tok) → Returns (λ _. Unit {0}) (eat stop eof ts)
  unfolding eat
  eat_eof-Returns ts = Returns-branch (at stop eof ts) (λ _. returned tt) (λ _. refused)

  parse_tokens-Returns :
      (ts : List Tok) → All IsNamed ts → Returns IsClosedQuery (parse_tokens float_text stop ts)
  unfolding parse_tokens IsClosedQuery IsClosedStage
  parse_tokens-Returns ts w =
      Returns-then (datamodel_prefix-Returns ts w) λ (model, rest₁) (m, s₁, w₁).
        Returns-then {P = Within (IfThere IsClosed) rest₁}
          (Returns-branch (at stop pipe rest₁) (λ _. returned (tt, omega arith, w₁))
            λ _. search_expr-Returns float_text stop rest₁ w₁)
          λ (e, rest₂) (c, s₂, w₂).
            Returns-then
              (more_stages-Returns (suc (length rest₂)) (search e model ∷ []) rest₂
                (refl, ((c, m), tt)) w₂ (omega arith))
              λ (stages, rest₃) (b, s₃, w₃). Returns-then (eat_eof-Returns rest₃) λ _ _. returned b

parse-Returns : (float_text : Text → Text) (s : Text) → Returns IsClosedQuery (parse float_text s)
unfolding parse
parse-Returns float_text s =
    elim (strip s)
      as (λ t. Returns IsClosedQuery (elim t [
        | [] ↦ failed (record { problem = empty_query; pos = none })
        | c ∷ s' ↦ do toks ← lex s; parse_tokens float_text (length s) toks
      ])) [
        | [] ↦ refused
        | c ∷ s' ↦ Returns-then (lex-IsLexed s) λ toks lexed.
            parse_tokens-Returns float_text (length s) toks
              (All-weaken (IsLexed s) IsNamed toks (λ t (_, h). h) lexed)
      ]

-- Parsing ends on every text, and a query that it gives is closed.
pub parse-IsClosedQuery :
    (float_text : Text → Text) (s : Text) (q : Query) → parse float_text s ≡ ok q → IsClosedQuery q
parse-IsClosedQuery float_text s q e =
    Returns-ok (subst (Returns IsClosedQuery) e (parse-Returns float_text s))

pub parse_total : (float_text : Text → Text) (s : Text) → parse float_text s ≢ out_of_fuel
parse_total float_text s = Returns-total (parse-Returns float_text s)
