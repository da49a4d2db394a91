-- ===== src/Loql/Tests.antt =====
-- The LOQL lexer and parser of `app/loql` on samples.
use siem_lite.Prelude.{ℕ, zero, suc, ◌++◌, ◌≡◌, ◌≢◌, refl, true, [], ◌∷◌, none, some}
use siem_lite.Text.Chars.{Text, codes}
use siem_lite.Loql.Result.{
  value_error, ok, failed, out_of_fuel, argument_count, too_deep, unexpected_character,
}
use siem_lite.Loql.Nodes.{word, lit, column, binary, search, stats, head, Query}
use siem_lite.Loql.Lexer.{id, number, is_identifier, lex}
use siem_lite.Loql.Parser.{parse, parse_tokens}
use siem_lite.Loql.Parser.Closed.{IsClosedQuery}
use siem_lite.Loql.Parser.Total.{parse-IsClosedQuery, parse_total}
use siem_lite.Loql.Lexer.Covers.{IsRead, lex-IsRead}
use siem_lite.Loql.Sources.{token, pipe_at, prefixed, staged, parse_tokens-sources}
use siem_lite.Text.Number.{read_number}

abbrev same_text : Text → Text
same_text s = s

-- `test_parse_implicit_search_and_pipeline`
abbrev pipeline : Text
pipeline = codes "vendor=paloalto action=deny | stats count by src_ip | head 5"

abbrev pipeline_query : Query
pipeline_query = record {
  stages =
      search
        (some (
          binary (codes "and")
            (binary (codes "=") (column (codes "vendor")) (lit (word (codes "paloalto"))))
            (binary (codes "=") (column (codes "action")) (lit (word (codes "deny"))))))
        none
      ∷ stats (record { func = codes "count"; arg = none; out = codes "count" } ∷ [])
          (codes "src_ip" ∷ [])
      ∷ head 5
      ∷ [];
}

pipeline_parsed : parse same_text pipeline ≡ ok pipeline_query
unfolding parse read_number
pipeline_parsed = refl

-- `replace` with two arguments
wrong_count :
    parse same_text (codes "| where replace(a, b) = 1")
    ≡ failed (record { problem = argument_count (codes "replace") 3 2; pos = some 8 })
unfolding parse
wrong_count = refl

-- A character of no token.
stray_character :
    parse same_text (codes "vendor=x; drop")
    ≡ failed (record { problem = unexpected_character b';'; pos = some 8 })
unfolding parse
stray_character = refl

-- Eighty parentheses nest too deeply.
parens : ℕ → Text
parens zero = codes "x"
parens (suc n) = codes "(" ++ parens n ++ codes ")"

deep_nesting :
    parse same_text (codes "| where " ++ parens 80)
    ≡ failed (record { problem = too_deep; pos = some 88 })
unfolding parse parens
deep_nesting = refl

-- A number of a search with more digits than `int()` reads.
nines : ℕ → Text
nines zero = []
nines (suc n) = b'9' ∷ nines n

long_number : parse same_text (codes "port=" ++ nines 4301) ≡ value_error
unfolding parse nines
long_number = refl

parse_total_example : parse same_text pipeline ≢ out_of_fuel
parse_total_example = parse_total same_text pipeline

parse-IsClosedQuery_example : IsClosedQuery pipeline_query
parse-IsClosedQuery_example = parse-IsClosedQuery same_text pipeline pipeline_query pipeline_parsed

abbrev mixed_case : Text
mixed_case = codes "a=1 AND b='x y'"

lex-IsRead_example : IsRead 0 mixed_case (lex mixed_case)
lex-IsRead_example = lex-IsRead mixed_case

identifier : is_identifier (codes "Web") ≡ true
unfolding is_identifier
identifier = refl

head_identifier : is_identifier (codes "head") ≡ true
unfolding is_identifier
head_identifier = refl

-- `test_both_datamodel_syntaxes_are_one_ast`
parse_tokens-sources_example :
    parse_tokens same_text 99 (
      prefixed 0 5 14 15
        (codes "Web")
        (pipe_at 19 ∷ token id (codes "head") 21 ∷ token number (codes "5") 26 ∷ []))
    ≡ parse_tokens same_text 99 (
        staged 0 2 12
          (codes "Web")
          (pipe_at 19 ∷ token id (codes "head") 21 ∷ token number (codes "5") 26 ∷ []))
parse_tokens-sources_example =
    parse_tokens-sources same_text 99 0 5 14 15 0 2 12 19 (codes "Web")
      (token id (codes "head") 21 ∷ token number (codes "5") 26 ∷ []) identifier
      (head_identifier, (refl, tt))
