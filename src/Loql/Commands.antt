-- ===== src/Loql/Commands.antt =====
-- The commands of `_Parser` in `app/loql/parser.py`, each from its own word on.
pub mod Lists
pub mod Aggregates
pub mod Total
use siem_lite.Prelude.{
  ℕ, zero, suc, ◌+◌, ◌*◌, ◌==◌, Bool, true, false, ◌&&◌, not, List, [], ◌∷◌, ◌++◌, Option, none,
  some, any_of, length, if◌then◌else◌,
}
use siem_lite.Text.Chars.{Text, codes, text_eq, member, lower, strip}
use siem_lite.Text.Number.{digits_only}
use siem_lite.Loql.Result.{
  expected_model, empty_model, unknown_aggregate, needs_field, span_without_unit, invalid_span,
  span_without_value, Result, ok, out_of_fuel, ◌>>=◌, fail,
}
use siem_lite.Loql.Nodes.{
  Expr, Agg, Stage, search, filter, evaluate, keep_columns, rename, sort, head, dedup, stats, top,
  bin, timechart,
}
use siem_lite.Loql.Lexer.{string, number, op, pipe, comma, lp, rp, id, kw, eof, Tok}
use siem_lite.Loql.Tokens.{
  is, is_kind, is_name, shown, unquote, cur, at, advance, eat, eat_val, name_of, int_of,
}
use siem_lite.Loql.Expr.{parse_or}

-- `_AGG_FUNCS`
abbrev pub aggregates : List Text
aggregates =
    codes "count"
    ∷ codes "sum"
    ∷ codes "avg"
    ∷ codes "min"
    ∷ codes "max"
    ∷ codes "dc"
    ∷ codes "distinct_count"
    ∷ codes "values"
    ∷ codes "list"
    ∷ []

-- The calls of `parse_or` that an expression of these tokens needs.
abbrev pub expr_fuel : List Tok → ℕ
expr_fuel ts = length ts * 16 + 9

abbrev units : List Text
units = codes "s" ∷ codes "m" ∷ codes "h" ∷ codes "d" ∷ []

-- `re.fullmatch(r"\d+[smhd]", v)`
split_unit : Text → Text × Text
split_unit [] = ([], [])
split_unit (c ∷ []) = ([], c ∷ [])
split_unit (c ∷ d ∷ s) = let (digits, unit) = split_unit (d ∷ s) in (c ∷ digits, unit)

unfoldable pub is_span_text : Text → Bool
unfolding split_unit member
is_span_text v = let (digits, unit) = split_unit v in digits_only digits && member unit units

-- The loop `while self._at("COMMA")`, for an item of any kind.
unfoldable pub list_tail {ℓ} :
    {A : Type ℓ} → ℕ → (List Tok → Result (A × List Tok)) → List Tok → Result (List A × List Tok)
list_tail zero item ts = out_of_fuel
list_tail (suc n) item [] = ok ([], [])
list_tail (suc n) item (t ∷ ts) = elim (is_kind comma t) [
  | true ↦ do (a, rest₁) ← item ts; (more, rest) ← list_tail n item rest₁; ok (a ∷ more, rest)
  | false ↦ ok ([], t ∷ ts)
]

-- One item or more, with commas between them.
unfoldable pub list_of {ℓ} :
    {A : Type ℓ} → (List Tok → Result (A × List Tok)) → List Tok → Result (List A × List Tok)
unfolding list_tail
list_of item ts = do
  (a, rest₁) ← item ts
  (more, rest) ← list_tail (suc (length rest₁)) item rest₁
  ok (a ∷ more, rest)

-- `func` of `_agg`
unfoldable pub aggregate : Text → Text
unfolding lower text_eq
aggregate name = if text_eq (lower name) (codes "distinct_count") then codes "dc" else lower name

-- `f"{func}_{arg}" if arg else "count"`
abbrev pub default_out : Text → Option Text → Text
default_out func none = codes "count"
default_out func (some []) = codes "count"
default_out func (some (c ∷ s)) = func ++ codes "_" ++ c ∷ s

abbrev pub make_agg : Text → Option Text → Option Text → Agg
make_agg func arg none = record { func = func; arg = arg; out = default_out func arg }
make_agg func arg (some out) = record { func = func; arg = arg; out = out }

-- A unit that follows its number with nothing between.
abbrev pub has_unit : Tok → Tok → Bool
has_unit t next = is_kind id next && (member next.val units && t.pos + length t.val == next.pos)

abbrev pub is_some {ℓ} : {A : Type ℓ} → Option A → Bool
is_some none = false
is_some (some a) = true

module _ (float_text : Text → Text) (stop : ℕ) where
  -- `_expr`
  unfoldable pub parse_expr : Bool → List Tok → Result (Expr × List Tok)
  unfolding parse_or
  parse_expr mode ts = parse_or float_text stop (expr_fuel ts) 0 mode ts

  -- `_search_expr`
  unfoldable pub search_expr : List Tok → Result (Option Expr × List Tok)
  unfolding parse_expr text_eq
  search_expr ts =
      let rest₁ = if is op (codes "*") (cur stop ts) then advance stop ts else ts in
      elim (at stop pipe rest₁) [
        | true ↦ ok (none, rest₁)
        | false ↦ elim (at stop eof rest₁) [
          | true ↦ ok (none, rest₁)
          | false ↦ do (e, rest) ← parse_expr true rest₁; ok (some e, rest)
        ]
      ]

  abbrev pub given_model : Text → ℕ → List Tok → Result (Text × List Tok)
  given_model [] pos rest = fail empty_model pos
  given_model (c ∷ s) pos rest = ok (c ∷ s, rest)

  -- `_model_name`
  unfoldable pub model_name : List Tok → Result (Text × List Tok)
  unfolding unquote strip
  model_name ts =
      let t = cur stop ts in
      elim (is_kind string t) [
        | true ↦ given_model (strip (unquote t.val)) t.pos (advance stop ts)
        | false ↦ elim (is_name t) [
          | true ↦ given_model t.val t.pos (advance stop ts)
          | false ↦ fail (expected_model (shown t)) t.pos
        ]
      ]

  -- `as <name>`, if it is there
  unfoldable pub alias : List Tok → Result (Option Text × List Tok)
  unfolding eat_val name_of text_eq
  alias ts = elim (is kw (codes "as") (cur stop ts)) [
    | true ↦ do
      (_, rest₁) ← eat_val stop kw (codes "as") ts
      (name, rest) ← name_of stop rest₁
      ok (some name, rest)
    | false ↦ ok (none, ts)
  ]

  -- The argument of `_agg`, in its optional parentheses.
  unfoldable pub agg_arg : List Tok → Result (Option Text × List Tok)
  unfolding eat name_of
  agg_arg ts = elim (at stop lp ts) [
    | true ↦ do
      (_, rest₁) ← eat stop lp ts
      (arg, rest₂) ← elim (at stop rp rest₁) [
        | true ↦ ok (none, rest₁)
        | false ↦ do (name, rest) ← name_of stop rest₁; ok (some name, rest)
      ]
      (_, rest) ← eat stop rp rest₂
      ok (arg, rest)
    | false ↦ ok (none, ts)
  ]

  -- `_agg`
  unfoldable pub agg : List Tok → Result (Agg × List Tok)
  unfolding aggregate member name_of agg_arg alias
  agg ts = do
    (name, rest₁) ← name_of stop ts
    elim (member (aggregate name) aggregates) [
      | true ↦ do
        (arg, rest₂) ← agg_arg rest₁
        elim (not (text_eq (aggregate name) (codes "count")) && not (is_some arg)) [
          | true ↦ fail (needs_field (aggregate name)) (cur stop rest₂).pos
          | false ↦ do (out, rest) ← alias rest₂; ok (make_agg (aggregate name) arg out, rest)
        ]
      | false ↦ fail (unknown_aggregate (aggregate name)) (cur stop rest₁).pos
    ]

  -- `_by_clause`
  unfoldable pub by_clause : List Tok → Result (List Text × List Tok)
  unfolding eat_val list_of name_of text_eq
  by_clause ts = elim (is kw (codes "by") (cur stop ts)) [
    | true ↦ do (_, rest) ← eat_val stop kw (codes "by") ts; list_of (name_of stop) rest
    | false ↦ ok ([], ts)
  ]

  -- What follows `span=`.
  unfoldable pub span_value : List Tok → Result (Option Text × List Tok)
  unfolding unquote member is_span_text
  span_value [] = fail span_without_value stop
  span_value (t ∷ ts) = elim t.kind [
    | number ↦ elim (has_unit t (cur stop ts)) [
      | true ↦ ok (some (t.val ++ (cur stop ts).val), advance stop ts)
      | false ↦ fail (span_without_unit t.val) t.pos
    ]
    | string ↦ elim (is_span_text (unquote t.val)) [
      | true ↦ ok (some (unquote t.val), ts)
      | false ↦ fail (invalid_span (unquote t.val)) t.pos
    ]
    | _ ↦ fail span_without_value t.pos
  ]

  abbrev pub at_span : List Tok → Bool
  at_span ts =
      (is_kind id (cur stop ts) && text_eq (lower (cur stop ts).val) (codes "span"))
      && is op (codes "=") (cur stop (advance stop ts))

  -- `_span_opt`
  unfoldable pub span_opt : List Tok → Result (Option Text × List Tok)
  unfolding span_value lower text_eq
  span_opt ts = elim (at_span ts) [
    | true ↦ span_value (advance stop (advance stop ts))
    | false ↦ ok (none, ts)
  ]

  -- An optional `-` or `+`, and whether it is `-`.
  abbrev pub sign : List Tok → Bool × List Tok
  sign ts =
      let here = cur stop ts in
      if is op (codes "-") here
      then (true, advance stop ts)
      else if is op (codes "+") here
      then (false, advance stop ts)
      else (false, ts)

  -- `_rename_pair`
  unfoldable pub rename_pair : List Tok → Result ((Text × Text) × List Tok)
  unfolding eat_val name_of
  rename_pair ts = do
    (src, rest₁) ← name_of stop ts
    (_, rest₂) ← eat_val stop kw (codes "as") rest₁
    (out, rest) ← name_of stop rest₂
    ok ((src, out), rest)

  -- `_sort_key`
  unfoldable pub sort_key : List Tok → Result ((Text × Bool) × List Tok)
  unfolding name_of text_eq
  sort_key ts = do (name, rest) ← name_of stop (sign ts).1; ok ((name, (sign ts).0), rest)

  -- `_top_like`
  unfoldable pub top_like : Bool → List Tok → Result (Stage × List Tok)
  unfolding int_of name_of by_clause
  top_like rare ts = do
    (n, rest₁) ← elim (at stop number ts) [
      | true ↦ int_of stop (codes "top") ts
      | false ↦ ok (10, ts)
    ]
    (field, rest₂) ← name_of stop rest₁
    (by, rest) ← by_clause rest₂
    ok (top field n rare by, rest)
