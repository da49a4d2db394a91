-- ===== src/Loql/Expr.antt =====
-- The expressions of `_Parser` in `app/loql/parser.py`, from `_or` down to `_func_call`. A loop of
-- the source is the function of its rest, `_tail`. The fuel bounds the calls; the interpreter's own
-- stack is taken to be deep enough.
pub mod Closed
pub mod Atoms
pub mod Total
use siem_lite.Prelude.{
  ℕ, zero, suc, ◌==◌, Bool, true, false, ◌&&◌, ◌||◌, not, List, [], ◌∷◌, Option, none, some, ltb,
  if◌then◌else◌,
}
use siem_lite.Text.Chars.{Text, codes, text_eq, member, lower}
use siem_lite.Text.Number.{show_number}
use siem_lite.Loql.Result.{
  unknown_function, argument_count, unexpected_token, too_deep, Result, ok, out_of_fuel, ◌>>=◌,
  fail,
}
use siem_lite.Loql.Nodes.{
  whole, decimal, word, truth, nothing, Expr, lit, column, unary, binary, func, in_list, Args,
  no_args, arg,
}
use siem_lite.Loql.Lexer.{string, number, op, comma, lp, rp, id, kw, eof, kind_name, Tok}
use siem_lite.Loql.Tokens.{
  is, is_kind, shown, starts_atom, unquote, read_literal, cur, at, eat, eat_val, search_value,
}

-- `_MAX_DEPTH`
abbrev pub max_depth : ℕ
max_depth = 80

-- `_CMP`
abbrev pub comparisons : List Text
comparisons = codes "=" ∷ codes "!=" ∷ codes "<" ∷ codes "<=" ∷ codes ">" ∷ codes ">=" ∷ []

pub record Func : Type 0 where
  pub written : Text
  pub sql : Text
  pub count : Option ℕ

abbrev of : Text → Text → Option ℕ → Func
of written sql count = record { written = written; sql = sql; count = count }

-- `_FUNCS`
abbrev pub funcs : List Func
funcs =
    of (codes "lower") (codes "lower") (some 1)
    ∷ of (codes "upper") (codes "upper") (some 1)
    ∷ of (codes "len") (codes "length") (some 1)
    ∷ of (codes "length") (codes "length") (some 1)
    ∷ of (codes "abs") (codes "abs") (some 1)
    ∷ of (codes "round") (codes "round") none
    ∷ of (codes "ceil") (codes "ceil") (some 1)
    ∷ of (codes "floor") (codes "floor") (some 1)
    ∷ of (codes "trim") (codes "btrim") none
    ∷ of (codes "coalesce") (codes "coalesce") none
    ∷ of (codes "substr") (codes "substr") none
    ∷ of (codes "replace") (codes "replace") (some 3)
    ∷ of (codes "if") (codes "__if__") (some 3)
    ∷ of (codes "isnull") (codes "__isnull__") (some 1)
    ∷ of (codes "isnotnull") (codes "__isnotnull__") (some 1)
    ∷ []

-- `_FUNCS[fn]`, if there
unfoldable pub find_func : Text → List Func → Option Func
unfolding text_eq
find_func name [] = none
find_func name (f ∷ fs) = if text_eq name f.written then some f else find_func name fs

unfoldable pub args_length : Args → ℕ
args_length no_args = 0
args_length (arg e es) = suc (args_length es)

abbrev pub fts : Text → Expr
fts s = func (codes "_fts") (arg (lit (word s)) no_args)

-- `t.kind == "OP" and t.val in _CMP`, or `like`
abbrev pub is_relation : Tok → Bool
is_relation t = is_kind op t && member t.val comparisons || is kw (codes "like") t

abbrev pub is_additive : Tok → Bool
is_additive t = is_kind op t && member t.val (codes "+" ∷ codes "-" ∷ codes "." ∷ [])

abbrev pub is_multiplicative : Tok → Bool
is_multiplicative t = is_kind op t && member t.val (codes "*" ∷ codes "/" ∷ codes "%" ∷ [])

-- `float_text` is `str(float(s))`; `stop` is the position of EOF.
module _ (float_text : Text → Text) (stop : ℕ) where
  -- The end of `_func_call`, with the number of arguments.
  unfoldable pub call_of : Func → Tok → Args → List Tok → Result (Expr × List Tok)
  unfolding args_length
  call_of f t args rest = elim f.count [
    | none ↦ ok (func f.sql args, rest)
    | some k ↦ elim (args_length args == k) [
      | true ↦ ok (func f.sql args, rest)
      | false ↦ fail (argument_count t.val k (args_length args)) t.pos
    ]
  ]

  -- An expression that no comparison follows: a term of the full text, in search mode.
  abbrev pub standalone : Bool → Expr → Expr
  standalone true (column name) = fts name
  standalone true (lit (word s)) = fts s
  standalone true (lit (whole n)) = fts (show_number n)
  standalone true (lit (decimal s)) = fts (float_text s)
  standalone mode e = e

  unfoldable mutual
    unfolding text_eq member eat eat_val search_value unquote show_number call_of find_func lower

    -- `_or`, at a depth
    pub parse_or : ℕ → ℕ → Bool → List Tok → Result (Expr × List Tok)
    parse_or zero d mode ts = out_of_fuel
    parse_or (suc n) d mode ts = elim (ltb max_depth (suc d)) [
      | true ↦ fail too_deep (cur stop ts).pos
      | false ↦ do (left, rest) ← parse_and n (suc d) mode ts; or_tail n (suc d) mode left rest
    ]

    pub or_tail : ℕ → ℕ → Bool → Expr → List Tok → Result (Expr × List Tok)
    or_tail zero d mode left ts = out_of_fuel
    or_tail (suc n) d mode left [] = ok (left, [])
    or_tail (suc n) d mode left (t ∷ ts) = elim (is kw (codes "or") t) [
      | true ↦ do
        (right, rest) ← parse_and n d mode ts
        or_tail n d mode (binary (codes "or") left right) rest
      | false ↦ ok (left, t ∷ ts)
    ]

    -- `_and`
    pub parse_and : ℕ → ℕ → Bool → List Tok → Result (Expr × List Tok)
    parse_and zero d mode ts = out_of_fuel
    parse_and (suc n) d mode ts = do
      (left, rest) ← parse_not n d mode ts
      and_tail n d mode left rest

    pub and_tail : ℕ → ℕ → Bool → Expr → List Tok → Result (Expr × List Tok)
    and_tail zero d mode left ts = out_of_fuel
    and_tail (suc n) d mode left [] = ok (left, [])
    and_tail (suc n) d mode left (t ∷ ts) = elim (is kw (codes "and") t) [
      | true ↦ do
        (right, rest) ← parse_not n d mode ts
        and_tail n d mode (binary (codes "and") left right) rest
      | false ↦ elim (starts_atom t && not (is kw (codes "or") t)) [
        | true ↦ do
          (right, rest) ← parse_not n d mode (t ∷ ts)
          and_tail n d mode (binary (codes "and") left right) rest
        | false ↦ ok (left, t ∷ ts)
      ]
    ]

    -- `_not`
    pub parse_not : ℕ → ℕ → Bool → List Tok → Result (Expr × List Tok)
    parse_not zero d mode ts = out_of_fuel
    parse_not (suc n) d mode [] = parse_comparison n d mode []
    parse_not (suc n) d mode (t ∷ ts) = elim (is kw (codes "not") t) [
      | true ↦ elim (ltb max_depth (suc d)) [
        | true ↦ fail too_deep t.pos
        | false ↦ do (e, rest) ← parse_not n (suc d) mode ts; ok (unary (codes "not") e, rest)
      ]
      | false ↦ parse_comparison n d mode (t ∷ ts)
    ]

    -- `_comparison`
    pub parse_comparison : ℕ → ℕ → Bool → List Tok → Result (Expr × List Tok)
    parse_comparison zero d mode ts = out_of_fuel
    parse_comparison (suc n) d mode ts = do
      (left, rest) ← parse_additive n d ts
      comparison_tail n d mode left rest

    -- `_comparison` after its left side, with `_in_list`
    pub comparison_tail : ℕ → ℕ → Bool → Expr → List Tok → Result (Expr × List Tok)
    comparison_tail zero d mode left ts = out_of_fuel
    comparison_tail (suc n) d mode left [] = ok (standalone mode left, [])
    comparison_tail (suc n) d mode left (t ∷ ts) = elim (is_relation t) [
      | true ↦ do (right, rest) ← parse_rhs n d mode ts; ok (binary t.val left right, rest)
      | false ↦ elim (is kw (codes "in") t) [
        | true ↦ do
          (_, rest₁) ← eat stop lp ts
          (item, rest₂) ← parse_rhs n d mode rest₁
          (items, rest₃) ← rhs_tail n d mode rest₂
          (_, rest) ← eat stop rp rest₃
          ok (in_list left (arg item items), rest)
        | false ↦ ok (standalone mode left, t ∷ ts)
      ]
    ]

    -- `_rhs`
    pub parse_rhs : ℕ → ℕ → Bool → List Tok → Result (Expr × List Tok)
    parse_rhs zero d mode ts = out_of_fuel
    parse_rhs (suc n) d true ts = search_value stop ts
    parse_rhs (suc n) d false ts = parse_additive n d ts

    pub rhs_tail : ℕ → ℕ → Bool → List Tok → Result (Args × List Tok)
    rhs_tail zero d mode ts = out_of_fuel
    rhs_tail (suc n) d mode [] = ok (no_args, [])
    rhs_tail (suc n) d mode (t ∷ ts) = elim (is_kind comma t) [
      | true ↦ do
        (item, rest₁) ← parse_rhs n d mode ts
        (items, rest) ← rhs_tail n d mode rest₁
        ok (arg item items, rest)
      | false ↦ ok (no_args, t ∷ ts)
    ]

    -- `_additive`
    pub parse_additive : ℕ → ℕ → List Tok → Result (Expr × List Tok)
    parse_additive zero d ts = out_of_fuel
    parse_additive (suc n) d ts = do (left, rest) ← parse_term n d ts; additive_tail n d left rest

    pub additive_tail : ℕ → ℕ → Expr → List Tok → Result (Expr × List Tok)
    additive_tail zero d left ts = out_of_fuel
    additive_tail (suc n) d left [] = ok (left, [])
    additive_tail (suc n) d left (t ∷ ts) = elim (is_additive t) [
      | true ↦ do
        (right, rest) ← parse_term n d ts
        additive_tail n d (binary t.val left right) rest
      | false ↦ ok (left, t ∷ ts)
    ]

    -- `_term`
    pub parse_term : ℕ → ℕ → List Tok → Result (Expr × List Tok)
    parse_term zero d ts = out_of_fuel
    parse_term (suc n) d ts = do (left, rest) ← parse_factor n d ts; term_tail n d left rest

    pub term_tail : ℕ → ℕ → Expr → List Tok → Result (Expr × List Tok)
    term_tail zero d left ts = out_of_fuel
    term_tail (suc n) d left [] = ok (left, [])
    term_tail (suc n) d left (t ∷ ts) = elim (is_multiplicative t) [
      | true ↦ do (right, rest) ← parse_factor n d ts; term_tail n d (binary t.val left right) rest
      | false ↦ ok (left, t ∷ ts)
    ]

    -- `_factor`
    pub parse_factor : ℕ → ℕ → List Tok → Result (Expr × List Tok)
    parse_factor zero d ts = out_of_fuel
    parse_factor (suc n) d [] = parse_primary n d []
    parse_factor (suc n) d (t ∷ ts) = elim (is op (codes "-") t) [
      | true ↦ do (e, rest) ← parse_factor n d ts; ok (unary (codes "-") e, rest)
      | false ↦ parse_primary n d (t ∷ ts)
    ]

    -- `_primary`
    pub parse_primary : ℕ → ℕ → List Tok → Result (Expr × List Tok)
    parse_primary zero d ts = out_of_fuel
    parse_primary (suc n) d [] = fail (unexpected_token (kind_name eof)) stop
    parse_primary (suc n) d (t ∷ ts) = elim t.kind [
      | number ↦ do value ← read_literal t.val; ok (lit value, ts)
      | string ↦ ok (lit (word (unquote t.val)), ts)
      | kw ↦ elim (member t.val (codes "true" ∷ codes "false" ∷ [])) [
        | true ↦ ok (lit (truth (text_eq t.val (codes "true"))), ts)
        | false ↦ elim (text_eq t.val (codes "null")) [
          | true ↦ ok (lit nothing, ts)
          | false ↦ name_or_call n d t ts
        ]
      ]
      | lp ↦ do (e, rest₁) ← parse_or n d false ts; (_, rest) ← eat stop rp rest₁; ok (e, rest)
      | id ↦ name_or_call n d t ts
      | _ ↦ fail (unexpected_token (shown t)) t.pos
    ]

    -- The name at the end of `_primary`, alone or called.
    pub name_or_call : ℕ → ℕ → Tok → List Tok → Result (Expr × List Tok)
    name_or_call zero d t ts = out_of_fuel
    name_or_call (suc n) d t ts = elim (at stop lp ts) [
      | true ↦ func_call n d (find_func (lower t.val) funcs) t ts
      | false ↦ ok (column t.val, ts)
    ]

    -- `_func_call`, with the table's entry for the name
    pub func_call : ℕ → ℕ → Option Func → Tok → List Tok → Result (Expr × List Tok)
    func_call zero d entry t ts = out_of_fuel
    func_call (suc n) d none t ts = fail (unknown_function t.val) t.pos
    func_call (suc n) d (some f) t ts = do
      (_, rest₁) ← eat stop lp ts
      (args, rest₂) ← call_args n d rest₁
      (_, rest) ← eat stop rp rest₂
      call_of f t args rest

    pub call_args : ℕ → ℕ → List Tok → Result (Args × List Tok)
    call_args zero d ts = out_of_fuel
    call_args (suc n) d ts = elim (at stop rp ts) [
      | true ↦ ok (no_args, ts)
      | false ↦ do
        (e, rest₁) ← parse_or n d false ts
        (es, rest) ← args_tail n d rest₁
        ok (arg e es, rest)
    ]

    pub args_tail : ℕ → ℕ → List Tok → Result (Args × List Tok)
    args_tail zero d ts = out_of_fuel
    args_tail (suc n) d [] = ok (no_args, [])
    args_tail (suc n) d (t ∷ ts) = elim (is_kind comma t) [
      | true ↦ do
        (e, rest₁) ← parse_or n d false ts
        (es, rest) ← args_tail n d rest₁
        ok (arg e es, rest)
      | false ↦ ok (no_args, t ∷ ts)
    ]
