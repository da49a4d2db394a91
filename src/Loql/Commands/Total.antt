-- ===== src/Loql/Commands/Total.antt =====
-- The parts of the commands of `app/loql/parser.py`: they end, leave fewer tokens or as many, and
-- what they build is closed.
use siem_lite.Prelude.{
  ℕ, ◌≤◌, ◌≢◌, refl, Bool, true, ◌&&◌, leb, not, List, [], ◌∷◌, All, length, arith, if◌then◌else◌,
}
use siem_lite.Text.Chars.{Text, codes, text_eq, member, strip}
use siem_lite.Loql.Result.{
  Returns, returned, refused, overlong, Returns-then, Returns-branch, Returns-weaken,
}
use siem_lite.Loql.Lexer.{string, number, op, pipe, lp, rp, kw, eof, Tok}
use siem_lite.Loql.Tokens.{
  is, is_kind, is_name, IsNamed, cur, at, advance, name_of, int_of, has_point, max_digits, unquote,
  eat-Shorter, eat_val-Shorter, name_of-Named,
}
use siem_lite.Loql.Expr.Closed.{IsClosed}
use siem_lite.Loql.Expr.Total.{parse_or-Returns}
use siem_lite.Loql.Commands.{
  aggregates, aggregate, is_some, parse_expr, search_expr, given_model, model_name, alias, agg_arg,
  agg, by_clause, has_unit, is_span_text, span_value, at_span, span_opt, sign, rename_pair,
  sort_key, top_like,
}
use siem_lite.Loql.Parser.Closed.{IsName, IfThere, IsClosedAgg, IsClosedStage}
use siem_lite.Loql.Commands.Lists.{Within, Before, Reads, list_of-Returns, if-either}
use siem_lite.Loql.Commands.Aggregates.{aggregate-IsName, make_agg-IsClosedAgg}

module _ (float_text : Text → Text) (stop : ℕ) where
  -- One token on.
  pub advance-IsNamed :
      (ts : List Tok)
      → All IsNamed ts
      → (length (advance stop ts) ≤ length ts) × All IsNamed (advance stop ts)
  advance-IsNamed [] w = (omega arith, tt)
  advance-IsNamed (t ∷ ts) (v, w) = (omega arith, w)

  pub parse_expr-Returns :
      (mode : Bool) (ts : List Tok)
      → All IsNamed ts
      → Returns (Before IsClosed ts) (parse_expr float_text stop mode ts)
  unfolding parse_expr
  parse_expr-Returns mode ts w = parse_or-Returns float_text stop _ 0 mode ts w (omega arith)

  pub alias-Returns :
      (ts : List Tok)
      → All IsNamed ts
      → Returns (Within (IfThere IsName) ts) (alias float_text stop ts)
  unfolding alias text_eq
  alias-Returns ts w =
      Returns-branch (is kw (codes "as") (cur stop ts))
        (λ _. Returns-then (eat_val-Shorter stop kw (codes "as") ts refl w) λ (_, rest₁) (s₁, w₁).
          Returns-then (name_of-Named stop rest₁ w₁)
            λ (name, rest) (n, s₂, w₂). returned (n, omega arith, w₂))
        (λ _. returned (tt, omega arith, w))

  agg_arg-Returns :
      (ts : List Tok)
      → All IsNamed ts
      → Returns (Within (IfThere IsName) ts) (agg_arg float_text stop ts)
  unfolding agg_arg
  agg_arg-Returns ts w =
      Returns-branch (at stop lp ts)
        (λ _. Returns-then (eat-Shorter stop lp ts refl w) λ (_, rest₁) (s₁, w₁).
          Returns-then {P = Within (IfThere IsName) rest₁}
            (Returns-branch (at stop rp rest₁) (λ _. returned (tt, omega arith, w₁))
              λ _.
                Returns-then (name_of-Named stop rest₁ w₁)
                  λ (name, rest) (n, s₂, w₂). returned (n, omega arith, w₂))
            λ (arg, rest₂) (n, s₂, w₂).
              Returns-then (eat-Shorter stop rp rest₂ refl w₂)
                λ (_, rest) (s₃, w₃). returned (n, omega arith, w₃))
        (λ _. returned (tt, omega arith, w))

  pub by_clause-Returns :
      (ts : List Tok)
      → All IsNamed ts
      → Returns (Within (All IsName) ts) (by_clause float_text stop ts)
  unfolding by_clause text_eq
  by_clause-Returns ts w =
      Returns-branch (is kw (codes "by") (cur stop ts))
        (λ _. Returns-then (eat_val-Shorter stop kw (codes "by") ts refl w) λ (_, rest₁) (s₁, w₁).
          Returns-weaken (λ (names, rest) (ns, s, w'). (ns, omega arith, w'))
            (list_of-Returns IsName (name_of stop) rest₁ (name_of-Named stop) w₁))
        (λ _. returned (tt, omega arith, w))

  pub rename_pair-Returns : Reads (λ (a, b). IsName a × IsName b) (rename_pair float_text stop)
  unfolding rename_pair
  rename_pair-Returns ts w = Returns-then (name_of-Named stop ts w) λ (src, rest₁) (n₁, s₁, w₁).
      Returns-then (eat_val-Shorter stop kw (codes "as") rest₁ refl w₁) λ (_, rest₂) (s₂, w₂).
        Returns-then (name_of-Named stop rest₂ w₂)
          λ (out, rest) (n₃, s₃, w₃). returned ((n₁, n₃), omega arith, w₃)

  pub sign-IsNamed :
      (ts : List Tok)
      → All IsNamed ts
      → (length (sign float_text stop ts).1 ≤ length ts) × All IsNamed (sign float_text stop ts).1
  sign-IsNamed ts w =
      let next = advance-IsNamed ts w in
      if-either (λ (b, rest). (length rest ≤ length ts) × All IsNamed rest)
        (is op (codes "-") (cur stop ts)) _ _ next
        (if-either (λ (b, rest). (length rest ≤ length ts) × All IsNamed rest)
          (is op (codes "+") (cur stop ts)) _ _ next (omega arith, w))

  pub sort_key-Returns : Reads (λ (a, desc). IsName a) (sort_key float_text stop)
  unfolding sort_key
  sort_key-Returns ts w =
      let (s₁, w₁) = sign-IsNamed ts w in
      Returns-then (name_of-Named stop (sign float_text stop ts).1 w₁)
        λ (name, rest) (n, s₂, w₂). returned (n, omega arith, w₂)

  pub agg-Returns : Reads IsClosedAgg (agg float_text stop)
  unfolding agg IsClosedAgg
  agg-Returns ts w = Returns-then (name_of-Named stop ts w) λ (name, rest₁) (n₁, s₁, w₁).
      Returns-branch (member (aggregate name) aggregates)
        (λ known. Returns-then (agg_arg-Returns rest₁ w₁) λ (arg, rest₂) (n₂, s₂, w₂).
          Returns-branch (not (text_eq (aggregate name) (codes "count")) && not (is_some arg))
            (λ _. refused)
            (λ field. Returns-then (alias-Returns rest₂ w₂) λ (out, rest) (n₃, s₃, w₃). returned (
              make_agg-IsClosedAgg (aggregate name) arg out (aggregate-IsName name n₁) known field
                  n₂ n₃,
              omega arith,
              w₃,
            )))
        (λ _. refused)

  given_model-Returns :
      (name : Text) (pos : ℕ) (ts rest : List Tok)
      → length rest ≤ length ts
      → All IsNamed rest
      → Returns (Within (λ s. s ≢ []) ts) (given_model float_text stop name pos rest)
  given_model-Returns [] pos ts rest h w = refused
  given_model-Returns (c ∷ s) pos ts rest h w = returned ((λ e. cc), h, w)

  -- `_model_name` gives no empty name.
  pub model_name-Returns :
      (ts : List Tok)
      → All IsNamed ts
      → Returns (Within (λ s. s ≢ []) ts) (model_name float_text stop ts)
  unfolding model_name
  model_name-Returns ts w =
      let (s, w') = advance-IsNamed ts w in
      Returns-branch (is_kind string (cur stop ts))
        (λ _. given_model-Returns (strip (unquote (cur stop ts).val)) _ ts (advance stop ts) s w')
        (λ _.
          Returns-branch (is_name (cur stop ts))
            (λ _. given_model-Returns (cur stop ts).val _ ts (advance stop ts) s w') (λ _. refused))

  pub search_expr-Returns :
      (ts : List Tok)
      → All IsNamed ts
      → Returns (Within (IfThere IsClosed) ts) (search_expr float_text stop ts)
  unfolding search_expr text_eq
  search_expr-Returns ts w =
      let rest₁ = if is op (codes "*") (cur stop ts) then advance stop ts else ts in
      let (s₁, w₁) =
        if-either (λ rest. (length rest ≤ length ts) × All IsNamed rest)
          (is op (codes "*") (cur stop ts)) (advance stop ts) ts (advance-IsNamed ts w)
          (omega arith, w) in
      Returns-branch (at stop pipe rest₁) (λ _. returned (tt, s₁, w₁))
        λ _.
          Returns-branch (at stop eof rest₁) (λ _. returned (tt, s₁, w₁))
            λ _.
              Returns-then (parse_expr-Returns true rest₁ w₁)
                λ (e, rest) (c, s₂, w₂). returned (c, omega arith, w₂)

  span_value-Returns :
      (ts : List Tok)
      → All IsNamed ts
      → Returns (Within (λ _. Unit) ts) (span_value float_text stop ts)
  unfolding span_value
  span_value-Returns [] w = refused
  span_value-Returns (t ∷ ts) (_, w) =
      let (s₁, w₁) = advance-IsNamed ts w in
      elim t.kind
        as (λ k.
          Returns (Within (λ _. Unit) (t ∷ ts))
            (span_value float_text stop (record { kind = k; val = t.val; pos = t.pos } ∷ ts))) [
              | number ↦
                  Returns-branch (has_unit t (cur stop ts)) (λ _. returned (tt, omega arith, w₁))
                    (λ _. refused)
              | string ↦
                  Returns-branch (is_span_text (unquote t.val)) (λ _. returned (tt, omega arith, w))
                    (λ _. refused)
              | _ ↦ refused
            ]

  pub span_opt-Returns :
      (ts : List Tok)
      → All IsNamed ts
      → Returns (Within (λ _. Unit) ts) (span_opt float_text stop ts)
  unfolding span_opt span_value text_eq
  span_opt-Returns ts w =
      let (s₁, w₁) = advance-IsNamed ts w in
      let (s₂, w₂) = advance-IsNamed (advance stop ts) w₁ in
      Returns-branch (at_span float_text stop ts)
        (λ _.
          Returns-weaken (λ (span, rest) (_, s, w'). (tt, omega arith, w'))
            (span_value-Returns (advance stop (advance stop ts)) w₂))
        (λ _. returned (tt, omega arith, w))

  pub int_of-Returns :
      (context : Text) (ts : List Tok)
      → All IsNamed ts
      → Returns (Within (λ _. Unit) ts) (int_of stop context ts)
  unfolding int_of
  int_of-Returns context ts w =
      Returns-then (eat-Shorter stop number ts refl w) λ (t, rest) (s, w').
        Returns-branch (has_point t.val) (λ _. refused)
          λ _.
            Returns-then {P = λ _. Unit}
              (if-either (Returns (λ _. Unit)) (leb (length t.val) max_digits) _ _ (returned tt)
                overlong)
              λ n _. returned (tt, omega arith, w')

  pub top_like-Returns :
      (rare : Bool) (ts : List Tok)
      → All IsNamed ts
      → Returns (Within IsClosedStage ts) (top_like float_text stop rare ts)
  unfolding top_like IsClosedStage
  top_like-Returns rare ts w =
      Returns-then {P = Within (λ _. Unit) ts}
        (Returns-branch (at stop number ts) (λ _. int_of-Returns (codes "top") ts w)
          (λ _. returned (tt, omega arith, w)))
        λ (n, rest₁) (_, s₁, w₁).
          Returns-then (name_of-Named stop rest₁ w₁) λ (field, rest₂) (n₂, s₂, w₂).
            Returns-then (by_clause-Returns rest₂ w₂)
              λ (by, rest) (ns, s₃, w₃). returned ((n₂, ns), omega arith, w₃)
