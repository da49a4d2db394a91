-- ===== src/Loql/Expr/Atoms.antt =====
-- The steps of the expression parser of `app/loql/parser.py` that call no other: what they build is
-- closed, and what they leave is shorter.
use siem_lite.Prelude.{
  ℕ, ◌≤◌, ◌<◌, ◌==◌, ◌≡◌, refl, Bool, true, false, [], ◌∷◌, List, Option, none, some, leb, All, inl,
  inr, Bool-cases, arith, length,
}
use siem_lite.Text.Chars.{Text, codes, text_eq}
use siem_lite.Loql.Result.{ok, Returns, ◌>>=◌, returned, refused, overlong, Returns-branch}
use siem_lite.Loql.Nodes.{
  whole, decimal, word, truth, nothing, Expr, lit, column, unary, binary, func, in_list, Args,
}
use siem_lite.Loql.Lexer.{Kind, string, number, op, id, kw, Tok}
use siem_lite.Loql.Tokens.{read_literal, has_point, max_digits, IsNamed, search_value}
use siem_lite.Loql.Expr.{Func, funcs, find_func, args_length, standalone, call_of}
use siem_lite.Loql.Expr.Closed.{IsClosed, AreClosed, is_call, find_func-is_call}

-- A closed expression, with fewer tokens left than these.
abbrev pub Parsed : List Tok → Expr × List Tok → Type 0
Parsed ts (e, rest) = IsClosed e × (length rest < length ts) × All IsNamed rest

abbrev pub Extended : List Tok → Expr × List Tok → Type 0
Extended ts (e, rest) = IsClosed e × (length rest ≤ length ts) × All IsNamed rest

abbrev pub Listed : List Tok → Args × List Tok → Type 0
Listed ts (es, rest) = AreClosed es × (length rest ≤ length ts) × All IsNamed rest

pub Extended-Parsed :
    (ts rest : List Tok)
    → length rest < length ts
    → (r : Expr × List Tok) → Extended rest r
    → Parsed ts r
Extended-Parsed ts rest s r (c, h, w) = (c, omega arith, w)

pub Extended-wider :
    (ts rest : List Tok)
    → length rest ≤ length ts
    → (r : Expr × List Tok) → Extended rest r
    → Extended ts r
Extended-wider ts rest s r (c, h, w) = (c, omega arith, w)

abbrev of_count : Option ℕ → Func → Func
of_count c f = record { written = f.written; sql = f.sql; count = c }

-- A token, its kind apart.
abbrev pub of_kind : Kind → Tok → Tok
of_kind k t = record { kind = k; val = t.val; pos = t.pos }

pub read_literal-Returns :
    (s : Text) (t : Tok) (ts : List Tok)
    → All IsNamed ts
    → Returns (Parsed (t ∷ ts)) (read_literal s >>= λ value. ok (lit value, ts))
unfolding IsClosed
read_literal-Returns s t ts w = elim (Bool-cases (has_point s)) [
  | inl e ↦ rw e (returned (tt, omega arith, w))
  | inr e ↦ rw e (elim (Bool-cases (leb (length s) max_digits)) [
    | inl short ↦ rw short (returned (tt, omega arith, w))
    | inr long ↦ rw long overlong
  ])
]

module _ (float_text : Text → Text) (stop : ℕ) where
  pub standalone-IsClosed :
      (mode : Bool) (e : Expr) → IsClosed e → IsClosed (standalone float_text stop mode e)
  unfolding IsClosed is_call
  standalone-IsClosed true (lit (whole n)) h = (refl, (tt, tt))
  standalone-IsClosed true (lit (decimal s)) h = (refl, (tt, tt))
  standalone-IsClosed true (lit (word s)) h = (refl, (tt, tt))
  standalone-IsClosed true (lit (truth b)) h = h
  standalone-IsClosed true (lit nothing) h = h
  standalone-IsClosed true (column name) h = (refl, (tt, tt))
  standalone-IsClosed true (unary o e) h = h
  standalone-IsClosed true (binary o a b) h = h
  standalone-IsClosed true (func f es) h = h
  standalone-IsClosed true (in_list e es) h = h
  standalone-IsClosed false e h = h

  pub call_of-Returns :
      (name : Text) (f : Func) (t : Tok) (es : Args) (rest ts : List Tok)
      → find_func name funcs ≡ some f
      → AreClosed es
      → length rest ≤ length ts
      → All IsNamed rest
      → Returns (Extended ts) (call_of float_text stop f t es rest)
  unfolding IsClosed call_of
  call_of-Returns name f t es rest ts h closed shorter w =
      elim f.count
          as (λ c.
            f.count ≡ c
            → Returns (Extended ts) (call_of float_text stop (of_count c f) t es rest)) [
              | none ↦ λ e.
                  returned
                    ((find_func-is_call name (args_length es) h (rw e refl), closed), shorter, w)
              | some k ↦ λ e.
                  Returns-branch (args_length es == k)
                    (λ same.
                      returned (
                        (find_func-is_call name (args_length es) h (rw e same), closed),
                        shorter,
                        w,
                      ))
                    (λ _. refused)
            ]
        refl

  pub search_value-Returns :
      (ts : List Tok) → All IsNamed ts → Returns (Parsed ts) (search_value stop ts)
  unfolding search_value IsClosed
  search_value-Returns [] w = refused
  search_value-Returns (t ∷ ts) (_, w) =
      elim t.kind as (λ k. Returns (Parsed (t ∷ ts)) (search_value stop (of_kind k t ∷ ts))) [
        | string ↦ returned (tt, omega arith, w)
        | number ↦ read_literal-Returns t.val t ts w
        | id ↦ returned (tt, omega arith, w)
        | kw ↦ returned (tt, omega arith, w)
        | op ↦
            Returns-branch (text_eq t.val (codes "*")) (λ _. returned (tt, omega arith, w))
              (λ _. refused)
        | _ ↦ refused
      ]
