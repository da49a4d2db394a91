-- ===== src/Loql/Nodes.antt =====
-- `app/loql/nodes.py`: the parse tree of LOQL.
use siem_lite.Prelude.{ℕ, Bool, List, Option}
use siem_lite.Text.Chars.{Text}

-- The value and the kind of `Lit`; a float is held by the text it is written as.
pub data Literal : Type 0 where
  whole : ℕ → Literal
  decimal : Text → Literal
  word : Text → Literal
  truth : Bool → Literal
  nothing : Literal

mutual
  pub data Expr : Type 0 where
    lit : Literal → Expr
    column : Text → Expr
    unary : Text → Expr → Expr
    binary : Text → Expr → Expr → Expr
    func : Text → Args → Expr
    in_list : Expr → Args → Expr

  pub data Args : Type 0 where
    no_args : Args
    arg : Expr → Args → Args

pub record Agg : Type 0 where
  pub func : Text
  pub arg : Option Text
  pub out : Text

-- The stages; the source's `Field` and `Fields` are `column` and `keep_columns`.
pub data Stage : Type 0 where
  search : Option Expr → Option Text → Stage
  filter : Expr → Stage
  evaluate : Text → Expr → Stage
  keep_columns : List Text → Bool → Stage
  rename : List (Text × Text) → Stage
  sort : List (Text × Bool) → Stage
  head : ℕ → Stage
  dedup : List Text → Stage
  stats : List Agg → List Text → Stage
  top : Text → ℕ → Bool → List Text → Stage
  bin : Text → Option Text → Option Text → Stage
  timechart : List Agg → Option Text → Option Text → Stage

pub record Query : Type 0 where
  pub stages : List Stage
