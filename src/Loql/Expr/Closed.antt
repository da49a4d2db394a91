-- ===== src/Loql/Expr/Closed.antt =====
-- Which expressions the grammar of `app/loql/parser.py` can build, independently of the parser: the
-- operators and functions come from closed sets, a function with the number of arguments it takes.
use siem_lite.Prelude.{
  ℕ, ◌==◌, ◌≡◌, refl, Bool, true, ◌&&◌, ◌||◌, List, [], ◌∷◌, Option, none, some, any_of, arith,
}
use siem_lite.Text.Chars.{Text, codes, text_eq, member, text_eq_refl}
use siem_lite.Loql.Nodes.{Expr, lit, column, unary, binary, func, in_list, Args, no_args, arg}
use siem_lite.Loql.Lexer.{Tok, is_identifier}
use siem_lite.Loql.Expr.{
  comparisons, Func, funcs, find_func, args_length, is_relation, is_additive, is_multiplicative,
}

-- `argc is None or len(args) == argc`
abbrev pub takes : Option ℕ → ℕ → Bool
takes none n = true
takes (some k) n = n == k

abbrev offers : Text → ℕ → Func → Bool
offers sql n f = text_eq sql f.sql && takes f.count n

-- A function of the table under its SQL name, or the search for a term in the full text.
unfoldable pub is_call : Text → ℕ → Bool
unfolding text_eq
is_call sql n = any_of (offers sql n) funcs || text_eq sql (codes "_fts") && n == 1

unfoldable pub is_binary : Text → Bool
unfolding member
is_binary o =
    member o (codes "and" ∷ codes "or" ∷ codes "like" ∷ [])
    || (member o comparisons
        || (member o (codes "+" ∷ codes "-" ∷ codes "." ∷ [])
            || member o (codes "*" ∷ codes "/" ∷ codes "%" ∷ [])))

unfoldable pub is_unary : Text → Bool
unfolding member
is_unary o = member o (codes "not" ∷ codes "-" ∷ [])

unfoldable mutual
  unfolding is_call is_binary is_unary args_length

  pub IsClosed : Expr → Type 0
  IsClosed (lit value) = Unit
  IsClosed (column name) = is_identifier name ≡ true
  IsClosed (unary o e) = (is_unary o ≡ true) × IsClosed e
  IsClosed (binary o a b) = (is_binary o ≡ true) × IsClosed a × IsClosed b
  IsClosed (func sql es) = (is_call sql (args_length es) ≡ true) × AreClosed es
  IsClosed (in_list e es) = IsClosed e × AreClosed es

  pub AreClosed : Args → Type 0
  AreClosed no_args = Unit
  AreClosed (arg e es) = IsClosed e × AreClosed es

pub is_relation-is_binary : (t : Tok) → is_relation t ≡ true → is_binary t.val ≡ true
unfolding is_binary member
is_relation-is_binary t h = ground arith

pub is_additive-is_binary : (t : Tok) → is_additive t ≡ true → is_binary t.val ≡ true
unfolding is_binary member
is_additive-is_binary t h = ground arith

pub is_multiplicative-is_binary : (t : Tok) → is_multiplicative t ≡ true → is_binary t.val ≡ true
unfolding is_binary member
is_multiplicative-is_binary t h = ground arith

find_func-any_of :
    (name : Text) (n : ℕ) (fs : List Func) {f : Func}
    → find_func name fs ≡ some f
    → takes f.count n ≡ true
    → any_of (offers f.sql n) fs ≡ true
unfolding find_func
find_func-any_of name n [] h k = absurd (ground arith)
find_func-any_of name n (g ∷ fs) {f} h k =
    let later = find_func-any_of name n fs {f = f} in let same = text_eq_refl f.sql in ground arith

-- What the table gives for a name is a function of the tree.
pub find_func-is_call :
    (name : Text) (n : ℕ) {f : Func}
    → find_func name funcs ≡ some f
    → takes f.count n ≡ true
    → is_call f.sql n ≡ true
unfolding is_call
find_func-is_call name n h k = let found = find_func-any_of name n funcs h k in rw found refl
