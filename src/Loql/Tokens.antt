-- ===== src/Loql/Tokens.antt =====
-- The token helpers of `_Parser` in `app/loql/parser.py`. The list of the parser's tokens from its
-- position on stands for `toks` and `i`, without the last token EOF: that is what `cur` is when the
-- list is empty, and `stop`, the length of the text, is its position.
use siem_lite.Prelude.{
  ℕ, ◌<◌, ◌==◌, ◌≡◌, arith, Bool, true, false, ◌&&◌, ◌||◌, not, List, [], ◌∷◌, if◌then◌else◌, leb,
  any_of, All, length,
}
use siem_lite.Text.Chars.{Text, codes, text_eq, member}
use siem_lite.Text.Number.{read_number}
use siem_lite.Loql.Result.{
  expected_token, expected_name, not_whole, expected_value, Result, ok, value_error, ◌>>=◌, fail,
  Returns, returned, refused, Returns-branch,
}
use siem_lite.Loql.Nodes.{Literal, whole, decimal, word, Expr, lit}
use siem_lite.Loql.Lexer.{
  Kind, string, number, op, lp, id, kw, eof, Tok, is_identifier, kind_eq, kind_name,
}

-- `t.kind == kind and (val is None or t.val == val)`
abbrev pub is : Kind → Text → Tok → Bool
is k v t = kind_eq t.kind k && text_eq t.val v

abbrev pub is_kind : Kind → Tok → Bool
is_kind k t = kind_eq t.kind k

-- `t.val or t.kind`
abbrev pub shown : Tok → Text
shown t = elim t.val [ [] ↦ kind_name t.kind | c ∷ s ↦ t.val ]

-- `t.kind in ("ID", "KW")`
abbrev pub is_name : Tok → Bool
is_name t = is_kind id t || is_kind kw t

-- A token of a name holds an identifier.
abbrev pub IsNamed : Tok → Type 0
IsNamed t = not (is_name t) || is_identifier t.val ≡ true

-- `_starts_atom`
abbrev pub starts_atom : Tok → Bool
starts_atom t =
    (is_kind number t || (is_kind string t || is_kind lp t))
    || (is_kind kw t
          && member t.val (codes "not" ∷ codes "true" ∷ codes "false" ∷ codes "null" ∷ [])
        || is_kind id t)

-- The backslashes of `re.sub(r"\\(.)", r"\1", inner)` removed; `.` is no newline.
unescape : Text → Text
unescape [] = []
unescape (c ∷ []) = c ∷ []
unescape (c ∷ d ∷ s) = elim (c == b'\\' && not (d == 10)) [
  | true ↦ d ∷ unescape s
  | false ↦ c ∷ unescape (d ∷ s)
]

abbrev drop_last : Text → Text
drop_last [] = []
drop_last (c ∷ []) = []
drop_last (c ∷ d ∷ s) = c ∷ drop_last (d ∷ s)

abbrev drop_first : Text → Text
drop_first [] = []
drop_first (c ∷ s) = s

-- `_unquote`
unfoldable pub unquote : Text → Text
unfolding unescape
unquote s = unescape (drop_last (drop_first s))

-- The most digits that `int()` reads.
abbrev pub max_digits : ℕ
max_digits = 4300

-- `int(s)` of digits
abbrev pub read_int : Text → Result ℕ
read_int s = if leb (length s) max_digits then ok (read_number s) else value_error

abbrev pub has_point : Text → Bool
has_point s = any_of (λ c. c == b'.') s

-- `float(t.val) if "." in t.val else int(t.val)`
abbrev pub read_literal : Text → Result Literal
read_literal s = if has_point s then ok (decimal s) else do n ← read_int s; ok (whole n)

module _ (stop : ℕ) where
  abbrev pub eof_tok : Tok
  eof_tok = record { kind = eof; val = []; pos = stop }

  -- `cur`
  abbrev pub cur : List Tok → Tok
  cur [] = eof_tok
  cur (t ∷ ts) = t

  -- `_at(kind)`
  abbrev pub at : Kind → List Tok → Bool
  at k ts = is_kind k (cur ts)

  -- `self.i += 1`
  abbrev pub advance : List Tok → List Tok
  advance [] = []
  advance (t ∷ ts) = ts

  -- `_eat(kind)`
  unfoldable pub eat : Kind → List Tok → Result (Tok × List Tok)
  eat k ts = elim (at k ts) [
    | true ↦ ok (cur ts, advance ts)
    | false ↦ fail (expected_token (kind_name k) (shown (cur ts))) (cur ts).pos
  ]

  -- `_eat(kind, val)`
  unfoldable pub eat_val : Kind → Text → List Tok → Result (Tok × List Tok)
  unfolding text_eq
  eat_val k v ts = elim (is k v (cur ts)) [
    | true ↦ ok (cur ts, advance ts)
    | false ↦ fail (expected_token v (shown (cur ts))) (cur ts).pos
  ]

  -- `_ident_or_kw`
  unfoldable pub name_of : List Tok → Result (Text × List Tok)
  name_of ts = elim (is_name (cur ts)) [
    | true ↦ ok ((cur ts).val, advance ts)
    | false ↦ fail (expected_name (shown (cur ts))) (cur ts).pos
  ]

  -- `_int`
  unfoldable pub int_of : Text → List Tok → Result (ℕ × List Tok)
  unfolding eat
  int_of context ts = do
    (t, rest) ← eat number ts
    elim (has_point t.val) [
      | true ↦ fail (not_whole context) t.pos
      | false ↦ do n ← read_int t.val; ok (n, rest)
    ]

  -- `_search_value`
  unfoldable pub search_value : List Tok → Result (Expr × List Tok)
  unfolding unquote text_eq
  search_value [] = fail expected_value stop
  search_value (t ∷ ts) = elim t.kind [
    | string ↦ ok (lit (word (unquote t.val)), ts)
    | number ↦ do value ← read_literal t.val; ok (lit value, ts)
    | id ↦ ok (lit (word t.val), ts)
    | kw ↦ ok (lit (word t.val), ts)
    | op ↦ elim (text_eq t.val (codes "*")) [
      | true ↦ ok (lit (word (codes "*")), ts)
      | false ↦ fail expected_value t.pos
    ]
    | _ ↦ fail expected_value t.pos
  ]

  -- The tokens left are fewer, and names still.
  abbrev pub Shorter {ℓ} : {A : Type ℓ} → List Tok → A × List Tok → Type 0
  Shorter ts (a, rest) = (length rest < length ts) × All IsNamed rest

  pub eat-Shorter :
      (k : Kind) (ts : List Tok)
      → kind_eq eof k ≡ false
      → All IsNamed ts
      → Returns (Shorter ts) (eat k ts)
  unfolding eat
  eat-Shorter k [] h w = Returns-branch (kind_eq eof k) (λ e. absurd (ground arith)) (λ _. refused)
  eat-Shorter k (t ∷ ts) h (_, w) =
      Returns-branch (is_kind k t) (λ _. returned (omega arith, w)) (λ _. refused)

  pub eat_val-Shorter :
      (k : Kind) (v : Text) (ts : List Tok)
      → kind_eq eof k ≡ false
      → All IsNamed ts
      → Returns (Shorter ts) (eat_val k v ts)
  unfolding eat_val text_eq
  eat_val-Shorter k v [] h w =
      Returns-branch (is k v eof_tok) (λ e. absurd (ground arith)) (λ _. refused)
  eat_val-Shorter k v (t ∷ ts) h (_, w) =
      Returns-branch (is k v t) (λ _. returned (omega arith, w)) (λ _. refused)

  -- A name is an identifier.
  abbrev pub Named : List Tok → Text × List Tok → Type 0
  Named ts (name, rest) = (is_identifier name ≡ true) × (length rest < length ts) × All IsNamed rest

  pub name_of-Named : (ts : List Tok) → All IsNamed ts → Returns (Named ts) (name_of ts)
  unfolding name_of
  name_of-Named [] w = refused
  name_of-Named (t ∷ ts) (h, w) =
      Returns-branch (is_name t) (λ e. returned (ground arith, omega arith, w)) (λ _. refused)
