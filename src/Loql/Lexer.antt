-- ===== src/Loql/Lexer.antt =====
-- `_lex` of `app/loql/parser.py`. `\w` and `\d` are the ASCII letters, digits and `_`.
pub mod Matches
pub mod Names
pub mod Places
pub mod Covers
use siem_lite.Prelude.{
  ℕ, zero, suc, ◌+◌, ◌==◌, Bool, true, false, ◌&&◌, ◌||◌, List, [], ◌∷◌, ◌++◌, Option, none, some,
  if◌then◌else◌, leb, any_of, all_of, length,
}
use siem_lite.Text.Chars.{Text, codes, text_eq, member, lower, is_space}
use siem_lite.Text.Number.{is_digit}
use siem_lite.Loql.Result.{
  Problem, unexpected_character, LoqlError, Result, ok, failed, out_of_fuel, ◌>>=◌,
}

-- `m.lastgroup`, and KW for a keyword
pub data Kind : Type 0 where
  string : Kind
  number : Kind
  op : Kind
  pipe : Kind
  comma : Kind
  colon : Kind
  lp : Kind
  rp : Kind
  id : Kind
  kw : Kind
  eof : Kind

abbrev kind_code : Kind → ℕ
kind_code string = 0
kind_code number = 1
kind_code op = 2
kind_code pipe = 3
kind_code comma = 4
kind_code colon = 5
kind_code lp = 6
kind_code rp = 7
kind_code id = 8
kind_code kw = 9
kind_code eof = 10

abbrev pub kind_eq : Kind → Kind → Bool
kind_eq a b = kind_code a == kind_code b

-- The names of the groups.
abbrev pub kind_name : Kind → Text
kind_name string = codes "STR"
kind_name number = codes "NUM"
kind_name op = codes "OP"
kind_name pipe = codes "PIPE"
kind_name comma = codes "COMMA"
kind_name colon = codes "COLON"
kind_name lp = codes "LP"
kind_name rp = codes "RP"
kind_name id = codes "ID"
kind_name kw = codes "KW"
kind_name eof = codes "EOF"

pub record Tok : Type 0 where
  pub kind : Kind
  pub val : Text
  pub pos : ℕ

abbrev pub keywords : List Text
keywords =
    codes "and"
    ∷ codes "or"
    ∷ codes "not"
    ∷ codes "by"
    ∷ codes "as"
    ∷ codes "in"
    ∷ codes "true"
    ∷ codes "false"
    ∷ codes "null"
    ∷ codes "like"
    ∷ []

abbrev pub is_letter : ℕ → Bool
is_letter c = (leb b'a' c && leb c b'z') || ((leb b'A' c && leb c b'Z') || c == b'_')

abbrev pub is_word : ℕ → Bool
is_word c = is_letter c || is_digit c

-- `[A-Za-z_]\w*`
unfoldable pub is_identifier : Text → Bool
is_identifier [] = false
is_identifier (c ∷ s) = is_letter c && all_of is_word s

abbrev pub first_ops : List ℕ
first_ops = b'=' ∷ b'<' ∷ b'>' ∷ b'+' ∷ b'-' ∷ b'*' ∷ b'/' ∷ b'%' ∷ b'.' ∷ []

abbrev pub add_char : ℕ → Text × Text → Text × Text
add_char c (a, b) = (c ∷ a, b)

-- The longest prefix of characters that pass the test, and the rest.
pub span : (ℕ → Bool) → Text → Text × Text
span p [] = ([], [])
span p (c ∷ s) = elim (p c) [ true ↦ add_char c (span p s) | false ↦ ([], c ∷ s) ]

abbrev pub add_front : Text → Option (Text × Text) → Option (Text × Text)
add_front t none = none
add_front t (some (a, b)) = some (t ++ a, b)

-- The rest of a quoted string, its closing quote included; `.` is no newline.
pub string_body : ℕ → Text → Option (Text × Text)
string_body q [] = none
string_body q (c ∷ []) = if c == q then some (c ∷ [], []) else none
string_body q (c ∷ d ∷ s) = elim (c == q) [
  | true ↦ some (c ∷ [], d ∷ s)
  | false ↦ elim (c == b'\\') [
    | true ↦ elim (d == 10) [ true ↦ none | false ↦ add_front (c ∷ d ∷ []) (string_body q s) ]
    | false ↦ add_front (c ∷ []) (string_body q (d ∷ s))
  ]
]

-- What matches at a place: its group, or none for white space; its text; and the rest.
pub record Match : Type 0 where
  pub group : Option Kind
  pub text : Text
  pub rest : Text

abbrev pub found : Kind → Text × Text → Match
found k (a, b) = record { group = some k; text = a; rest = b }

abbrev pub found_string : ℕ → Option (Text × Text) → Option Match
found_string q none = none
found_string q (some (a, b)) = some (found string (q ∷ a, b))

-- `\d+(?:\.\d+)?`, after the digits
abbrev pub fraction : Text → Text → Text × Text
fraction ds [] = (ds, [])
fraction ds (c ∷ []) = (ds, c ∷ [])
fraction ds (c ∷ d ∷ s) =
    let (fs, rest) = span is_digit (d ∷ s) in
    if c == b'.' && is_digit d then (ds ++ c ∷ fs, rest) else (ds, c ∷ d ∷ s)

abbrev pub number_at : Text → Match
number_at s = let (ds, rest) = span is_digit s in found number (fraction ds rest)

abbrev pub one_op : ℕ → Text → Option Match
one_op c s = if any_of (λ o. c == o) first_ops then some (found op (c ∷ [], s)) else none

abbrev pub op_at : ℕ → Text → Option Match
op_at c [] = one_op c []
op_at c (d ∷ s) =
    if (c == b'!' || (c == b'<' || c == b'>')) && d == b'='
    then some (found op (c ∷ d ∷ [], s))
    else one_op c (d ∷ s)

abbrev pub word_at : ℕ → Text → Match
word_at c s = let (a, b) = span is_word s in found id (c ∷ a, b)

abbrev pub space_at : ℕ → Text → Match
space_at c s = let (a, b) = span is_space s in record { group = none; text = c ∷ a; rest = b }

unfoldable pub match_at : ℕ → Text → Option Match
unfolding span string_body
match_at c s =
    if is_space c
    then some (space_at c s)
    else if c == b'\'' || c == b'"'
    then found_string c (string_body c s)
    else if is_digit c
    then some (number_at (c ∷ s))
    else if c == b'|'
    then some (found pipe (c ∷ [], s))
    else if c == b','
    then some (found comma (c ∷ [], s))
    else if c == b':'
    then some (found colon (c ∷ [], s))
    else if c == b'('
    then some (found lp (c ∷ [], s))
    else if c == b')'
    then some (found rp (c ∷ [], s))
    else if is_letter c
    then some (word_at c s)
    else op_at c s

abbrev pub word_or_keyword : Text → ℕ → Tok
word_or_keyword val pos =
    if member (lower val) keywords
    then record { kind = kw; val = lower val; pos = pos }
    else record { kind = id; val = val; pos = pos }

abbrev pub add_match : Match → ℕ → List Tok → List Tok
add_match m pos toks = elim m.group [
  | none ↦ toks
  | some id ↦ word_or_keyword m.text pos ∷ toks
  | some k ↦ record { kind = k; val = m.text; pos = pos } ∷ toks
]

-- Each match takes a character at least.
unfoldable pub lex_from : ℕ → ℕ → Text → Result (List Tok)
unfolding match_at member lower text_eq
lex_from fuel pos [] = ok []
lex_from zero pos (c ∷ s) = out_of_fuel
lex_from (suc fuel) pos (c ∷ s) = elim (match_at c s) [
  | none ↦ failed (record { problem = unexpected_character c; pos = some pos })
  | some m ↦ do toks ← lex_from fuel (pos + length m.text) m.rest; ok (add_match m pos toks)
]

-- `_lex`, without the token EOF that it puts last
unfoldable pub lex : Text → Result (List Tok)
unfolding lex_from
lex s = lex_from (length s) 0 s
