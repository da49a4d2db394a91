-- ===== src/Detection/Condition.antt =====
-- `_Cond` and `_eval_condition`: the recursive descent over the condition's tokens.
--
-- The state `(toks, i)` of the parser is the list of the tokens from `i` on; past the end it is
-- empty, and stays so. The calls run on fuel, and an exception ends them all.
pub mod Run
pub mod Suffix
pub mod Total
pub mod Grammar
pub mod Print
use siem_lite.Prelude.{
  ℕ, zero, suc, ◌+◌, ◌*◌, Bool, true, false, not, ◌&&◌, ◌||◌, List, [], ◌∷◌, ◌++◌, Option, none,
  some, if◌then◌else◌, leb, ◌==◌, map, length, keep, is_empty, all_of,
}
use siem_lite.Prelude.Dict
use siem_lite.Text.Chars.{Text, codes, text, text_eq, lower, split}
use siem_lite.Text.Digits.{isdigit, int_of}
use siem_lite.Text.Search.{starts_with, ends_with, replace}
use siem_lite.Detection.Condition.Run.{Outcome, done, value_error, out_of_fuel, ◌>>=◌}

abbrev pub Tokens : Type 0
Tokens = List Text

-- The results of the selections, by name.
abbrev pub Sel : Type 0
Sel = List (Text × Bool)

-- `t.lower() == w`
abbrev pub is_word : Text → Text → Bool
is_word w t = text_eq (lower t) w

-- `(t := self._peek()) and t.lower() == w`
abbrev pub peek_is : Text → Tokens → Bool
peek_is w [] = false
peek_is w (t ∷ toks) = is_word w t

abbrev pub next : Tokens → Tokens
next [] = []
next (t ∷ toks) = toks

-- `self._peek() == ")"`
abbrev pub peek_close : Tokens → Bool
peek_close [] = false
peek_close (t ∷ toks) = text_eq t (codes ")")

abbrev pub skip_close : Tokens → Tokens
skip_close toks = if peek_close toks then next toks else toks

-- `self.sel.get(n, False)`
unfoldable pub result_of : Sel → Text → Bool
unfolding Dict.get text_eq
result_of sel n = elim (Dict.get text n sel) [ none ↦ false | some b ↦ b ]

-- `pattern[:-1]`
abbrev pub drop_last : Text → Text
drop_last [] = []
drop_last (c ∷ s) = elim s [ [] ↦ [] | d ∷ r ↦ c ∷ drop_last s ]

abbrev pub names : Sel → List Text
names = map (λ e. e.0)

-- The names that `them`, `prefix*` or a plain name stands for.
unfoldable pub pattern_names : Sel → Option Text → List Text
unfolding text_eq starts_with ends_with
pattern_names sel none = []
pattern_names sel (some p) =
    if text_eq p (codes "them")
    then names sel
    else if ends_with (codes "*") p
    then keep (starts_with (drop_last p)) (names sel)
    else if is_empty p
    then []
    else p ∷ []

-- `hits >= int(qty)`
abbrev pub at_least_int : Text → ℕ → Option ℕ → Outcome Bool
at_least_int qty hits none = value_error qty
at_least_int qty hits (some n) = done (leb n hits)

-- `_quantify`
unfoldable pub quantify : Sel → Text → Option Text → Outcome Bool
unfolding pattern_names result_of lower text_eq int_of
quantify sel qty pattern =
    let ns = pattern_names sel pattern in
    let hits = length (keep (result_of sel) ns) in
    if is_word (codes "all") qty
    then done (not (is_empty ns) && hits == length ns)
    else at_least_int qty hits (int_of qty)

-- `t.lower() == "all" or t.isdigit()`
abbrev pub is_quantity : Text → Bool
is_quantity t = is_word (codes "all") t || isdigit t

abbrev pub first_token : Tokens → Option Text
first_token [] = none
first_token (t ∷ toks) = some t

abbrev pub Parsed : Type 0
Parsed = Outcome (Bool × Tokens)

-- `_atom` after the parenthesis: a quantifier, or a selection's name.
unfoldable pub atom_plain : Sel → Tokens → Parsed
unfolding quantify result_of isdigit lower text_eq
atom_plain sel [] = done (false, [])
atom_plain sel (t ∷ toks) =
    if is_quantity t && peek_is (codes "of") toks
    then (quantify sel t (first_token (next toks)) >>= λ v. done (v, next (next toks)))
    else done (result_of sel t, toks)

abbrev pub opens : Tokens → Bool
opens [] = false
opens (t ∷ toks) = text_eq t (codes "(")

-- `_or`, `_and`, `_not` and `_atom`; `or_tail` and `and_tail` are their loops.
unfoldable mutual
  unfolding text_eq lower atom_plain

  pub parse_or : ℕ → Sel → Tokens → Parsed
  parse_or zero sel toks = out_of_fuel
  parse_or (suc f) sel toks = do (v, rest) ← parse_and f sel toks; or_tail f sel v rest

  pub or_tail : ℕ → Sel → Bool → Tokens → Parsed
  or_tail zero sel v toks = out_of_fuel
  or_tail (suc f) sel v toks = elim (peek_is (codes "or") toks) [
    | false ↦ done (v, toks)
    | true ↦ do (w, rest) ← parse_and f sel (next toks); or_tail f sel (w || v) rest
  ]

  pub parse_and : ℕ → Sel → Tokens → Parsed
  parse_and zero sel toks = out_of_fuel
  parse_and (suc f) sel toks = do (v, rest) ← parse_not f sel toks; and_tail f sel v rest

  pub and_tail : ℕ → Sel → Bool → Tokens → Parsed
  and_tail zero sel v toks = out_of_fuel
  and_tail (suc f) sel v toks = elim (peek_is (codes "and") toks) [
    | false ↦ done (v, toks)
    | true ↦ do (w, rest) ← parse_not f sel (next toks); and_tail f sel (w && v) rest
  ]

  pub parse_not : ℕ → Sel → Tokens → Parsed
  parse_not zero sel toks = out_of_fuel
  parse_not (suc f) sel toks = elim (peek_is (codes "not") toks) [
    | false ↦ parse_atom f sel toks
    | true ↦ do (v, rest) ← parse_not f sel (next toks); done (not v, rest)
  ]

  pub parse_atom : ℕ → Sel → Tokens → Parsed
  parse_atom zero sel toks = out_of_fuel
  parse_atom (suc f) sel toks = elim (opens toks) [
    | false ↦ atom_plain sel toks
    | true ↦ do (v, rest) ← parse_or f sel (next toks); done (v, skip_close rest)
  ]

abbrev pub parse_fuel : Tokens → ℕ
parse_fuel toks = length toks * 6 + 6

-- `_Cond(tokens, sel).parse()`
unfoldable pub parse : Sel → Tokens → Outcome Bool
unfolding parse_or
parse sel toks = do (v, rest) ← parse_or (parse_fuel toks) sel toks; done v

-- `condition.replace("(", " ( ").replace(")", " ) ").split()`
unfoldable pub tokenize : Text → Tokens
unfolding replace split
tokenize condition = split (replace b')' (codes " ) ") (replace b'(' (codes " ( ") condition))

unfoldable pub eval_condition : Text → Sel → Outcome Bool
unfolding tokenize parse
eval_condition condition sel = elim (tokenize condition) [
  | [] ↦ done (not (is_empty sel) && all_of (λ (e : Text × Bool). e.1) sel)
  | t ∷ toks ↦ parse sel (t ∷ toks)
]
