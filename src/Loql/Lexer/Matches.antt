-- ===== src/Loql/Lexer/Matches.antt =====
-- What the pattern of `_lex` in `app/loql/parser.py` matches at a place: the text that stands there.
use siem_lite.Prelude.{
  ℕ, ◌<◌, ◌==◌, ◌≡◌, refl, ap, sym, ◌∙◌, List, Bool, true, false, ◌&&◌, ◌||◌, [], ◌∷◌, ◌++◌,
  append_assoc, Option, none, some, inl, inr, Bool-cases, any_of, all_of, if◌then◌else◌, length,
  arith,
}
use siem_lite.Text.Chars.{Text, codes, text_eq, member, is_space}
use siem_lite.Text.Number.{is_digit}
use siem_lite.Loql.Lexer.{
  Kind, string, number, op, pipe, comma, colon, lp, rp, id, kw, eof, one_op, space_at, Match,
  add_char, is_word, is_letter, is_identifier, span, string_body, add_front, found_string, fraction,
  number_at, op_at, first_ops, word_at, match_at,
}

-- The two parts of a split text.
abbrev pub Splits : Text → Text × Text → Type 0
Splits s (a, b) = a ++ b ≡ s

span-Splits : (p : ℕ → Bool) (s : Text) → Splits s (span p s)
unfolding span
span-Splits p [] = refl
span-Splits p (c ∷ s) =
    elim (p c)
      as (λ b. Splits (c ∷ s) (elim b [ true ↦ add_char c (span p s) | false ↦ ([], c ∷ s) ])) [
        | true ↦ ap (λ t. c ∷ t) (span-Splits p s)
        | false ↦ refl
      ]

pub span-all_of : (p : ℕ → Bool) (s : Text) → all_of p (span p s).0 ≡ true
unfolding span
span-all_of p [] = refl
span-all_of p (c ∷ s) = let later = span-all_of p s in ground arith

-- What is found, if anything, has the property.
pub data WhenSome {ℓ} {A : Type ℓ} (P : A → Type 0) : Option A → Type ℓ where
  absent : WhenSome P none
  present : {a : A} → P a → WhenSome P (some a)

WhenSome-branch {ℓ} :
    {A : Type ℓ} {P : A → Type 0} (b : Bool) {x y : Option A}
    → (b ≡ true → WhenSome P x)
    → (b ≡ false → WhenSome P y)
    → WhenSome P (elim b [ true ↦ x | false ↦ y ])
WhenSome-branch true h k = h refl
WhenSome-branch false h k = k refl

WhenSome-if {ℓ} :
    {A : Type ℓ} {P : A → Type 0} (b : Bool) {x y : Option A}
    → (b ≡ true → WhenSome P x)
    → (b ≡ false → WhenSome P y)
    → WhenSome P (if b then x else y)
WhenSome-if true h k = h refl
WhenSome-if false h k = k refl

pub WhenSome-some {ℓ} : {A : Type ℓ} {P : A → Type 0} {a : A} → WhenSome P (some a) → P a
WhenSome-some (present p) = p

add_front-Splits :
    (t s : Text) (o : Option (Text × Text))
    → WhenSome (Splits s) o
    → WhenSome (Splits (t ++ s)) (add_front t o)
add_front-Splits t s none h = absent
add_front-Splits t s (some (a, b)) (present h) = present (append_assoc t a b ∙ ap (λ r. t ++ r) h)

string_body-Splits : (q : ℕ) (s : Text) → WhenSome (Splits s) (string_body q s)
unfolding string_body
string_body-Splits q [] = absent
string_body-Splits q (c ∷ []) = WhenSome-if (c == q) (λ _. present refl) (λ _. absent)
string_body-Splits q (c ∷ d ∷ s) =
    WhenSome-branch (c == q) (λ _. present refl)
      λ _.
        WhenSome-branch (c == b'\\')
          (λ _.
            WhenSome-branch (d == 10) (λ _. absent)
              λ _. add_front-Splits (c ∷ d ∷ []) s (string_body q s) (string_body-Splits q s))
          (λ _.
            add_front-Splits (c ∷ []) (d ∷ s) (string_body q (d ∷ s))
              (string_body-Splits q (d ∷ s)))

-- The operators: `!=`, `<=`, `>=` and the single characters.
abbrev pub operators : List Text
operators =
    codes "!="
    ∷ codes "<="
    ∷ codes ">="
    ∷ codes "="
    ∷ codes "<"
    ∷ codes ">"
    ∷ codes "+"
    ∷ codes "-"
    ∷ codes "*"
    ∷ codes "/"
    ∷ codes "%"
    ∷ codes "."
    ∷ []

-- A text between two quotes of one kind.
abbrev pub IsQuoted : Text → Type 0
IsQuoted raw =
    (q : ℕ) × (body : Text) × (q == b'\'' || q == b'"' ≡ true) × (raw ≡ q ∷ body ++ q ∷ [])

abbrev pub starts_digit : Text → Bool
starts_digit [] = false
starts_digit (c ∷ s) = is_digit c

-- What the text of a match is, by its group: of white space, or none, a run of it.
abbrev pub Shape : Option Kind → Text → Type 0
Shape none raw = all_of is_space raw ≡ true
Shape (some string) raw = IsQuoted raw
Shape (some number) raw = starts_digit raw ≡ true
Shape (some op) raw = member raw operators ≡ true
Shape (some pipe) raw = raw ≡ codes "|"
Shape (some comma) raw = raw ≡ codes ","
Shape (some colon) raw = raw ≡ codes ":"
Shape (some lp) raw = raw ≡ codes "("
Shape (some rp) raw = raw ≡ codes ")"
Shape (some id) raw = is_identifier raw ≡ true
Shape (some kw) raw = ⊥
Shape (some eof) raw = ⊥

-- A match takes the text that stands there, at least a character, which has the shape of its group.
abbrev pub IsMatch : Text → Match → Type 0
IsMatch s m = (m.text ++ m.rest ≡ s) × (0 < length m.text) × Shape m.group m.text

-- What ends with the quote.
abbrev Closed : ℕ → Text × Text → Type 0
Closed q (a, b) = (body : Text) × (a ≡ body ++ q ∷ [])

add_front-Closed :
    (q : ℕ) (t : Text) (o : Option (Text × Text))
    → WhenSome (Closed q) o
    → WhenSome (Closed q) (add_front t o)
add_front-Closed q t none h = absent
add_front-Closed q t (some (a, b)) (present (body, e)) =
    present (t ++ body, ap (λ r. t ++ r) e ∙ sym (append_assoc t body (q ∷ [])))

closing : (c q : ℕ) (s : Text) → (c == q) ≡ true → c ∷ s ≡ q ∷ s
closing c q s e = let same : c ≡ q = ground arith in ap (λ x. x ∷ s) same

string_body-Closed : (q : ℕ) (s : Text) → WhenSome (Closed q) (string_body q s)
unfolding string_body
string_body-Closed q [] = absent
string_body-Closed q (c ∷ []) =
    WhenSome-if (c == q) (λ e. present ([], closing c q [] e)) (λ _. absent)
string_body-Closed q (c ∷ d ∷ s) =
    WhenSome-branch (c == q) (λ e. present ([], closing c q [] e))
      λ _.
        WhenSome-branch (c == b'\\')
          (λ _.
            WhenSome-branch (d == 10) (λ _. absent)
              λ _. add_front-Closed q (c ∷ d ∷ []) (string_body q s) (string_body-Closed q s))
          (λ _. add_front-Closed q (c ∷ []) (string_body q (d ∷ s)) (string_body-Closed q (d ∷ s)))

found_string-IsMatch :
    (q : ℕ) (s : Text) (o : Option (Text × Text))
    → q == b'\'' || q == b'"' ≡ true
    → WhenSome (Splits s) o
    → WhenSome (Closed q) o
    → WhenSome (IsMatch (q ∷ s)) (found_string q o)
found_string-IsMatch q s none h k l = absent
found_string-IsMatch q s (some (a, b)) h (present k) (present (body, e)) =
    present (ap (λ r. q ∷ r) k, omega arith, (q, body, h, ap (λ r. q ∷ r) e))

fraction-Splits : (ds s : Text) → Splits (ds ++ s) (fraction ds s)
fraction-Splits ds [] = refl
fraction-Splits ds (c ∷ []) = refl
fraction-Splits ds (c ∷ d ∷ s) = elim (Bool-cases (c == b'.' && is_digit d)) [
  | inl e ↦ rw e (
      append_assoc ds (c ∷ (span is_digit (d ∷ s)).0) (span is_digit (d ∷ s)).1
      ∙ ap (λ r. ds ++ c ∷ r) (span-Splits is_digit (d ∷ s)))
  | inr e ↦ rw e refl
]

fraction-front : (c : ℕ) (ds s : Text) → 0 < length (fraction (c ∷ ds) s).0
fraction-front c ds [] = omega arith
fraction-front c ds (d ∷ []) = omega arith
fraction-front c ds (d ∷ e ∷ s) = elim (Bool-cases (d == b'.' && is_digit e)) [
  | inl h ↦ rw h (omega arith)
  | inr h ↦ rw h (omega arith)
]

fraction-starts :
    (c : ℕ) (ds s : Text) → is_digit c ≡ true → starts_digit (fraction (c ∷ ds) s).0 ≡ true
fraction-starts c ds [] h = h
fraction-starts c ds (d ∷ []) h = h
fraction-starts c ds (d ∷ e ∷ s) h = elim (Bool-cases (d == b'.' && is_digit e)) [
  | inl k ↦ rw k h
  | inr k ↦ rw k h
]

number_at-IsMatch : (c : ℕ) (s : Text) → is_digit c ≡ true → IsMatch (c ∷ s) (number_at (c ∷ s))
unfolding span
number_at-IsMatch c s h =
    rw (span, h)
      (
        fraction-Splits (c ∷ (span is_digit s).0) (span is_digit s).1
            ∙ ap (λ r. c ∷ r) (span-Splits is_digit s),
        fraction-front c (span is_digit s).0 (span is_digit s).1,
        fraction-starts c (span is_digit s).0 (span is_digit s).1 h,
      )

one_operator : (c : ℕ) → any_of (λ o. c == o) first_ops ≡ true → member (c ∷ []) operators ≡ true
unfolding member text_eq
one_operator c h = ground arith

two_operator :
    (c d : ℕ)
    → (c == b'!' || (c == b'<' || c == b'>')) && d == b'=' ≡ true
    → member (c ∷ d ∷ []) operators ≡ true
unfolding member text_eq
two_operator c d h = ground arith

one_op-IsMatch : (c : ℕ) (s : Text) → WhenSome (IsMatch (c ∷ s)) (one_op c s)
one_op-IsMatch c s =
    WhenSome-if (any_of (λ o. c == o) first_ops)
      (λ h. present (refl, omega arith, one_operator c h)) (λ _. absent)

op_at-IsMatch : (c : ℕ) (s : Text) → WhenSome (IsMatch (c ∷ s)) (op_at c s)
op_at-IsMatch c [] = one_op-IsMatch c []
op_at-IsMatch c (d ∷ s) =
    WhenSome-if ((c == b'!' || (c == b'<' || c == b'>')) && d == b'=')
      (λ h. present (refl, omega arith, two_operator c d h)) (λ _. one_op-IsMatch c (d ∷ s))

word_is_identifier :
    (c : ℕ) (s : Text) → is_letter c ≡ true → is_identifier (word_at c s).text ≡ true
unfolding is_identifier
word_is_identifier c s h = let later = span-all_of is_word s in rw (h, later) refl

spaces : (c : ℕ) (s : Text) → is_space c ≡ true → all_of is_space (space_at c s).text ≡ true
spaces c s h = let later = span-all_of is_space s in rw (h, later) refl

pub match_at-IsMatch : (c : ℕ) (s : Text) → WhenSome (IsMatch (c ∷ s)) (match_at c s)
unfolding match_at is_identifier
match_at-IsMatch c s =
    WhenSome-if (is_space c)
      (λ h. present (ap (λ r. c ∷ r) (span-Splits is_space s), omega arith, spaces c s h))
      λ _.
        WhenSome-if (c == b'\'' || c == b'"')
          (λ h.
            found_string-IsMatch c s (string_body c s) h (string_body-Splits c s)
              (string_body-Closed c s))
          λ _.
            WhenSome-if (is_digit c) (λ h. present (number_at-IsMatch c s h))
              λ _.
                WhenSome-if (c == b'|') (λ h. present (refl, omega arith, closing c b'|' [] h))
                  λ _.
                    WhenSome-if (c == b',') (λ h. present (refl, omega arith, closing c b',' [] h))
                      λ _.
                        WhenSome-if (c == b':')
                          (λ h. present (refl, omega arith, closing c b':' [] h))
                          λ _.
                            WhenSome-if (c == b'(')
                              (λ h. present (refl, omega arith, closing c b'(' [] h))
                              λ _.
                                WhenSome-if (c == b')')
                                  (λ h. present (refl, omega arith, closing c b')' [] h))
                                  λ _.
                                    WhenSome-if (is_letter c)
                                      (λ h. present (
                                        ap (λ r. c ∷ r) (span-Splits is_word s),
                                        omega arith,
                                        word_is_identifier c s h,
                                      ))
                                      λ _. op_at-IsMatch c s
