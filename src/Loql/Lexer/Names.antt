-- ===== src/Loql/Lexer/Names.antt =====
-- Identifiers, `[A-Za-z_]\w*`, as `_lex` and `_agg` of `app/loql/parser.py` make them.
use siem_lite.Prelude.{ℕ, ◌≡◌, refl, true, [], ◌∷◌, ◌++◌, all_of, &&-eq-true, arith}
use siem_lite.Text.Chars.{Text, codes, lower, lower_char}
use siem_lite.Loql.Lexer.{is_word, is_letter, is_identifier}

is_letter-lower : (c : ℕ) → is_letter c ≡ true → is_letter (lower_char c) ≡ true
is_letter-lower c h = ground arith

is_word-lower : (c : ℕ) → is_word c ≡ true → is_word (lower_char c) ≡ true
is_word-lower c h = ground arith

all_of-lower : (s : Text) → all_of is_word s ≡ true → all_of is_word (lower s) ≡ true
unfolding lower
all_of-lower [] h = refl
all_of-lower (c ∷ s) h =
    let (here, later) = &&-eq-true _ _ h in
    let first = is_word-lower c here in let rest = all_of-lower s later in rw (first, rest) refl

pub is_identifier-lower : (s : Text) → is_identifier s ≡ true → is_identifier (lower s) ≡ true
unfolding is_identifier lower
is_identifier-lower [] h = absurd (ground arith)
is_identifier-lower (c ∷ s) h =
    let (here, later) = &&-eq-true _ _ h in
    let first = is_letter-lower c here in let rest = all_of-lower s later in rw (first, rest) refl

is_identifier-all_of : (s : Text) → is_identifier s ≡ true → all_of is_word s ≡ true
unfolding is_identifier
is_identifier-all_of [] h = absurd (ground arith)
is_identifier-all_of (c ∷ s) h = ground arith

all_of-append :
    (a b : Text)
    → all_of is_word a ≡ true
    → all_of is_word b ≡ true
    → all_of is_word (a ++ b) ≡ true
all_of-append [] b h k = k
all_of-append (c ∷ a) b h k =
    let (here, later) = &&-eq-true (is_word c) (all_of is_word a) h in
    let rest = all_of-append a b later k in rw (here, rest) refl

-- `f"{a}_{b}"` of identifiers
pub is_identifier-joined :
    (a b : Text)
    → is_identifier a ≡ true
    → is_identifier b ≡ true
    → is_identifier (a ++ codes "_" ++ b) ≡ true
unfolding is_identifier
is_identifier-joined [] b h k = absurd (ground arith)
is_identifier-joined (c ∷ a) b h k =
    let (here, later) = &&-eq-true (is_letter c) (all_of is_word a) h in
    let words =
      all_of-append (a ++ codes "_") b (all_of-append a (codes "_") later refl)
        (is_identifier-all_of b k) in
    rw (here, words) refl
