-- ===== src/Text/Digits.antt =====
-- `str.isdigit` and `int` of a text of digits. A decimal digit of any script has a value; other
-- characters that `isdigit` accepts, such as superscripts, have none, and `int` raises. The tables are those
-- of Unicode 14.0.0.
use siem_lite.Prelude.{
  ℕ, ◌+◌, ◌-◌, ◌*◌, ◌≡◌, refl, Bool, true, false, ◌&&◌, ◌||◌, List, [], ◌∷◌, Option, none, some,
  if◌then◌else◌, leb, length, any_of, all_of, is_empty, not, arith, &&-eq-true,
}
use siem_lite.Text.Chars.{Text}
use siem_lite.Text.Number.{is_digit, read_from, read_number, digits_only, digits_only-all_of}

-- The zeros of the scripts other than ASCII, each followed by its other nine digits.
abbrev zeros : List ℕ
zeros =
    1632 ∷ 1776 ∷ 1984 ∷ 2406 ∷ 2534 ∷ 2662 ∷ 2790 ∷ 2918 ∷ 3046 ∷ 3174 ∷ 3302 ∷ 3430 ∷ 3558 ∷ 3664
    ∷ 3792 ∷ 3872 ∷ 4160 ∷ 4240 ∷ 6112 ∷ 6160 ∷ 6470 ∷ 6608 ∷ 6784 ∷ 6800 ∷ 6992 ∷ 7088 ∷ 7232
    ∷ 7248 ∷ 42528 ∷ 43216 ∷ 43264 ∷ 43472 ∷ 43504 ∷ 43600 ∷ 44016 ∷ 65296 ∷ 66720 ∷ 68912 ∷ 69734
    ∷ 69872 ∷ 69942 ∷ 70096 ∷ 70384 ∷ 70736 ∷ 70864 ∷ 71248 ∷ 71360 ∷ 71472 ∷ 71904 ∷ 72016 ∷ 72784
    ∷ 73040 ∷ 73120 ∷ 92768 ∷ 92864 ∷ 93008 ∷ 120782 ∷ 120792 ∷ 120802 ∷ 120812 ∷ 120822 ∷ 123200
    ∷ 123632 ∷ 125264 ∷ 130032 ∷ []

-- First and last of each run of digits that are not decimal.
abbrev other_digits : List (ℕ × ℕ)
other_digits =
    (178, 179)
    ∷ (185, 185)
    ∷ (4969, 4977)
    ∷ (6618, 6618)
    ∷ (8304, 8304)
    ∷ (8308, 8313)
    ∷ (8320, 8329)
    ∷ (9312, 9320)
    ∷ (9332, 9340)
    ∷ (9352, 9360)
    ∷ (9450, 9450)
    ∷ (9461, 9469)
    ∷ (9471, 9471)
    ∷ (10102, 10110)
    ∷ (10112, 10120)
    ∷ (10122, 10130)
    ∷ (68160, 68163)
    ∷ (69216, 69224)
    ∷ (69714, 69722)
    ∷ (127232, 127242)
    ∷ []

value_from : List ℕ → ℕ → Option ℕ
value_from [] c = none
value_from (z ∷ zs) c = if leb z c && leb c (z + 9) then some (c - z) else value_from zs c

-- The value of a decimal digit.
unfoldable pub decimal_value : ℕ → Option ℕ
unfolding value_from
decimal_value c = if is_digit c then some (c - b'0') else value_from zeros c

abbrev is_given : Option ℕ → Bool
is_given none = false
is_given (some n) = true

abbrev is_other_digit : ℕ → Bool
is_other_digit c = any_of (λ (r : ℕ × ℕ). leb r.0 c && leb c r.1) other_digits

-- `s.isdigit()`
unfoldable pub isdigit : Text → Bool
unfolding decimal_value
isdigit s = not (is_empty s) && all_of (λ c. is_given (decimal_value c) || is_other_digit c) s

-- `sys.get_int_max_str_digits()`
abbrev pub max_int_digits : ℕ
max_int_digits = 4300

infixl 5 ◌>>=◌
abbrev ◌>>=◌ : Option ℕ → (ℕ → Option ℕ) → Option ℕ
none >>= f = none
some n >>= f = f n

read_decimals : ℕ → Text → Option ℕ
unfolding decimal_value
read_decimals acc [] = some acc
read_decimals acc (c ∷ s) = decimal_value c >>= λ d. read_decimals (acc * 10 + d) s

-- `int(s)` of a text that `isdigit` accepts; none is its ValueError
unfoldable pub int_of : Text → Option ℕ
unfolding read_decimals
int_of s = if leb (length s) max_int_digits then read_decimals 0 s else none

all_of-is_given :
    (s : Text)
    → all_of is_digit s ≡ true
    → all_of (λ c. is_given (decimal_value c) || is_other_digit c) s ≡ true
unfolding decimal_value
all_of-is_given [] h = refl
all_of-is_given (c ∷ s) h =
    let (d, rest) = &&-eq-true (is_digit c) (all_of is_digit s) h in
    let later = all_of-is_given s rest in rw (d, later) refl

-- A text of ASCII digits is one of digits.
pub digits_only-isdigit : (s : Text) → digits_only s ≡ true → isdigit s ≡ true
unfolding isdigit digits_only
digits_only-isdigit [] h = absurd (ground arith)
digits_only-isdigit (c ∷ s) h = all_of-is_given (c ∷ s) (digits_only-all_of (c ∷ s) h)

read_decimals-read_from :
    (acc : ℕ) (s : Text) → all_of is_digit s ≡ true → read_decimals acc s ≡ some (read_from acc s)
unfolding read_decimals read_from decimal_value
read_decimals-read_from acc [] h = refl
read_decimals-read_from acc (c ∷ s) h =
    let (d, rest) = &&-eq-true (is_digit c) (all_of is_digit s) h in
    rw d (read_decimals-read_from (acc * 10 + (c - b'0')) s rest)

-- A text of ASCII digits that is not too long is read as its number.
pub int_of-read_number :
    (s : Text)
    → digits_only s ≡ true
    → leb (length s) max_int_digits ≡ true
    → int_of s ≡ some (read_number s)
unfolding int_of read_number
int_of-read_number s h l = rw l (read_decimals-read_from 0 s (digits_only-all_of s h))

superscript_refused : (isdigit (178 ∷ []) ≡ true) × (int_of (178 ∷ []) ≡ none)
unfolding isdigit int_of
superscript_refused = (refl, refl)
