-- ===== src/Text/Number.antt =====
-- Decimal and hexadecimal digits: `str(n)`, `str.isdigit`, `int(text)`.
use siem_lite.Prelude.{
  ℕ, zero, suc, ◌+◌, ◌-◌, ◌*◌, ◌/◌, ◌%◌, ◌≡◌, refl, Bool, true, false, ◌&&◌, [], ◌∷◌, arith, leb,
  ltb, if◌then◌else◌, ◌<◌, inl, inr, Bool-cases, ap, sym, ◌∙◌, ◌++◌, all_of, &&-eq-true,
}
use siem_lite.Text.Chars.{Text, codes}

abbrev pub is_digit : ℕ → Bool
is_digit c = leb b'0' c && leb c b'9'

all_digits : Text → Bool
all_digits [] = true
all_digits (c ∷ s) = is_digit c && all_digits s

-- `s.isdigit()` over ASCII: at least one character, and each a digit
unfoldable pub digits_only : Text → Bool
unfolding all_digits
digits_only [] = false
digits_only (c ∷ s) = all_digits (c ∷ s)

unfoldable pub read_from : ℕ → Text → ℕ
read_from acc [] = acc
read_from acc (c ∷ s) = read_from (acc * 10 + (c - b'0')) s

-- `int(s)` of a text of digits
unfoldable pub read_number : Text → ℕ
unfolding read_from
read_number s = read_from 0 s

-- The digits of `n`, in front of `rest`; the fuel is a bound on their number.
show_from : ℕ → ℕ → Text → Text
show_from zero n rest = rest
show_from (suc f) n rest =
    let more = show_from f (n / 10) ((b'0' + n % 10) ∷ rest) in
    if ltb n 10 then (b'0' + n) ∷ rest else more

-- `str(n)`
unfoldable pub show_number : ℕ → Text
unfolding show_from
show_number n = show_from (suc n) n []

abbrev pub hex_digit : ℕ → ℕ
hex_digit n = if ltb n 10 then b'0' + n else b'a' + (n - 10)

read-show_from :
    (f n : ℕ) (rest : Text) → n < f → read_from 0 (show_from f n rest) ≡ read_from n rest
unfolding read_from show_from
read-show_from zero n rest h = absurd (omega arith)
read-show_from (suc f) n rest h = elim (Bool-cases (ltb n 10)) [
  | inl one ↦ rw one (ap (λ k. read_from k rest) (ground arith))
  | inr more ↦ rw more (
      read-show_from f (n / 10) ((b'0' + n % 10) ∷ rest) (ground arith)
      ∙ ap (λ k. read_from k rest) (omega arith))
]

-- Reading back what was printed gives the number.
pub read-show_number : (n : ℕ) → read_number (show_number n) ≡ n
unfolding read_number show_number
read-show_number n = read-show_from (suc n) n [] (omega arith)

all_digits-show_from :
    (f n : ℕ) (rest : Text)
    → n < f
    → all_digits rest ≡ true
    → all_digits (show_from f n rest) ≡ true
unfolding all_digits show_from
all_digits-show_from zero n rest h d = absurd (omega arith)
all_digits-show_from (suc f) n rest h d = elim (Bool-cases (ltb n 10)) [
  | inl one ↦ rw one (ground arith)
  | inr more ↦
      rw more
        (all_digits-show_from f (n / 10) ((b'0' + n % 10) ∷ rest) (ground arith) (ground arith))
]

show_from-cons :
    (f n : ℕ) (rest : Text) → n < f → (c : ℕ) × (s : Text) × (show_from f n rest ≡ c ∷ s)
unfolding show_from
show_from-cons zero n rest h = absurd (omega arith)
show_from-cons (suc f) n rest h = elim (Bool-cases (ltb n 10)) [
  | inl one ↦ rw one (b'0' + n, rest, refl)
  | inr more ↦ rw more (show_from-cons f (n / 10) ((b'0' + n % 10) ∷ rest) (ground arith))
]

digits_only-cons : (s : Text) (c : ℕ) (t : Text) → s ≡ c ∷ t → digits_only s ≡ all_digits s
unfolding digits_only
digits_only-cons s c t e = rw e refl

-- A printed number is all digits, its first character a digit.
pub digits_only-show_number : (n : ℕ) → digits_only (show_number n) ≡ true
unfolding show_number
digits_only-show_number n =
    let (c, s, e) = show_from-cons (suc n) n [] (omega arith) in
    digits_only-cons _ c s e
    ∙ all_digits-show_from (suc n) n [] (omega arith) (unfold all_digits in refl)

show_number_example : show_number 1203 ≡ codes "1203"
unfolding show_number
show_number_example = refl

all_digits-all_of : (s : Text) → all_digits s ≡ true → all_of is_digit s ≡ true
unfolding all_digits
all_digits-all_of [] h = refl
all_digits-all_of (c ∷ s) h =
    let p = &&-eq-true (is_digit c) (all_digits s) h in
    let q = all_digits-all_of s p.1 in let k = p.0 in ground arith

pub digits_only-all_of : (s : Text) → digits_only s ≡ true → all_of is_digit s ≡ true
unfolding digits_only
digits_only-all_of [] h = refl
digits_only-all_of (c ∷ s) h = all_digits-all_of (c ∷ s) h

pub all_of-show_number : (n : ℕ) → all_of is_digit (show_number n) ≡ true
all_of-show_number n = digits_only-all_of (show_number n) (digits_only-show_number n)

pub show_number-cons : (n : ℕ) → (c : ℕ) × (s : Text) × (show_number n ≡ c ∷ s)
unfolding show_number
show_number-cons n = show_from-cons (suc n) n [] (omega arith)

pub show_number-injective : (m n : ℕ) → show_number m ≡ show_number n → m ≡ n
show_number-injective m n h = sym (read-show_number m) ∙ ap read_number h ∙ read-show_number n

-- A mark splits a text at its last place: no character after it passes a test that the mark fails.
after-mark :
    (p : ℕ → Bool) (mark : ℕ) (xs ds es : Text)
    → p mark ≡ false
    → all_of p ds ≡ true
    → ds ≡ xs ++ mark ∷ es
    → ⊥
after-mark p mark [] ds es m h e = let k = ap (all_of p) e in absurd (ground arith)
after-mark p mark (x ∷ xs) [] es m h e = absurd (cc)
after-mark p mark (x ∷ xs) (d ∷ ds) es m h e =
    let later = &&-eq-true (p d) (all_of p ds) h in
    after-mark p mark xs ds es m later.1 (ground arith)

pub last_mark :
    (p : ℕ → Bool) (mark : ℕ) (xs ys ds es : Text)
    → p mark ≡ false
    → all_of p ds ≡ true
    → all_of p es ≡ true
    → xs ++ mark ∷ ds ≡ ys ++ mark ∷ es
    → (xs ≡ ys) × (ds ≡ es)
last_mark p mark [] [] ds es m h k e = (refl, ground arith)
last_mark p mark [] (y ∷ ys) ds es m h k e = absurd (after-mark p mark ys ds es m h (ground arith))
last_mark p mark (x ∷ xs) [] ds es m h k e = absurd (after-mark p mark xs es ds m k (ground arith))
last_mark p mark (x ∷ xs) (y ∷ ys) ds es m h k e =
    let (a, q) = last_mark p mark xs ys ds es m h k (ground arith) in (ground arith, q)
