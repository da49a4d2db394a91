-- ===== src/Text/Chars.antt =====
-- Characters, equality, letter case, `strip` and `split`.
use Prim.Native.Char.{code}
use Prim.Native.String.{String}
use mathlib.Core.List.{reverse}
use siem_lite.Prelude.{
  ℕ, ◌+◌, ◌-◌, ◌≡◌, refl, ◌↔◌, Bool, true, false, ◌&&◌, ◌||◌, List, [], ◌∷◌, ◌++◌, map, arith, leb,
  ◌==◌, if◌then◌else◌,
}
use siem_lite.Prelude.Dict.{Eq}

abbrev pub Text : Type 0
Text = List ℕ

-- The code points of a literal.
abbrev pub codes : String → Text
codes String.[] = []
codes (String.◌∷◌ c s) = code c ∷ codes s

unfoldable pub text_eq : Text → Text → Bool
text_eq [] [] = true
text_eq [] (_ ∷ _) = false
text_eq (_ ∷ _) [] = false
text_eq (a ∷ s) (b ∷ t) = a == b && text_eq s t

text_eq→eq : (s t : Text) → text_eq s t ≡ true → s ≡ t
unfolding text_eq
text_eq→eq [] [] h = refl
text_eq→eq [] (_ ∷ _) h = absurd (ground arith)
text_eq→eq (_ ∷ _) [] h = absurd (ground arith)
text_eq→eq (a ∷ s) (b ∷ t) h = ground (arith, text_eq→eq s t)

pub text_eq_refl : (s : Text) → text_eq s s ≡ true
unfolding text_eq
text_eq_refl [] = refl
text_eq_refl (a ∷ s) = ground (arith, text_eq_refl s)

eq→text_eq : (s t : Text) → s ≡ t → text_eq s t ≡ true
eq→text_eq s t e = rw e (text_eq_refl t)

pub text_eq_iff : (s t : Text) → (text_eq s t ≡ true) ↔ (s ≡ t)
text_eq_iff s t = (text_eq→eq s t, eq→text_eq s t)

abbrev pub text : Eq Text
text = record { same = text_eq; same_iff = text_eq_iff }

-- `x in (a, b, c)` over texts
unfoldable pub member : Text → List Text → Bool
unfolding text_eq
member x [] = false
member x (t ∷ ts) = text_eq x t || member x ts

abbrev pub lower_char : ℕ → ℕ
lower_char c = if leb b'A' c && leb c b'Z' then c + 32 else c

abbrev pub upper_char : ℕ → ℕ
upper_char c = if leb b'a' c && leb c b'z' then c - 32 else c

-- `s.lower()` and `s.upper()`
unfoldable pub lower : Text → Text
lower = map lower_char

unfoldable pub upper : Text → Text
upper = map upper_char

-- `str.isspace` of one character
abbrev pub is_space : ℕ → Bool
is_space c =
    (leb 9 c && leb c 13)
    || (leb 28 c && leb c 32)
    || c == 0x85
    || c == 0xa0
    || c == 0x1680
    || (leb 0x2000 c && leb c 0x200a)
    || c == 0x2028
    || c == 0x2029
    || c == 0x202f
    || c == 0x205f
    || c == 0x3000

unfoldable pub strip_left : Text → Text
strip_left [] = []
strip_left (c ∷ s) = if is_space c then strip_left s else c ∷ s

-- `s.strip()`
unfoldable pub strip : Text → Text
unfolding strip_left
strip s = reverse (strip_left (reverse (strip_left s)))

-- The word in progress (reversed) is closed at a separator.
abbrev pub close_word : Text → List Text → List Text
close_word [] rest = rest
close_word (c ∷ w) rest = reverse (c ∷ w) ∷ rest

split_from : Text → Text → List Text
split_from w [] = close_word w []
split_from w (c ∷ s) = elim (is_space c) [
  | true ↦ close_word w (split_from [] s)
  | false ↦ split_from (c ∷ w) s
]

-- `s.split()`
unfoldable pub split : Text → List Text
unfolding split_from
split s = split_from [] s

split_on_from : ℕ → Text → Text → List Text
split_on_from sep w [] = reverse w ∷ []
split_on_from sep w (c ∷ s) = elim (c == sep) [
  | true ↦ reverse w ∷ split_on_from sep [] s
  | false ↦ split_on_from sep (c ∷ w) s
]

-- `s.split(sep)` for a separator of one character; never empty
unfoldable pub split_on : ℕ → Text → List Text
unfolding split_on_from
split_on sep s = split_on_from sep [] s

-- `sep.join(parts)`
unfoldable pub join : Text → List Text → Text
join sep [] = []
join sep (t ∷ ts) = elim ts [ [] ↦ t | u ∷ us ↦ t ++ sep ++ join sep ts ]

-- `s.split(sep, 1)[1]` of a text that holds the separator
unfoldable pub after_first : ℕ → Text → Text
after_first sep [] = []
after_first sep (c ∷ s) = if c == sep then s else after_first sep s

strip_example : strip (codes "  a b ") ≡ codes "a b"
unfolding strip
strip_example = refl

split_example : split (codes " 1 of  sel* ") ≡ codes "1" ∷ codes "of" ∷ codes "sel*" ∷ []
unfolding split
split_example = refl

split_on_example : split_on b'|' (codes "a||b") ≡ codes "a" ∷ [] ∷ codes "b" ∷ []
unfolding split_on
split_on_example = refl
