-- ===== src/ThreatIntel/Tokens.antt =====
-- `findall` of `_IP_TOK`, `_HASH_TOK`, `_URL_TOK` and `_DOMAIN_TOK` of `app/threatintel/matcher.py`. Of the
-- characters that `\w` and `\d` match only the ASCII ones are known.
use siem_lite.Prelude.{
  ℕ, zero, suc, ◌-◌, ◌==◌, leb, Bool, true, false, not, ◌&&◌, ◌||◌, List, [], ◌∷◌, ◌++◌, Option,
  none, some, if◌then◌else◌, length, is_empty,
}
use siem_lite.Prelude.Options.{◌>>=◌}
use siem_lite.Text.Chars.{Text, codes, lower_char, is_space, split_on}
use siem_lite.Text.Number.{is_digit}

-- `[a-z]`, in either case
abbrev is_alpha : ℕ → Bool
is_alpha c = let d = lower_char c in leb b'a' d && leb d b'z'

abbrev is_alnum : ℕ → Bool
is_alnum c = is_digit c || is_alpha c

abbrev is_word : ℕ → Bool
is_word c = is_alnum c || c == b'_'

abbrev is_hex : ℕ → Bool
is_hex c = let d = lower_char c in is_digit c || (leb b'a' d && leb d b'f')

abbrev starts_word : Text → Bool
starts_word [] = false
starts_word (c ∷ s) = is_word c

abbrev add_char : ℕ → Text × Text → Text × Text
add_char c (a, b) = (c ∷ a, b)

-- The longest run of characters that pass the test, and the rest.
run : (ℕ → Bool) → Text → Text × Text
run p [] = ([], [])
run p (c ∷ s) = elim (p c) [ true ↦ add_char c (run p s) | false ↦ ([], c ∷ s) ]

-- `findall`: a pattern is given whether a word character stands before, and what follows; the number
-- counts the characters that are left of the last match.
unfoldable pub find_all : (Bool → Text → Option Text) → ℕ → Bool → Text → List Text
find_all pattern skip before [] = []
find_all pattern (suc skip) before (c ∷ s) = find_all pattern skip (is_word c) s
find_all pattern zero before (c ∷ s) = elim (pattern before (c ∷ s)) [
  | none ↦ find_all pattern zero (is_word c) s
  | some t ↦ t ∷ find_all pattern (length t - 1) (is_word c) s
]

-- `\d{1,3}`, before a character that is no digit
abbrev octet_of : Text × Text → Option (Text × Text)
octet_of (ds, rest) = if not (is_empty ds) && leb (length ds) 3 then some (ds, rest) else none

abbrev octet : Text → Option (Text × Text)
octet s = octet_of (run is_digit s)

-- `\d{1,3}\.`
abbrev with_dot : Text × Text → Option (Text × Text)
with_dot (ds, []) = none
with_dot (ds, c ∷ s) = if c == b'.' then some (ds ++ c ∷ [], s) else none

-- `_IP_TOK`
ip_at : Bool → Text → Option Text
unfolding run
ip_at true s = none
ip_at false s = do
  (a, r) ← octet s >>= with_dot
  (b, r) ← octet r >>= with_dot
  (c, r) ← octet r >>= with_dot
  (d, r) ← octet r
  if starts_word r then none else some (a ++ b ++ c ++ d)

abbrev whole_hash : Text × Text → Option Text
whole_hash (w, rest) =
    if (length w == 32 || (length w == 40 || length w == 64)) && not (starts_word rest)
    then some w
    else none

-- `_HASH_TOK`
hash_at : Bool → Text → Option Text
unfolding run
hash_at true s = none
hash_at false s = whole_hash (run is_hex s)

-- The text after a prefix, in either case, and the prefix as it is written.
after_prefix : Text → Text → Option (Text × Text)
after_prefix [] s = some ([], s)
after_prefix (p ∷ ps) [] = none
after_prefix (p ∷ ps) (c ∷ s) =
    let rest = after_prefix ps s in
    if lower_char c == p then (do (a, b) ← rest; some (c ∷ a, b)) else none

abbrev or_else : Option (Text × Text) → Option (Text × Text) → Option (Text × Text)
or_else none b = b
or_else (some a) b = some a

abbrev is_url_char : ℕ → Bool
is_url_char c =
    not (is_space c || (c == b'"' || (c == b'\'' || (c == b'<' || (c == b'>' || c == b'\\')))))

abbrev full_url : Text → Text × Text → Option Text
full_url scheme ([], rest) = none
full_url scheme (c ∷ s, rest) = some (scheme ++ c ∷ s)

-- `_URL_TOK`
url_at : Bool → Text → Option Text
unfolding run after_prefix
url_at before s = do
  (scheme, rest) ← or_else (after_prefix (codes "https://") s) (after_prefix (codes "http://") s)
  full_url scheme (run is_url_char rest)

abbrev is_label_char : ℕ → Bool
is_label_char c = is_alnum c || c == b'-'

-- Does the text end with a letter or a digit?
abbrev ends_alnum : Text → Bool
ends_alnum [] = false
ends_alnum (c ∷ []) = is_alnum c
ends_alnum (c ∷ d ∷ s) = ends_alnum (d ∷ s)

abbrev starts_alnum : Text → Bool
starts_alnum [] = false
starts_alnum (c ∷ s) = is_alnum c

-- `[a-z0-9](?:[a-z0-9-]{0,61}[a-z0-9])?`, of a whole text of such characters
abbrev is_label : Text → Bool
is_label s = starts_alnum s && (ends_alnum s && leb (length s) 63)

abbrev whole_tld : Bool → Text × Text → Option Text
whole_tld word (letters, []) = if leb 2 (length letters) && not word then some letters else none
whole_tld word (letters, c ∷ s) =
    if leb 2 (length letters) && not (is_word c) then some letters else none

-- `[a-z]{2,}\b` at the start of a part; the test says whether a word character follows the part.
abbrev tld : Bool → Text → Option Text
tld word s = whole_tld word (run is_alpha s)

abbrev or_text : Option Text → Option Text → Option Text
or_text none b = b
or_text (some a) b = some a

-- A label with its point, and what is found after it.
abbrev after_label : Text → Option Text → Option Text
after_label label none = none
after_label label (some t) = if is_label label then some (label ++ b'.' ∷ t) else none

-- `(?:label\.)+[a-z]{2,}\b` over the parts between points: as many labels as there can be. The test
-- says whether a word character follows the last part.
domain_of : Bool → List Text → Option Text
unfolding run
domain_of word [] = none
domain_of word (p ∷ []) = none
domain_of word (p ∷ q ∷ ps) =
    let longer = domain_of word (q ∷ ps) in
    after_label p (or_text longer (tld (is_empty ps && word) q))

abbrev is_domain_char : ℕ → Bool
is_domain_char c = is_label_char c || c == b'.'

abbrev domain_in : Text × Text → Option Text
domain_in (w, rest) = domain_of (starts_word rest) (split_on b'.' w)

-- `_DOMAIN_TOK`
domain_at : Bool → Text → Option Text
unfolding run domain_of split_on
domain_at true s = none
domain_at false s = domain_in (run is_domain_char s)

unfoldable pub ip_tokens : Text → List Text
unfolding find_all ip_at
ip_tokens s = find_all ip_at 0 false s

unfoldable pub hash_tokens : Text → List Text
unfolding find_all hash_at
hash_tokens s = find_all hash_at 0 false s

unfoldable pub url_tokens : Text → List Text
unfolding find_all url_at
url_tokens s = find_all url_at 0 false s

unfoldable pub domain_tokens : Text → List Text
unfolding find_all domain_at
domain_tokens s = find_all domain_at 0 false s
