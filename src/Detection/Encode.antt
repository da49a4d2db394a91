-- ===== src/Detection/Encode.antt =====
-- The encoding modifiers: `base64`, `base64offset`, `windash`, and `_expand_expected`.
use siem_lite.Prelude.{
  ℕ, ◌+◌, ◌-◌, ◌*◌, ◌/◌, ◌%◌, not, ◌&&◌, List, [], ◌∷◌, ◌++◌, if◌then◌else◌, ltb, leb, ◌==◌, map,
  length, take, drop, replicate, any_of, ◌≡◌, refl,
}
use siem_lite.Text.Chars.{Text, codes, member}
use siem_lite.Text.Search.{replace}
use siem_lite.Value.Defs.{Value, null, str}
use siem_lite.Value.Render.{show}

abbrev utf8_char : ℕ → List ℕ
utf8_char c =
    if ltb c 0x80
    then c ∷ []
    else if ltb c 0x800
    then (0xc0 + c / 64) ∷ (0x80 + c % 64) ∷ []
    else if leb 0xd800 c && leb c 0xdfff
    then []
    else if ltb c 0x10000
    then (0xe0 + c / 4096) ∷ (0x80 + c / 64 % 64) ∷ (0x80 + c % 64) ∷ []
    else (0xf0 + c / 262144) ∷ (0x80 + c / 4096 % 64) ∷ (0x80 + c / 64 % 64) ∷ (0x80 + c % 64) ∷ []

-- `s.encode("utf-8", "ignore")`: a surrogate is dropped
unfoldable pub utf8 : Text → List ℕ
utf8 [] = []
utf8 (c ∷ s) = utf8_char c ++ utf8 s

-- The alphabet of base64.
unfoldable pub sextet : ℕ → ℕ
sextet n =
    if ltb n 26
    then b'A' + n
    else if ltb n 52
    then b'a' + (n - 26)
    else if ltb n 62
    then b'0' + (n - 52)
    else if n == 62
    then b'+'
    else b'/'

abbrev pub quad : ℕ → ℕ → ℕ → Text
quad a b c =
    sextet (a / 4)
    ∷ sextet (a % 4 * 16 + b / 16)
    ∷ sextet (b % 16 * 4 + c / 64)
    ∷ sextet (c % 64)
    ∷ []

-- `base64.b64encode`
unfoldable pub b64encode : List ℕ → Text
unfolding sextet
b64encode [] = []
b64encode (a ∷ []) = sextet (a / 4) ∷ sextet (a % 4 * 16) ∷ b'=' ∷ b'=' ∷ []
b64encode (a ∷ b ∷ []) =
    sextet (a / 4) ∷ sextet (a % 4 * 16 + b / 16) ∷ sextet (b % 16 * 4) ∷ b'=' ∷ []
b64encode (a ∷ b ∷ c ∷ bytes) = quad a b c ++ b64encode bytes

-- `s[start:]` and `s[start:-back]`
abbrev pub slice_from : ℕ → Text → Text
slice_from start s = drop start s

abbrev pub slice_back : ℕ → ℕ → Text → Text
slice_back start back s = drop start (take (length s - back) s)

abbrev pub spaces : ℕ → List ℕ
spaces n = replicate n b' '

unfoldable pub base64offset : Text → List Text
unfolding utf8 b64encode
base64offset s =
    let raw = utf8 s in
    slice_from 0 (b64encode raw)
    ∷ slice_back 2 3 (b64encode (spaces 1 ++ raw))
    ∷ slice_back 3 2 (b64encode (spaces 2 ++ raw))
    ∷ []

-- `-`, `/`, the en dash, the em dash and the horizontal bar
abbrev pub dashes : List ℕ
dashes = b'-' ∷ b'/' ∷ 0x2013 ∷ 0x2014 ∷ 0x2015 ∷ []

unfoldable pub windash : Text → List Text
unfolding replace
windash s =
    if not (any_of (λ c. c == b'-') s) then s ∷ [] else map (λ d. replace b'-' (d ∷ []) s) dashes

abbrev pub flat_windash : List Text → List Text
flat_windash [] = []
flat_windash (v ∷ vs) = windash v ++ flat_windash vs

-- `_expand_expected`: None stays None, and all else becomes texts.
unfoldable pub expand_expected : Value → List Text → List Value
unfolding base64offset windash member utf8 b64encode show
expand_expected null mods = null ∷ []
expand_expected e mods =
    let vals : List Text =
      if member (codes "base64offset") mods
      then base64offset (show e)
      else if member (codes "base64") mods
      then b64encode (utf8 (show e)) ∷ []
      else show e ∷ [] in
    map str (if member (codes "windash") mods then flat_windash vals else vals)

base64_example : b64encode (codes "admin") ≡ codes "YWRtaW4="
unfolding b64encode
base64_example = refl
