-- ===== src/Detection/Condition/Suffix.antt =====
-- The tokens that the condition parser leaves, as a suffix of those it was given.
use siem_lite.Prelude.{◌≤◌, arith, [], ◌∷◌, In, there, length, Bool-cases, inl, inr}
use siem_lite.Text.Chars.{Text, codes, text_eq}
use siem_lite.Detection.Condition.{Tokens, next, skip_close}

pub data Suffix : Tokens → Tokens → Type 0 where
  whole : {toks : Tokens} → Suffix toks toks
  later : {t : Text} {r toks : Tokens} → Suffix r toks → Suffix r (t ∷ toks)

pub Suffix-trans : {a b c : Tokens} → Suffix a b → Suffix b c → Suffix a c
Suffix-trans s whole = s
Suffix-trans s (later r) = later (Suffix-trans s r)

pub Suffix-length : {r toks : Tokens} → Suffix r toks → length r ≤ length toks
Suffix-length whole = omega arith
Suffix-length (later s) = omega (arith, Suffix-length s)

pub In-Suffix : {t : Text} {r toks : Tokens} → Suffix r toks → In t r → In t toks
In-Suffix whole i = i
In-Suffix (later s) i = there (In-Suffix s i)

pub Suffix-next : (toks : Tokens) → Suffix (next toks) toks
Suffix-next [] = whole
Suffix-next (t ∷ toks) = later whole

pub Suffix-skip_close : (toks : Tokens) → Suffix (skip_close toks) toks
Suffix-skip_close [] = whole
Suffix-skip_close (t ∷ toks) = elim (Bool-cases (text_eq t (codes ")"))) [
  | inl e ↦ rw e (later whole)
  | inr e ↦ rw e whole
]
