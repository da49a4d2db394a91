-- ===== src/SourceHealth/Identity.antt =====
-- Which alerts of `app/sourcehealth.py` share a dedup hash.
use siem_lite.Prelude.{
  ℕ, ◌==◌, Bool, true, false, not, Option, [], ◌∷◌, is_empty, all_of, ◌≡◌, refl, sym, ◌∙◌, ◌++◌,
  append_assoc, append-cancel,
}
use siem_lite.Text.Chars.{Text, codes, strip}
use siem_lite.Text.Number.{
  is_digit, show_number, show_number-injective, last_mark, all_of-show_number,
}
use siem_lite.SourceHealth.{silent_text, text_or_empty, key_of, source_key}

-- The texts that are hashed for two keys are equal only for the same key in the same repeat period.
silent_text-injective :
    (k l : Text) (b c : ℕ) → silent_text k b ≡ silent_text l c → (k ≡ l) × (b ≡ c)
silent_text-injective k l b c e =
    let front = codes "srchealth|" in
    let marked = λ (x : Text) (n : ℕ). append_assoc (front ++ x) (codes "|") (show_number n) in
    let (p, q) =
      last_mark is_digit b'|' (front ++ k) (front ++ l) (show_number b) (show_number c) refl
        (all_of-show_number b) (all_of-show_number c) (sym (marked k b) ∙ e ∙ marked l c) in
    (append-cancel front p, show_number-injective b c q)

-- The name that `source_key` reads of a vendor or a log type.
abbrev pub source_name : Option Text → Text
source_name name = strip (text_or_empty name)

abbrev pub is_no_slash : ℕ → Bool
is_no_slash c = not (c == b'/')

-- A vendor and a log type that are both given, the log type without a slash.
abbrev pub IsPlain : Option Text → Option Text → Type 0
IsPlain vendor log_type =
    (is_empty (source_name vendor) ≡ false)
    × (is_empty (source_name log_type) ≡ false)
    × (all_of is_no_slash (source_name log_type) ≡ true)

key_of-both :
    (v lt : Text) → is_empty v ≡ false → is_empty lt ≡ false → key_of v lt ≡ v ++ b'/' ∷ lt
key_of-both [] lt a b = absurd (cc)
key_of-both (c ∷ v) [] a b = absurd (cc)
key_of-both (c ∷ v) (d ∷ lt) a b = append_assoc (c ∷ v) (codes "/") (d ∷ lt)

-- Of sources that give a vendor and a log type, the log types without a slash, two have the same
-- hashed text only if their vendors and their log types are the same, apart from white space at the
-- ends, and the repeat periods are.
pub silent_text-source_key :
    (v w lt mt : Option Text) (b c : ℕ)
    → IsPlain v lt
    → IsPlain w mt
    → silent_text (source_key v lt) b ≡ silent_text (source_key w mt) c
    → (source_name v ≡ source_name w) × (source_name lt ≡ source_name mt) × (b ≡ c)
unfolding source_key
silent_text-source_key v w lt mt b c (a, d, n) (a', d', n') e =
    let (k, q) = silent_text-injective (source_key v lt) (source_key w mt) b c e in
    let whole =
      sym (key_of-both (source_name v) (source_name lt) a d)
      ∙ k
      ∙ key_of-both (source_name w) (source_name mt) a' d' in
    let (x, y) =
      last_mark is_no_slash b'/' (source_name v) (source_name w) (source_name lt) (source_name mt)
        refl n n' whole in
    (x, y, q)
