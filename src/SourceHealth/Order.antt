-- ===== src/SourceHealth/Order.antt =====
-- What `assess` of `app/sourcehealth.py` gives, and in what order.
use siem_lite.Prelude.{
  ℕ, ◌≡◌, refl, ap, ◌∙◌, Bool, true, false, not, ◌&&◌, ◌||◌, List, [], ◌∷◌, arith, inl, inr,
  Bool-cases, map, keep, any_of,
}
use siem_lite.Prelude.Sort.{IsSorted, sorted-IsSorted, any_of-sorted}
use siem_lite.Value.Defs.{ℤ, pos, negsuc}
use siem_lite.SourceHealth.{
  Activity, Age, seconds, never, SourceState, int_ge, age_ge, before_or_equal, is_established,
  state_of, assess,
}

int_ge_total : (a b : ℤ) → int_ge a b ≡ false → int_ge b a ≡ true
int_ge_total (pos a) (pos b) h = ground arith
int_ge_total (pos a) (negsuc b) h = absurd (cc)
int_ge_total (negsuc a) (pos b) h = refl
int_ge_total (negsuc a) (negsuc b) h = ground arith

int_ge_trans : (a b c : ℤ) → int_ge a b ≡ true → int_ge b c ≡ true → int_ge a c ≡ true
int_ge_trans (pos a) (pos b) (pos c) h k = ground arith
int_ge_trans (pos a) b (negsuc c) h k = refl
int_ge_trans (pos a) (negsuc b) (pos c) h k = absurd (cc)
int_ge_trans (negsuc a) (pos b) c h k = absurd (cc)
int_ge_trans (negsuc a) (negsuc b) (pos c) h k = absurd (cc)
int_ge_trans (negsuc a) (negsuc b) (negsuc c) h k = ground arith

age_ge_total : (a b : Age) → age_ge a b ≡ false → age_ge b a ≡ true
age_ge_total never b h = absurd (cc)
age_ge_total (seconds a) never h = refl
age_ge_total (seconds a) (seconds b) h = int_ge_total a b h

age_ge_trans : (a b c : Age) → age_ge a b ≡ true → age_ge b c ≡ true → age_ge a c ≡ true
age_ge_trans never b c h k = refl
age_ge_trans (seconds a) never c h k = absurd (cc)
age_ge_trans (seconds a) (seconds b) never h k = absurd (cc)
age_ge_trans (seconds a) (seconds b) (seconds c) h k = int_ge_trans a b c h k

-- The two parts of the key, with the ages' comparison as a Boolean.
abbrev lex : Bool → Bool → Bool → Bool
lex s t older = (s && not t) || (((s && t) || (not s && not t)) && older)

lex_total :
    (s t older younger : Bool)
    → (older ≡ false → younger ≡ true)
    → lex s t older ≡ false
    → lex t s younger ≡ true
lex_total true true older younger h k = h k
lex_total true false older younger h k = absurd (cc)
lex_total false true older younger h k = refl
lex_total false false older younger h k = h k

lex_trans :
    (s t u ab bc ac : Bool)
    → (ab ≡ true → bc ≡ true → ac ≡ true)
    → lex s t ab ≡ true
    → lex t u bc ≡ true
    → lex s u ac ≡ true
lex_trans true true true ab bc ac f h k = f h k
lex_trans true true false ab bc ac f h k = refl
lex_trans true false true ab bc ac f h k = absurd (cc)
lex_trans true false false ab bc ac f h k = refl
lex_trans false true u ab bc ac f h k = absurd (cc)
lex_trans false false true ab bc ac f h k = absurd (cc)
lex_trans false false false ab bc ac f h k = f h k

any_of-assess :
    (now silence min_events : ℕ) (p : SourceState → Bool) (rows : List Activity)
    → any_of p (map (state_of now silence) (keep (is_established min_events) rows))
      ≡ any_of (λ r. is_established min_events r && p (state_of now silence r)) rows
any_of-assess now silence m p [] = refl
any_of-assess now silence m p (r ∷ rows) = elim (Bool-cases (is_established m r)) [
  | inl e ↦ rw e (ap (λ b. p (state_of now silence r) || b) (any_of-assess now silence m p rows))
  | inr e ↦ rw e (any_of-assess now silence m p rows)
]

-- The assessment lists the states of exactly the established sources, the silent ones first, and of
-- sources that are alike in this the older before the younger.
pub assess-IsSorted :
    (now silence min_events : ℕ) (rows : List Activity)
    → IsSorted before_or_equal (assess now silence min_events rows)
      × ((p : SourceState → Bool)
          → any_of p (assess now silence min_events rows)
            ≡ any_of (λ r. is_established min_events r && p (state_of now silence r)) rows)
unfolding assess
assess-IsSorted now silence m rows = (
  sorted-IsSorted before_or_equal
      (λ a b.
        lex_total a.is_silent b.is_silent (age_ge a.age b.age) (age_ge b.age a.age)
          (age_ge_total a.age b.age))
      (λ a b c.
        lex_trans a.is_silent b.is_silent c.is_silent (age_ge a.age b.age) (age_ge b.age c.age)
          (age_ge a.age c.age) (age_ge_trans a.age b.age c.age))
      (map (state_of now silence) (keep (is_established m) rows)),
  λ p.
      any_of-sorted before_or_equal p (map (state_of now silence) (keep (is_established m) rows))
      ∙ any_of-assess now silence m p rows,
)
