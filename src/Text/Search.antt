-- ===== src/Text/Search.antt =====
-- `startswith`, `endswith`, `in` and `replace`.
use mathlib.Core.List.{reverse, reverse-append, reverse-reverse}
use siem_lite.Prelude.{
  ◌≡◌, refl, Bool, true, false, ◌&&◌, ◌||◌, [], ◌∷◌, ◌++◌, arith, ◌==◌, ap, ℕ, sym, ◌∙◌,
  if◌then◌else◌, inl, inr, ||-eq-true,
}
use siem_lite.Text.Chars.{Text, codes}

-- `s.startswith(p)`
unfoldable pub starts_with : Text → Text → Bool
starts_with [] s = true
starts_with (a ∷ p) [] = false
starts_with (a ∷ p) (b ∷ s) = a == b && starts_with p s

-- `s.endswith(p)`
unfoldable pub ends_with : Text → Text → Bool
unfolding starts_with
ends_with p s = starts_with (reverse p) (reverse s)

-- `p in s`
unfoldable pub contains : Text → Text → Bool
unfolding starts_with
contains p [] = starts_with p []
contains p (b ∷ s) = starts_with p (b ∷ s) || contains p s

-- `s.replace(c, t)` for a single character `c`
unfoldable pub replace : ℕ → Text → Text → Text
replace c t [] = []
replace c t (b ∷ s) = (if b == c then t else b ∷ []) ++ replace c t s

pub starts_with→prefix : (p s : Text) → starts_with p s ≡ true → (r : Text) × (s ≡ p ++ r)
unfolding starts_with
starts_with→prefix [] s h = (s, refl)
starts_with→prefix (a ∷ p) [] h = absurd (ground arith)
starts_with→prefix (a ∷ p) (b ∷ s) h =
    let (r, e) = starts_with→prefix p s (ground arith) in
    let q : b ≡ a = ground arith in (r, rw (q, e))

pub starts_with-append : (p r : Text) → starts_with p (p ++ r) ≡ true
unfolding starts_with
starts_with-append [] r = refl
starts_with-append (a ∷ p) r = ground (arith, starts_with-append p r)

pub starts_with→contains : (p s : Text) → starts_with p s ≡ true → contains p s ≡ true
unfolding contains
starts_with→contains p [] h = h
starts_with→contains p (b ∷ s) h = ground arith

pub contains-append : (l p r : Text) → contains p (l ++ p ++ r) ≡ true
unfolding contains
contains-append [] p r = starts_with→contains p (p ++ r) (starts_with-append p r)
contains-append (b ∷ l) p r = ground (arith, contains-append l p r)

-- A text holds another exactly when it can be cut round it.
pub contains→cut : (p s : Text) → contains p s ≡ true → (l r : Text) × (s ≡ l ++ p ++ r)
unfolding contains
contains→cut p [] h = let (r, e) = starts_with→prefix p [] h in ([], r, e)
contains→cut p (b ∷ s) h = elim (||-eq-true _ _ h) [
  | inl k ↦ let (r, e) = starts_with→prefix p (b ∷ s) k in ([], r, e)
  | inr k ↦ let (l, r, e) = contains→cut p s k in (b ∷ l, r, ap (◌∷◌ b) e)
]

pub ends_with-append : (p l : Text) → ends_with p (l ++ p) ≡ true
unfolding ends_with
ends_with-append p l = rw reverse-append (starts_with-append (reverse p) (reverse l))

pub ends_with→suffix : (p s : Text) → ends_with p s ≡ true → (l : Text) × (s ≡ l ++ p)
unfolding ends_with
ends_with→suffix p s h =
    let (r, e) = starts_with→prefix (reverse p) (reverse s) h in
    (
      reverse r,
      sym (reverse-reverse s)
          ∙ ap reverse e
          ∙ reverse-append (reverse p) r
          ∙ ap (λ t. reverse r ++ t) (reverse-reverse p),
    )

replace_example : replace b'-' (codes "/") (codes "a -b") ≡ codes "a /b"
unfolding replace
replace_example = refl
