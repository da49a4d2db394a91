-- ===== src/Enrich/Ranges/Bisect.antt =====
-- `bisect_right` finds the point where the elements pass a value, and its rounds are enough.
use siem_lite.Prelude.{
  ℕ, zero, suc, ◌+◌, ◌/◌, ◌≤◌, ◌<◌, List, arith, inl, inr, Bool-cases, ltb, length,
}
use siem_lite.Enrich.Ranges.{at, bisect_from, bisect_right}

abbrev pub IsAscending : List ℕ → Type 0
IsAscending a = (i j : ℕ) → i ≤ j → j < length a → at 0 a i ≤ at 0 a j

-- Up to `r` the elements are at most `x`, from there on they are greater.
pub record Splits (a : List ℕ) (x r : ℕ) : Type 0 where
  pub inside : r ≤ length a
  pub before : (i : ℕ) → i < r → at 0 a i ≤ x
  pub after : (i : ℕ) → r ≤ i → i < length a → x < at 0 a i

bisect_from-Splits :
    (fuel : ℕ) (a : List ℕ) (x lo hi : ℕ)
    → IsAscending a
    → lo ≤ hi
    → hi ≤ length a
    → hi ≤ lo + fuel
    → ((i : ℕ) → i < lo → at 0 a i ≤ x)
    → ((i : ℕ) → hi ≤ i → i < length a → x < at 0 a i)
    → Splits a x (bisect_from fuel a x lo hi)
unfolding bisect_from
bisect_from-Splits zero a x lo hi asc le in_ enough low high = record {
  inside = omega arith;
  before = low;
  after = λ i h k. high i (omega arith) k;
}
bisect_from-Splits (suc fuel) a x lo hi asc le in_ enough low high = elim (Bool-cases (ltb lo hi)) [
  | inl e ↦
      let mid = (lo + hi) / 2 in
      let below : mid < hi = ground arith in
      elim (Bool-cases (ltb x (at 0 a mid))) [
        | inl f ↦
            rw (bisect_from, e, f)
              (bisect_from-Splits fuel a x lo mid asc (omega arith) (omega arith) (omega arith) low
                (λ i h k. let q = asc mid i h k in ground arith))
        | inr f ↦
            rw (bisect_from, e, f)
              (bisect_from-Splits fuel a x (mid + 1) hi asc (omega arith) in_ (omega arith)
                (λ i h. let q = asc i mid (omega arith) (omega arith) in ground arith) high)
      ]
  | inr e ↦
      rw (bisect_from, e)
        (record { inside = omega arith; before = low; after = λ i h k. high i (ground arith) k })
]

pub bisect_right-Splits : (a : List ℕ) (x : ℕ) → IsAscending a → Splits a x (bisect_right a x)
unfolding bisect_right
bisect_right-Splits a x asc =
    bisect_from-Splits (length a) a x 0 (length a) asc (omega arith) (omega arith) (omega arith)
      (λ i h. absurd (omega arith)) (λ i h k. absurd (omega arith))
