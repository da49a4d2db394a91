-- ===== src/Prelude/Sort.antt =====
-- `sorted` over texts (by code points), by insertion, and what it keeps.
use siem_lite.Prelude.Tests.{◌==◌, ltb, if◌then◌else◌, if_true, if_false, Bool-cases}
use mathlib.Core.Logic.{◌⊎◌, inl, inr}
use siem_lite.Prelude.Lists.{any_of, cons_cases, All, In, here, there, length}
use Prim.Native.Nat.{ℕ, ◌+◌}
use mathlib.Core.Path.{◌≡◌, refl, sym, subst}
use mathlib.Core.Bool.{Bool, true, false, ◌&&◌, ◌||◌}
use mathlib.Core.List.{List, [], ◌∷◌}
use native.Mathlib.Omega.{arith}

-- `s <= t` of code point lists
unfoldable pub text_le : List ℕ → List ℕ → Bool
text_le [] t = true
text_le (a ∷ s) [] = false
text_le (a ∷ s) (b ∷ t) = ltb a b || (a == b && text_le s t)

module _ {ℓ} {A : Type ℓ} (le : A → A → Bool) where
  -- Into a sorted list, before the first element that is not smaller.
  unfoldable pub insert : A → List A → List A
  insert a [] = a ∷ []
  insert a (x ∷ xs) = if le a x then a ∷ x ∷ xs else x ∷ insert a xs

  unfoldable pub sorted : List A → List A
  unfolding insert
  sorted [] = []
  sorted (x ∷ xs) = insert x (sorted xs)

  any_of-insert :
      (p : A → Bool) (a : A) (xs : List A) → any_of p (insert a xs) ≡ (p a || any_of p xs)
  unfolding insert
  any_of-insert p a [] = refl
  any_of-insert p a (x ∷ xs) = ground (arith, any_of-insert p a xs)

  -- Sorting keeps what is there.
  pub any_of-sorted : (p : A → Bool) (xs : List A) → any_of p (sorted xs) ≡ any_of p xs
  unfolding sorted
  any_of-sorted p [] = refl
  any_of-sorted p (x ∷ xs) = ground (arith, any_of-insert p x (sorted xs), any_of-sorted p xs)

-- Sorting keeps the length.
module _ {ℓ} {A : Type ℓ} (le : A → A → Bool) where
  length-insert : (a : A) (xs : List A) → length (insert le a xs) ≡ length xs + 1
  unfolding insert
  length-insert a [] = omega arith
  length-insert a (x ∷ xs) = elim (Bool-cases (le a x)) [
    | inl e ↦ rw e (omega arith)
    | inr e ↦ rw e (omega (arith, length-insert a xs))
  ]

  pub length-sorted : (xs : List A) → length (sorted le xs) ≡ length xs
  unfolding sorted
  length-sorted [] = refl
  length-sorted (x ∷ xs) = omega (arith, length-insert x (sorted le xs), length-sorted xs)

-- Each element stands before all later ones, by the test.
abbrev pub IsSorted {ℓ} : {A : Type ℓ} → (A → A → Bool) → List A → Type ℓ
IsSorted le [] = Unit
IsSorted le (x ∷ xs) = All (λ y. le x y ≡ true) xs × IsSorted le xs

-- Of a test that is total and transitive.
module _ {ℓ} {A : Type ℓ} (le : A → A → Bool) (total : (a b : A) → le a b ≡ false → le b a ≡ true)
    (trans : (a b c : A) → le a b ≡ true → le b c ≡ true → le a c ≡ true) where
  All-trans :
      (a x : A) (xs : List A)
      → le a x ≡ true
      → All (λ y. le x y ≡ true) xs
      → All (λ y. le a y ≡ true) xs
  All-trans a x [] h k = tt
  All-trans a x (y ∷ ys) h k = (trans a x y h k.0, All-trans a x ys h k.1)

  All-insert :
      (z a : A) (xs : List A)
      → le z a ≡ true
      → All (λ y. le z y ≡ true) xs
      → All (λ y. le z y ≡ true) (insert le a xs)
  unfolding insert
  All-insert z a [] h k = (h, tt)
  All-insert z a (x ∷ xs) h k = elim (Bool-cases (le a x)) [
    | inl e ↦ rw e (h, k)
    | inr e ↦ rw e (k.0, All-insert z a xs h k.1)
  ]

  IsSorted-insert : (a : A) (xs : List A) → IsSorted le xs → IsSorted le (insert le a xs)
  unfolding insert
  IsSorted-insert a [] s = (tt, tt)
  IsSorted-insert a (x ∷ xs) s = elim (Bool-cases (le a x)) [
    | inl e ↦ rw e ((e, All-trans a x xs e s.0), s)
    | inr e ↦ rw e (All-insert x a xs (total a x e) s.0, IsSorted-insert a xs s.1)
  ]

  pub sorted-IsSorted : (xs : List A) → IsSorted le (sorted le xs)
  unfolding sorted
  sorted-IsSorted [] = tt
  sorted-IsSorted (x ∷ xs) = IsSorted-insert x (sorted le xs) (sorted-IsSorted xs)

module _ {ℓ} {A : Type ℓ} (le : A → A → Bool) where
  insert_cases : (b a : A) (xs : List A) → In b (insert le a xs) → (a ≡ b) ⊎ In b xs
  unfolding insert
  insert_cases b a [] i = cons_cases b a [] i
  insert_cases b a (x ∷ xs) i = elim (Bool-cases (le a x)) [
    | inl e ↦ cons_cases b a (x ∷ xs) (subst (In b) (if_true (le a x) _ _ e) i)
    | inr e ↦ elim (cons_cases b x (insert le a xs) (subst (In b) (if_false (le a x) _ _ e) i)) [
      | inl q ↦ inr (here q)
      | inr j ↦ elim (insert_cases b a xs j) [ inl q ↦ inl q | inr k ↦ inr (there k) ]
    ]
  ]

  insert-In : (b a : A) (xs : List A) → (a ≡ b) ⊎ In b xs → In b (insert le a xs)
  unfolding insert
  insert-In b a [] (inl q) = here q
  insert-In b a [] (inr i) = there i
  insert-In b a (x ∷ xs) h = elim (Bool-cases (le a x)) [
    | inl e ↦
        subst (In b) (sym (if_true (le a x) _ _ e)) (elim h [ inl q ↦ here q | inr i ↦ there i ])
    | inr e ↦ subst (In b) (sym (if_false (le a x) _ _ e)) (elim h [
      | inl q ↦ there (insert-In b a xs (inl q))
      | inr i ↦ elim (cons_cases b x xs i) [
        | inl q ↦ here q
        | inr j ↦ there (insert-In b a xs (inr j))
      ]
    ])
  ]

  -- Sorting keeps what is there, and adds nothing.
  pub In-sorted : (b : A) (xs : List A) → In b (sorted le xs) → In b xs
  unfolding sorted
  In-sorted b [] i = i
  In-sorted b (x ∷ xs) i = elim (insert_cases b x (sorted le xs) i) [
    | inl q ↦ here q
    | inr j ↦ there (In-sorted b xs j)
  ]

  pub sorted-In : (b : A) (xs : List A) → In b xs → In b (sorted le xs)
  unfolding sorted
  sorted-In b [] i = i
  sorted-In b (x ∷ xs) i = elim (cons_cases b x xs i) [
    | inl q ↦ insert-In b x (sorted le xs) (inl q)
    | inr j ↦ insert-In b x (sorted le xs) (inr (sorted-In b xs j))
  ]
