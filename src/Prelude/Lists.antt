-- ===== src/Prelude/Lists.antt =====
-- Lists measured and indexed by native numbers, and the Boolean folds of Python.
use Prim.Native.Nat.{ℕ, zero, suc, ◌+◌, ◌≤◌}
use mathlib.Core.Path.{◌≡◌, refl, ap}
use mathlib.Core.Logic.{◌⊎◌, inl, inr}
use mathlib.Core.List.{List, [], ◌∷◌, ◌++◌, map}
use mathlib.Core.Option.{Option, none, some}
use mathlib.Core.Bool.{Bool, true, false, ◌&&◌, ◌||◌}
use native.Mathlib.Omega.{arith}
use siem_lite.Prelude.Tests.{if◌then◌else◌, Bool-cases}

module _ {ℓ} {A : Type ℓ} where
  abbrev pub length : List A → ℕ
  length [] = 0
  length (x ∷ xs) = suc (length xs)

  abbrev pub get_elem? : List A → ℕ → Option A
  get_elem? [] i = none
  get_elem? (x ∷ xs) zero = some x
  get_elem? (x ∷ xs) (suc i) = get_elem? xs i

  abbrev pub take : ℕ → List A → List A
  take zero xs = []
  take (suc n) [] = []
  take (suc n) (x ∷ xs) = x ∷ take n xs

  abbrev pub drop : ℕ → List A → List A
  drop zero xs = xs
  drop (suc n) [] = []
  drop (suc n) (x ∷ xs) = drop n xs

  abbrev pub replicate : ℕ → A → List A
  replicate zero a = []
  replicate (suc n) a = a ∷ replicate n a

  -- `any(p(x) for x in xs)` and `all(p(x) for x in xs)`
  abbrev pub any_of : (A → Bool) → List A → Bool
  any_of p [] = false
  any_of p (x ∷ xs) = p x || any_of p xs

  abbrev pub all_of : (A → Bool) → List A → Bool
  all_of p [] = true
  all_of p (x ∷ xs) = p x && all_of p xs

  -- `[x for x in xs if p(x)]`
  abbrev pub keep : (A → Bool) → List A → List A
  keep p [] = []
  keep p (x ∷ xs) = if p x then x ∷ keep p xs else keep p xs

  abbrev pub is_empty : List A → Bool
  is_empty [] = true
  is_empty (x ∷ xs) = false

  -- A predicate of every element.
  abbrev pub All {κ} : (A → Type κ) → List A → Type κ
  All P [] = Unit
  All P (x ∷ xs) = P x × All P xs

  -- A position in the list that holds the element.
  pub data In (a : A) : List A → Type ℓ where
    here : {x : A} {xs : List A} → x ≡ a → In a (x ∷ xs)
    there : {x : A} {xs : List A} → In a xs → In a (x ∷ xs)

module _ {ℓ} {A : Type ℓ} where
  pub length-append : (xs ys : List A) → length (xs ++ ys) ≡ length xs + length ys
  length-append [] ys = omega arith
  length-append (x ∷ xs) ys = omega (arith, length-append xs ys)

  pub take-append-drop : (n : ℕ) (xs : List A) → take n xs ++ drop n xs ≡ xs
  take-append-drop zero xs = refl
  take-append-drop (suc n) [] = refl
  take-append-drop (suc n) (x ∷ xs) = ap (◌∷◌ x) (take-append-drop n xs)

  pub take_all : (xs ys : List A) → take (length xs) (xs ++ ys) ≡ xs
  take_all [] ys = refl
  take_all (x ∷ xs) ys = ap (◌∷◌ x) (take_all xs ys)

  pub drop_all : (xs ys : List A) → drop (length xs) (xs ++ ys) ≡ ys
  drop_all [] ys = refl
  drop_all (x ∷ xs) ys = drop_all xs ys

  pub length-take-le : (n : ℕ) (xs : List A) → length (take n xs) ≤ n
  length-take-le zero xs = omega arith
  length-take-le (suc n) [] = omega arith
  length-take-le (suc n) (x ∷ xs) = omega (arith, length-take-le n xs)

  pub length-map {κ} : {B : Type κ} (f : A → B) (xs : List A) → length (map f xs) ≡ length xs
  length-map f [] = refl
  length-map f (x ∷ xs) = ap suc (length-map f xs)

  pub any_of-append :
      (p : A → Bool) (xs ys : List A) → any_of p (xs ++ ys) ≡ (any_of p xs || any_of p ys)
  any_of-append p [] ys = refl
  any_of-append p (x ∷ xs) ys = ground (arith, any_of-append p xs ys)

  pub any_of-In : (p : A → Bool) (a : A) {xs : List A} → In a xs → p a ≡ true → any_of p xs ≡ true
  any_of-In p a (here e) h = ground (arith, ap p e)
  any_of-In p a (there i) h = ground (arith, any_of-In p a i h)

  pub In-any_of :
      (p : A → Bool) (xs : List A) → any_of p xs ≡ true → (a : A) × In a xs × (p a ≡ true)
  In-any_of p [] h = absurd (ground arith)
  In-any_of p (x ∷ xs) h = elim (Bool-cases (p x)) [
    | inl e ↦ (x, here refl, e)
    | inr e ↦ let (a, i, q) = In-any_of p xs (ground arith) in (a, there i, q)
  ]

  pub all_of-In : (p : A → Bool) (a : A) {xs : List A} → In a xs → all_of p xs ≡ true → p a ≡ true
  all_of-In p a (here e) h = ground (arith, ap p e)
  all_of-In p a (there i) h = all_of-In p a i (ground arith)

  pub In-append_right : (a : A) (xs ys : List A) → In a ys → In a (xs ++ ys)
  In-append_right a [] ys i = i
  In-append_right a (x ∷ xs) ys i = there (In-append_right a xs ys i)

  pub In-append_left : (a : A) {xs : List A} (ys : List A) → In a xs → In a (xs ++ ys)
  In-append_left a ys (here e) = here e
  In-append_left a ys (there i) = there (In-append_left a ys i)

  pub All-In {κ} : (P : A → Type κ) {a : A} {xs : List A} → In a xs → All P xs → P a
  All-In P (here e) h = rw (← e) h.0
  All-In P (there i) h = All-In P i h.1

pub nothing_in {ℓ} : {A : Type ℓ} {a : A} → ¬ In a []
nothing_in {a = a} i = absurd (ground (arith, any_of-In (λ b. true) a i refl))

pub cons_cases {ℓ} : {A : Type ℓ} (b a : A) (xs : List A) → In b (a ∷ xs) → (a ≡ b) ⊎ In b xs
cons_cases b a xs (here q) = inl q
cons_cases b a xs (there i) = inr i

pub append_cases {ℓ} : {A : Type ℓ} (b : A) (xs ys : List A) → In b (xs ++ ys) → In b xs ⊎ In b ys
append_cases b [] ys i = inr i
append_cases b (x ∷ xs) ys (here q) = inl (here q)
append_cases b (x ∷ xs) ys (there i) = elim (append_cases b xs ys i) [
  | inl j ↦ inl (there j)
  | inr j ↦ inr j
]

pub All-each {ℓ κ} :
    {A : Type ℓ} (P : A → Type κ) (xs : List A) → ((x : A) → In x xs → P x) → All P xs
All-each P [] f = tt
All-each P (x ∷ xs) f = (f x (here refl), All-each P xs (λ y i. f y (there i)))

pub All-append {ℓ κ} :
    {A : Type ℓ} (P : A → Type κ) (xs ys : List A) → All P xs → All P ys → All P (xs ++ ys)
All-append P [] ys h k = k
All-append P (x ∷ xs) ys (first, later) k = (first, All-append P xs ys later k)

pub All-weaken {ℓ κ κ'} :
    {A : Type ℓ} (P : A → Type κ) (Q : A → Type κ') (xs : List A)
    → ((x : A) → P x → Q x)
    → All P xs
    → All Q xs
All-weaken P Q [] f h = tt
All-weaken P Q (x ∷ xs) f (first, later) = (f x first, All-weaken P Q xs f later)

-- Cutting a common front.
pub append-cancel {ℓ} : {A : Type ℓ} (xs : List A) {ys zs : List A} → xs ++ ys ≡ xs ++ zs → ys ≡ zs
append-cancel [] h = h
append-cancel (x ∷ xs) h = append-cancel xs (ground arith)
