-- ===== src/KillChain/Pivots/Shared.antt =====
-- What `_pivot_entities` of `app/killchain.py` finds.
use siem_lite.Prelude.{
  ℕ, ◌+◌, ◌≤◌, leb, ◌≡◌, refl, ap, ◌∙◌, sym, ◌↔◌, Bool, true, false, List, [], ◌∷◌, Option, none,
  some, In, here, there, if◌then◌else◌, if_false, Bool-cases, inl, inr, arith,
}
use siem_lite.Prelude.Dict.{get, set, get-set, get-In}
use siem_lite.Prelude.Sort.{In-sorted, sorted-In}
use siem_lite.KillChain.Chains.{Entity, entity, same_entity, Alert}
use siem_lite.KillChain.Pivots.{
  or_zero, Tally, tally, all_entities, shared, pivot_le, pivot_entities,
}

-- How often an actor occurs.
unfoldable pub occurrences : Entity → List Entity → ℕ
occurrences x [] = 0
occurrences x (y ∷ ys) = if same_entity y x then 1 + occurrences x ys else occurrences x ys

-- Each key has one entry.
unfoldable IsUnique : Tally → Type 0
IsUnique [] = Unit
IsUnique ((x, n) ∷ counts) = (get entity x counts ≡ none) × IsUnique counts

same_sym : (x y : Entity) → same_entity x y ≡ true → same_entity y x ≡ true
same_sym x y h = (entity.same_iff y x).1 (sym ((entity.same_iff x y).0 h))

not_same : (x y : Entity) → same_entity y x ≡ false → same_entity x y ≡ false
not_same x y h = elim (Bool-cases (same_entity x y)) [
  | inl t ↦ let u = same_sym x y t in absurd (cc)
  | inr t ↦ t
]

set-IsUnique :
    (x : Entity) (n : ℕ) (counts : Tally) → IsUnique counts → IsUnique (set entity x n counts)
unfolding IsUnique set get
set-IsUnique x n [] u = (refl, tt)
set-IsUnique x n ((y, m) ∷ counts) (q, u) = elim (Bool-cases (same_entity y x)) [
  | inl s ↦ rw s (q, u)
  | inr s ↦ rw s (
    get-set entity x y n counts ∙ if_false (same_entity x y) _ _ (not_same x y s) ∙ q,
    set-IsUnique x n counts u,
  )
]

get-tally :
    (x : Entity) (xs : List Entity) (counts : Tally)
    → or_zero (get entity x (tally xs counts)) ≡ or_zero (get entity x counts) + occurrences x xs
unfolding tally occurrences
get-tally x [] counts = omega arith
get-tally x (y ∷ ys) counts =
    get-tally x ys (set entity y (or_zero (get entity y counts) + 1) counts)
    ∙ (elim (Bool-cases (same_entity y x)) [
      | inl s ↦
          let q : y ≡ x = (entity.same_iff y x).0 s in
          let g = get-set entity y x (or_zero (get entity y counts) + 1) counts in
          rw (g, s, q) (omega arith)
      | inr s ↦
          let g = get-set entity y x (or_zero (get entity y counts) + 1) counts in rw (g, s) refl
    ])

tally-IsUnique : (xs : List Entity) (counts : Tally) → IsUnique counts → IsUnique (tally xs counts)
unfolding tally
tally-IsUnique [] counts u = u
tally-IsUnique (x ∷ xs) counts u = tally-IsUnique xs _ (set-IsUnique x _ counts u)

In-get :
    (x : Entity) (n : ℕ) (counts : Tally)
    → IsUnique counts
    → In (x, n) counts
    → get entity x counts ≡ some n
unfolding IsUnique get
In-get x n [] u i = elim i [ ]
In-get x n ((y, m) ∷ counts) (q, u) (here e) =
    let p : y ≡ x = ap (λ z. z.0) e in
    let r : m ≡ n = ap (λ z. z.1) e in rw ((entity.same_iff y x).1 p) (ap some r)
In-get x n ((y, m) ∷ counts) (q, u) (there i) = elim (Bool-cases (same_entity y x)) [
  | inl s ↦
      let t : y ≡ x = (entity.same_iff y x).0 s in
      let r : get entity y counts ≡ some n =
        ap (λ z. get entity z counts) t ∙ In-get x n counts u i in
      absurd (cc)
  | inr s ↦ rw s (In-get x n counts u i)
]

-- An entry that is kept by the test on its count.
kept_cases :
    (x y : Entity) (n m : ℕ) (counts rest : Tally) (b : Bool)
    → leb 2 m ≡ b
    → (In (x, n) rest → In (x, n) counts × (2 ≤ n))
    → In (x, n) (if b then (y, m) ∷ rest else rest)
    → In (x, n) ((y, m) ∷ counts) × (2 ≤ n)
kept_cases x y n m counts rest true s h (here e) =
    let r : m ≡ n = ap (λ z. z.1) e in (here e, ground arith)
kept_cases x y n m counts rest true s h (there i) = let (j, l) = h i in (there j, l)
kept_cases x y n m counts rest false s h i = let (j, l) = h i in (there j, l)

shared-In :
    (x : Entity) (n : ℕ) (counts : Tally) → In (x, n) (shared counts) → In (x, n) counts × (2 ≤ n)
unfolding shared
shared-In x n [] i = elim i [ ]
shared-In x n ((y, m) ∷ counts) i =
    kept_cases x y n m counts (shared counts) (leb 2 m) refl (shared-In x n counts) i

In-shared :
    (x : Entity) (n : ℕ) (counts : Tally) → In (x, n) counts → 2 ≤ n → In (x, n) (shared counts)
unfolding shared
In-shared x n [] i h = elim i [ ]
In-shared x n ((y, m) ∷ counts) (here e) h =
    let r : m ≡ n = ap (λ z. z.1) e in let s : leb 2 m ≡ true = ground arith in rw s (here e)
In-shared x n ((y, m) ∷ counts) (there i) h = elim (Bool-cases (leb 2 m)) [
  | inl s ↦ rw s (there (In-shared x n counts i h))
  | inr s ↦ rw s (In-shared x n counts i h)
]

found : (o : Option ℕ) (n : ℕ) → or_zero o ≡ n → 2 ≤ n → o ≡ some n
found none n q h = absurd (omega arith)
found (some m) n q h = ap some q

-- The pivots of a chain are exactly the actors that occur twice or more, each with how often it
-- occurs.
pub pivot_entities-In :
    (alerts : List Alert) (x : Entity) (n : ℕ)
    → In (x, n) (pivot_entities alerts) ↔ ((n ≡ occurrences x (all_entities alerts)) × (2 ≤ n))
unfolding pivot_entities IsUnique get
pivot_entities-In alerts x n = (
  (λ i.
      let (j, h) = shared-In x n counts (In-sorted pivot_le (x, n) (shared counts) i) in
      (sym (ap or_zero (In-get x n counts unique j)) ∙ total, h)),
  (λ (q, h).
      sorted-In pivot_le (x, n) (shared counts)
        (In-shared x n counts
          (get-In entity x n counts (found (get entity x counts) n (total ∙ sym q) h)) h)),
)
  where
    counts : Tally
    counts = tally (all_entities alerts) []

    unique : IsUnique counts
    unique = tally-IsUnique (all_entities alerts) [] tt

    total : or_zero (get entity x counts) ≡ occurrences x (all_entities alerts)
    total = get-tally x (all_entities alerts) [] ∙ omega arith
