-- ===== src/KillChain/DisjointSet/Forest.antt =====
-- The table of `_DisjointSet` in `app/killchain.py` is a forest: each id has a root, and is nearer to
-- it at each step. `find` keeps the roots, `union` merges two of them.
use siem_lite.Prelude.{
  ℕ, zero, suc, ◌+◌, ◌≤◌, ◌<◌, ◌==◌, ◌≡◌, ◌≢◌, refl, sym, ap, ap₂, if_true, if_false, some_eq, ◌∙◌,
  [], ◌∷◌, some, ◌⊎◌, inl, inr, Bool-cases, ==_refl, length, arith, if◌then◌else◌,
}
use siem_lite.Prelude.Dict.{get, set, get-set}
use siem_lite.KillChain.DisjointSet.{number, Parents, climb, compress, find}

-- How many ids are no roots.
abbrev pub below_root : ℕ → ℕ → ℕ
below_root x y = if x == y then 0 else 1

pub inner : Parents → ℕ
inner [] = 0
inner ((x, y) ∷ p) = below_root x y + inner p

inner-le : (p : Parents) → inner p ≤ length p
unfolding inner
inner-le [] = omega arith
inner-le ((x, y) ∷ p) = let later = inner-le p in ground arith

inner-set :
    (x r : ℕ) (p : Parents) {y : ℕ}
    → get number x p ≡ some y
    → inner (set number x r p) + below_root x y ≡ inner p + below_root x r
unfolding inner get set
inner-set x r [] h = absurd (cc)
inner-set x r ((z, w) ∷ p) {y} h = elim (Bool-cases (z == x)) [
  | inl e ↦
      let same : z ≡ x = ground (arith, e) in
      let value : w ≡ y = some_eq (sym (if_true (z == x) (some w) (get number x p) e) ∙ h) in
      omega (
        arith,
        ap inner (if_true (z == x) ((z, r) ∷ p) ((z, w) ∷ set number x r p) e),
        ap (λ k. below_root k r) same,
        ap₂ below_root same value,
      )
  | inr e ↦
      let later = sym (if_false (z == x) (some w) (get number x p) e) ∙ h in
      omega (
        arith,
        ap inner (if_false (z == x) ((z, r) ∷ p) ((z, w) ∷ set number x r p) e),
        inner-set x r p later,
      )
]

abbrev pub HasKey : Parents → ℕ → Type 0
HasKey p x = (y : ℕ) × (get number x p ≡ some y)

-- What an id's entry is: itself, at a root, or an id nearer to the root.
abbrev pub Leads : (ℕ → ℕ) → (ℕ → ℕ) → ℕ → ℕ → Type 0
Leads root rank x y = ((x ≡ y) × (root x ≡ x) × (rank x ≡ 0)) ⊎ (rank y < rank x)

pub record IsForest (p : Parents) (root : ℕ → ℕ) (rank : ℕ → ℕ) : Type 0 where
  pub same_root : (x y : ℕ) → get number x p ≡ some y → root y ≡ root x
  pub leads : (x y : ℕ) → get number x p ≡ some y → Leads root rank x y
  pub closed : (x y : ℕ) → get number x p ≡ some y → HasKey p y
  pub rooted : (x y : ℕ) → get number x p ≡ some y → get number (root x) p ≡ some (root x)
  pub bounded : (x y : ℕ) → get number x p ≡ some y → rank x ≤ inner p

-- What stands at a key after an assignment.
get-set_cases :
    (x r z w : ℕ) (p : Parents)
    → get number z (set number x r p) ≡ some w
    → ((x ≡ z) × (w ≡ r)) ⊎ ((x ≢ z) × (get number z p ≡ some w))
get-set_cases x r z w p h = elim (Bool-cases (x == z)) [
  | inl e ↦ inl (
    ground (arith, e),
    sym (
        some_eq
          (sym (if_true (x == z) (some r) (get number z p) e) ∙ sym (get-set number x z r p) ∙ h)),
  )
  | inr e ↦ inr (
    ground (arith, e),
    sym (if_false (x == z) (some r) (get number z p) e) ∙ sym (get-set number x z r p) ∙ h,
  )
]

get-set_same : (x r : ℕ) (p : Parents) → get number x (set number x r p) ≡ some r
get-set_same x r p = get-set number x x r p ∙ if_true (x == x) _ _ (==_refl x)

get-set_other : (x r z : ℕ) (p : Parents) → x ≢ z → get number z (set number x r p) ≡ get number z p
get-set_other x r z p h = get-set number x z r p ∙ if_false (x == z) _ _ (ground (arith, h))

pub HasKey-set : (x r z : ℕ) (p : Parents) → HasKey p z → HasKey (set number x r p) z
HasKey-set x r z p (y, h) = elim (Bool-cases (x == z)) [
  | inl e ↦ (r, get-set number x z r p ∙ if_true (x == z) _ _ e)
  | inr e ↦ (y, get-set number x z r p ∙ if_false (x == z) _ _ e ∙ h)
]

module _ (root rank : ℕ → ℕ) where
  lead_same : (x y : ℕ) → Leads root rank x y → y ≡ x → (root x ≡ x) × (rank x ≡ 0)
  lead_same x y (inl (_, r, z)) e = (r, z)
  lead_same x y (inr h) e = absurd (omega (arith, ap rank e))

  lead_less : (x y : ℕ) → Leads root rank x y → y ≢ x → rank y < rank x
  lead_less x y (inl (e, _, _)) h = absurd (h (sym e))
  lead_less x y (inr h) _ = h

  -- A root is its own root, at rank 0.
  pub root_of_root :
      (p : Parents) (x : ℕ)
      → IsForest p root rank
      → HasKey p x
      → (root (root x) ≡ root x) × (rank (root x) ≡ 0)
  root_of_root p x f (y, e) =
      lead_same (root x) (root x) (f.leads (root x) (root x) (f.rooted x y e)) refl

  climb-root :
      (n : ℕ) (p : Parents) (x : ℕ)
      → IsForest p root rank
      → HasKey p x
      → rank x < n
      → climb n p x ≡ some (root x)
  unfolding climb
  climb-root zero p x f k h = absurd (omega arith)
  climb-root (suc n) p x f (y, e) h = elim (Bool-cases (y == x)) [
    | inl same ↦
        rw (climb, e, same) (ap some (sym (lead_same x y (f.leads x y e) (ground (arith, same))).0))
    | inr other ↦
        let less = lead_less x y (f.leads x y e) (ground (arith, other)) in
        rw (climb, e, other)
          (climb-root n p y f (f.closed x y e) (omega arith) ∙ ap some (f.same_root x y e))
  ]

  -- Pointing an inner id at its root keeps the forest.
  set-IsForest :
      (p : Parents) (x y : ℕ)
      → IsForest p root rank
      → get number x p ≡ some y
      → y ≢ root x
      → IsForest (set number x (root x) p) root rank
  set-IsForest p x y f e h = record {
    same_root = roots;
    leads = lead;
    closed = close;
    rooted = rooted;
    bounded = bound;
  }
    where
      top : (root (root x) ≡ root x) × (rank (root x) ≡ 0)
      top = root_of_root p x f (y, e)

      inside : y ≢ x
      inside s = h (s ∙ sym (lead_same x y (f.leads x y e) s).0)

      above : rank y < rank x
      above = lead_less x y (f.leads x y e) inside

      below : x ≢ root x
      below s = absurd (omega (arith, ap rank s, top.1, above))

      p' : Parents
      p' = set number x (root x) p

      roots : (z w : ℕ) → get number z p' ≡ some w → root w ≡ root z
      roots z w g = elim (get-set_cases x (root x) z w p g) [
        | inl (a, b) ↦ ap root b ∙ top.0 ∙ ap root a
        | inr (_, b) ↦ f.same_root z w b
      ]

      lead : (z w : ℕ) → get number z p' ≡ some w → Leads root rank z w
      lead z w g = elim (get-set_cases x (root x) z w p g) [
        | inl (a, b) ↦ inr (omega (arith, ap rank a, ap rank b, top.1, above))
        | inr (_, b) ↦ f.leads z w b
      ]

      close : (z w : ℕ) → get number z p' ≡ some w → HasKey p' w
      close z w g = elim (get-set_cases x (root x) z w p g) [
        | inl (a, b) ↦
            HasKey-set x (root x) w p (root x, ap (λ k. get number k p) b ∙ f.rooted x y e)
        | inr (_, b) ↦ HasKey-set x (root x) w p (f.closed z w b)
      ]

      old : (z w : ℕ) → get number z p' ≡ some w → HasKey p z
      old z w g = elim (get-set_cases x (root x) z w p g) [
        | inl (a, b) ↦ (y, ap (λ k. get number k p) (sym a) ∙ e)
        | inr (_, b) ↦ (w, b)
      ]

      rooted : (z w : ℕ) → get number z p' ≡ some w → get number (root z) p' ≡ some (root z)
      rooted z w g =
          let (v, b) = old z w g in
          get-set_other x (root x) (root z) p
            (λ s. absurd (omega (arith, ap rank s, (root_of_root p z f (v, b)).1, above)))
          ∙ f.rooted z v b

      count : inner p' ≡ inner p
      count = omega (
        arith,
        inner-set x (root x) p e,
        if_false {A = ℕ} (x == y) 0 1 (ground (arith, inside)),
        if_false {A = ℕ} (x == root x) 0 1 (ground (arith, below)),
      )

      bound : (z w : ℕ) → get number z p' ≡ some w → rank z ≤ inner p'
      bound z w g = let (v, b) = old z w g in let before = f.bounded z v b in omega (arith, count)

  -- A forest of the same roots, on the same ids.
  abbrev pub Kept : Parents → Parents → Type 0
  Kept p p' = IsForest p' root rank × ((z : ℕ) → HasKey p z → HasKey p' z)

  compress-Kept :
      (n : ℕ) (p : Parents) (x : ℕ)
      → IsForest p root rank
      → HasKey p x
      → rank x < n
      → (p' : Parents) × (compress n p x (root x) ≡ some p') × Kept p p'
  unfolding compress
  compress-Kept zero p x f k h = absurd (omega arith)
  compress-Kept (suc n) p x f (y, e) h = elim (Bool-cases (y == root x)) [
    | inl same ↦ (p, rw (compress, e, same) refl, (f, λ z k. k))
    | inr other ↦
        let apart : y ≢ root x = ground (arith, other) in
        let p₁ = set number x (root x) p in
        let f₁ = set-IsForest p x y f e apart in
        let inside : y ≢ x = λ s. apart (s ∙ sym (lead_same x y (f.leads x y e) s).0) in
        let less = lead_less x y (f.leads x y e) inside in
        let (p', q, (f', keys)) =
          compress-Kept n p₁ y f₁ (HasKey-set x (root x) y p (f.closed x y e)) (omega arith) in
        (
          p',
          rw (compress, e, other) (ap (compress n p₁ y) (sym (f.same_root x y e)) ∙ q),
          (f', λ z k. keys z (HasKey-set x (root x) z p k)),
        )
  ]

  -- `find` gives the root, and keeps the forest.
  pub find-Kept :
      (p : Parents) (x : ℕ)
      → IsForest p root rank
      → HasKey p x
      → (p' : Parents) × (find p x ≡ some (root x, p')) × Kept p p'
  unfolding find
  find-Kept p x f k =
      let low = f.bounded x k.0 k.1 in
      let fuel = inner-le p in
      let (p', q, kept) = compress-Kept (suc (length p)) p x f k (omega arith) in
      (p', rw (climb-root (suc (length p)) p x f k (omega arith), q) refl, kept)

-- The roots and the ranks after the root `ra` was put below the root `rb`.
abbrev pub merged : (ℕ → ℕ) → ℕ → ℕ → ℕ → ℕ
merged root ra rb x = if root x == ra then rb else root x

abbrev pub lifted : (ℕ → ℕ) → (ℕ → ℕ) → ℕ → ℕ → ℕ
lifted root rank ra x = if root x == ra then suc (rank x) else rank x

pub merged-root :
    (root : ℕ → ℕ) (ra rb x y : ℕ) → root y ≡ root x → merged root ra rb y ≡ merged root ra rb x
merged-root root ra rb x y e = ap (λ r. if r == ra then rb else r) e

pub merged_in :
    (root rank : ℕ → ℕ) (ra rb z : ℕ)
    → root z ≡ ra
    → (merged root ra rb z ≡ rb) × (lifted root rank ra z ≡ suc (rank z))
merged_in root rank ra rb z e = (
  if_true (root z == ra) rb (root z) (ground (arith, e)),
  if_true (root z == ra) (suc (rank z)) (rank z) (ground (arith, e)),
)

pub merged_out :
    (root rank : ℕ → ℕ) (ra rb z : ℕ)
    → root z ≢ ra
    → (merged root ra rb z ≡ root z) × (lifted root rank ra z ≡ rank z)
merged_out root rank ra rb z h = (
  if_false (root z == ra) rb (root z) (ground (arith, h)),
  if_false (root z == ra) (suc (rank z)) (rank z) (ground (arith, h)),
)

pub number_cases : (a b : ℕ) → (a ≡ b) ⊎ (a ≢ b)
number_cases a b = elim (Bool-cases (a == b)) [
  | inl e ↦ inl (ground (arith, e))
  | inr e ↦ inr (ground (arith, e))
]

module _ (root rank : ℕ → ℕ) (p : Parents) (f : IsForest p root rank) (ra rb : ℕ) (ka : HasKey p ra)
    (kb : HasKey p rb) (a_root : root ra ≡ ra) (b_root : root rb ≡ rb) (apart : ra ≢ rb) where
  pub merge-IsForest : IsForest (set number ra rb p) (merged root ra rb) (lifted root rank ra)
  merge-IsForest = record {
    same_root = roots;
    leads = lead;
    closed = close;
    rooted = rooted;
    bounded = bound;
  }
    where
      p' : Parents
      p' = set number ra rb p

      zero_a : rank ra ≡ 0
      zero_a = ap rank (sym a_root) ∙ (root_of_root root rank p ra f ka).1

      zero_b : rank rb ≡ 0
      zero_b = ap rank (sym b_root) ∙ (root_of_root root rank p rb f kb).1

      at_a : (merged root ra rb ra ≡ rb) × (lifted root rank ra ra ≡ suc (rank ra))
      at_a = merged_in root rank ra rb ra a_root

      at_b : (merged root ra rb rb ≡ root rb) × (lifted root rank ra rb ≡ rank rb)
      at_b = merged_out root rank ra rb rb (λ e. apart (sym e ∙ b_root))

      top_of : (z : ℕ) → HasKey p z → root z ≡ z → get number z p ≡ some z
      top_of z (v, h) e = ap (λ k. get number k p) (sym e) ∙ f.rooted z v h ∙ ap some e

      roots : (z w : ℕ) → get number z p' ≡ some w → merged root ra rb w ≡ merged root ra rb z
      roots z w g = elim (get-set_cases ra rb z w p g) [
        | inl (a, b) ↦
            ap (merged root ra rb) b ∙ (at_b.0 ∙ b_root) ∙ sym at_a.0 ∙ ap (merged root ra rb) a
        | inr (_, b) ↦ merged-root root ra rb z w (f.same_root z w b)
      ]

      lead_old :
          (z w : ℕ)
          → ra ≢ z
          → get number z p ≡ some w
          → Leads root rank z w
          → Leads (merged root ra rb) (lifted root rank ra) z w
      lead_old z w h b (inl (same, top, low)) =
          let out = merged_out root rank ra rb z (λ e. h (sym e ∙ top)) in
          inl (same, out.0 ∙ top, out.1 ∙ low)
      lead_old z w h b (inr less) = elim (number_cases (root z) ra) [
        | inl e ↦ inr (
            omega (
              arith,
              (merged_in root rank ra rb z e).1,
              (merged_in root rank ra rb w (f.same_root z w b ∙ e)).1,
            ))
        | inr n ↦ inr (
            omega (
              arith,
              (merged_out root rank ra rb z n).1,
              (merged_out root rank ra rb w (λ e. n (sym (f.same_root z w b) ∙ e))).1,
            ))
      ]

      lead :
          (z w : ℕ) → get number z p' ≡ some w → Leads (merged root ra rb) (lifted root rank ra) z w
      lead z w g = elim (get-set_cases ra rb z w p g) [
        | inl (a, b) ↦ inr (
            omega (
              arith,
              ap (lifted root rank ra) a,
              ap (lifted root rank ra) b,
              at_a.1,
              at_b.1,
              zero_a,
              zero_b,
            ))
        | inr (h, b) ↦ lead_old z w h b (f.leads z w b)
      ]

      close : (z w : ℕ) → get number z p' ≡ some w → HasKey p' w
      close z w g = elim (get-set_cases ra rb z w p g) [
        | inl (a, b) ↦ HasKey-set ra rb w p (kb.0, ap (λ k. get number k p) b ∙ kb.1)
        | inr (_, b) ↦ HasKey-set ra rb w p (f.closed z w b)
      ]

      old : (z w : ℕ) → get number z p' ≡ some w → HasKey p z
      old z w g = elim (get-set_cases ra rb z w p g) [
        | inl (a, b) ↦ (ka.0, ap (λ k. get number k p) (sym a) ∙ ka.1)
        | inr (_, b) ↦ (w, b)
      ]

      rooted :
          (z w : ℕ)
          → get number z p' ≡ some w
          → get number (merged root ra rb z) p' ≡ some (merged root ra rb z)
      rooted z w g = elim (number_cases (root z) ra) [
        | inl e ↦
            let q = (merged_in root rank ra rb z e).0 in
            ap (λ k. get number k p') q
            ∙ get-set_other ra rb rb p apart
            ∙ top_of rb kb b_root
            ∙ ap some (sym q)
        | inr n ↦
            let q = (merged_out root rank ra rb z n).0 in
            let (v, b) = old z w g in
            ap (λ k. get number k p') q
            ∙ get-set_other ra rb (root z) p (λ e. n (sym e))
            ∙ f.rooted z v b
            ∙ ap some (sym q)
      ]

      count : inner p' ≡ inner p + 1
      count = omega (
        arith,
        inner-set ra rb p (top_of ra ka a_root),
        if_true {A = ℕ} (ra == ra) 0 1 (==_refl ra),
        if_false {A = ℕ} (ra == rb) 0 1 (ground (arith, apart)),
      )

      bound : (z w : ℕ) → get number z p' ≡ some w → lifted root rank ra z ≤ inner p'
      bound z w g =
          let (v, b) = old z w g in
          let before = f.bounded z v b in
          elim (number_cases (root z) ra) [
            | inl e ↦ omega (arith, (merged_in root rank ra rb z e).1, count)
            | inr n ↦ omega (arith, (merged_out root rank ra rb z n).1, count)
          ]
