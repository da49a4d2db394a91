-- ===== src/Prelude/Dict.antt =====
-- Python's `dict` as an association list in insertion order, over any key type with a test.
use Prim.Native.Nat.{◌≤◌, ◌+◌}
use mathlib.Core.Path.{◌≡◌, refl, sym, ap, ap₂, ◌∙◌}
use mathlib.Core.Logic.{◌↔◌, inl, inr}
use mathlib.Core.List.{List, [], ◌∷◌, ◌++◌}
use mathlib.Core.Option.{Option, none, some}
use mathlib.Core.Bool.{Bool, true}
use native.Mathlib.Omega.{arith}
use siem_lite.Prelude.Tests.{if◌then◌else◌, if_true, if_false, Bool-cases}
use siem_lite.Prelude.Lists.{length, In, here, there}

-- A Boolean equality and its meaning.
pub record Eq {ℓ} (K : Type ℓ) : Type ℓ where
  pub same : K → K → Bool
  pub same_iff : (j k : K) → (same j k ≡ true) ↔ (j ≡ k)

pub same_refl {ℓ} : {A : Type ℓ} (e : Eq A) (a : A) → e.same a a ≡ true
same_refl e a = (e.same_iff a a).1 refl

module _ {ℓ κ} {K : Type ℓ} {V : Type κ} where
  -- `d.get(k)`
  unfoldable pub get : Eq K → K → List (K × V) → Option V
  get e k [] = none
  get e k ((j, v) ∷ d) = if e.same j k then some v else get e k d

  -- `d[k] = v`: an old key keeps its place, a new one goes last
  unfoldable pub set : Eq K → K → V → List (K × V) → List (K × V)
  set e k v [] = (k, v) ∷ []
  set e k v ((j, w) ∷ d) = if e.same j k then (j, v) ∷ d else (j, w) ∷ set e k v d

  pub get-set :
      (e : Eq K) (k j : K) (v : V) (d : List (K × V))
      → get e j (set e k v d) ≡ (if e.same k j then some v else get e j d)
  unfolding get set
  get-set e k j v [] = refl
  get-set e k j v ((i, w) ∷ d) =
      ground (arith, e.same_iff i k, e.same_iff k j, e.same_iff i j, get-set e k j v d)

  pub length-set-le :
      (e : Eq K) (k : K) (v : V) (d : List (K × V)) → length (set e k v d) ≤ length d + 1
  unfolding set
  length-set-le e k v [] = omega arith
  length-set-le e k v ((j, w) ∷ d) = ground (arith, length-set-le e k v d)

-- `d.setdefault(k, v)`
unfoldable pub set_default {ℓ κ} :
    {K : Type ℓ} {V : Type κ} → Eq K → K → V → List (K × V) → List (K × V)
set_default e k v d = elim (get e k d) [ none ↦ d ++ (k, v) ∷ [] | some w ↦ d ]

module _ {ℓ κ} {K : Type ℓ} {V : Type κ} (e : Eq K) where
  pub get-append_left :
      (k : K) (v : V) (d rest : List (K × V)) → get e k d ≡ some v → get e k (d ++ rest) ≡ some v
  unfolding get
  get-append_left k v [] rest h = absurd (cc)
  get-append_left k v ((j, w) ∷ d) rest h = elim (Bool-cases (e.same j k)) [
    | inl s ↦ rw s (sym (if_true (e.same j k) (some w) (get e k d) s) ∙ h)
    | inr s ↦
        rw s (get-append_left k v d rest (sym (if_false (e.same j k) (some w) (get e k d) s) ∙ h))
  ]

  pub get-append_right :
      (k : K) (v : V) (d : List (K × V)) → get e k d ≡ none → get e k (d ++ (k, v) ∷ []) ≡ some v
  unfolding get
  get-append_right k v [] h = if_true (e.same k k) (some v) none (same_refl e k)
  get-append_right k v ((j, w) ∷ d) h = elim (Bool-cases (e.same j k)) [
    | inl s ↦
        let t : some w ≡ none = sym (if_true (e.same j k) (some w) (get e k d) s) ∙ h in absurd (cc)
    | inr s ↦ rw s (get-append_right k v d (sym (if_false (e.same j k) (some w) (get e k d) s) ∙ h))
  ]

  -- What is found is an entry.
  pub get-In : (k : K) (v : V) (d : List (K × V)) → get e k d ≡ some v → In (k, v) d
  unfolding get
  get-In k v [] h = absurd (cc)
  get-In k v ((j, w) ∷ d) h = elim (Bool-cases (e.same j k)) [
    | inl s ↦
        let t : some w ≡ some v = sym (if_true (e.same j k) (some w) (get e k d) s) ∙ h in
        let u : w ≡ v = cc in here (ap₂ (λ a b. (a, b)) ((e.same_iff j k).0 s) u)
    | inr s ↦ there (get-In k v d (sym (if_false (e.same j k) (some w) (get e k d) s) ∙ h))
  ]

module _ {ℓ κ} {K : Type ℓ} {V : Type κ} (e : Eq K) (k : K) (v : V) (d : List (K × V)) where
  pub set_default_new : get e k d ≡ none → set_default e k v d ≡ d ++ (k, v) ∷ []
  unfolding set_default
  set_default_new h = ap (λ o. elim o [ none ↦ d ++ (k, v) ∷ [] | some w ↦ d ]) h

  pub set_default_old : {w : V} → get e k d ≡ some w → set_default e k v d ≡ d
  unfolding set_default
  set_default_old h = ap (λ o. elim o [ none ↦ d ++ (k, v) ∷ [] | some w ↦ d ]) h
