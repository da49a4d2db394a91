-- ===== src/KillChain/Gather.antt =====
-- `d.setdefault(k, []).append(v)` over a sequence of keys and values, as `build_chains` of
-- `app/killchain.py` collects the members of entities and of roots.
use siem_lite.Prelude.{
  ◌≡◌, refl, false≢true, nothing_in, sym, ap, ap₂, ◌∙◌, subst, false, List, [], ◌∷◌, ◌++◌, Option,
  none, some, ◌⊎◌, inl, inr, Bool-cases, All, In, here, there, In-append_left, In-append_right,
  if_true, if_false,
}
use siem_lite.Prelude.Dict.{Eq, same_refl, get, set, get-set, get-In}

module _ {ℓ κ} {K : Type ℓ} {V : Type κ} (e : Eq K) where
  abbrev pub found : Option (List V) → List V
  found none = []
  found (some vs) = vs

  unfoldable pub append_to : K → V → List (K × List V) → List (K × List V)
  unfolding get set
  append_to k v d = set e k (found (get e k d) ++ v ∷ []) d

  unfoldable pub gather_into : List (K × V) → List (K × List V) → List (K × List V)
  unfolding append_to
  gather_into [] d = d
  gather_into ((k, v) ∷ entries) d = gather_into entries (append_to k v d)

  -- Each value of each key is one of these.
  abbrev pub From : (K → V → Type 0) → List (K × List V) → Type (ℓ ⊔ κ)
  From P d = (k : K) (vs : List V) → In (k, vs) d → (v : V) → In v vs → P k v

  head_cases :
      (j k : K) (w v : List V) (d : List (K × List V))
      → In (j, w) ((k, v) ∷ d)
      → ((j ≡ k) × (w ≡ v)) ⊎ In (j, w) d
  head_cases j k w v d (here q) = inl (ap (λ x. x.0) (sym q), ap (λ x. x.1) (sym q))
  head_cases j k w v d (there i) = inr i

  In-set :
      (j k : K) (w v : List V) (d : List (K × List V))
      → In (j, w) (set e k v d)
      → ((j ≡ k) × (w ≡ v)) ⊎ In (j, w) d
  unfolding set
  In-set j k w v [] i = head_cases j k w v [] i
  In-set j k w v ((m, u) ∷ d) i = elim (Bool-cases (e.same m k)) [
    | inl s ↦
        let at : In (j, w) ((m, v) ∷ d) = subst (In (j, w)) (if_true (e.same m k) _ _ s) i in
        elim (head_cases j m w v d at) [
          | inl (a, b) ↦ inl (a ∙ (e.same_iff m k).0 s, b)
          | inr i' ↦ inr (there i')
        ]
    | inr s ↦
        let at : In (j, w) ((m, u) ∷ set e k v d) =
          subst (In (j, w)) (if_false (e.same m k) _ _ s) i in
        elim (head_cases j m w u (set e k v d) at) [
          | inl (a, b) ↦ inr (here (ap₂ (λ x y. (x, y)) (sym a) (sym b)))
          | inr i' ↦ elim (In-set j k w v d i') [ inl q ↦ inl q | inr i'' ↦ inr (there i'') ]
        ]
  ]

  -- A value at the end.
  snoc_cases : (x v : V) (vs : List V) → In x (vs ++ v ∷ []) → In x vs ⊎ (x ≡ v)
  snoc_cases x v [] (here q) = inr (sym q)
  snoc_cases x v [] (there i) = inl i
  snoc_cases x v (y ∷ vs) (here q) = inl (here q)
  snoc_cases x v (y ∷ vs) (there i) = elim (snoc_cases x v vs i) [
    | inl i' ↦ inl (there i')
    | inr q ↦ inr q
  ]

  append_to-From :
      (P : K → V → Type 0) (k : K) (v : V) (d : List (K × List V))
      → P k v
      → From P d
      → From P (append_to k v d)
  unfolding append_to
  append_to-From P k v d p f j vs i x x_in = elim (In-set j k vs _ d i) [
    | inr old ↦ f j vs old x x_in
    | inl (a, b) ↦
        subst (λ m. P m x) (sym a)
          (elim (snoc_cases x v (found (get e k d)) (subst (In x) b x_in)) [
            | inl before ↦ before_From x (get e k d) refl before
            | inr q ↦ subst (P k) (sym q) p
          ])
  ]
    where
      before_From : (x : V) (o : Option (List V)) → get e k d ≡ o → In x (found o) → P k x
      before_From x none q i = absurd (nothing_in i)
      before_From x (some vs) q i = f k vs (get-In e k vs d q) x i

  gather_into-From :
      (P : K → V → Type 0) (entries : List (K × V)) (d : List (K × List V))
      → All (λ (k, v). P k v) entries
      → From P d
      → From P (gather_into entries d)
  unfolding gather_into
  gather_into-From P [] d h f = f
  gather_into-From P ((k, v) ∷ entries) d (p, h) f =
      gather_into-From P entries (append_to k v d) h (append_to-From P k v d p f)

  -- A value is among those of its key.
  abbrev pub Holds : K → V → List (K × List V) → Type κ
  Holds k v d = (vs : List V) × (get e k d ≡ some vs) × In v vs

  append_to-Holds : (k : K) (v : V) (d : List (K × List V)) → Holds k v (append_to k v d)
  unfolding append_to
  append_to-Holds k v d = (
    found (get e k d) ++ v ∷ [],
    get-set e k k _ d ∙ if_true (e.same k k) _ _ (same_refl e k),
    In-append_right v (found (get e k d)) (v ∷ []) (here refl),
  )

  append_to-keeps :
      (k j : K) (v w : V) (d : List (K × List V)) → Holds j w d → Holds j w (append_to k v d)
  unfolding append_to
  append_to-keeps k j v w d (vs, q, i) = elim (Bool-cases (e.same k j)) [
    | inl s ↦
        let same : k ≡ j = (e.same_iff k j).0 s in
        (
          found (get e k d) ++ v ∷ [],
          get-set e k j _ d ∙ if_true (e.same k j) _ _ s,
          In-append_left w (v ∷ [])
              (subst (λ o. In w (found o)) (sym (ap (λ m. get e m d) same ∙ q)) i),
        )
    | inr s ↦ (vs, get-set e k j _ d ∙ if_false (e.same k j) _ _ s ∙ q, i)
  ]

  gather_into-Holds :
      (entries : List (K × V)) (d : List (K × List V)) (k : K) (v : V)
      → In (k, v) entries ⊎ Holds k v d
      → Holds k v (gather_into entries d)
  unfolding gather_into
  gather_into-Holds [] d k v (inl i) = absurd (nothing_in i)
  gather_into-Holds [] d k v (inr h) = h
  gather_into-Holds ((j, w) ∷ entries) d k v (inl (here q)) =
      gather_into-Holds entries (append_to j w d) k v
        (inr (subst (λ (m, x). Holds m x (append_to j w d)) q (append_to-Holds j w d)))
  gather_into-Holds ((j, w) ∷ entries) d k v (inl (there i)) =
      gather_into-Holds entries (append_to j w d) k v (inl i)
  gather_into-Holds ((j, w) ∷ entries) d k v (inr h) =
      gather_into-Holds entries (append_to j w d) k v (inr (append_to-keeps j k w v d h))

  unfoldable pub gather : List (K × V) → List (K × List V)
  unfolding gather_into
  gather entries = gather_into entries []

  -- What is collected under a key came with that key.
  pub gather-From :
      (P : K → V → Type 0) (entries : List (K × V))
      → All (λ (k, v). P k v) entries
      → From P (gather entries)
  unfolding gather
  gather-From P entries h = gather_into-From P entries [] h (λ k vs i v j. absurd (nothing_in i))

  -- What came with a key is collected under it.
  pub gather-Holds :
      (entries : List (K × V)) (k : K) (v : V) → In (k, v) entries → Holds k v (gather entries)
  unfolding gather
  gather-Holds entries k v i = gather_into-Holds entries [] k v (inl i)

  -- No key twice.
  abbrev IsDistinct : List (K × List V) → Type κ
  IsDistinct [] = Unit
  IsDistinct ((k, vs) ∷ d) = (get e k d ≡ none) × IsDistinct d

  set-IsDistinct :
      (k : K) (vs : List V) (d : List (K × List V)) → IsDistinct d → IsDistinct (set e k vs d)
  unfolding set get
  set-IsDistinct k vs [] h = (refl, tt)
  set-IsDistinct k vs ((m, u) ∷ d) (h, later) = elim (Bool-cases (e.same m k)) [
    | inl s ↦ subst IsDistinct (sym (if_true (e.same m k) _ _ s)) (h, later)
    | inr s ↦
        subst IsDistinct (sym (if_false (e.same m k) _ _ s)) (
          get-set e k m vs d ∙ if_false (e.same k m) _ _ (apart s) ∙ h,
          set-IsDistinct k vs d later,
        )
  ]
    where
      apart : e.same m k ≡ false → e.same k m ≡ false
      apart s = elim (Bool-cases (e.same k m)) [
        | inl t ↦ absurd (false≢true (sym s ∙ (e.same_iff m k).1 (sym ((e.same_iff k m).0 t))))
        | inr t ↦ t
      ]

  get_entry :
      (k : K) (vs : List V) (d : List (K × List V))
      → IsDistinct d
      → In (k, vs) d
      → get e k d ≡ some vs
  unfolding get
  get_entry k vs [] h i = absurd (nothing_in i)
  get_entry k vs ((m, u) ∷ d) (h, later) i = elim (head_cases k m vs u d i) [
    | inl (a, b) ↦
        if_true (e.same m k) (some u) (get e k d) ((e.same_iff m k).1 (sym a)) ∙ ap some (sym b)
    | inr i' ↦
        let old = get_entry k vs d later i' in
        elim (Bool-cases (e.same m k)) [
          | inl s ↦
              let same : m ≡ k = (e.same_iff m k).0 s in
              let clash : none ≡ some vs = sym h ∙ ap (λ n. get e n d) same ∙ old in absurd (cc)
          | inr s ↦ if_false (e.same m k) (some u) (get e k d) s ∙ old
        ]
  ]

  gather_into-IsDistinct :
      (entries : List (K × V)) (d : List (K × List V))
      → IsDistinct d
      → IsDistinct (gather_into entries d)
  unfolding gather_into append_to
  gather_into-IsDistinct [] d h = h
  gather_into-IsDistinct ((k, v) ∷ entries) d h =
      gather_into-IsDistinct entries (append_to k v d)
        (set-IsDistinct k (found (get e k d) ++ v ∷ []) d h)

  -- An entry is what its key finds.
  pub gather_entry :
      (entries : List (K × V)) (k : K) (vs : List V)
      → In (k, vs) (gather entries)
      → get e k (gather entries) ≡ some vs
  unfolding gather
  gather_entry entries k vs i =
      get_entry k vs (gather entries) (gather_into-IsDistinct entries [] tt) i
