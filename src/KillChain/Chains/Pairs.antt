-- ===== src/KillChain/Chains/Pairs.antt =====
-- The neighbours that `build_chains` of `app/killchain.py` joins connect exactly the ids that share an
-- actor within the gap.
use siem_lite.Prelude.{
  ℕ, ◌+◌, ◌-◌, ◌≤◌, leb, leb→le, le→leb, ◌≡◌, ◌↔◌, refl, sym, ap, ap₂, ◌∙◌, subst, Bool, true,
  false, List, [], ◌∷◌, ◌⊎◌, inl, inr, nothing_in, cons_cases, append_cases, some_eq, All, All-In,
  All-append, In, here, there, In-append_left, In-append_right, if◌then◌else◌, if_true, arith,
}
use siem_lite.Prelude.Dict.{get-In}
use siem_lite.Prelude.Sort.{sorted, IsSorted, sorted-IsSorted, In-sorted, sorted-In}
use siem_lite.KillChain.DisjointSet.Runs.{Connected, itself, linked, back, chained, Connected-map}
use siem_lite.KillChain.Gather.{gather, From, gather-From, gather-Holds}
use siem_lite.KillChain.Chains.{
  Entity, entity, alert_entities, Item, with_id, entity_entries, by_time, close_pairs, all_pairs,
}

-- At most the gap apart.
abbrev pub Within : ℕ → (ℕ → ℕ) → ℕ → ℕ → Type 0
Within gap time i j = (time j - time i) + (time i - time j) ≤ gap

Paired : ℕ → (ℕ → ℕ) → List ℕ → ℕ → ℕ → Type 0
Paired gap time ms i j = In (i, j) (close_pairs gap time ms)

module _ (gap : ℕ) (time : ℕ → ℕ) where
  pair_cases :
      (i j : ℕ) (b : Bool) (pairs : List (ℕ × ℕ)) (x y : ℕ)
      → In (x, y) (if b then (i, j) ∷ pairs else pairs)
      → ((b ≡ true) × (x ≡ i) × (y ≡ j)) ⊎ In (x, y) pairs
  pair_cases i j true pairs x y (here q) = inl (refl, ap (λ p. p.0) (sym q), ap (λ p. p.1) (sym q))
  pair_cases i j true pairs x y (there k) = inr k
  pair_cases i j false pairs x y k = inr k

  pair_later :
      (i j : ℕ) (b : Bool) (pairs : List (ℕ × ℕ)) (x y : ℕ)
      → In (x, y) pairs
      → In (x, y) (if b then (i, j) ∷ pairs else pairs)
  pair_later i j true pairs x y k = there k
  pair_later i j false pairs x y k = k

  -- A pair of neighbours is of two members, at most the gap apart.
  close_pairs-Within :
      (ms : List ℕ) (x y : ℕ)
      → IsSorted (by_time time) ms
      → In (x, y) (close_pairs gap time ms)
      → In x ms × In y ms × Within gap time x y
  unfolding close_pairs
  close_pairs-Within [] x y s k = absurd (nothing_in k)
  close_pairs-Within (i ∷ []) x y s k = absurd (nothing_in k)
  close_pairs-Within (i ∷ j ∷ ms) x y ((le, _), s) k =
      elim (pair_cases i j (leb (time j - time i) gap) (close_pairs gap time (j ∷ ms)) x y k) [
        | inl (b, p, q) ↦
            let order = leb→le (time i) (time j) le in
            let near = leb→le (time j - time i) gap b in
            (
              here (sym p),
              there (here (sym q)),
              subst (λ (a, c). Within gap time a c) (ap₂ (λ a c. (a, c)) (sym p) (sym q))
                  (omega arith),
            )
        | inr k' ↦ let (m, n, w) = close_pairs-Within (j ∷ ms) x y s k' in (there m, there n, w)
      ]

  abbrev Chain : List ℕ → ℕ → ℕ → Type 0
  Chain ms = Connected (λ i j. In (i, j) (close_pairs gap time ms))

  Chain-later : (i : ℕ) (ms : List ℕ) {x y : ℕ} → Chain ms x y → Chain (i ∷ ms) x y
  unfolding close_pairs
  Chain-later i [] c = Connected-map (λ x y k. absurd (nothing_in k)) c
  Chain-later i (j ∷ ms) c =
      Connected-map
        (λ x y k.
          linked (pair_later i j (leb (time j - time i) gap) (close_pairs gap time (j ∷ ms)) x y k))
        c

  -- The first member is connected to all that are within the gap.
  first-Chain :
      (i j : ℕ) (ms : List ℕ)
      → IsSorted (by_time time) (i ∷ ms)
      → In j ms
      → time j - time i ≤ gap
      → Chain (i ∷ ms) i j
  unfolding close_pairs
  first-Chain i j [] s k h = absurd (nothing_in k)
  first-Chain i j (m ∷ ms) ((le, _), (all, s)) k h =
      let order = leb→le (time i) (time m) le in
      let rest : time m ≤ time j = reach k all in
      let near : leb (time m - time i) gap ≡ true = le→leb (time m - time i) gap (omega arith) in
      let step : Chain (i ∷ m ∷ ms) i m =
        linked
          (subst (In (i, m)) (sym (if_true (leb (time m - time i) gap) _ _ near)) (here refl)) in
      elim (cons_cases j m ms k) [
        | inl q ↦ subst (Chain (i ∷ m ∷ ms) i) q step
        | inr k' ↦
            chained step (Chain-later i (m ∷ ms) (first-Chain m j ms (all, s) k' (omega arith)))
      ]
    where
      reach : In j (m ∷ ms) → All (λ y. by_time time m y ≡ true) ms → time m ≤ time j
      reach (here q) a = omega (arith, ap time q)
      reach (there k') a = leb→le (time m) (time j) (All-In (λ y. by_time time m y ≡ true) k' a)

  -- Members within the gap are connected by neighbours.
  close-Chain :
      (ms : List ℕ) (i j : ℕ)
      → IsSorted (by_time time) ms
      → In i ms
      → In j ms
      → Within gap time i j
      → Chain ms i j
  close-Chain [] i j s k l w = absurd (nothing_in k)
  close-Chain (m ∷ ms) i j s k l w = elim (cons_cases i m ms k) [
    | inl p ↦ elim (cons_cases j m ms l) [
      | inl q ↦ subst (Chain (m ∷ ms) i) (sym p ∙ q) itself
      | inr l' ↦
          subst (λ a. Chain (m ∷ ms) a j) p (first-Chain m j ms s l' (omega (arith, w, ap time p)))
    ]
    | inr k' ↦ elim (cons_cases j m ms l) [
      | inl q ↦ back (
          subst (λ a. Chain (m ∷ ms) a i) q (first-Chain m i ms s k' (omega (arith, w, ap time q))))
      | inr l' ↦ Chain-later m ms (close-Chain ms i j s.1 k' l' w)
    ]
  ]

-- Two ids that share an actor within the gap.
pub record Close (gap : ℕ) (time : ℕ → ℕ) (items : List Item) (i j : ℕ) : Type 0 where
  pub first : Item
  pub second : Item
  pub actor : Entity
  pub first_in : In first items
  pub second_in : In second items
  pub first_key : first.key ≡ i
  pub second_key : second.key ≡ j
  pub first_actor : In actor (alert_entities first.alert)
  pub second_actor : In actor (alert_entities second.alert)
  pub near : Within gap time i j

-- An item of the id has the actor.
abbrev HasActor : List Item → Entity → ℕ → Type 0
HasActor items e i = (it : Item) × In it items × (it.key ≡ i) × In e (alert_entities it.alert)

with_id-HasActor :
    (items : List Item) (it : Item) (es : List Entity)
    → In it items
    → ((e : Entity) → In e es → In e (alert_entities it.alert))
    → All (λ (e, i). HasActor items e i) (with_id it.key es)
with_id-HasActor items it [] k h = tt
with_id-HasActor items it (e ∷ es) k h =
    ((it, k, refl, h e (here refl)), with_id-HasActor items it es k (λ e' l. h e' (there l)))

entries-HasActor :
    (items rest : List Item)
    → ((it : Item) → In it rest → In it items)
    → All (λ (e, i). HasActor items e i) (entity_entries rest)
entries-HasActor items [] h = tt
entries-HasActor items (it ∷ rest) h =
    All-append (λ (e, i). HasActor items e i) (with_id it.key (alert_entities it.alert))
      (entity_entries rest)
      (with_id-HasActor items it (alert_entities it.alert) (h it (here refl)) (λ e k. k))
      (entries-HasActor items rest (λ it' k. h it' (there k)))

with_id-In : (i : ℕ) (e : Entity) (es : List Entity) → In e es → In (e, i) (with_id i es)
with_id-In i e [] k = absurd (nothing_in k)
with_id-In i e (e' ∷ es) (here q) = here (ap (λ x. (x, i)) q)
with_id-In i e (e' ∷ es) (there k) = there (with_id-In i e es k)

entries-In :
    (items : List Item) (it : Item) (e : Entity)
    → In it items
    → In e (alert_entities it.alert)
    → In (e, it.key) (entity_entries items)
entries-In [] it e l k = absurd (nothing_in l)
entries-In (it' ∷ items) it e (here q) k =
    In-append_left (e, it.key) (entity_entries items)
      (subst (λ x. In (e, it.key) (with_id x.key (alert_entities x.alert))) (sym q)
        (with_id-In it.key e (alert_entities it.alert) k))
entries-In (it' ∷ items) it e (there l) k =
    In-append_right (e, it.key) (with_id it'.key (alert_entities it'.alert)) (entity_entries items)
      (entries-In items it e l k)

module _ (gap : ℕ) (time : ℕ → ℕ) where
  -- What the pairs of all the entities are.
  all_pairs-All :
      (P : ℕ → ℕ → Type 0) (d : List (Entity × List ℕ))
      → ((e : Entity) (ms : List ℕ)
          → In (e, ms) d
          → (x y : ℕ) → In (x, y) (close_pairs gap time (sorted (by_time time) ms))
          → P x y)
      → (x y : ℕ) → In (x, y) (all_pairs gap time d)
      → P x y
  unfolding all_pairs
  all_pairs-All P [] h x y k = absurd (nothing_in k)
  all_pairs-All P ((e, ms) ∷ d) h x y k =
      elim (append_cases (x, y) (close_pairs gap time (sorted (by_time time) ms))
        (all_pairs gap time d) k) [
          | inl l ↦ h e ms (here refl) x y l
          | inr r ↦ all_pairs-All P d (λ e' ms' l. h e' ms' (there l)) x y r
        ]

  all_pairs-In :
      (e : Entity) (ms : List ℕ) (d : List (Entity × List ℕ)) (p : ℕ × ℕ)
      → In (e, ms) d
      → In p (close_pairs gap time (sorted (by_time time) ms))
      → In p (all_pairs gap time d)
  unfolding all_pairs
  all_pairs-In e ms [] p l k = absurd (nothing_in l)
  all_pairs-In e ms ((e', ms') ∷ d) p (here q) k =
      In-append_left p (all_pairs gap time d) (
        subst (λ x. In p (close_pairs gap time (sorted (by_time time) x))) (ap (λ x. x.1) (sym q))
          k)
  all_pairs-In e ms ((e', ms') ∷ d) p (there l) k =
      In-append_right p (close_pairs gap time (sorted (by_time time) ms')) (all_pairs gap time d)
        (all_pairs-In e ms d p l k)

  sorted_members : (ms : List ℕ) → IsSorted (by_time time) (sorted (by_time time) ms)
  sorted_members ms =
      sorted-IsSorted (by_time time) (λ a b h. ground arith) (λ a b c h k. ground arith) ms

  -- A pair of neighbours is close.
  pub pairs-Close :
      (items : List Item) (x y : ℕ)
      → In (x, y) (all_pairs gap time (gather entity (entity_entries items)))
      → Close gap time items x y
  pairs-Close items x y k = all_pairs-All (Close gap time items) d close_of x y k
    where
      d : List (Entity × List ℕ)
      d = gather entity (entity_entries items)

      owners : From entity (HasActor items) d
      owners =
          gather-From entity (HasActor items) (entity_entries items)
            (entries-HasActor items items (λ it k. k))

      close_of :
          (e : Entity) (ms : List ℕ)
          → In (e, ms) d
          → (x y : ℕ) → In (x, y) (close_pairs gap time (sorted (by_time time) ms))
          → Close gap time items x y
      close_of e ms k x y l =
          let (a, b, w) =
            close_pairs-Within gap time (sorted (by_time time) ms) x y (sorted_members ms) l in
          let (it, m, p, o) = owners e ms k x (In-sorted (by_time time) x ms a) in
          let (it', m', p', o') = owners e ms k y (In-sorted (by_time time) y ms b) in
          record {
            first = it;
            second = it';
            actor = e;
            first_in = m;
            second_in = m';
            first_key = p;
            second_key = p';
            first_actor = o;
            second_actor = o';
            near = w;
          }

  -- Close ids are connected by neighbours.
  Close-Connected :
      (items : List Item) (x y : ℕ)
      → Close gap time items x y
      → Connected (λ a b. In (a, b) (all_pairs gap time (gather entity (entity_entries items)))) x y
  Close-Connected items x y c =
      let entries = entity_entries items in
      let d = gather entity entries in
      let (ms, g, k) =
        gather-Holds entity entries c.actor c.first.key
          (entries-In items c.first c.actor c.first_in c.first_actor) in
      let (ms', g', k') =
        gather-Holds entity entries c.actor c.second.key
          (entries-In items c.second c.actor c.second_in c.second_actor) in
      let same : ms' ≡ ms = some_eq (sym g' ∙ g) in
      let a = sorted-In (by_time time) x ms (subst (λ z. In z ms) c.first_key k) in
      let b =
        sorted-In (by_time time) y ms
          (subst (λ z. In z ms) c.second_key (subst (In c.second.key) same k')) in
      Connected-map
        (λ u v l. linked (all_pairs-In c.actor ms d (u, v) (get-In entity c.actor ms d g) l))
        (close-Chain gap time (sorted (by_time time) ms) x y (sorted_members ms) a b c.near)

  -- The neighbours connect what the close ids connect.
  pub pairs-Connected :
      (items : List Item) (i j : ℕ)
      → Connected (λ x y. In (x, y) (all_pairs gap time (gather entity (entity_entries items)))) i j
        ↔ Connected (Close gap time items) i j
  pairs-Connected items i j = (
    Connected-map (λ x y k. linked (pairs-Close items x y k)),
    Connected-map (λ x y c. Close-Connected items x y c),
  )
