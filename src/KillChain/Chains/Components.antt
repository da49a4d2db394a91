-- ===== src/KillChain/Chains/Components.antt =====
-- The chains of `build_chains` in `app/killchain.py` are whole components of the linked alerts.
use siem_lite.Prelude.{
  ℕ, ◌≤◌, leb, leb→le, le→leb, ◌≡◌, ◌↔◌, refl, sym, ap, ◌∙◌, subst, Bool, true, false, List, [],
  ◌∷◌, Option, some, inl, inr, Bool-cases, nothing_in, cons_cases, All, All-each, In, here, there,
  if◌then◌else◌, if_true, if_false, some_eq,
}
use siem_lite.Prelude.Dict.{get, get-In}
use siem_lite.Prelude.Sort.{sorted, In-sorted, sorted-In}
use siem_lite.KillChain.DisjointSet.{number, Parents, add_all, unions}
use siem_lite.KillChain.DisjointSet.Forest.{IsForest, HasKey, find-Kept}
use siem_lite.KillChain.DisjointSet.Runs.{Connected, Grouped, run-Linked}
use siem_lite.KillChain.Gather.{gather, gather-From, gather-Holds, gather_entry}
use siem_lite.KillChain.Chains.{
  Alert, Item, entity, with_ids, keys_of, times_into, time_at, entity_entries, all_pairs, find_each,
  build_groups, tactic_count, kept_groups, before, build_chains,
}
use siem_lite.KillChain.Chains.Pairs.{Close, pairs-Connected, pairs-Close}

-- The times of the alerts, by id.
abbrev pub time_of : List Item → ℕ → ℕ
time_of items = time_at (times_into items [])

-- Two ids that a sequence of alerts links, each sharing an actor with the next within the gap.
abbrev pub Together : ℕ → List Item → ℕ → ℕ → Type 0
Together gap items = Connected (Close gap (time_of items) items)

-- A group holds, with an alert, exactly the alerts that are linked to it.
abbrev pub IsComponent : ℕ → List Item → List Item → Type 0
IsComponent gap items group =
    (a : Item)
    → In a group
    → In a items × ((b : Item) → In b items → In b group ↔ Together gap items a.key b.key)

labelled : (ℕ → ℕ) → List Item → List (ℕ × Item)
labelled root [] = []
labelled root (it ∷ items) = (root it.key, it) ∷ labelled root items

labelled-In :
    (root : ℕ → ℕ) (items : List Item) (it : Item)
    → In it items
    → In (root it.key, it) (labelled root items)
unfolding labelled
labelled-In root [] it k = absurd (nothing_in k)
labelled-In root (x ∷ items) it (here q) = here (ap (λ y. (root y.key, y)) q)
labelled-In root (x ∷ items) it (there k) = there (labelled-In root items it k)

labelled-All :
    (root : ℕ → ℕ) (items rest : List Item)
    → ((it : Item) → In it rest → In it items)
    → All (λ (r, it). (root it.key ≡ r) × In it items) (labelled root rest)
unfolding labelled
labelled-All root items [] h = tt
labelled-All root items (it ∷ rest) h =
    ((refl, h it (here refl)), labelled-All root items rest (λ it' k. h it' (there k)))

find_each-labelled :
    (p : Parents) (root rank : ℕ → ℕ) (items : List Item)
    → IsForest p root rank
    → ((z : ℕ) → In z (keys_of items) → HasKey p z)
    → find_each p items ≡ some (labelled root items)
unfolding find_each labelled
find_each-labelled p root rank [] f h = refl
find_each-labelled p root rank (it ∷ items) f h =
    let (p', e, (f', keys)) = find-Kept root rank p it.key f (h it.key (here refl)) in
    let rest = find_each-labelled p' root rank items f' (λ z k. keys z (h z (there k))) in
    rw (e, rest) refl

-- The groups, before those of too few tactics are left out.
pub record Groups (gap : ℕ) (items : List Item) (result : Option (List (ℕ × List Item)))
    : Type 0 where
  pub groups : List (ℕ × List Item)
  pub given : result ≡ some groups
  pub component : (r : ℕ) (group : List Item) → In (r, group) groups → IsComponent gap items group
  pub covered :
      (a : Item) → In a items → (r : ℕ) × (group : List Item) × In (r, group) groups × In a group

keys_of-In : (items : List Item) (it : Item) → In it items → In it.key (keys_of items)
keys_of-In [] it k = absurd (nothing_in k)
keys_of-In (x ∷ items) it (here q) = here (ap (λ y. y.key) q)
keys_of-In (x ∷ items) it (there k) = there (keys_of-In items it k)

build_groups-Groups : (gap : ℕ) (items : List Item) → Groups gap items (build_groups gap items)
unfolding build_groups
build_groups-Groups gap items = record {
  groups = gather number entries;
  given = rw (run.given, each) refl;
  component = component;
  covered = covered;
}
  where
    time : ℕ → ℕ
    time = time_of items

    pairs : List (ℕ × ℕ)
    pairs = all_pairs gap time (gather entity (entity_entries items))

    Neighbours : ℕ → ℕ → Type 0
    Neighbours x y = In (x, y) pairs

    of_keys :
        (p : ℕ × ℕ)
        → In p pairs
        → Neighbours p.0 p.1 × In p.0 (keys_of items) × In p.1 (keys_of items)
    of_keys (x, y) k =
        let c = pairs-Close gap time items x y k in
        (
          k,
          subst (λ z. In z (keys_of items)) c.first_key (keys_of-In items c.first c.first_in),
          subst (λ z. In z (keys_of items)) c.second_key (keys_of-In items c.second c.second_in),
        )

    run : Grouped Neighbours (keys_of items) (unions pairs (add_all (keys_of items) []))
    run =
        run-Linked Neighbours (keys_of items) pairs
          (All-each (λ (x, y). Neighbours x y × In x (keys_of items) × In y (keys_of items)) pairs
            of_keys)
          (λ a b k. k)

    entries : List (ℕ × Item)
    entries = labelled run.root items

    each : find_each run.table items ≡ some entries
    each = find_each-labelled run.table run.root run.rank items run.forest run.keys

    component :
        (r : ℕ) (group : List Item)
        → In (r, group) (gather number entries)
        → IsComponent gap items group
    component r group k a l = (
      (owns a l).1,
      λ b m. (
        (λ n.
            (pairs-Connected gap time items a.key b.key).0
              ((run.exact a.key b.key).0 ((owns a l).0 ∙ sym (owns b n).0))),
        (λ c.
            let same =
              (run.exact a.key b.key).1 ((pairs-Connected gap time items a.key b.key).1 c) in
            let (vs, g, n) =
              gather-Holds number entries (run.root b.key) b (labelled-In run.root items b m) in
            let here_too : get number (run.root b.key) (gather number entries) ≡ some group =
              ap (λ z. get number z (gather number entries)) (sym same ∙ (owns a l).0)
              ∙ gather_entry number entries r group k in
            subst (In b) (some_eq (sym g ∙ here_too)) n),
      ),
    )
      where
        owns : (b : Item) → In b group → (run.root b.key ≡ r) × In b items
        owns b n =
            gather-From number (λ z it. (run.root it.key ≡ z) × In it items) entries
              (labelled-All run.root items items (λ it i. i)) r group k b n

    covered :
        (a : Item)
        → In a items
        → (r : ℕ) × (group : List Item) × In (r, group) (gather number entries) × In a group
    covered a k =
        let (group, g, l) =
          gather-Holds number entries (run.root a.key) a (labelled-In run.root items a k) in
        (run.root a.key, group, get-In number (run.root a.key) group (gather number entries) g, l)

-- The groups that are kept.
kept_groups-In :
    (min_tactics : ℕ) (groups : List (ℕ × List Item)) (chain : List Item)
    → In chain (kept_groups min_tactics groups)
    → (r : ℕ) × In (r, chain) groups × (min_tactics ≤ tactic_count chain)
kept_groups-In min_tactics [] chain k = absurd (nothing_in k)
kept_groups-In min_tactics ((r, group) ∷ groups) chain k =
    elim (Bool-cases (leb min_tactics (tactic_count group))) [
      | inl e ↦
          elim (cons_cases chain group (kept_groups min_tactics groups)
            (subst (In chain) (if_true (leb min_tactics (tactic_count group)) _ _ e) k)) [
              | inl q ↦ (
                r,
                here (ap (λ g. (r, g)) q),
                subst (λ g. min_tactics ≤ tactic_count g) q
                    (leb→le min_tactics (tactic_count group) e),
              )
              | inr k' ↦ later (kept_groups-In min_tactics groups chain k')
            ]
      | inr e ↦ later (
          kept_groups-In min_tactics groups chain
            (subst (In chain) (if_false (leb min_tactics (tactic_count group)) _ _ e) k))
    ]
  where
    later :
        (r' : ℕ) × In (r', chain) groups × (min_tactics ≤ tactic_count chain)
        → (r' : ℕ) × In (r', chain) ((r, group) ∷ groups) × (min_tactics ≤ tactic_count chain)
    later (r', i, h) = (r', there i, h)

In-kept_groups :
    (min_tactics : ℕ) (groups : List (ℕ × List Item)) (r : ℕ) (chain : List Item)
    → In (r, chain) groups
    → min_tactics ≤ tactic_count chain
    → In chain (kept_groups min_tactics groups)
In-kept_groups min_tactics [] r chain k h = absurd (nothing_in k)
In-kept_groups min_tactics ((r', group) ∷ groups) r chain (here q) h =
    let same : group ≡ chain = ap (λ x. x.1) q in
    subst (In chain)
      (sym (
        if_true (leb min_tactics (tactic_count group)) _ _ (
          ap (λ g. leb min_tactics (tactic_count g)) same
          ∙ le→leb min_tactics (tactic_count chain) h)))
      (here same)
In-kept_groups min_tactics ((r', group) ∷ groups) r chain (there k) h =
    either (leb min_tactics (tactic_count group)) (In-kept_groups min_tactics groups r chain k h)
  where
    either :
        (b : Bool)
        → In chain (kept_groups min_tactics groups)
        → In chain
            (if b then group ∷ kept_groups min_tactics groups else kept_groups min_tactics groups)
    either true i = there i
    either false i = i

-- What the chains of some alerts are.
pub record Chains (gap min_tactics : ℕ) (items : List Item) (result : Option (List (List Item)))
    : Type 0 where
  pub chains : List (List Item)
  pub given : result ≡ some chains
  pub whole :
      (chain : List Item)
      → In chain chains
      → IsComponent gap items chain × (min_tactics ≤ tactic_count chain)
  pub covered :
      (a : Item)
      → In a items
      → (group : List Item) × In a group
        × IsComponent gap items group
        × (min_tactics ≤ tactic_count group → In group chains)

-- build_chains gives chains for all alerts: each holds, with an alert, exactly the alerts that a
-- sequence of shared actors within the gap links to it, and has enough tactics; and each alert is in
-- such a group, which is a chain if it has enough tactics.
pub build_chains-Chains :
    (gap min_tactics : ℕ) (alerts : List Alert)
    → Chains gap min_tactics (with_ids alerts) (build_chains gap min_tactics alerts)
unfolding build_chains
build_chains-Chains gap min_tactics alerts = record {
  chains = sorted (before (time_of items)) (kept_groups min_tactics g.groups);
  given = rw g.given refl;
  whole = whole;
  covered = covered;
}
  where
    items : List Item
    items = with_ids alerts

    g : Groups gap items (build_groups gap items)
    g = build_groups-Groups gap items

    chains' : List (List Item)
    chains' = sorted (before (time_of items)) (kept_groups min_tactics g.groups)

    whole :
        (chain : List Item)
        → In chain chains'
        → IsComponent gap items chain × (min_tactics ≤ tactic_count chain)
    whole chain k =
        let (r, i, h) =
          kept_groups-In min_tactics g.groups chain
            (In-sorted (before (time_of items)) chain (kept_groups min_tactics g.groups) k) in
        (g.component r chain i, h)

    covered :
        (a : Item)
        → In a items
        → (group : List Item) × In a group
          × IsComponent gap items group
          × (min_tactics ≤ tactic_count group → In group chains')
    covered a k =
        let (r, group, i, l) = g.covered a k in
        (
          group,
          l,
          g.component r group i,
          λ h.
              sorted-In (before (time_of items)) group (kept_groups min_tactics g.groups)
                (In-kept_groups min_tactics g.groups r group i h),
        )
