-- ===== src/KillChain/Tests.antt =====
-- The chains of `app/killchain.py` on samples.
use siem_lite.Prelude.{ℕ, ◌≡◌, refl, List, [], ◌∷◌, Option, none, some, In, here, there, ◌≤◌, ◌↔◌}
use siem_lite.Text.Chars.{Text, codes, text_eq}
use siem_lite.KillChain.Tactics.{normalize_tactic}
use siem_lite.KillChain.DisjointSet.{add_all, unions}
use siem_lite.KillChain.DisjointSet.Runs.{Grouped, unions-Grouped}
use siem_lite.KillChain.Chains.{Alert, Item, with_ids, build_chains, keys_of}
use siem_lite.KillChain.Pivots.{all_entities, pivot_entities}
use siem_lite.KillChain.Pivots.Shared.{occurrences, pivot_entities-In}
use siem_lite.KillChain.Chains.Components.{Chains, build_chains-Chains}

-- `test_normalize_tactic_variants`
normalized_tag : normalize_tactic (codes "attack.defense_evasion") ≡ codes "defense-evasion"
unfolding normalize_tactic
normalized_tag = refl

abbrev alert : ℕ → ℕ → Text → Text → Alert
alert i t tactic user = record {
  id = some i;
  event_time = some t;
  created_at = none;
  tactics = tactic ∷ [];
  user_name = some user;
  host_name = none;
  src_ip = none;
}

-- An intrusion of one user, and an alert of another.
abbrev intrusion : List Alert
intrusion =
    alert 1 1000 (codes "initial access") (codes "bob")
    ∷ alert 2 9000 (codes "execution") (codes "bob")
    ∷ alert 3 2000 (codes "discovery") (codes "eve")
    ∷ alert 4 4000 (codes "exfiltration") (codes "bob")
    ∷ alert 5 6000 (codes "impact") (codes "bob")
    ∷ []

abbrev chain_keys : Option (List (List Item)) → List (List ℕ)
chain_keys none = []
chain_keys (some []) = []
chain_keys (some (c ∷ cs)) = keys_of c ∷ chain_keys (some cs)

-- The alerts of one user, an hour apart at most from one to the next.
one_chain : chain_keys (build_chains 3600 2 intrusion) ≡ (1 ∷ 2 ∷ 4 ∷ 5 ∷ []) ∷ []
unfolding build_chains
one_chain = refl

build_chains-Chains_example : Chains 3600 2 (with_ids intrusion) (build_chains 3600 2 intrusion)
build_chains-Chains_example = build_chains-Chains 3600 2 intrusion

abbrev ids : List ℕ
ids = 1 ∷ 2 ∷ 3 ∷ []

unions-Grouped_example :
    Grouped
      (λ a b. In {A = ℕ × ℕ} (a, b) ((1, 2) ∷ (2, 1) ∷ []))
      ids
      (unions ((1, 2) ∷ (2, 1) ∷ []) (add_all ids []))
unions-Grouped_example =
    unions-Grouped ids ((1, 2) ∷ (2, 1) ∷ [])
      ((here refl, there (here refl)), ((there (here refl), here refl), tt))

-- The user of four alerts is the pivot of the intrusion.
pivots_found : pivot_entities intrusion ≡ ((codes "user", codes "bob"), 4) ∷ []
unfolding pivot_entities text_eq
pivots_found = refl

pivot_entities-In_example :
    In {A = (Text × Text) × ℕ} ((codes "user", codes "bob"), 4) (pivot_entities intrusion)
    ↔ ((4 ≡ occurrences (codes "user", codes "bob") (all_entities intrusion)) × (2 ≤ 4))
pivot_entities-In_example = pivot_entities-In intrusion (codes "user", codes "bob") 4
