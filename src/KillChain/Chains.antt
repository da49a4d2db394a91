-- ===== src/KillChain/Chains.antt =====
-- `build_chains` of `app/killchain.py`. The actors of an alert are a set in the code; here they come in
-- the order of `_ENTITY_FIELDS`. Times count from the epoch on.
pub mod Pairs
pub mod Components
use siem_lite.Prelude.{
  ℕ, zero, suc, ◌+◌, ◌-◌, ◌==◌, leb, ltb, min, ◌≡◌, refl, ap, ap₂, ◌↔◌, Bool, true, false, ◌&&◌,
  ◌||◌, &&-eq-true, List, [], ◌∷◌, ◌++◌, Option, none, some, if◌then◌else◌, length,
}
use siem_lite.Prelude.Dict.{Eq, get, set}
use siem_lite.Prelude.Sort.{sorted}
use siem_lite.Text.Chars.{Text, codes, text_eq, text_eq_iff, text_eq_refl}
use siem_lite.KillChain.Tactics.{alert_tactics, distinct}
use siem_lite.KillChain.DisjointSet.{number, Parents, ◌>>=◌, add_all, unions, find}
use siem_lite.KillChain.Gather.{gather}

-- An alert's fields that `build_chains` reads; a time is `_epoch` of the field's value.
pub record Alert : Type 0 where
  pub id : Option ℕ
  pub event_time : Option ℕ
  pub created_at : Option ℕ
  pub tactics : List Text
  pub user_name : Option Text
  pub host_name : Option Text
  pub src_ip : Option Text

-- `alert_time`; the time 0 counts as none
abbrev pub alert_time : Alert → Option ℕ
alert_time a = elim a.event_time [
  | none ↦ a.created_at
  | some zero ↦ a.created_at
  | some (suc n) ↦ some (suc n)
]

-- The type and the value of an actor.
abbrev pub Entity : Type 0
Entity = Text × Text

abbrev pub same_entity : Entity → Entity → Bool
same_entity (a, b) (c, d) = text_eq a c && text_eq b d

pub same_entity_iff : (x y : Entity) → (same_entity x y ≡ true) ↔ (x ≡ y)
same_entity_iff (a, b) (c, d) = (
  (λ h.
      let (p, q) = &&-eq-true (text_eq a c) (text_eq b d) h in
      ap₂ (λ s t. (s, t)) ((text_eq_iff a c).0 p) ((text_eq_iff b d).0 q)),
  (λ h.
      ap₂ (λ s t. s && t) ((text_eq_iff a c).1 (ap (λ x. x.0) h))
        ((text_eq_iff b d).1 (ap (λ x. x.1) h))),
)

abbrev pub entity : Eq Entity
entity = record { same = same_entity; same_iff = same_entity_iff }

-- `val not in (None, "")`
abbrev pub actor : Text → Option Text → List Entity
actor kind none = []
actor kind (some []) = []
actor kind (some (c ∷ s)) = (kind, c ∷ s) ∷ []

-- `alert_entities`
abbrev pub alert_entities : Alert → List Entity
alert_entities a =
    actor (codes "user") a.user_name
    ++ actor (codes "host") a.host_name
    ++ actor (codes "ip") a.src_ip

-- An alert that has an id.
pub record Item : Type 0 where
  pub key : ℕ
  pub alert : Alert

abbrev add_item : Option ℕ → Alert → List Item → List Item
add_item none a items = items
add_item (some i) a items = record { key = i; alert = a } ∷ items

-- `items`
unfoldable pub with_ids : List Alert → List Item
with_ids [] = []
with_ids (a ∷ alerts) = add_item a.id a (with_ids alerts)

abbrev pub keys_of : List Item → List ℕ
keys_of [] = []
keys_of (it ∷ items) = it.key ∷ keys_of items

-- `alert_time(a) or 0.0`
abbrev pub seconds : Alert → ℕ
seconds a = elim (alert_time a) [ none ↦ 0 | some t ↦ t ]

-- `ts`
unfoldable pub times_into : List Item → List (ℕ × ℕ) → List (ℕ × ℕ)
unfolding set
times_into [] ts = ts
times_into (it ∷ items) ts = times_into items (set number it.key (seconds it.alert) ts)

-- `ts[i]`, of an id that is there
unfoldable pub time_at : List (ℕ × ℕ) → ℕ → ℕ
unfolding get
time_at ts i = elim (get number i ts) [ none ↦ 0 | some t ↦ t ]

abbrev pub with_id : ℕ → List Entity → List (Entity × ℕ)
with_id i [] = []
with_id i (e ∷ es) = (e, i) ∷ with_id i es

abbrev pub entity_entries : List Item → List (Entity × ℕ)
entity_entries [] = []
entity_entries (it ∷ items) = with_id it.key (alert_entities it.alert) ++ entity_entries items

-- The order of `members.sort(key=lambda i: ts[i])`.
abbrev pub by_time : (ℕ → ℕ) → ℕ → ℕ → Bool
by_time time i j = leb (time i) (time j)

-- The neighbours that fall within the gap.
unfoldable pub close_pairs : ℕ → (ℕ → ℕ) → List ℕ → List (ℕ × ℕ)
close_pairs gap time [] = []
close_pairs gap time (i ∷ []) = []
close_pairs gap time (i ∷ j ∷ members) =
    let rest = close_pairs gap time (j ∷ members) in
    if leb (time j - time i) gap then (i, j) ∷ rest else rest

unfoldable pub all_pairs : ℕ → (ℕ → ℕ) → List (Entity × List ℕ) → List (ℕ × ℕ)
unfolding close_pairs sorted
all_pairs gap time [] = []
all_pairs gap time ((e, members) ∷ entities) =
    close_pairs gap time (sorted (by_time time) members) ++ all_pairs gap time entities

-- `ds.find(a["id"])` for each item
unfoldable pub find_each : Parents → List Item → Option (List (ℕ × Item))
unfolding find
find_each p [] = some []
find_each p (it ∷ items) = do
  (root, p') ← find p it.key
  rest ← find_each p' items
  some ((root, it) ∷ rest)

-- `groups`
unfoldable pub build_groups : ℕ → List Item → Option (List (ℕ × List Item))
unfolding times_into time_at all_pairs add_all unions find_each gather
build_groups gap items =
    let time = time_at (times_into items []) in
    do
      p ←
          unions (all_pairs gap time (gather entity (entity_entries items)))
            (add_all (keys_of items) [])
      entries ← find_each p items
      some (gather number entries)

abbrev pub tactics_of : List Item → List Text
tactics_of [] = []
tactics_of (it ∷ items) = alert_tactics it.alert.tactics ++ tactics_of items

-- `len(tactics)`
unfoldable pub tactic_count : List Item → ℕ
unfolding alert_tactics distinct
tactic_count members = length (distinct (tactics_of members))

abbrev pub kept_groups : ℕ → List (ℕ × List Item) → List (List Item)
kept_groups min_tactics [] = []
kept_groups min_tactics ((root, members) ∷ groups) =
    let rest = kept_groups min_tactics groups in
    if leb min_tactics (tactic_count members) then members ∷ rest else rest

-- `min(ts[a["id"]] for a in c)`
abbrev pub earliest : (ℕ → ℕ) → List Item → ℕ
earliest time [] = 0
earliest time (it ∷ []) = time it.key
earliest time (it ∷ next ∷ items) = min (time it.key) (earliest time (next ∷ items))

-- The order by descending member count, then earliest activity.
abbrev pub before : (ℕ → ℕ) → List Item → List Item → Bool
before time c d =
    ltb (length d) (length c) || (length c == length d && leb (earliest time c) (earliest time d))

-- `build_chains`
unfoldable pub build_chains : ℕ → ℕ → List Alert → Option (List (List Item))
unfolding with_ids build_groups tactic_count sorted times_into time_at
build_chains gap min_tactics alerts =
    let items = with_ids alerts in
    do
      groups ← build_groups gap items
      some (sorted (before (time_at (times_into items []))) (kept_groups min_tactics groups))
