-- ===== src/IngestActions/Index.antt =====
-- `ActionIndex` of `app/ingest_actions.py`: the rules in order, and the counters of each.
pub mod Counts
use siem_lite.Prelude.{
  ℕ, ◌+◌, ltb, Bool, true, false, List, [], ◌∷◌, Option, none, some, length, if◌then◌else◌,
}
use siem_lite.Prelude.Dict
use siem_lite.Prelude.Sort.{text_le, sorted}
use siem_lite.Text.Chars.{Text, codes, text as by_text, text_eq}
use siem_lite.Value.Event.{NormalizedEvent}
use siem_lite.Detection.Flatten.{Flat}
use siem_lite.Detection.Rule.{Rule}
use siem_lite.IngestActions.{IngestAction}
use siem_lite.IngestActions.Decide.{Decision, kept, decide}

-- `self.counts`
abbrev pub Row : Type 0
Row = List (Text × ℕ)

abbrev pub Counts : Type 0
Counts = List (Text × Row)

pub record ActionIndex (Regex : Type 0) : Type 0 where
  pub actions : List (IngestAction Regex)
  pub load_errors : List Text
  pub counts : Counts

-- The order of `sort_key`
unfoldable pub key_le : {Regex : Type 0} → IngestAction Regex → IngestAction Regex → Bool
unfolding text_eq text_le
key_le a b =
    if ltb a.order b.order
    then true
    else if ltb b.order a.order
    then false
    else if text_eq a.source b.source
    then text_le a.id b.id
    else text_le a.source b.source

-- `ActionIndex.__init__`
unfoldable pub new_index :
    {Regex : Type 0} → List (IngestAction Regex) → List Text → ActionIndex Regex
unfolding key_le sorted
new_index actions load_errors = record {
  actions = sorted key_le actions;
  load_errors = load_errors;
  counts = [];
}

-- `_COUNTERS`, each at 0
abbrev pub new_row : Row
new_row =
    (codes "matched", 0) ∷ (codes "dropped", 0) ∷ (codes "changed", 0) ∷ (codes "errors", 0) ∷ []

abbrev pub or_zero : Option ℕ → ℕ
or_zero none = 0
or_zero (some n) = n

abbrev pub or_new : Option Row → Row
or_new none = new_row
or_new (some row) = row

-- `row[name] = row.get(name, 0) + 1`
abbrev pub raise_count : Text → Row → Row
raise_count name row = Dict.set by_text name (or_zero (Dict.get by_text name row) + 1) row

-- `_bump`
unfoldable pub bump : Text → Text → Counts → Counts
unfolding Dict.get Dict.set
bump name id counts =
    Dict.set by_text id (raise_count name (or_new (Dict.get by_text id counts))) counts

-- `for rid in ids: self._bump(rid, name)`
unfoldable pub bump_all : Text → List Text → Counts → Counts
unfolding bump
bump_all name [] counts = counts
bump_all name (id ∷ ids) counts = bump_all name ids (bump name id counts)

-- `d.applied[-1]`, where there is one
unfoldable pub last_of : List Text → Option Text
last_of [] = none
last_of (t ∷ []) = some t
last_of (t ∷ u ∷ ts) = last_of (u ∷ ts)

abbrev pub bump_changed : Option Text → Counts → Counts
bump_changed none counts = counts
bump_changed (some id) counts = bump (codes "changed") id counts

-- What `apply` counts of a decision.
unfoldable pub count_decision : Decision → Counts → Counts
unfolding bump_all last_of
count_decision d counts =
    let counted =
      bump_all (codes "errors") d.errors (bump_all (codes "matched") d.applied counts) in
    elim d.dropped [
      | true ↦ bump (codes "dropped") d.rule_id counted
      | false ↦ bump_changed (last_of d.applied) counted
    ]

-- The sum of a counter over the rules.
unfoldable pub total : Text → Counts → ℕ
unfolding Dict.get
total name [] = 0
total name ((id, row) ∷ counts) = or_zero (Dict.get by_text name row) + total name counts

pub record Summary : Type 0 where
  pub rules : ℕ
  pub enabled : ℕ
  pub load_errors : List Text
  pub dropped : ℕ
  pub changed : ℕ
  pub errors : ℕ
  pub by_rule : Counts

enabled_count : {Regex : Type 0} → List (IngestAction Regex) → ℕ
enabled_count [] = 0
enabled_count (a ∷ actions) = if a.enabled then 1 + enabled_count actions else enabled_count actions

-- `summary`
unfoldable pub summary : {Regex : Type 0} → ActionIndex Regex → Summary
unfolding total enabled_count
summary ix = record {
  rules = length ix.actions;
  enabled = enabled_count ix.actions;
  load_errors = ix.load_errors;
  dropped = total (codes "dropped") ix.counts;
  changed = total (codes "changed") ix.counts;
  errors = total (codes "errors") ix.counts;
  by_rule = ix.counts;
}

module _ {Regex : Type 0} {S : Type 0} (sub : Regex → Text → Text → Option Text)
    (sha256 : Text → Text) (identity : NormalizedEvent → ℕ)
    (matches : Rule → Flat → NormalizedEvent → S → Option Bool × S) where
  abbrev counted_in :
      ActionIndex Regex
      → Decision × NormalizedEvent × S
      → Decision × NormalizedEvent × S × ActionIndex Regex
  counted_in ix (d, e, st) = (d, e, st, record ix { counts = count_decision d ix.counts })

  -- `ActionIndex.apply`; an index without rules keeps the event
  unfoldable pub apply :
      ActionIndex Regex → NormalizedEvent → S → Decision × NormalizedEvent × S × ActionIndex Regex
  unfolding decide count_decision
  apply ix e st = elim ix.actions [
    | [] ↦ (kept [] [], e, st, ix)
    | a ∷ actions ↦ counted_in ix (decide sub sha256 identity matches (a ∷ actions) e st)
  ]
