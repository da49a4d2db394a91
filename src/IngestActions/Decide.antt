-- ===== src/IngestActions/Decide.antt =====
-- `decide`, `sample_keeps` and `_stamp` of `app/ingest_actions.py`. `matches` is `engine.match_rule` with
-- the CIM state that it passes on; none is its exception.
pub mod Fresh
pub mod Drops
use siem_lite.Prelude.{
  ℕ, zero, suc, ◌+◌, ◌%◌, ltb, Bool, true, false, not, List, [], ◌∷◌, ◌++◌, Option, none, some,
  any_of, if◌then◌else◌,
}
use siem_lite.Prelude.Dict
use siem_lite.Text.Chars.{Text, codes, text as by_text, text_eq, join}
use siem_lite.Text.Number.{show_number}
use siem_lite.Value.Defs.{Value, str, list, Fields, entries, elements, items_of}
use siem_lite.Value.Event.{NormalizedEvent}
use siem_lite.Detection.Flatten.{Flat, flatten_event}
use siem_lite.Detection.Rule.{Rule}
use siem_lite.IngestActions.{
  KeyColumn, vendor, column, text, inet, number, SampleSpec, Action, drop, sample, mask, route,
  IngestAction,
}
use siem_lite.IngestActions.Columns.{text_of, inet_of, number_of}
use siem_lite.IngestActions.Raw.{Outcome, put}
use siem_lite.IngestActions.Scrub.{hash_number}
use siem_lite.IngestActions.Mask.{apply_mask, apply_route}

pub record Decision : Type 0 where
  pub dropped : Bool
  pub rule_id : Text
  pub action : Text
  pub applied : List Text
  pub errors : List Text

-- `KEEP`, after these rules
abbrev pub kept : List Text → List Text → Decision
kept applied errors = record {
  dropped = false;
  rule_id = [];
  action = [];
  applied = applied;
  errors = errors;
}

abbrev pub dropped_by : Text → Text → List Text → List Text → Decision
dropped_by id action applied errors = record {
  dropped = true;
  rule_id = id;
  action = action;
  applied = applied;
  errors = errors;
}

abbrev text_or_empty : Option Text → Text
text_or_empty none = []
text_or_empty (some t) = t

abbrev number_or_empty : Option ℕ → Text
number_or_empty none = []
number_or_empty (some zero) = []
number_or_empty (some (suc n)) = show_number (suc n)

-- `str(getattr(evt, k, "") or "")`
unfoldable pub key_text : KeyColumn → NormalizedEvent → Text
unfolding show_number
key_text vendor e = e.vendor
key_text (column (text c)) e = text_or_empty (text_of c e)
key_text (column (inet c)) e = text_or_empty (inet_of c e)
key_text (column (number c)) e = number_or_empty (number_of c e)

key_texts : List KeyColumn → NormalizedEvent → List Text
unfolding key_text
key_texts [] e = []
key_texts (k ∷ ks) e = key_text k e ∷ key_texts ks e

is_mark : Text → Value → Bool
unfolding text_eq
is_mark id (str t) = text_eq t id
is_mark id v = false

abbrev marks_of : Option Value → List Value
marks_of (some (list vs)) = elements vs
marks_of v = []

abbrev with_mark : Text → List Value → List Value
with_mark id marks = if any_of (is_mark id) marks then marks else marks ++ str id ∷ []

-- `_stamp`
unfoldable pub stamped : NormalizedEvent → Text → NormalizedEvent
unfolding is_mark Dict.get entries text_eq elements items_of put
stamped e id =
    let key = codes "_ingest_actions" in
    let marks = marks_of (Dict.get by_text key (entries e.raw)) in
    record e { raw = put key (list (items_of (with_mark id marks))) e.raw }

-- What a rule does to an event: it does not match; it raises, before or after its match is noted;
-- it ends the evaluation; or it leaves an event, changed or not.
pub data Round : Type 0 where
  passed : Round
  raised : Bool → NormalizedEvent → Round
  ended : Text → Round
  went_on : Bool → NormalizedEvent → Round

module _ {Regex : Type 0} {S : Type 0} (sub : Regex → Text → Text → Option Text)
    (sha256 : Text → Text) (identity : NormalizedEvent → ℕ)
    (matches : Rule → Flat → NormalizedEvent → S → Option Bool × S) where
  -- `sample_bucket`; `identity` is `int(dedup_hash(evt)[:16], 16)`
  unfoldable pub sample_bucket : List KeyColumn → NormalizedEvent → ℕ
  unfolding key_texts join hash_number
  sample_bucket [] e = identity e
  sample_bucket (k ∷ ks) e = hash_number sha256 (join (31 ∷ []) (key_texts (k ∷ ks) e)) []

  -- `sample_keeps`; none is the ZeroDivisionError
  unfoldable pub sample_keeps : SampleSpec → NormalizedEvent → Option Bool
  unfolding sample_bucket
  sample_keeps spec e = elim spec.modulus [
    | zero ↦ none
    | suc m ↦ some (ltb (sample_bucket spec.key e % suc m) spec.numerator)
  ]

  abbrev after_sample : Option Bool → NormalizedEvent → Round
  after_sample none e = raised true e
  after_sample (some true) e = went_on false e
  after_sample (some false) e = ended (codes "sample")

  abbrev after_change : IngestAction Regex → Outcome NormalizedEvent → Round
  after_change a (e, none) = raised true e
  after_change a (e, some false) = went_on false e
  after_change a (e, some true) = went_on true (if a.stamp then stamped e a.id else e)

  -- A rule that matches.
  unfoldable pub act : IngestAction Regex → Action Regex → NormalizedEvent → Round
  unfolding sample_keeps apply_mask apply_route stamped
  act a drop e = ended (codes "drop")
  act a (sample spec) e = after_sample (sample_keeps spec e) e
  act a (mask spec) e = after_change a (apply_mask sub sha256 spec e)
  act a (route spec) e = after_change a (apply_route spec e)

  abbrev pub after_match : IngestAction Regex → Option Bool → NormalizedEvent → Round
  after_match a none e = raised false e
  after_match a (some false) e = passed
  after_match a (some true) e = act a a.action e

  abbrev pub noted : Bool → Text → List Text → List Text
  noted true id ids = ids ++ id ∷ []
  noted false id ids = ids

  abbrev pub flat_of : Option Flat → NormalizedEvent → Flat
  flat_of none e = flatten_event e
  flat_of (some flat) e = flat

  abbrev pub Decided : Type 0
  Decided = Decision × NormalizedEvent × S

  -- The rest of the loop, from `flat`, the event, `applied`, `errors` and the state on.
  abbrev pub Rest : Type 0
  Rest = Option Flat → NormalizedEvent → List Text → List Text → S → Decided

  -- The loop after what a rule did.
  unfoldable pub next_round :
      Text → Flat → NormalizedEvent → List Text → List Text → S → Rest → Round → Decided
  next_round id flat e applied errors st rest passed = rest (some flat) e applied errors st
  next_round id flat e applied errors st rest (raised b e') =
      rest none e' (noted b id applied) (errors ++ id ∷ []) st
  next_round id flat e applied errors st rest (ended kind) =
      (dropped_by id kind (applied ++ id ∷ []) errors, e, st)
  next_round id flat e applied errors st rest (went_on true e') =
      rest none e' (applied ++ id ∷ []) errors st
  next_round id flat e applied errors st rest (went_on false e') =
      rest (some flat) e' (applied ++ id ∷ []) errors st

  -- An enabled rule, with the snapshot that it sees.
  unfoldable pub run_rule :
      IngestAction Regex → Flat → NormalizedEvent → List Text → List Text → S → Rest → Decided
  unfolding act next_round
  run_rule a flat e applied errors st rest =
      let (m, st') = matches a.rule flat e st in
      next_round a.id flat e applied errors st' rest (after_match a m e)

  -- The loop of `decide`.
  unfoldable pub decide_from : List (IngestAction Regex) → Rest
  unfolding run_rule flatten_event
  decide_from [] flat e applied errors st = (kept applied errors, e, st)
  decide_from (a ∷ actions) flat e applied errors st = elim a.enabled [
    | false ↦ decide_from actions flat e applied errors st
    | true ↦ run_rule a (flat_of flat e) e applied errors st (decide_from actions)
  ]

  -- `decide`
  unfoldable pub decide : List (IngestAction Regex) → NormalizedEvent → S → Decided
  unfolding decide_from
  decide actions e st = decide_from actions none e [] [] st
