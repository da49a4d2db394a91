-- ===== src/Detection/Engine.antt =====
-- `match_rule` and `DetectionEngine.evaluate_event`.
pub mod Rounds
pub mod Spec
pub mod Outage
use siem_lite.Prelude.{
  ℕ, Bool, true, false, List, [], ◌∷◌, Option, none, some, if◌then◌else◌, is_empty,
}
use siem_lite.Prelude.Dict
use siem_lite.Text.Chars.{Text, codes, text, text_eq}
use siem_lite.Value.Defs.{Value, str, dict, Fields, end, field, fields_of, entries}
use siem_lite.Value.Event.{NormalizedEvent}
use siem_lite.Cim.Spec.{CimRegistry}
use siem_lite.Cim.Match.{EventLike, event, row}
use siem_lite.Detection.Flatten.{Flat, flatten_event}
use siem_lite.Detection.Scalar.{Python}
use siem_lite.Detection.Selection.{eval_selection}
use siem_lite.Prelude.Options.{◌>>=◌}
use siem_lite.Detection.Condition.{Sel, eval_condition}
use siem_lite.Detection.Condition.Run.{or_exception}
use siem_lite.Detection.Logsource.{logsource_matches}
use siem_lite.Detection.Rule.{Rule}
use siem_lite.Detection.Gate.{CimState, cim_tags, datamodels_match}

module _ (py : Python) where
  -- `{name: _eval_selection(flat, body) for name, body in det.items() if name != "condition"}`
  unfoldable pub selections : Flat → Fields → Sel
  unfolding eval_selection text_eq
  selections flat end = []
  selections flat (field name body fs) =
      if text_eq name (codes "condition")
      then selections flat fs
      else (name, eval_selection py flat body) ∷ selections flat fs

  abbrev pub condition_of : Option Value → Option Text
  condition_of none = some []
  condition_of (some (str t)) = some t
  condition_of (some _) = none

  -- The selections and the condition; `none` is the exception of a block that is no `dict`, of a
  -- condition that is no text, or of a quantity that `int` refuses.
  unfoldable pub detects : Value → Flat → Option Bool
  unfolding selections eval_condition Dict.get text_eq entries
  detects (dict det) flat = do
    condition ← condition_of (Dict.get text (codes "condition") (entries det))
    or_exception (eval_condition condition (selections flat det))
  detects _ flat = none

  module _ (attempt : Option CimRegistry) (now : ℕ) where
    -- `tags if tags is not None else cim_tags(evt)`
    abbrev pub tags_or_resolve : EventLike → Option (List Text) → CimState → List Text × CimState
    tags_or_resolve evt (some tags) st = (tags, st)
    tags_or_resolve evt none st = cim_tags attempt now evt st

    -- The gate of `match_rule` over the data models.
    unfoldable pub binds : Rule → EventLike → Option (List Text) → CimState → Bool × CimState
    unfolding cim_tags datamodels_match
    binds rule evt tags st =
        if is_empty rule.datamodels
        then (true, st)
        else (let (ts, st') = tags_or_resolve evt tags st in
            datamodels_match attempt now rule ts st')

    abbrev pub event_or_flat : Flat → Option EventLike → EventLike
    event_or_flat flat none = row (fields_of flat)
    event_or_flat flat (some evt) = evt

    abbrev pub after_gate : Rule → Flat → Bool × CimState → Option Bool × CimState
    after_gate rule flat (true, st) = (detects rule.detection flat, st)
    after_gate rule flat (false, st) = (some false, st)

    abbrev pub after_logsource :
        Rule
        → Flat
        → EventLike
        → Option (List Text)
        → CimState
        → Option Bool
        → Option Bool × CimState
    after_logsource rule flat evt tags st none = (none, st)
    after_logsource rule flat evt tags st (some false) = (some false, st)
    after_logsource rule flat evt tags st (some true) =
        after_gate rule flat (binds rule evt tags st)

    unfoldable pub match_rule :
        Rule → Flat → Option EventLike → Option (List Text) → CimState → Option Bool × CimState
    unfolding logsource_matches detects binds fields_of
    match_rule rule flat evt tags st =
        after_logsource rule flat (event_or_flat flat evt) tags st
          (logsource_matches rule.logsource flat)

    -- `if r.datamodels and tags is None: tags = cim_tags(evt)`
    abbrev pub loop_tags :
        Rule → EventLike → Option (List Text) → CimState → Option (List Text) × CimState
    loop_tags rule evt (some tags) st = (some tags, st)
    loop_tags rule evt none st =
        if is_empty rule.datamodels
        then (none, st)
        else (let (ts, st') = cim_tags attempt now evt st in (some ts, st'))

    -- A rule that raises is passed over.
    abbrev pub add_if : Option Bool → Rule → List Rule → List Rule
    add_if (some true) rule out = rule ∷ out
    add_if _ rule out = out

    abbrev pub Round : Type 0
    Round = Option Bool × Option (List Text) × CimState

    -- The body of the loop of `evaluate_event` for a rule that is enabled or not: what the rule
    -- gives, and the tags and the state after. A disabled rule is passed over.
    unfoldable pub round : Bool → Rule → Flat → EventLike → Option (List Text) → CimState → Round
    unfolding match_rule cim_tags
    round false r flat evt tags st = (some false, tags, st)
    round true r flat evt tags st =
        let (tags', st') = loop_tags r evt tags st in
        let (fires, st'') = match_rule r flat (some evt) tags' st' in (fires, tags', st'')

    unfoldable pub evaluate_one : Rule → Flat → EventLike → Option (List Text) → CimState → Round
    unfolding round
    evaluate_one r flat evt tags st = round r.enabled r flat evt tags st

    -- The loop of `evaluate_event`.
    unfoldable pub evaluate_rules :
        List Rule → Flat → EventLike → Option (List Text) → CimState → List Rule × CimState
    unfolding evaluate_one
    evaluate_rules [] flat evt tags st = ([], st)
    evaluate_rules (r ∷ rules) flat evt tags st =
        let (fires, tags', st') = evaluate_one r flat evt tags st in
        let (out, st'') = evaluate_rules rules flat evt tags' st' in (add_if fires r out, st'')

    unfoldable pub evaluate_event :
        List Rule → NormalizedEvent → Option (List Text) → CimState → List Rule × CimState
    unfolding evaluate_rules flatten_event
    evaluate_event rules e tags st = evaluate_rules rules (flatten_event e) (event e) tags st
