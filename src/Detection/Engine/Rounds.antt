-- ===== src/Detection/Engine/Rounds.antt =====
-- The loop of `evaluate_event` over any account of the data-model gate: `T` is the membership that
-- the event's tags resolve to, `admits` says which rules the gate lets through, and `Ok` is kept.
use siem_lite.Prelude.{
  ℕ, Bool, true, false, ◌&&◌, List, [], ◌∷◌, Option, none, some, if◌then◌else◌, is_empty, keep, ◌≡◌,
  refl, sym, ap, ap₂, ◌∙◌, Bool-cases, inl, inr, if_true, if_false, subst,
}
use siem_lite.Text.Chars.{Text}
use siem_lite.Cim.Spec.{CimRegistry}
use siem_lite.Cim.Match.{EventLike}
use siem_lite.Detection.Flatten.{Flat}
use siem_lite.Detection.Scalar.{Python}
use siem_lite.Detection.Logsource.{logsource_matches, and_then}
use siem_lite.Detection.Rule.{Rule}
use siem_lite.Detection.Gate.{CimState, cim_tags, datamodels_match}
use siem_lite.Detection.Engine.{
  detects, binds, match_rule, evaluate_rules, tags_or_resolve, loop_tags, add_if, evaluate_one,
  round, after_gate, after_logsource,
}

abbrev pub is_true : Option Bool → Bool
is_true (some true) = true
is_true _ = false

-- The result of `match_rule`: both gates, then the condition.
abbrev pub outcome : Python → Rule → Flat → Bool → Option Bool
outcome py rule flat admits =
    and_then (logsource_matches rule.logsource flat)
      (if admits then detects py rule.detection flat else some false)

-- The rules that are enabled and fire, in their order.
abbrev pub firing : Python → (Rule → Bool) → Flat → List Rule → List Rule
firing py admits flat = keep (λ (r : Rule). r.enabled && is_true (outcome py r flat (admits r)))

module _ (py : Python) (attempt : Option CimRegistry) (now : ℕ) (evt : EventLike) (T : List Text)
    (admits : Rule → Bool) (Ok : CimState → Type 0)
    (resolves : (st : CimState)
      → Ok st
      → ((cim_tags attempt now evt st).0 ≡ T) × Ok (cim_tags attempt now evt st).1)
    (gates : (rule : Rule) (st : CimState)
      → Ok st
      → ((datamodels_match attempt now rule T st).0 ≡ admits rule)
        × Ok (datamodels_match attempt now rule T st).1)
    (unbound : (rule : Rule) → is_empty rule.datamodels ≡ true → admits rule ≡ true) where
  -- The tags in hand are those of the event, or are still to be resolved to them.
  abbrev TagsAre : Option (List Text) → Type 0
  TagsAre none = Unit {0}
  TagsAre (some given) = given ≡ T

  tags_or_resolve-Ok :
      (tags : Option (List Text)) (st : CimState)
      → TagsAre tags
      → Ok st
      → ((tags_or_resolve py attempt now evt tags st).0 ≡ T)
        × Ok (tags_or_resolve py attempt now evt tags st).1
  tags_or_resolve-Ok (some given) st t r = (t, r)
  tags_or_resolve-Ok none st t r = resolves st r

  gates_at :
      (rule : Rule) (ts : List Text) (st : CimState)
      → ts ≡ T
      → Ok st
      → ((datamodels_match attempt now rule ts st).0 ≡ admits rule)
        × Ok (datamodels_match attempt now rule ts st).1
  gates_at rule ts st e s = rw e (gates rule st s)

  binds-Ok :
      (rule : Rule) (tags : Option (List Text)) (st : CimState)
      → TagsAre tags
      → Ok st
      → ((binds py attempt now rule evt tags st).0 ≡ admits rule)
        × Ok (binds py attempt now rule evt tags st).1
  unfolding binds
  binds-Ok rule tags st t r = elim (Bool-cases (is_empty rule.datamodels)) [
    | inl e ↦
        subst (λ (x : Bool × CimState). (x.0 ≡ admits rule) × Ok x.1) (sym (if_true _ _ _ e))
          (sym (unbound rule e), r)
    | inr e ↦
        let (a, s) = tags_or_resolve-Ok tags st t r in
        subst (λ (x : Bool × CimState). (x.0 ≡ admits rule) × Ok x.1) (sym (if_false _ _ _ e))
          (gates_at rule _ _ a s)
  ]

  after_gate-Ok :
      (rule : Rule) (flat : Flat) (p : Bool × CimState) (b : Bool)
      → p.0 ≡ b
      → Ok p.1
      → ((after_gate py attempt now rule flat p).0
          ≡ (if b then detects py rule.detection flat else some false))
        × Ok (after_gate py attempt now rule flat p).1
  after_gate-Ok rule flat (true, st) b e r =
      (sym (if_true b (detects py rule.detection flat) (some false) (sym e)), r)
  after_gate-Ok rule flat (false, st) b e r =
      (sym (if_false b (detects py rule.detection flat) (some false) (sym e)), r)

  module _ (rule : Rule) (flat : Flat) where
    after_logsource-Ok :
        (tags : Option (List Text)) (st : CimState) (l : Option Bool)
        → TagsAre tags
        → Ok st
        → ((after_logsource py attempt now rule flat evt tags st l).0
            ≡ and_then l (if admits rule then detects py rule.detection flat else some false))
          × Ok (after_logsource py attempt now rule flat evt tags st l).1
    after_logsource-Ok tags st none t r = (refl, r)
    after_logsource-Ok tags st (some false) t r = (refl, r)
    after_logsource-Ok tags st (some true) t r =
        let (a, s) = binds-Ok rule tags st t r in
        after_gate-Ok rule flat (binds py attempt now rule evt tags st) _ a s

    pub match_rule-Ok :
        (tags : Option (List Text)) (st : CimState)
        → TagsAre tags
        → Ok st
        → ((match_rule py attempt now rule flat (some evt) tags st).0
            ≡ outcome py rule flat (admits rule))
          × Ok (match_rule py attempt now rule flat (some evt) tags st).1
    unfolding match_rule
    match_rule-Ok tags st t r = after_logsource-Ok tags st _ t r

    loop_tags-Ok :
        (tags : Option (List Text)) (st : CimState)
        → TagsAre tags
        → Ok st
        → TagsAre (loop_tags py attempt now rule evt tags st).0
          × Ok (loop_tags py attempt now rule evt tags st).1
    loop_tags-Ok (some given) st t r = (t, r)
    loop_tags-Ok none st t r = elim (Bool-cases (is_empty rule.datamodels)) [
      | inl e ↦ rw e (t, r)
      | inr e ↦ rw e (resolves st r)
    ]

    round-Ok :
        (enabled : Bool) (tags : Option (List Text)) (st : CimState)
        → TagsAre tags
        → Ok st
        → (is_true (round py attempt now enabled rule flat evt tags st).0
            ≡ (enabled && is_true (outcome py rule flat (admits rule))))
          × TagsAre (round py attempt now enabled rule flat evt tags st).1
          × Ok (round py attempt now enabled rule flat evt tags st).2
    unfolding round
    round-Ok false tags st t r = (refl, t, r)
    round-Ok true tags st t r =
        let (t', r') = loop_tags-Ok tags st t r in
        let (a, r'') = match_rule-Ok _ _ t' r' in (ap is_true a, t', r'')

    evaluate_one-Ok :
        (tags : Option (List Text)) (st : CimState)
        → TagsAre tags
        → Ok st
        → (is_true (evaluate_one py attempt now rule flat evt tags st).0
            ≡ (rule.enabled && is_true (outcome py rule flat (admits rule))))
          × TagsAre (evaluate_one py attempt now rule flat evt tags st).1
          × Ok (evaluate_one py attempt now rule flat evt tags st).2
    unfolding evaluate_one
    evaluate_one-Ok tags st t r = round-Ok rule.enabled tags st t r

  add_if-keep :
      (o : Option Bool) (rule : Rule) (out : List Rule)
      → add_if py attempt now o rule out ≡ (if is_true o then rule ∷ out else out)
  add_if-keep none rule out = refl
  add_if-keep (some true) rule out = refl
  add_if-keep (some false) rule out = refl

  -- The loop finds the firing rules, and keeps `Ok`.
  pub evaluate_rules-Ok :
      (rules : List Rule) (flat : Flat) (tags : Option (List Text)) (st : CimState)
      → TagsAre tags
      → Ok st
      → ((evaluate_rules py attempt now rules flat evt tags st).0 ≡ firing py admits flat rules)
        × Ok (evaluate_rules py attempt now rules flat evt tags st).1
  unfolding evaluate_rules
  evaluate_rules-Ok [] flat tags st t r = (refl, r)
  evaluate_rules-Ok (rule ∷ rules) flat tags st t r =
      let (a, t', r') = evaluate_one-Ok rule flat tags st t r in
      let (b, r'') = evaluate_rules-Ok rules flat _ _ t' r' in
      (
        add_if-keep (evaluate_one py attempt now rule flat evt tags st).0 rule
              (evaluate_rules py attempt now rules flat evt
                (evaluate_one py attempt now rule flat evt tags st).1
                (evaluate_one py attempt now rule flat evt tags st).2).0
            ∙ ap₂ (λ c out. if c then rule ∷ out else out) a b,
        r'',
      )
