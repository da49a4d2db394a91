-- ===== src/IngestActions/Decide/Drops.antt =====
-- What a drop by `decide` of `app/ingest_actions.py` says of the rules and the event.
use siem_lite.Prelude.{
  ℕ, ◌≡◌, refl, Bool, true, false, List, [], ◌∷◌, Option, none, some, In, here, there,
}
use siem_lite.Text.Chars.{Text, codes}
use siem_lite.Value.Event.{NormalizedEvent}
use siem_lite.Detection.Flatten.{Flat, flatten_event}
use siem_lite.Detection.Rule.{Rule}
use siem_lite.IngestActions.{SampleSpec, Action, drop, sample, mask, route, IngestAction}
use siem_lite.IngestActions.Raw.{Outcome}
use siem_lite.IngestActions.Mask.{apply_mask, apply_route}
use siem_lite.IngestActions.Decide.{
  Round, passed, raised, ended, went_on, sample_keeps, after_sample, after_change, act, after_match,
  Decided, next_round, run_rule, decide,
}
use siem_lite.IngestActions.Decide.Fresh.{decide_fresh, decide-decide_fresh}

module _ {Regex : Type 0} {S : Type 0} (sub : Regex → Text → Text → Option Text)
    (sha256 : Text → Text) (identity : NormalizedEvent → ℕ)
    (matches : Rule → Flat → NormalizedEvent → S → Option Bool × S) where
  -- An action that ends the evaluation of an event, and its name.
  abbrev pub Ends : Action Regex → NormalizedEvent → Text → Type 0
  Ends drop e kind = kind ≡ codes "drop"
  Ends (sample spec) e kind =
      (sample_keeps sub sha256 identity matches spec e ≡ some false) × (kind ≡ codes "sample")
  Ends (mask spec) e kind = ⊥
  Ends (route spec) e kind = ⊥

  -- Some enabled rule of the list, with this id, holds for the event and ends its evaluation.
  abbrev pub DropsBy : List (IngestAction Regex) → NormalizedEvent → Text → Text → Type 0
  DropsBy actions e id kind =
      (a : IngestAction Regex) × (st : S) × In a actions
      × (a.enabled ≡ true)
      × (a.id ≡ id)
      × ((matches a.rule (flatten_event e) e st).0 ≡ some true)
      × Ends a.action e kind

  abbrev IsJustified : List (IngestAction Regex) → Decided sub sha256 identity matches → Type 0
  IsJustified actions r = r.0.dropped ≡ true → DropsBy actions r.1 r.0.rule_id r.0.action

  after_sample-Ends :
      (spec : SampleSpec) (e : NormalizedEvent) (o : Option Bool) (kind : Text)
      → sample_keeps sub sha256 identity matches spec e ≡ o
      → ended kind ≡ after_sample sub sha256 identity matches o e
      → Ends (sample spec) e kind
  after_sample-Ends spec e none kind q h = absurd (cc)
  after_sample-Ends spec e (some true) kind q h = absurd (cc)
  after_sample-Ends spec e (some false) kind q h = (q, cc)

  after_change-not_ended :
      (a : IngestAction Regex) (out : Outcome NormalizedEvent) (kind : Text)
      → ended kind ≡ after_change sub sha256 identity matches a out
      → ⊥
  after_change-not_ended a (e, none) kind h = absurd (cc)
  after_change-not_ended a (e, some true) kind h = absurd (cc)
  after_change-not_ended a (e, some false) kind h = absurd (cc)

  act-Ends :
      (a : IngestAction Regex) (action : Action Regex) (e : NormalizedEvent) (kind : Text)
      → ended kind ≡ act sub sha256 identity matches a action e
      → Ends action e kind
  unfolding act
  act-Ends a drop e kind h = cc
  act-Ends a (sample spec) e kind h =
      after_sample-Ends spec e (sample_keeps sub sha256 identity matches spec e) kind refl h
  act-Ends a (mask spec) e kind h = after_change-not_ended a (apply_mask sub sha256 spec e) kind h
  act-Ends a (route spec) e kind h = after_change-not_ended a (apply_route spec e) kind h

  after_match-Ends :
      (a : IngestAction Regex) (o : Option Bool) (e : NormalizedEvent) (kind : Text)
      → ended kind ≡ after_match sub sha256 identity matches a o e
      → (o ≡ some true) × Ends a.action e kind
  after_match-Ends a none e kind h = absurd (cc)
  after_match-Ends a (some false) e kind h = absurd (cc)
  after_match-Ends a (some true) e kind h = (refl, act-Ends a a.action e kind h)

  weaken :
      (a : IngestAction Regex) (actions : List (IngestAction Regex))
      (r : Decided sub sha256 identity matches)
      → IsJustified actions r
      → IsJustified (a ∷ actions) r
  weaken a actions r h d = let (b, st, i, en, q, m, ends) = h d in (b, st, there i, en, q, m, ends)

  next_round-IsJustified :
      (a : IngestAction Regex) (actions : List (IngestAction Regex)) (e : NormalizedEvent)
      (applied errors : List Text) (st st' : S) (r : Round)
      → a.enabled ≡ true
      → r ≡ after_match sub sha256 identity matches a (matches a.rule (flatten_event e) e st).0 e
      → ((e' : NormalizedEvent) (applied' errors' : List Text)
          → IsJustified
              (a ∷ actions)
              (decide_fresh sub sha256 identity matches actions e' applied' errors' st'))
      → IsJustified (a ∷ actions) (
          next_round sub sha256 identity matches a.id
            (flatten_event e)
            e
            applied
            errors
            st'
            (λ flat. decide_fresh sub sha256 identity matches actions)
            r)
  unfolding next_round
  next_round-IsJustified a actions e applied errors st st' passed en q h = h e _ _
  next_round-IsJustified a actions e applied errors st st' (raised b e') en q h = h e' _ _
  next_round-IsJustified a actions e applied errors st st' (went_on true e') en q h = h e' _ _
  next_round-IsJustified a actions e applied errors st st' (went_on false e') en q h = h e' _ _
  next_round-IsJustified a actions e applied errors st st' (ended kind) en q h = λ d.
      let (m, ends) = after_match-Ends a (matches a.rule (flatten_event e) e st).0 e kind q in
      (a, st, here refl, en, refl, m, ends)

  decide_fresh-IsJustified :
      (actions : List (IngestAction Regex)) (e : NormalizedEvent) (applied errors : List Text)
      (st : S)
      → IsJustified actions (decide_fresh sub sha256 identity matches actions e applied errors st)
  unfolding decide_fresh run_rule
  decide_fresh-IsJustified [] e applied errors st = λ d. absurd (cc)
  decide_fresh-IsJustified (a ∷ actions) e applied errors st =
      let later : (e' : NormalizedEvent) (ids ids' : List Text) (st' : S)
          → IsJustified (a ∷ actions)
              (decide_fresh sub sha256 identity matches actions e' ids ids' st') =
        λ e' ids ids' st'.
          weaken a actions (decide_fresh sub sha256 identity matches actions e' ids ids' st')
            (decide_fresh-IsJustified actions e' ids ids' st') in
      (elim a.enabled
          as (λ b.
            a.enabled ≡ b
            → IsJustified (a ∷ actions) (elim b [
              | false ↦ decide_fresh sub sha256 identity matches actions e applied errors st
              | true ↦
                  run_rule sub sha256 identity matches a (flatten_event e) e applied errors st
                    (λ flat. decide_fresh sub sha256 identity matches actions)
            ])) [
              | false ↦ λ en. later e applied errors st
              | true ↦ λ en.
                  next_round-IsJustified a actions e applied errors st _ _ en refl
                    (λ e' ids ids'. later e' ids ids' (matches a.rule (flatten_event e) e st).1)
            ])
        refl

  decide-IsJustified :
      (actions : List (IngestAction Regex)) (e : NormalizedEvent) (st : S)
      → IsJustified actions (decide sub sha256 identity matches actions e st)
  decide-IsJustified actions e st =
      rw (decide-decide_fresh sub sha256 identity matches actions e st)
        (decide_fresh-IsJustified actions e [] [] st)

  -- A dropped event is dropped by an enabled rule of the list, the one that the decision names: the
  -- rule matches the event as it is left, with the snapshot of it, in some state of the matcher, and it is a
  -- drop, or a sample that does not keep that event.
  pub decide-DropsBy :
      (actions : List (IngestAction Regex)) (e : NormalizedEvent) (st : S)
      → (decide sub sha256 identity matches actions e st).0.dropped ≡ true
      → let r = decide sub sha256 identity matches actions e st in
        DropsBy actions r.1 r.0.rule_id r.0.action
  decide-DropsBy actions e st = decide-IsJustified actions e st
