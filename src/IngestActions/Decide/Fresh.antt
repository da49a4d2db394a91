-- ===== src/IngestActions/Decide/Fresh.antt =====
-- The snapshot `flat` in `decide` of `app/ingest_actions.py` is never stale.
use siem_lite.Prelude.{
  ℕ, ◌≡◌, refl, ap, ◌∙◌, sym, Bool, true, false, List, [], ◌∷◌, Option, none, some,
}
use siem_lite.Text.Chars.{Text}
use siem_lite.Value.Event.{NormalizedEvent}
use siem_lite.Detection.Flatten.{Flat, flatten_event}
use siem_lite.Detection.Rule.{Rule}
use siem_lite.IngestActions.{Action, drop, sample, mask, route, IngestAction}
use siem_lite.IngestActions.Raw.{Outcome, IsHonest}
use siem_lite.IngestActions.Mask.{apply_mask, apply_route}
use siem_lite.IngestActions.Mask.Honest.{apply_mask-IsHonest, apply_route-IsHonest}
use siem_lite.IngestActions.Decide.{
  Decision, kept, Round, passed, raised, ended, went_on, sample_keeps, after_sample, after_change,
  act, after_match, flat_of, Rest, next_round, run_rule, decide_from, decide,
}

module _ {Regex : Type 0} {S : Type 0} (sub : Regex → Text → Text → Option Text)
    (sha256 : Text → Text) (identity : NormalizedEvent → ℕ)
    (matches : Rule → Flat → NormalizedEvent → S → Option Bool × S) where
  -- The loop with a snapshot of the event as it is, for each rule.
  unfoldable pub decide_fresh :
      List (IngestAction Regex)
      → NormalizedEvent
      → List Text
      → List Text
      → S
      → Decision × NormalizedEvent × S
  unfolding run_rule flatten_event
  decide_fresh [] e applied errors st = (kept applied errors, e, st)
  decide_fresh (a ∷ actions) e applied errors st = elim a.enabled [
    | false ↦ decide_fresh actions e applied errors st
    | true ↦
        run_rule sub sha256 identity matches a (flatten_event e) e applied errors st
          (λ flat. decide_fresh actions)
  ]

  -- A round that reports no change leaves the event as it was.
  abbrev IsTrue : NormalizedEvent → Round → Type 0
  IsTrue e (went_on false e') = e' ≡ e
  IsTrue e r = Unit

  after_sample-IsTrue :
      (o : Option Bool) (e : NormalizedEvent)
      → IsTrue e (after_sample sub sha256 identity matches o e)
  after_sample-IsTrue none e = tt
  after_sample-IsTrue (some true) e = refl
  after_sample-IsTrue (some false) e = tt

  after_change-IsTrue :
      (a : IngestAction Regex) (e : NormalizedEvent) (out : Outcome NormalizedEvent)
      → IsHonest e out
      → IsTrue e (after_change sub sha256 identity matches a out)
  after_change-IsTrue a e (e', none) h = tt
  after_change-IsTrue a e (e', some false) h = h refl
  after_change-IsTrue a e (e', some true) h = tt

  act-IsTrue :
      (a : IngestAction Regex) (action : Action Regex) (e : NormalizedEvent)
      → IsTrue e (act sub sha256 identity matches a action e)
  unfolding act
  act-IsTrue a drop e = tt
  act-IsTrue a (sample spec) e =
      after_sample-IsTrue (sample_keeps sub sha256 identity matches spec e) e
  act-IsTrue a (mask spec) e =
      after_change-IsTrue a e (apply_mask sub sha256 spec e) (apply_mask-IsHonest sub sha256 spec e)
  act-IsTrue a (route spec) e =
      after_change-IsTrue a e (apply_route spec e) (apply_route-IsHonest spec e)

  after_match-IsTrue :
      (a : IngestAction Regex) (o : Option Bool) (e : NormalizedEvent)
      → IsTrue e (after_match sub sha256 identity matches a o e)
  after_match-IsTrue a none e = tt
  after_match-IsTrue a (some false) e = tt
  after_match-IsTrue a (some true) e = act-IsTrue a a.action e

  -- Two rests that agree wherever the snapshot is of the event.
  abbrev Agree :
      Rest {Regex = Regex} {S = S} sub sha256 identity matches
      → Rest {Regex = Regex} {S = S} sub sha256 identity matches
      → Type 0
  Agree k l =
      (flat : Option Flat) (e : NormalizedEvent) (applied errors : List Text) (st : S)
      → flat_of sub sha256 identity matches flat e ≡ flatten_event e
      → k flat e applied errors st ≡ l flat e applied errors st

  next_round-Agree :
      (id : Text) (e : NormalizedEvent) (applied errors : List Text) (st : S)
      (k l : Rest {Regex = Regex} {S = S} sub sha256 identity matches) (r : Round)
      → Agree k l
      → IsTrue e r
      → next_round sub sha256 identity matches id (flatten_event e) e applied errors st k r
        ≡ next_round sub sha256 identity matches id (flatten_event e) e applied errors st l r
  unfolding next_round
  next_round-Agree id e applied errors st k l passed h t = h _ e _ _ st refl
  next_round-Agree id e applied errors st k l (raised b e') h t = h none e' _ _ st refl
  next_round-Agree id e applied errors st k l (ended kind) h t = refl
  next_round-Agree id e applied errors st k l (went_on true e') h t = h none e' _ _ st refl
  next_round-Agree id e applied errors st k l (went_on false e') h t =
      h _ e' _ _ st (ap flatten_event (sym t))

  run_rule-Agree :
      (a : IngestAction Regex) (flat : Flat) (e : NormalizedEvent) (applied errors : List Text)
      (st : S) (k l : Rest {Regex = Regex} {S = S} sub sha256 identity matches)
      → flat ≡ flatten_event e
      → Agree k l
      → run_rule sub sha256 identity matches a flat e applied errors st k
        ≡ run_rule sub sha256 identity matches a (flatten_event e) e applied errors st l
  unfolding run_rule
  run_rule-Agree a flat e applied errors st k l q h =
      ap (λ f. run_rule sub sha256 identity matches a f e applied errors st k) q
      ∙ next_round-Agree a.id e applied errors (matches a.rule (flatten_event e) e st).1 k l
          (after_match sub sha256 identity matches a (matches a.rule (flatten_event e) e st).0 e) h
          (after_match-IsTrue a (matches a.rule (flatten_event e) e st).0 e)

  decide_from-Agree :
      (actions : List (IngestAction Regex))
      → Agree (decide_from sub sha256 identity matches actions) (λ flat. decide_fresh actions)
  unfolding decide_from decide_fresh
  decide_from-Agree [] flat e applied errors st h = refl
  decide_from-Agree (a ∷ actions) flat e applied errors st h =
      elim a.enabled
        as (λ b.
          elim b [
            | false ↦ decide_from sub sha256 identity matches actions flat e applied errors st
            | true ↦
                run_rule sub sha256 identity matches a (flat_of sub sha256 identity matches flat e)
                  e applied errors st (decide_from sub sha256 identity matches actions)
          ]
          ≡ elim b [
            | false ↦ decide_fresh actions e applied errors st
            | true ↦
                run_rule sub sha256 identity matches a (flatten_event e) e applied errors st
                  (λ flat'. decide_fresh actions)
          ]) [
            | false ↦ decide_from-Agree actions flat e applied errors st h
            | true ↦
                run_rule-Agree a (flat_of sub sha256 identity matches flat e) e applied errors st _
                  _ h (decide_from-Agree actions)
          ]

  -- The snapshot of the event that decide keeps between rules is never stale: it decides, and leaves
  -- the event and the state, as with a snapshot taken anew for each rule, exceptions included.
  pub decide-decide_fresh :
      (actions : List (IngestAction Regex)) (e : NormalizedEvent) (st : S)
      → decide sub sha256 identity matches actions e st ≡ decide_fresh actions e [] [] st
  unfolding decide
  decide-decide_fresh actions e st = decide_from-Agree actions none e [] [] st refl
