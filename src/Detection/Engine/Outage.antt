-- ===== src/Detection/Engine/Outage.antt =====
-- What an event's evaluation finds while the registry cannot be resolved.
use siem_lite.Prelude.{
  ℕ, ◌+◌, true, false, not, ◌&&◌, List, [], ◌∷◌, Option, none, some, is_empty, ◌≡◌, refl, ap, ◌∙◌,
  Bool-cases, inl, inr, arith, any_of,
}
use siem_lite.Text.Chars.{Text, member}
use siem_lite.Value.Event.{NormalizedEvent}
use siem_lite.Cim.Spec.{CimRegistry}
use siem_lite.Cim.Match.{EventLike, event}
use siem_lite.Detection.Flatten.{flatten_event}
use siem_lite.Detection.Scalar.{Python}
use siem_lite.Detection.Rule.{Rule}
use siem_lite.Detection.Gate.{
  Key, Gate, CimState, cim, cim_tags, gate, key_of, datamodels_match, admits, cim_outcome,
  inside_wall, cim_tags_with, gate_with, gate_after_lookup, cim_unavailable, log_once,
  cim_retry_milliseconds,
}
use siem_lite.Detection.Gate.Facts.{log_once_keeps, cim-resolved, cim-wall, cim-attempt}
use siem_lite.Detection.Engine.Rounds.{firing, evaluate_rules-Ok}
use siem_lite.Detection.Engine.{evaluate_event}

wall_holds : (now : ℕ) → inside_wall (some (now + cim_retry_milliseconds)) now ≡ true
wall_holds now = ground arith

module _ (py : Python) (attempt : Option CimRegistry) (now : ℕ) where
  -- The state after a failed attempt, before it is reported.
  abbrev before_log : CimState → CimState
  before_log st = record st { registry = none; retry_at = some (now + cim_retry_milliseconds) }

  -- `_cim` answers with none.
  abbrev pub Unavailable : CimState → Type 0
  Unavailable st = (cim attempt now st).0 ≡ none

  outcome-Unavailable :
      (a : Option CimRegistry) (st : CimState)
      → st.resolved ≡ false
      → (cim_outcome now st a).0 ≡ none
      → Unavailable (cim_outcome now st a).1
  outcome-Unavailable (some reg) st e h = absurd (cc)
  outcome-Unavailable none st e h =
      let (a, b, c, _, _) = log_once_keeps cim_unavailable (before_log st) in
      ap (λ (x : Option CimRegistry × CimState). x.0)
        (cim-wall attempt now (log_once cim_unavailable (before_log st)) (a ∙ e)
          (ap (λ r. inside_wall r now) c ∙ wall_holds now))

  cim-Unavailable : (st : CimState) → Unavailable st → Unavailable (cim attempt now st).1
  cim-Unavailable st h = elim (Bool-cases st.resolved) [
    | inl e ↦ rw (cim-resolved attempt now st e) h
    | inr e ↦ elim (Bool-cases (inside_wall st.retry_at now)) [
      | inl w ↦ rw (cim-wall attempt now st e w) h
      | inr w ↦
          let q = cim-attempt attempt now st e w in
          rw q (outcome-Unavailable attempt st e (rw q at h))
    ]
  ]

  cim_tags_with-Unavailable :
      (evt : EventLike) (p : Option CimRegistry × CimState)
      → p.0 ≡ none
      → Unavailable p.1
      → ((cim_tags_with evt p).0 ≡ []) × Unavailable (cim_tags_with evt p).1
  cim_tags_with-Unavailable evt (none, st) e h = (refl, h)
  cim_tags_with-Unavailable evt (some r, st) e h = absurd (cc)

  cim_tags-Unavailable :
      (evt : EventLike) (st : CimState)
      → Unavailable st
      → ((cim_tags attempt now evt st).0 ≡ []) × Unavailable (cim_tags attempt now evt st).1
  unfolding cim_tags
  cim_tags-Unavailable evt st h =
      cim_tags_with-Unavailable evt (cim attempt now st) h (cim-Unavailable st h)

  gate_with-Unavailable :
      (n : ℕ) (key : Key) (p : Option CimRegistry × CimState)
      → p.0 ≡ none
      → Unavailable p.1
      → Unavailable (gate_with n key p).1
  gate_with-Unavailable n key (none, st) e h = h
  gate_with-Unavailable n key (some r, st) e h = absurd (cc)

  gate_after_lookup-Unavailable :
      (key : Key) (st : CimState) (found : Option Gate)
      → Unavailable st
      → Unavailable (gate_after_lookup attempt now key st found).1
  gate_after_lookup-Unavailable key st (some hit) h = h
  gate_after_lookup-Unavailable key st none h =
      gate_with-Unavailable st.generation key (cim attempt now st) h (cim-Unavailable st h)

  any_of-nil : (ts : List Text) → any_of (λ t. member t []) ts ≡ false
  unfolding member
  any_of-nil [] = refl
  any_of-nil (t ∷ ts) = any_of-nil ts

  -- An event without tags is admitted by no gate.
  admits-nil : (g : Gate) → admits g [] ≡ false
  unfolding admits member
  admits-nil g = ap (λ b. not g.dead && b) (any_of-nil g.tags) ∙ unfold admits in ground arith

  datamodels_match-Unavailable :
      (rule : Rule) (st : CimState)
      → Unavailable st
      → ((datamodels_match attempt now rule [] st).0 ≡ is_empty rule.datamodels)
        × Unavailable (datamodels_match attempt now rule [] st).1
  unfolding datamodels_match gate
  datamodels_match-Unavailable rule st h = elim (Bool-cases (is_empty rule.datamodels)) [
    | inl e ↦ rw e (refl, h)
    | inr e ↦ rw e (
      admits-nil (gate attempt now rule st).0,
      gate_after_lookup-Unavailable (key_of rule) st _ h,
    )
  ]

  -- A registry that cannot be resolved costs exactly the rules that bind to a data model: every
  -- other enabled rule whose log source and condition hold still fires, and the outage lasts for
  -- the whole event.
  pub evaluate_event-unbound :
      (rules : List Rule) (e : NormalizedEvent) (st : CimState)
      → Unavailable st
      → ((evaluate_event py attempt now rules e none st).0
          ≡ firing py (λ rule. is_empty rule.datamodels) (flatten_event e) rules)
        × Unavailable (evaluate_event py attempt now rules e none st).1
  unfolding evaluate_event
  evaluate_event-unbound rules e st h =
      evaluate_rules-Ok py attempt now (event e) [] (λ rule. is_empty rule.datamodels) Unavailable
        (cim_tags-Unavailable (event e)) datamodels_match-Unavailable (λ rule k. k) rules
        (flatten_event e) none st tt h
