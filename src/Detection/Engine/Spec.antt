-- ===== src/Detection/Engine/Spec.antt =====
-- What an event's evaluation means, with no cache, no log and no retry: each rule by itself.
use siem_lite.Prelude.{
  ℕ, Bool, true, List, [], Option, none, some, if◌then◌else◌, is_empty, ◌≡◌, refl, sym, ap, ◌∙◌,
  ◌==◌, Bool-cases, inl, inr, arith, if_true, if_false, subst,
}
use siem_lite.Prelude.Except.{Except, ok, raise}
use siem_lite.Text.Chars.{Text}
use siem_lite.Value.Event.{NormalizedEvent}
use siem_lite.Cim.Spec.{CimError, CimRegistry}
use siem_lite.Cim.Match.{EventLike, event}
use siem_lite.Detection.Flatten.{flatten_event}
use siem_lite.Detection.Scalar.{Python}
use siem_lite.Detection.Rule.{Rule}
use siem_lite.Detection.Gate.{
  Key, Gate, LogKey, CimState, cim, cim_tags, membership, log_once, gate, gate_of, gate_commit,
  gate_log_unknown, cached, key_of, datamodels_match, admits, cim_eval_failed, tags_or_log,
  cim_tags_with, gate_with, gate_after_lookup,
}
use siem_lite.Detection.Gate.Binding.{is_bound, admits-gate_of}
use siem_lite.Detection.Gate.Facts.{
  Gates, Gates-cached, Gates-store, make_room, log_once_keeps, gate_log_unknown_keeps, cim-resolved,
}
use siem_lite.Detection.Gate.Keeps.{Keeps-cim, cim-some, Gates-make_room}
use siem_lite.Detection.Engine.Rounds.{firing, evaluate_rules-Ok}
use siem_lite.Detection.Engine.{evaluate_event}

unsome {ℓ} : {A : Type ℓ} {a b : A} → some a ≡ some b → a ≡ b
unsome h = ground arith

abbrev tags_or_empty : Except CimError (List Text) → List Text
tags_or_empty (ok tags) = tags
tags_or_empty (raise e) = []

-- The membership of an event, empty where its evaluation raises.
abbrev pub tags_in : CimRegistry → EventLike → List Text
tags_in reg evt = tags_or_empty (membership reg evt)

-- Does the rule's binding admit an event with these tags? Every name that it lists must be known.
abbrev pub admitted : CimRegistry → Rule → List Text → Bool
admitted reg rule tags =
    if is_empty rule.datamodels then true else is_bound reg rule.datamodels tags

module _ (py : Python) (attempt : Option CimRegistry) (now : ℕ) (reg : CimRegistry) where
  -- `_cim` answers with this registry, and the cached gates are its own.
  abbrev pub Ready : CimState → Type 0
  Ready st = ((cim attempt now st).0 ≡ some reg) × Gates reg st.gate_cache

  abbrev Settled : CimState → Type 0
  Settled st = (st.resolved ≡ true) × (st.registry ≡ some reg) × Gates reg st.gate_cache

  Settled-Ready : (st : CimState) → Settled st → Ready st
  Settled-Ready st (a, b, c) =
      (ap (λ (x : Option CimRegistry × CimState). x.0) (cim-resolved attempt now st a) ∙ b, c)

  cim-Settled : (st : CimState) → Ready st → Settled (cim attempt now st).1
  cim-Settled st (a, g) =
      let (p, q) = cim-some attempt now st reg a in
      (p, q, subst (Gates reg) (sym (Keeps-cim attempt now st).same_cache) g)

  log_once-Settled : (key : LogKey) (st : CimState) → Settled st → Settled (log_once key st)
  log_once-Settled key st (a, b, c) =
      let (p, q, _, _, s) = log_once_keeps key st in (p ∙ a, q ∙ b, subst (Gates reg) (sym s) c)

  tags_or_log-Settled :
      (m : Except CimError (List Text)) (st : CimState)
      → Settled st
      → ((tags_or_log m st).0 ≡ tags_or_empty m) × Settled (tags_or_log m st).1
  tags_or_log-Settled (ok tags) st s = (refl, s)
  tags_or_log-Settled (raise e) st s = (refl, log_once-Settled cim_eval_failed st s)

  cim_tags_with-Settled :
      (evt : EventLike) (p : Option CimRegistry × CimState)
      → p.0 ≡ some reg
      → Settled p.1
      → ((cim_tags_with evt p).0 ≡ tags_in reg evt) × Settled (cim_tags_with evt p).1
  cim_tags_with-Settled evt (none, st) e s = absurd (cc)
  cim_tags_with-Settled evt (some r, st) e s =
      let q : r ≡ reg = ground arith in
      subst
        (λ x.
          ((cim_tags_with evt (some x, st)).0 ≡ tags_in reg evt)
          × Settled (cim_tags_with evt (some x, st)).1)
        (sym q) (tags_or_log-Settled (membership reg evt) st s)

  -- The membership that an evaluation resolves.
  cim_tags-Ready :
      (evt : EventLike) (st : CimState)
      → Ready st
      → ((cim_tags attempt now evt st).0 ≡ tags_in reg evt) × Ready (cim_tags attempt now evt st).1
  unfolding cim_tags
  cim_tags-Ready evt st r =
      let (a, s) = cim_tags_with-Settled evt (cim attempt now st) r.0 (cim-Settled st r) in
      (a, Settled-Ready _ s)

  gate_commit-Settled :
      (n : ℕ) (key : Key) (st : CimState)
      → Settled st
      → Settled (gate_commit n key (gate_of reg key.names) st)
  unfolding gate_commit
  gate_commit-Settled n key st (a, b, g) = elim (Bool-cases (n == st.generation)) [
    | inl e ↦
        subst Settled (sym (if_true _ _ _ e)) (
          a,
          b,
          Gates-store reg key (make_room st.gate_cache) (Gates-make_room reg st.gate_cache g),
        )
    | inr e ↦ subst Settled (sym (if_false _ _ _ e)) (a, b, g)
  ]

  gate_log_unknown-Settled :
      (key : Key) (st : CimState) → Settled st → Settled (gate_log_unknown reg key st)
  gate_log_unknown-Settled key st (a, b, c) =
      let (p, q, _, _, s) = gate_log_unknown_keeps reg key st in
      (p ∙ a, q ∙ b, subst (Gates reg) (sym s) c)

  gate_with-Settled :
      (n : ℕ) (key : Key) (p : Option CimRegistry × CimState)
      → p.0 ≡ some reg
      → Settled p.1
      → ((gate_with n key p).0 ≡ gate_of reg key.names) × Settled (gate_with n key p).1
  gate_with-Settled n key (none, st) e s = absurd (cc)
  gate_with-Settled n key (some r, st) e s =
      subst
        (λ x.
          ((gate_with n key (some x, st)).0 ≡ gate_of reg key.names)
          × Settled (gate_with n key (some x, st)).1)
        (sym (unsome e)) (refl, gate_commit-Settled n key _ (gate_log_unknown-Settled key st s))

  gate_after_lookup-Ready :
      (key : Key) (st : CimState) (found : Option Gate)
      → Ready st
      → cached key st.gate_cache ≡ found
      → ((gate_after_lookup attempt now key st found).0 ≡ gate_of reg key.names)
        × Ready (gate_after_lookup attempt now key st found).1
  gate_after_lookup-Ready key st (some hit) r e = (Gates-cached reg key st.gate_cache r.1 e, r)
  gate_after_lookup-Ready key st none r e =
      let (a, s) =
        gate_with-Settled st.generation key (cim attempt now st) r.0 (cim-Settled st r) in
      (a, Settled-Ready _ s)

  gate-Ready :
      (rule : Rule) (st : CimState)
      → Ready st
      → ((gate attempt now rule st).0 ≡ gate_of reg rule.datamodels)
        × Ready (gate attempt now rule st).1
  unfolding gate
  gate-Ready rule st r = gate_after_lookup-Ready (key_of rule) st _ r refl

  datamodels_match-Ready :
      (rule : Rule) (tags : List Text) (st : CimState)
      → Ready st
      → ((datamodels_match attempt now rule tags st).0 ≡ admitted reg rule tags)
        × Ready (datamodels_match attempt now rule tags st).1
  unfolding datamodels_match
  datamodels_match-Ready rule tags st r = elim (Bool-cases (is_empty rule.datamodels)) [
    | inl e ↦ rw e (refl, r)
    | inr e ↦
        let (a, s) = gate-Ready rule st r in
        rw e (ap (λ (g : Gate). admits g tags) a ∙ admits-gate_of reg rule.datamodels tags, s)
  ]

  -- While the registry can be resolved, evaluating an event finds exactly the rules that are
  -- enabled and whose source gates and condition hold, in their order: neither the caches, nor the
  -- log, nor tags resolved lazily for the first bound rule, change what fires; and the state stays
  -- ready for the next event.
  pub evaluate_event-firing :
      (rules : List Rule) (e : NormalizedEvent) (st : CimState)
      → Ready st
      → ((evaluate_event py attempt now rules e none st).0
          ≡ firing py (λ rule. admitted reg rule (tags_in reg (event e))) (flatten_event e) rules)
        × Ready (evaluate_event py attempt now rules e none st).1
  unfolding evaluate_event
  evaluate_event-firing rules e st r =
      evaluate_rules-Ok py attempt now (event e) (tags_in reg (event e))
        (λ rule. admitted reg rule (tags_in reg (event e))) Ready (cim_tags-Ready (event e))
        (λ rule. datamodels_match-Ready rule (tags_in reg (event e))) (λ rule h. if_true _ _ _ h)
        rules (flatten_event e) none st tt r
