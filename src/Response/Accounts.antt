-- ===== src/Response/Accounts.antt =====
-- What `ResponseEngine` counts and records for an alert.
use siem_lite.Prelude.{
  ◌+◌, ◌≡◌, sym, ap, ◌∙◌, true, false, not, ◌&&◌, List, [], ◌∷◌, ◌++◌, arith, inl, inr, Bool-cases,
  if_true, if_false, subst, keep, map, length, append-nil, append_assoc,
}
use siem_lite.Response.{
  Alert, Playbook, Action, Counters, World, matches, is_failed, account, action_of, run_alert,
}

-- The actions of the playbooks that match the alert and whose record is stored, in order.
abbrev pub recorded : World → List Playbook → Alert → List Action
recorded w pbs alert =
    map (action_of w alert) (keep (λ (pb : Playbook). matches pb alert && w.stored pb) pbs)

-- The playbooks that match the alert and whose record is not stored.
abbrev pub unrecorded : World → List Playbook → Alert → List Playbook
unrecorded w pbs alert = keep (λ (pb : Playbook). matches pb alert && not (w.stored pb)) pbs

abbrev pub failed_among : List Action → List Action
failed_among actions = keep (λ (a : Action). is_failed a.status) actions

-- The counters after an alert.
pub record Accounts (w : World) (pbs : List Playbook) (alert : Alert) (c d : Counters)
    : Type 0 where
  pub actions : d.actions ≡ c.actions ++ recorded w pbs alert
  pub executed : d.executed ≡ c.executed + length (recorded w pbs alert)
  pub failures :
      d.failures
      ≡ c.failures
        + (length (failed_among (recorded w pbs alert)) + length (unrecorded w pbs alert))

-- The counters that the first playbook leaves, for the rest.
module _ (w : World) (pb : Playbook) (pbs : List Playbook) (alert : Alert) (c : Counters) where
  Accounts-stored :
      matches pb alert ≡ true
      → w.stored pb ≡ true
      → (d : Counters) → Accounts w pbs alert (account true (action_of w alert pb) c) d
      → Accounts w (pb ∷ pbs) alert c d
  Accounts-stored e s d r = record {
    actions =
        rw (e, s)
          (r.actions ∙ append_assoc c.actions (action_of w alert pb ∷ []) (recorded w pbs alert));
    executed = rw (e, s) (let k = r.executed in omega (arith, k));
    failures = elim (Bool-cases (is_failed (action_of w alert pb).status)) [
      | inl f ↦ rw (e, s, f) (let k = rw f at r.failures in omega (arith, k))
      | inr f ↦ rw (e, s, f) (let k = rw f at r.failures in omega (arith, k))
    ];
  }

  Accounts-unstored :
      matches pb alert ≡ true
      → w.stored pb ≡ false
      → (d : Counters) → Accounts w pbs alert (account false (action_of w alert pb) c) d
      → Accounts w (pb ∷ pbs) alert c d
  Accounts-unstored e s d r = record {
    actions = rw (e, s) r.actions;
    executed = rw (e, s) r.executed;
    failures = rw (e, s) (let k = r.failures in omega (arith, k));
  }

  Accounts-passed :
      matches pb alert ≡ false
      → (d : Counters) → Accounts w pbs alert c d
      → Accounts w (pb ∷ pbs) alert c d
  Accounts-passed e d r = record {
    actions = rw e r.actions;
    executed = rw e r.executed;
    failures = rw e r.failures;
  }

-- For an alert every playbook that matches it acts: each action whose record is stored is recorded in
-- order and counted as executed, and the failures are the actions that failed and the playbooks whose
-- record is not stored.
pub run_alert-Accounts :
    (w : World) (pbs : List Playbook) (alert : Alert) (c : Counters)
    → Accounts w pbs alert c (run_alert w pbs alert c)
unfolding run_alert
run_alert-Accounts w [] alert c = record {
  actions = sym (append-nil c.actions);
  executed = omega arith;
  failures = omega arith;
}
run_alert-Accounts w (pb ∷ pbs) alert c =
    let rec = action_of w alert pb in
    let later = λ (d : Counters). Accounts w (pb ∷ pbs) alert c (run_alert w pbs alert d) in
    elim (Bool-cases (matches pb alert)) [
      | inl e ↦
          let first = if_true (matches pb alert) (account (w.stored pb) rec c) c e in
          subst later (sym first) (elim (Bool-cases (w.stored pb)) [
            | inl s ↦ subst later (sym (ap (λ b. account b rec c) s)) (
                Accounts-stored w pb pbs alert c e s _
                  (run_alert-Accounts w pbs alert (account true rec c)))
            | inr s ↦ subst later (sym (ap (λ b. account b rec c) s)) (
                Accounts-unstored w pb pbs alert c e s _
                  (run_alert-Accounts w pbs alert (account false rec c)))
          ])
      | inr e ↦
          subst later (sym (if_false (matches pb alert) (account (w.stored pb) rec c) c e))
            (Accounts-passed w pb pbs alert c e _ (run_alert-Accounts w pbs alert c))
    ]
