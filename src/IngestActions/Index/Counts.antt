-- ===== src/IngestActions/Index/Counts.antt =====
-- What the counters of `ActionIndex` in `app/ingest_actions.py` add up to.
use Prim.Native.Nat.{◌+◌}
use native.Mathlib.Omega.{arith}
use siem_lite.Prelude.{
  ℕ, ◌≡◌, ap, ◌∙◌, Bool, true, false, not, List, [], ◌∷◌, Option, none, some, if◌then◌else◌,
  if_true, if_false, Bool-cases, inl, inr, ◌&&◌,
}
use siem_lite.Prelude.Dict
use siem_lite.Text.Chars.{Text, codes, text as by_text, text_eq, text_eq_iff}
use siem_lite.Value.Event.{NormalizedEvent}
use siem_lite.Detection.Flatten.{Flat}
use siem_lite.Detection.Rule.{Rule}
use siem_lite.IngestActions.Decide.{Decision, kept, decide}
use siem_lite.IngestActions.Index.{
  Row, Counts, or_zero, or_new, raise_count, bump, bump_all, last_of, bump_changed, count_decision,
  ActionIndex, apply,
}

-- The counter of a rule, 0 where it has no row yet.
abbrev pub counter : Text → Text → Counts → ℕ
counter name id counts = or_zero (Dict.get by_text name (or_new (Dict.get by_text id counts)))

abbrev one_if : Bool → ℕ
one_if true = 1
one_if false = 0

abbrev is_id : Option Text → Text → Bool
is_id none j = false
is_id (some i) j = text_eq i j

abbrev pub is_last : Text → List Text → Bool
is_last j ids = is_id (last_of ids) j

-- How often an id occurs.
unfoldable pub occurrences : Text → List Text → ℕ
unfolding text_eq
occurrences id [] = 0
occurrences id (i ∷ is) = one_if (text_eq i id) + occurrences id is

get-raised :
    (name other : Text) (row : Row)
    → Dict.get by_text other (raise_count name row) ≡ (
        if text_eq name other
        then some (or_zero (Dict.get by_text name row) + 1)
        else Dict.get by_text other row)
get-raised name other row = Dict.get-set by_text name other _ row

get-raise_count :
    (name other : Text) (row : Row)
    → or_zero (Dict.get by_text other (raise_count name row))
      ≡ or_zero (Dict.get by_text other row) + (if text_eq name other then 1 else 0)
get-raise_count name other row = elim (Bool-cases (text_eq name other)) [
  | inl s ↦
      let q : name ≡ other = (text_eq_iff name other).0 s in
      let g = get-raised name other row ∙ if_true (text_eq name other) _ _ s in
      let z : or_zero (Dict.get by_text name row) ≡ or_zero (Dict.get by_text other row) =
        ap (λ t. or_zero (Dict.get by_text t row)) q in
      rw (g, s) (ap (λ n. n + 1) z)
  | inr s ↦
      let g = get-raised name other row ∙ if_false (text_eq name other) _ _ s in
      rw (g, s) (omega arith)
]

zero_more : (b : Bool) (n : ℕ) → n ≡ n + (if b then 0 else 0)
zero_more true n = omega arith
zero_more false n = omega arith

counter-bump :
    (name other id j : Text) (counts : Counts)
    → counter other j (bump name id counts)
      ≡ counter other j counts + (if text_eq name other then one_if (text_eq id j) else 0)
unfolding bump
counter-bump name other id j counts = elim (Bool-cases (text_eq id j)) [
  | inl s ↦
      let q : id ≡ j = (text_eq_iff id j).0 s in
      let g =
        Dict.get-set by_text id j (raise_count name (or_new (Dict.get by_text id counts))) counts
        ∙ if_true (text_eq id j) _ _ s in
      rw (g, s, q) (get-raise_count name other (or_new (Dict.get by_text j counts)))
  | inr s ↦
      let g =
        Dict.get-set by_text id j (raise_count name (or_new (Dict.get by_text id counts))) counts
        ∙ if_false (text_eq id j) _ _ s in
      rw (g, s) (zero_more (text_eq name other) (counter other j counts))
]

one_more :
    (b a : Bool) (n k : ℕ)
    → n + (if b then one_if a else 0) + (if b then k else 0) ≡ n + (if b then one_if a + k else 0)
one_more true true n k = omega arith
one_more true false n k = omega arith
one_more false true n k = omega arith
one_more false false n k = omega arith

counter-bump_all :
    (name other j : Text) (ids : List Text) (counts : Counts)
    → counter other j (bump_all name ids counts)
      ≡ counter other j counts + (if text_eq name other then occurrences j ids else 0)
unfolding bump_all occurrences
counter-bump_all name other j [] counts = ground arith
counter-bump_all name other j (id ∷ ids) counts =
    rw
      (counter-bump_all name other j ids (bump name id counts), counter-bump name other id j counts)
      (one_more (text_eq name other) (text_eq id j) (counter other j counts) (occurrences j ids))

abbrev noted : Decision → Counts → Counts
noted d counts = bump_all (codes "errors") d.errors (bump_all (codes "matched") d.applied counts)

-- The counters of a rule after a decision.
abbrev pub Counted : Text → Decision → Counts → Counts → Type 0
Counted j d old new =
    (counter (codes "matched") j new ≡ counter (codes "matched") j old + occurrences j d.applied)
    × (counter (codes "errors") j new ≡ counter (codes "errors") j old + occurrences j d.errors)
    × (counter (codes "dropped") j new
        ≡ counter (codes "dropped") j old + one_if (d.dropped && text_eq d.rule_id j))
    × (counter (codes "changed") j new
        ≡ counter (codes "changed") j old + one_if (not d.dropped && is_last j d.applied))

plus_zero : (n : ℕ) → n ≡ n + 0
plus_zero n = omega arith

only_first : (n k a : ℕ) → n ≡ k + a + 0 + 0 → n ≡ k + a
only_first n k a h = omega arith

only_second : (n k a : ℕ) → n ≡ k + 0 + a + 0 → n ≡ k + a
only_second n k a h = omega arith

only_third : (n k a : ℕ) → n ≡ k + 0 + 0 + a → n ≡ k + a
only_third n k a h = omega arith

without_first : (n k a : ℕ) → n ≡ k + 0 + a → n ≡ k + a
without_first n k a h = omega arith

without_second : (n k a : ℕ) → n ≡ k + a + 0 → n ≡ k + a
without_second n k a h = omega arith

counter-noted :
    (other j : Text) (d : Decision) (counts : Counts)
    → counter other j (noted d counts)
      ≡ counter other j counts
        + (if text_eq (codes "matched") other then occurrences j d.applied else 0)
        + (if text_eq (codes "errors") other then occurrences j d.errors else 0)
counter-noted other j d counts =
    counter-bump_all (codes "errors") other j d.errors (bump_all (codes "matched") d.applied counts)
    ∙ ap (λ n. n + (if text_eq (codes "errors") other then occurrences j d.errors else 0))
        (counter-bump_all (codes "matched") other j d.applied counts)

module _ (j : Text) (d : Decision) (counts : Counts) where
  -- A decision that ends by raising one counter of a rule.
  counter-ended :
      (name id other : Text)
      → counter other j (bump name id (noted d counts))
        ≡ counter other j counts
          + (if text_eq (codes "matched") other then occurrences j d.applied else 0)
          + (if text_eq (codes "errors") other then occurrences j d.errors else 0)
          + (if text_eq name other then one_if (text_eq id j) else 0)
  counter-ended name id other =
      counter-bump name other id j (noted d counts)
      ∙ ap (λ n. n + (if text_eq name other then one_if (text_eq id j) else 0))
          (counter-noted other j d counts)

  dropped-Counted :
      Counted j
        (record d { dropped = true })
        counts
        (count_decision (record d { dropped = true }) counts)
  unfolding count_decision text_eq
  dropped-Counted =
      let by = counter-ended (codes "dropped") d.rule_id in
      (
        only_first _ _ _ (by (codes "matched")),
        only_second _ _ _ (by (codes "errors")),
        only_third _ _ _ (by (codes "dropped")),
        only_third _ _ _ (by (codes "changed")),
      )

  kept-Counted :
      Counted j
        (record d { dropped = false })
        counts
        (count_decision (record d { dropped = false }) counts)
  unfolding count_decision text_eq
  kept-Counted =
      elim (last_of d.applied)
        as (λ o.
          let new = bump_changed o (noted d counts) in
          (counter (codes "matched") j new
            ≡ counter (codes "matched") j counts + occurrences j d.applied)
          × (counter (codes "errors") j new
              ≡ counter (codes "errors") j counts + occurrences j d.errors)
          × (counter (codes "dropped") j new ≡ counter (codes "dropped") j counts + 0)
          × (counter (codes "changed") j new
              ≡ counter (codes "changed") j counts + one_if (is_id o j))) [
                | none ↦
                    let by = λ (other : Text). counter-noted other j d counts in
                    (
                      without_second _ _ _ (by (codes "matched")),
                      without_first _ _ _ (by (codes "errors")),
                      without_second _ _ _ (by (codes "dropped")),
                      without_second _ _ _ (by (codes "changed")),
                    )
                | some id ↦
                    let by = counter-ended (codes "changed") id in
                    (
                      only_first _ _ _ (by (codes "matched")),
                      only_second _ _ _ (by (codes "errors")),
                      only_third _ _ _ (by (codes "dropped")),
                      only_third _ _ _ (by (codes "changed")),
                    )
              ]

  count_decision-Counted : Counted j d counts (count_decision d counts)
  count_decision-Counted =
      elim d.dropped
        as (λ b.
          Counted j (record d { dropped = b }) counts
            (count_decision (record d { dropped = b }) counts)) [
              | true ↦ dropped-Counted
              | false ↦ kept-Counted
            ]

no_decision-Counted : (j : Text) (counts : Counts) → Counted j (kept [] []) counts counts
unfolding occurrences last_of
no_decision-Counted j counts =
    let by = λ (other : Text). plus_zero (counter other j counts) in
    (by (codes "matched"), by (codes "errors"), by (codes "dropped"), by (codes "changed"))

module _ {Regex : Type 0} {S : Type 0} (sub : Regex → Text → Text → Option Text)
    (sha256 : Text → Text) (identity : NormalizedEvent → ℕ)
    (matches : Rule → Flat → NormalizedEvent → S → Option Bool × S) where
  -- apply raises the counters of each rule: matched and errors by how often the decision lists its
  -- id there, dropped for the rule of a drop, and changed for the last rule applied to an event that
  -- is kept. No other counter of those four changes.
  pub apply-Counted :
      (ix : ActionIndex Regex) (e : NormalizedEvent) (st : S) (j : Text)
      → let r = apply sub sha256 identity matches ix e st in Counted j r.0 ix.counts r.3.counts
  unfolding apply
  apply-Counted ix e st j =
      elim ix.actions
        as (λ actions.
          let r = apply sub sha256 identity matches (record ix { actions = actions }) e st in
          Counted j r.0 ix.counts r.3.counts) [
            | [] ↦ no_decision-Counted j ix.counts
            | a ∷ actions ↦
                count_decision-Counted j (decide sub sha256 identity matches (a ∷ actions) e st).0
                  ix.counts
          ]
