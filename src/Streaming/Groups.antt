-- ===== src/Streaming/Groups.antt =====
-- What `group_items` of `app/streaming.py` gathers.
use siem_lite.Prelude.{
  ℕ, ◌+◌, ◌≡◌, refl, sym, ap, ◌∙◌, ◌||◌, Bool, true, false, List, [], ◌∷◌, ◌++◌, Option, none, some,
  arith, inl, inr, Bool-cases, if◌then◌else◌, length, length-append, append-nil, append_assoc,
}
use siem_lite.Text.Chars.{Text, text_eq_iff}
use siem_lite.Value.Event.{NormalizedEvent}
use siem_lite.Streaming.{
  IngestItem, Source, maybe_eq, source_eq, source_of, Batches, extend, group_into, group_items,
}

maybe_eq→eq : (s t : Option Text) → maybe_eq s t ≡ true → s ≡ t
maybe_eq→eq none none h = refl
maybe_eq→eq none (some t) h = absurd (cc)
maybe_eq→eq (some s) none h = absurd (cc)
maybe_eq→eq (some s) (some t) h = ap some ((text_eq_iff s t).0 h)

maybe_eq_refl : (s : Option Text) → maybe_eq s s ≡ true
maybe_eq_refl none = refl
maybe_eq_refl (some s) = (text_eq_iff s s).1 refl

pub source_eq→eq : (a b : Source) → source_eq a b ≡ true → a ≡ b
source_eq→eq a b h = ground (
  arith,
  text_eq_iff a.fmt b.fmt,
  text_eq_iff a.source_type b.source_type,
  maybe_eq→eq a.source_addr b.source_addr,
  maybe_eq→eq a.vendor b.vendor,
)

pub source_eq_refl : (a : Source) → source_eq a a ≡ true
source_eq_refl a = ground (
  arith,
  text_eq_iff a.fmt a.fmt,
  text_eq_iff a.source_type a.source_type,
  maybe_eq_refl a.source_addr,
  maybe_eq_refl a.vendor,
)

source_eq-same : (i j k : Source) → source_eq i j ≡ true → source_eq i k ≡ source_eq j k
source_eq-same i j k h = ap (λ a. source_eq a k) (source_eq→eq i j h)

source_eq-other :
    (i j k : Source) → source_eq i j ≡ false → source_eq i k ≡ true → source_eq j k ≡ false
source_eq-other i j k h f = elim (Bool-cases (source_eq j k)) [
  | inl g ↦
      let p = source_eq→eq i k f ∙ sym (source_eq→eq j k g) in
      let q = sym (ap (source_eq i) p) ∙ source_eq_refl i in absurd (cc)
  | inr g ↦ g
]

source_eq_sym : (i j : Source) → source_eq i j ≡ false → source_eq j i ≡ false
source_eq_sym i j h = elim (Bool-cases (source_eq j i)) [
  | inl g ↦ let q = ap (source_eq i) (source_eq→eq j i g) ∙ source_eq_refl i in absurd (cc)
  | inr g ↦ g
]

-- The events that the groups hold for a source.
abbrev pub gathered : Source → Batches → List NormalizedEvent
gathered k [] = []
gathered k ((j, es) ∷ groups) = if source_eq j k then es else gathered k groups

-- The events of the items that came from a source, in the items' order.
abbrev pub events_of : Source → List IngestItem → List NormalizedEvent
events_of k [] = []
events_of k (item ∷ items) =
    if source_eq (source_of item) k then item.events ++ events_of k items else events_of k items

abbrev pub has_group : Source → Batches → Bool
has_group k [] = false
has_group k ((j, es) ∷ groups) = source_eq j k || has_group k groups

-- No source has two groups.
abbrev pub AreDistinct : Batches → Type 0
AreDistinct [] = Unit {0}
AreDistinct ((j, es) ∷ groups) = (has_group j groups ≡ false) × AreDistinct groups

gathered-extend :
    (k j : Source) (es : List NormalizedEvent) (groups : Batches)
    → gathered k (extend j es groups)
      ≡ (if source_eq j k then gathered k groups ++ es else gathered k groups)
unfolding extend
gathered-extend k j es [] = refl
gathered-extend k j es ((i, old) ∷ groups) = elim (Bool-cases (source_eq i j)) [
  | inl e ↦ let p = source_eq-same i j k e in rw e (ground (arith, p))
  | inr e ↦ elim (Bool-cases (source_eq i k)) [
    | inl f ↦ let g = source_eq-other i j k e f in rw (e, f, g) refl
    | inr f ↦ rw (e, f) (gathered-extend k j es groups)
  ]
]

has_group-extend :
    (k j : Source) (es : List NormalizedEvent) (groups : Batches)
    → has_group k (extend j es groups) ≡ (source_eq j k || has_group k groups)
unfolding extend
has_group-extend k j es [] = refl
has_group-extend k j es ((i, old) ∷ groups) = elim (Bool-cases (source_eq i j)) [
  | inl e ↦ let p = source_eq-same i j k e in rw e (ground (arith, p))
  | inr e ↦ rw e (ground (arith, has_group-extend k j es groups))
]

AreDistinct-extend :
    (j : Source) (es : List NormalizedEvent) (groups : Batches)
    → AreDistinct groups
    → AreDistinct (extend j es groups)
unfolding extend
AreDistinct-extend j es [] h = (refl, tt)
AreDistinct-extend j es ((i, old) ∷ groups) h = elim (Bool-cases (source_eq i j)) [
  | inl e ↦ rw e h
  | inr e ↦
      let g = source_eq_sym i j e in
      rw e (
        has_group-extend i j es groups ∙ ground (arith, g, h.0),
        AreDistinct-extend j es groups h.1,
      )
]

gathered-group_into :
    (k : Source) (groups : Batches) (items : List IngestItem)
    → gathered k (group_into groups items) ≡ gathered k groups ++ events_of k items
unfolding group_into
gathered-group_into k groups [] = sym (append-nil (gathered k groups))
gathered-group_into k groups (item ∷ items) =
    gathered-group_into k (extend (source_of item) item.events groups) items
    ∙ elim (Bool-cases (source_eq (source_of item) k)) [
      | inl e ↦
          rw (gathered-extend k (source_of item) item.events groups, e)
            (append_assoc (gathered k groups) item.events (events_of k items))
      | inr e ↦ rw (gathered-extend k (source_of item) item.events groups, e) refl
    ]

AreDistinct-group_into :
    (groups : Batches) (items : List IngestItem)
    → AreDistinct groups
    → AreDistinct (group_into groups items)
unfolding group_into
AreDistinct-group_into groups [] h = h
AreDistinct-group_into groups (item ∷ items) h =
    AreDistinct-group_into (extend (source_of item) item.events groups) items
      (AreDistinct-extend (source_of item) item.events groups h)

-- Grouping a buffer gives each source one group at most, and it holds the events of exactly the
-- items that came from the source, in their order.
pub group_items-gathered :
    (items : List IngestItem)
    → AreDistinct (group_items items)
      × ((k : Source) → gathered k (group_items items) ≡ events_of k items)
unfolding group_items
group_items-gathered items =
    (AreDistinct-group_into [] items tt, λ k. gathered-group_into k [] items)

-- How many events the groups, and the items of a buffer, hold.
abbrev pub batch_events : Batches → ℕ
batch_events [] = 0
batch_events ((j, es) ∷ groups) = length es + batch_events groups

abbrev pub item_events : List IngestItem → ℕ
item_events [] = 0
item_events (item ∷ items) = length item.events + item_events items

pub item_events-append :
    (xs ys : List IngestItem) → item_events (xs ++ ys) ≡ item_events xs + item_events ys
item_events-append [] ys = omega arith
item_events-append (x ∷ xs) ys = omega (arith, item_events-append xs ys)

batch_events-extend :
    (j : Source) (es : List NormalizedEvent) (groups : Batches)
    → batch_events (extend j es groups) ≡ length es + batch_events groups
unfolding extend
batch_events-extend j es [] = omega arith
batch_events-extend j es ((i, old) ∷ groups) = elim (Bool-cases (source_eq i j)) [
  | inl e ↦ rw e (omega (arith, length-append old es))
  | inr e ↦ rw e (omega (arith, batch_events-extend j es groups))
]

batch_events-group_into :
    (groups : Batches) (items : List IngestItem)
    → batch_events (group_into groups items) ≡ batch_events groups + item_events items
unfolding group_into
batch_events-group_into groups [] = omega arith
batch_events-group_into groups (item ∷ items) = omega (
  arith,
  batch_events-group_into (extend (source_of item) item.events groups) items,
  batch_events-extend (source_of item) item.events groups,
)

pub batch_events-group_items :
    (items : List IngestItem) → batch_events (group_items items) ≡ item_events items
unfolding group_items
batch_events-group_items items = omega (arith, batch_events-group_into [] items)
