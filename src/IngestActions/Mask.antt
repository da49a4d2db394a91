-- ===== src/IngestActions/Mask.antt =====
-- `apply_mask` and `apply_route` of `app/ingest_actions.py`. `sub` is `re.sub` with a compiled pattern,
-- a replacement and a text; none is its exception, for a replacement that names no group.
pub mod Honest
use siem_lite.Prelude.{
  ℕ, zero, suc, ◌≡◌, refl, ap, ◌∙◌, Bool, true, false, not, ◌&&◌, ◌||◌, List, [], ◌∷◌, ◌++◌, Option,
  none, some, if◌then◌else◌, is_empty, some_eq,
}
use siem_lite.Prelude.Dict
use siem_lite.Text.Chars.{Text, codes, text as by_text, text_eq, text_eq_iff}
use siem_lite.Text.Number.{show_number}
use siem_lite.Value.Defs.{Value, null, boolean, int, real, str, list, dict, Fields, entries}
use siem_lite.Value.Event.{NormalizedEvent}
use siem_lite.Value.Render.{show}
use siem_lite.IngestActions.{
  TextColumn, product, log_type, text, InetColumn, IntColumn, Column, inet, number, PatternSpec,
  MaskSpec, RouteSpec,
}
use siem_lite.IngestActions.Columns.{
  text_columns, text_of, set_text, inet_of, set_inet, number_of, set_number,
}
use siem_lite.IngestActions.Raw.{
  Outcome, IsHonest, and_then, for_each, and_then-IsHonest, for_each-IsHonest, branch-IsHonest,
  raw_get, put, raw_set, walk_fields, walk_fields-IsHonest,
}
use siem_lite.IngestActions.Scrub.{hash_value, pseudo_ip, literal_scrubber}

-- The event with a column rewritten, and what the scrubbing is to remove.
abbrev pub Masked : Type 0
Masked = NormalizedEvent × Option (Text × Text)

abbrev pub as_text : Option Text → Text → Text
as_text none replacement = replacement
as_text (some t) replacement = t

-- A regex's result put into a text: raised, the same or changed.
abbrev pub put_text :
    Text
    → Option Text
    → NormalizedEvent
    → (Text → Outcome NormalizedEvent)
    → Outcome NormalizedEvent
put_text cur none e write = (e, none)
put_text cur (some new) e write = elim (text_eq new cur) [
  | true ↦ (e, some false)
  | false ↦ write new
]

-- `raw` after a `raw_set`.
abbrev pub set_raw : Option Value → NormalizedEvent → Outcome NormalizedEvent
set_raw none e = (e, some false)
set_raw (some (dict fs)) e = (record e { raw = fs }, some true)
set_raw (some v) e = (e, some false)

abbrev pub with_raw : Outcome Fields → NormalizedEvent → Outcome NormalizedEvent
with_raw (fs, r) e = (record e { raw = fs }, r)

module _ {Regex : Type 0} (sub : Regex → Text → Text → Option Text) (sha256 : Text → Text) where
  abbrev new_text : MaskSpec Regex → Text → Text
  new_text spec cur = if spec.hashes then hash_value sha256 cur spec.salt else spec.replacement

  abbrev new_inet : MaskSpec Regex → Text → Option Text
  new_inet spec cur =
      if spec.hashes then some (pseudo_ip sha256 cur spec.salt) else spec.inet_replacement

  abbrev shown_number : Option ℕ → Text → Text
  shown_number none replacement = replacement
  shown_number (some n) replacement = show_number n

  abbrev mask_text : MaskSpec Regex → TextColumn → Option Text → NormalizedEvent → Masked
  mask_text spec c none e = (e, none)
  mask_text spec c (some []) e = (e, none)
  mask_text spec c (some (x ∷ s)) e =
      (set_text c (some (new_text spec (x ∷ s))) e, some (x ∷ s, new_text spec (x ∷ s)))

  abbrev mask_inet : MaskSpec Regex → InetColumn → Option Text → NormalizedEvent → Masked
  mask_inet spec c none e = (e, none)
  mask_inet spec c (some []) e = (e, none)
  mask_inet spec c (some (x ∷ s)) e = (
    set_inet c (new_inet spec (x ∷ s)) e,
    some (x ∷ s, as_text (new_inet spec (x ∷ s)) spec.replacement),
  )

  abbrev mask_number : MaskSpec Regex → IntColumn → Option ℕ → NormalizedEvent → Masked
  mask_number spec c none e = (e, none)
  mask_number spec c (some n) e = (
    set_number c spec.int_replacement e,
    some (show_number n, shown_number spec.int_replacement spec.replacement),
  )

  -- `_mask_column`
  unfoldable pub mask_column : MaskSpec Regex → Column → NormalizedEvent → Masked
  unfolding pseudo_ip show_number
  mask_column spec (text c) e = mask_text spec c (text_of c e) e
  mask_column spec (inet c) e = mask_inet spec c (inet_of c e) e
  mask_column spec (number c) e = mask_number spec c (number_of c e) e

  abbrev pub add_pair : Option (Text × Text) → List (Text × Text) → List (Text × Text)
  add_pair none pairs = pairs
  add_pair (some pair) pairs = pair ∷ pairs

  -- The loop over `spec.fields`, with its `pairs`.
  unfoldable pub mask_columns :
      MaskSpec Regex → List Column → NormalizedEvent → NormalizedEvent × List (Text × Text)
  unfolding mask_column
  mask_columns spec [] e = (e, [])
  mask_columns spec (c ∷ columns) e =
      let (e₁, pair) = mask_column spec c e in
      let (e₂, pairs) = mask_columns spec columns e₁ in (e₂, add_pair pair pairs)

  abbrev is_blank : Value → Bool
  is_blank null = true
  is_blank (str []) = true
  is_blank v = false

  -- The loop over `spec.raw_keys`.
  unfoldable pub mask_key : MaskSpec Regex → List Text → NormalizedEvent → Outcome NormalizedEvent
  unfolding raw_get raw_set show
  mask_key spec path e =
      let cur = raw_get (dict e.raw) path in
      elim (is_blank cur) [
        | true ↦ (e, some false)
        | false ↦ set_raw (raw_set (dict e.raw) path (str (new_text spec (show cur)))) e
      ]

  abbrev sub_column :
      PatternSpec Regex → TextColumn → Option Text → NormalizedEvent → Outcome NormalizedEvent
  sub_column pat c none e = (e, some false)
  sub_column pat c (some []) e = (e, some false)
  sub_column pat c (some (x ∷ s)) e =
      put_text (x ∷ s) (sub pat.regex pat.replacement (x ∷ s)) e
        (λ new. (set_text c (some new) e, some true))

  abbrev pattern_column :
      PatternSpec Regex → Option TextColumn → NormalizedEvent → Outcome NormalizedEvent
  pattern_column pat none e = (e, some false)
  pattern_column pat (some c) e = sub_column pat c (text_of c e) e

  abbrev sub_raw : PatternSpec Regex → Value → NormalizedEvent → Outcome NormalizedEvent
  sub_raw pat (str []) e = (e, some false)
  sub_raw pat (str (x ∷ s)) e =
      put_text (x ∷ s) (sub pat.regex pat.replacement (x ∷ s)) e
        (λ new. set_raw (raw_set (dict e.raw) pat.raw_path (str new)) e)
  sub_raw pat v e = (e, some false)

  abbrev pattern_raw : PatternSpec Regex → List Text → NormalizedEvent → Outcome NormalizedEvent
  pattern_raw pat [] e = (e, some false)
  pattern_raw pat (k ∷ path) e = sub_raw pat (raw_get (dict e.raw) (k ∷ path)) e

  -- The loop over `spec.patterns`.
  unfoldable pub apply_pattern : PatternSpec Regex → NormalizedEvent → Outcome NormalizedEvent
  unfolding raw_get raw_set text_eq
  apply_pattern pat e =
      and_then (pattern_column pat pat.field_name e) (pattern_raw pat pat.raw_path)

  abbrev scrub_text :
      (Text → Text) → TextColumn → Option Text → NormalizedEvent → Outcome NormalizedEvent
  scrub_text f c none e = (e, some false)
  scrub_text f c (some []) e = (e, some false)
  scrub_text f c (some (x ∷ s)) e =
      put_text (x ∷ s) (some (f (x ∷ s))) e (λ new. (set_text c (some new) e, some true))

  abbrev scrub_column : (Text → Text) → TextColumn → NormalizedEvent → Outcome NormalizedEvent
  scrub_column f c e = scrub_text f c (text_of c e) e

  -- `_scrub_columns`
  unfoldable pub scrub_columns : (Text → Text) → NormalizedEvent → Outcome NormalizedEvent
  unfolding for_each text_eq
  scrub_columns f = for_each (scrub_column f) text_columns

  abbrev walk_raw : (Text → Option Text) → NormalizedEvent → Outcome NormalizedEvent
  walk_raw f e = with_raw (walk_fields f 0 e.raw) e

  abbrev walk_pattern :
      PatternSpec Regex → Option TextColumn → NormalizedEvent → Outcome NormalizedEvent
  walk_pattern pat none e = (e, some false)
  walk_pattern pat (some c) e = walk_raw (sub pat.regex pat.replacement) e

  -- The scrubbing of the pairs.
  unfoldable pub scrub_pairs : List (Text × Text) → NormalizedEvent → Outcome NormalizedEvent
  unfolding scrub_columns walk_fields literal_scrubber
  scrub_pairs [] e = (e, some false)
  scrub_pairs (p ∷ pairs) e =
      let f = literal_scrubber (p ∷ pairs) in
      and_then (scrub_columns f e) (walk_raw (λ s. some (f s)))

  -- The end of `apply_mask`, under `spec.scrub`.
  unfoldable pub scrub_all :
      Bool → MaskSpec Regex → List (Text × Text) → NormalizedEvent → Outcome NormalizedEvent
  unfolding scrub_pairs for_each walk_fields
  scrub_all false spec pairs e = (e, some false)
  scrub_all true spec pairs e =
      and_then (scrub_pairs pairs e)
        (for_each (λ pat. walk_pattern pat pat.field_name) spec.patterns)

  -- `apply_mask`
  unfoldable pub apply_mask : MaskSpec Regex → NormalizedEvent → Outcome NormalizedEvent
  unfolding mask_columns for_each mask_key apply_pattern scrub_all
  apply_mask spec e =
      let (e₁, pairs) = mask_columns spec spec.fields e in
      and_then
        (and_then
          (and_then (e₁, some (not (is_empty pairs))) (for_each (mask_key spec) spec.raw_keys))
          (for_each apply_pattern spec.patterns))
        (scrub_all spec.scrub spec pairs)

abbrev is_given : Option Text → Text → Bool
is_given none want = false
is_given (some t) want = text_eq t want

abbrev route_text : TextColumn → Option Text → NormalizedEvent → Outcome NormalizedEvent
route_text c none e = (e, some false)
route_text c (some want) e = elim (is_given (text_of c e) want) [
  | true ↦ (e, some false)
  | false ↦ (set_text c (some want) e, some true)
]

abbrev route_vendor : Option Text → NormalizedEvent → Outcome NormalizedEvent
route_vendor none e = (e, some false)
route_vendor (some want) e = elim (text_eq e.vendor want) [
  | true ↦ (e, some false)
  | false ↦ (record e { vendor = want }, some true)
]

abbrev is_index : Option Value → Text → Bool
is_index (some (str t)) index = text_eq t index
is_index v index = false

abbrev route_index : Option Text → NormalizedEvent → Outcome NormalizedEvent
route_index none e = (e, some false)
route_index (some index) e =
    elim (is_index (Dict.get by_text (codes "_index") (entries e.raw)) index) [
      | true ↦ (e, some false)
      | false ↦ (record e { raw = put (codes "_index") (str index) e.raw }, some true)
    ]

-- `apply_route`
unfoldable pub apply_route : RouteSpec → NormalizedEvent → Outcome NormalizedEvent
unfolding text_eq Dict.get entries put
apply_route spec e =
    and_then
      (and_then (and_then (route_vendor spec.vendor e) (route_text product spec.product))
        (route_text log_type spec.log_type))
      (route_index spec.index)
