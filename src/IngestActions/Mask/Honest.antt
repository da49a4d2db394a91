-- ===== src/IngestActions/Mask/Honest.antt =====
-- What `apply_mask` and `apply_route` of `app/ingest_actions.py` return is true: where they report no
-- change, the event is as before.
use siem_lite.Prelude.{
  ℕ, ◌≡◌, refl, ap, ◌∙◌, Bool, true, false, not, List, [], ◌∷◌, Option, none, some, is_empty,
}
use siem_lite.Prelude.Dict
use siem_lite.Text.Chars.{Text, codes, text as by_text, text_eq}
use siem_lite.Value.Defs.{Value, null, boolean, int, real, str, list, dict, entries}
use siem_lite.Value.Event.{NormalizedEvent}
use siem_lite.IngestActions.{
  TextColumn, product, log_type, text, InetColumn, IntColumn, Column, inet, number, PatternSpec,
  MaskSpec, RouteSpec,
}
use siem_lite.IngestActions.Columns.{text_columns, text_of, set_text, inet_of, number_of}
use siem_lite.IngestActions.Raw.{
  Outcome, IsHonest, and_then, for_each, and_then-IsHonest, for_each-IsHonest, branch-IsHonest,
  raw_get, walk_fields-IsHonest,
}
use siem_lite.IngestActions.Scrub.{literal_scrubber}
use siem_lite.IngestActions.Mask.{
  put_text, set_raw, mask_text, mask_inet, mask_number, mask_column, add_pair, mask_columns,
  is_blank, mask_key, sub_column, pattern_column, sub_raw, pattern_raw, apply_pattern, scrub_text,
  scrub_column, scrub_columns, walk_raw, walk_pattern, scrub_pairs, scrub_all, apply_mask, is_given,
  route_text, route_vendor, is_index, route_index, apply_route,
}

put_text-IsHonest :
    (cur : Text) (o : Option Text) (e : NormalizedEvent) (write : Text → Outcome NormalizedEvent)
    → ((t : Text) → IsHonest e (write t))
    → IsHonest e (put_text cur o e write)
put_text-IsHonest cur none e write h = λ q. refl
put_text-IsHonest cur (some new) e write h =
    branch-IsHonest e (text_eq new cur) (e, some false) (write new) (λ q. refl) (h new)

set_raw-IsHonest : (o : Option Value) (e : NormalizedEvent) → IsHonest e (set_raw o e)
set_raw-IsHonest none e = λ q. refl
set_raw-IsHonest (some (dict fs)) e = λ q. absurd (cc)
set_raw-IsHonest (some null) e = λ q. refl
set_raw-IsHonest (some (boolean b)) e = λ q. refl
set_raw-IsHonest (some (int n)) e = λ q. refl
set_raw-IsHonest (some (real t)) e = λ q. refl
set_raw-IsHonest (some (str s)) e = λ q. refl
set_raw-IsHonest (some (list vs)) e = λ q. refl

module _ {Regex : Type 0} (sub : Regex → Text → Text → Option Text) (sha256 : Text → Text) where
  mask_text-none :
      (spec : MaskSpec Regex) (c : TextColumn) (o : Option Text) (e : NormalizedEvent)
      → (mask_text sub sha256 spec c o e).1 ≡ none
      → (mask_text sub sha256 spec c o e).0 ≡ e
  mask_text-none spec c none e h = refl
  mask_text-none spec c (some []) e h = refl
  mask_text-none spec c (some (x ∷ s)) e h = absurd (cc)

  mask_inet-none :
      (spec : MaskSpec Regex) (c : InetColumn) (o : Option Text) (e : NormalizedEvent)
      → (mask_inet sub sha256 spec c o e).1 ≡ none
      → (mask_inet sub sha256 spec c o e).0 ≡ e
  mask_inet-none spec c none e h = refl
  mask_inet-none spec c (some []) e h = refl
  mask_inet-none spec c (some (x ∷ s)) e h = absurd (cc)

  mask_number-none :
      (spec : MaskSpec Regex) (c : IntColumn) (o : Option ℕ) (e : NormalizedEvent)
      → (mask_number sub sha256 spec c o e).1 ≡ none
      → (mask_number sub sha256 spec c o e).0 ≡ e
  mask_number-none spec c none e h = refl
  mask_number-none spec c (some n) e h = absurd (cc)

  mask_column-none :
      (spec : MaskSpec Regex) (c : Column) (e : NormalizedEvent)
      → (mask_column sub sha256 spec c e).1 ≡ none
      → (mask_column sub sha256 spec c e).0 ≡ e
  unfolding mask_column
  mask_column-none spec (text c) e h = mask_text-none spec c (text_of c e) e h
  mask_column-none spec (inet c) e h = mask_inet-none spec c (inet_of c e) e h
  mask_column-none spec (number c) e h = mask_number-none spec c (number_of c e) e h

  add_pair-nil :
      (o : Option (Text × Text)) (pairs : List (Text × Text))
      → add_pair sub sha256 o pairs ≡ []
      → (o ≡ none) × (pairs ≡ [])
  add_pair-nil none pairs h = (refl, h)
  add_pair-nil (some p) pairs h = absurd (cc)

  -- Without a pair the event is as before.
  mask_columns-nil :
      (spec : MaskSpec Regex) (columns : List Column) (e : NormalizedEvent)
      → (mask_columns sub sha256 spec columns e).1 ≡ []
      → (mask_columns sub sha256 spec columns e).0 ≡ e
  unfolding mask_columns
  mask_columns-nil spec [] e h = refl
  mask_columns-nil spec (c ∷ columns) e h =
      let e₁ = (mask_column sub sha256 spec c e).0 in
      let (p, q) =
        add_pair-nil (mask_column sub sha256 spec c e).1 (mask_columns sub sha256 spec columns e₁).1
          h in
      mask_columns-nil spec columns e₁ q ∙ mask_column-none spec c e p

  empty_nil : (pairs : List (Text × Text)) → some (not (is_empty pairs)) ≡ some false → pairs ≡ []
  empty_nil [] h = refl
  empty_nil (p ∷ pairs) h = absurd (cc)

  mask_key-IsHonest :
      (spec : MaskSpec Regex) (path : List Text) (e : NormalizedEvent)
      → IsHonest e (mask_key sub sha256 spec path e)
  unfolding mask_key
  mask_key-IsHonest spec path e =
      branch-IsHonest e (is_blank sub sha256 (raw_get (dict e.raw) path)) (e, some false) _
        (λ q. refl) (set_raw-IsHonest _ e)

  sub_column-IsHonest :
      (pat : PatternSpec Regex) (c : TextColumn) (o : Option Text) (e : NormalizedEvent)
      → IsHonest e (sub_column sub sha256 pat c o e)
  sub_column-IsHonest pat c none e = λ q. refl
  sub_column-IsHonest pat c (some []) e = λ q. refl
  sub_column-IsHonest pat c (some (x ∷ s)) e = put_text-IsHonest (x ∷ s) _ e _ (λ t q. absurd (cc))

  pattern_column-IsHonest :
      (pat : PatternSpec Regex) (o : Option TextColumn) (e : NormalizedEvent)
      → IsHonest e (pattern_column sub sha256 pat o e)
  pattern_column-IsHonest pat none e = λ q. refl
  pattern_column-IsHonest pat (some c) e = sub_column-IsHonest pat c (text_of c e) e

  sub_raw-IsHonest :
      (pat : PatternSpec Regex) (v : Value) (e : NormalizedEvent)
      → IsHonest e (sub_raw sub sha256 pat v e)
  sub_raw-IsHonest pat (str []) e = λ q. refl
  sub_raw-IsHonest pat (str (x ∷ s)) e = put_text-IsHonest (x ∷ s) _ e _ (λ t. set_raw-IsHonest _ e)
  sub_raw-IsHonest pat null e = λ q. refl
  sub_raw-IsHonest pat (boolean b) e = λ q. refl
  sub_raw-IsHonest pat (int n) e = λ q. refl
  sub_raw-IsHonest pat (real t) e = λ q. refl
  sub_raw-IsHonest pat (list vs) e = λ q. refl
  sub_raw-IsHonest pat (dict fs) e = λ q. refl

  pattern_raw-IsHonest :
      (pat : PatternSpec Regex) (path : List Text) (e : NormalizedEvent)
      → IsHonest e (pattern_raw sub sha256 pat path e)
  pattern_raw-IsHonest pat [] e = λ q. refl
  pattern_raw-IsHonest pat (k ∷ path) e = sub_raw-IsHonest pat (raw_get (dict e.raw) (k ∷ path)) e

  apply_pattern-IsHonest :
      (pat : PatternSpec Regex) (e : NormalizedEvent) → IsHonest e (apply_pattern sub sha256 pat e)
  unfolding apply_pattern
  apply_pattern-IsHonest pat e =
      and_then-IsHonest e _ (pattern_raw sub sha256 pat pat.raw_path)
        (pattern_column-IsHonest pat pat.field_name e)
        (λ b. pattern_raw-IsHonest pat pat.raw_path b)

  scrub_text-IsHonest :
      (f : Text → Text) (c : TextColumn) (o : Option Text) (e : NormalizedEvent)
      → IsHonest e (scrub_text sub sha256 f c o e)
  scrub_text-IsHonest f c none e = λ q. refl
  scrub_text-IsHonest f c (some []) e = λ q. refl
  scrub_text-IsHonest f c (some (x ∷ s)) e =
      put_text-IsHonest (x ∷ s) (some (f (x ∷ s))) e (λ new. (set_text c (some new) e, some true))
        (λ t q. absurd (cc))

  walk_raw-IsHonest :
      (f : Text → Option Text) (e : NormalizedEvent) → IsHonest e (walk_raw sub sha256 f e)
  walk_raw-IsHonest f e = λ q. ap (λ fs. record e { raw = fs }) (walk_fields-IsHonest f 0 e.raw q)

  walk_pattern-IsHonest :
      (pat : PatternSpec Regex) (o : Option TextColumn) (e : NormalizedEvent)
      → IsHonest e (walk_pattern sub sha256 pat o e)
  walk_pattern-IsHonest pat none e = λ q. refl
  walk_pattern-IsHonest pat (some c) e = walk_raw-IsHonest (sub pat.regex pat.replacement) e

  scrub_pairs-IsHonest :
      (pairs : List (Text × Text)) (e : NormalizedEvent)
      → IsHonest e (scrub_pairs sub sha256 pairs e)
  unfolding scrub_pairs scrub_columns
  scrub_pairs-IsHonest [] e = λ q. refl
  scrub_pairs-IsHonest (p ∷ pairs) e =
      let f = literal_scrubber (p ∷ pairs) in
      and_then-IsHonest e _ (walk_raw sub sha256 (λ s. some (f s)))
        (for_each-IsHonest (scrub_column sub sha256 f) text_columns e
          (λ c b. scrub_text-IsHonest f c (text_of c b) b))
        (λ b. walk_raw-IsHonest (λ s. some (f s)) b)

  scrub_all-IsHonest :
      (scrub : Bool) (spec : MaskSpec Regex) (pairs : List (Text × Text)) (e : NormalizedEvent)
      → IsHonest e (scrub_all sub sha256 scrub spec pairs e)
  unfolding scrub_all
  scrub_all-IsHonest false spec pairs e = λ q. refl
  scrub_all-IsHonest true spec pairs e =
      and_then-IsHonest e (scrub_pairs sub sha256 pairs e) _ (scrub_pairs-IsHonest pairs e) (λ b.
        for_each-IsHonest _ spec.patterns b (λ pat x. walk_pattern-IsHonest pat pat.field_name x))

  -- A mask that reports no change left the event as it was.
  pub apply_mask-IsHonest :
      (spec : MaskSpec Regex) (e : NormalizedEvent) → IsHonest e (apply_mask sub sha256 spec e)
  unfolding apply_mask
  apply_mask-IsHonest spec e =
      let first = mask_columns sub sha256 spec spec.fields e in
      and_then-IsHonest e
        (and_then
          (and_then (first.0, some (not (is_empty first.1)))
            (for_each (mask_key sub sha256 spec) spec.raw_keys))
          (for_each (apply_pattern sub sha256) spec.patterns))
        (scrub_all sub sha256 spec.scrub spec first.1)
        (and_then-IsHonest e
          (and_then (first.0, some (not (is_empty first.1)))
            (for_each (mask_key sub sha256 spec) spec.raw_keys))
          (for_each (apply_pattern sub sha256) spec.patterns)
          (and_then-IsHonest e (first.0, some (not (is_empty first.1)))
            (for_each (mask_key sub sha256 spec) spec.raw_keys)
            (λ q. mask_columns-nil spec spec.fields e (empty_nil first.1 q))
            (λ b.
              for_each-IsHonest (mask_key sub sha256 spec) spec.raw_keys b
                (λ path x. mask_key-IsHonest spec path x)))
          (λ b.
            for_each-IsHonest (apply_pattern sub sha256) spec.patterns b
              (λ pat x. apply_pattern-IsHonest pat x)))
        (λ b. scrub_all-IsHonest spec.scrub spec first.1 b)

route_text-IsHonest :
    (c : TextColumn) (o : Option Text) (e : NormalizedEvent) → IsHonest e (route_text c o e)
route_text-IsHonest c none e = λ q. refl
route_text-IsHonest c (some want) e =
    branch-IsHonest e (is_given (text_of c e) want) _ _ (λ q. refl) (λ q. absurd (cc))

route_vendor-IsHonest : (o : Option Text) (e : NormalizedEvent) → IsHonest e (route_vendor o e)
route_vendor-IsHonest none e = λ q. refl
route_vendor-IsHonest (some want) e =
    branch-IsHonest e (text_eq e.vendor want) _ _ (λ q. refl) (λ q. absurd (cc))

route_index-IsHonest : (o : Option Text) (e : NormalizedEvent) → IsHonest e (route_index o e)
route_index-IsHonest none e = λ q. refl
route_index-IsHonest (some index) e =
    branch-IsHonest e (is_index (Dict.get by_text (codes "_index") (entries e.raw)) index) _ _
      (λ q. refl) (λ q. absurd (cc))

-- A route that reports no change left the event as it was.
pub apply_route-IsHonest :
    (spec : RouteSpec) (e : NormalizedEvent) → IsHonest e (apply_route spec e)
unfolding apply_route text_eq
apply_route-IsHonest spec e =
    and_then-IsHonest e _ (route_index spec.index)
      (and_then-IsHonest e _ (route_text log_type spec.log_type)
        (and_then-IsHonest e (route_vendor spec.vendor e) (route_text product spec.product)
          (route_vendor-IsHonest spec.vendor e) (λ b. route_text-IsHonest product spec.product b))
        (λ b. route_text-IsHonest log_type spec.log_type b))
      (λ b. route_index-IsHonest spec.index b)
