-- ===== src/Detection/Logsource.antt =====
-- `_logsource_matches`. `none` is the exception that Python raises.
use siem_lite.Prelude.{
  Bool, true, false, not, ◌&&◌, ◌||◌, List, [], ◌∷◌, Option, none, some, if◌then◌else◌,
}
use siem_lite.Prelude.Dict
use siem_lite.Text.Chars.{Text, codes, text, text_eq, lower, member}
use siem_lite.Value.Defs.{Value, null, truthy, holds_key, item_at}
use siem_lite.Value.Render.{show}
use siem_lite.Detection.Flatten.{Flat}
use siem_lite.Prelude.Options.{◌>>=◌}

-- `_PRODUCT_VENDOR`
abbrev pub product_vendor : List (Text × List Text)
product_vendor =
    (codes "windows", codes "microsoft" ∷ [])
    ∷ (codes "linux", codes "linux" ∷ codes "syslog" ∷ [])
    ∷ (codes "aws", codes "aws" ∷ [])
    ∷ (codes "gcp", codes "gcp" ∷ [])
    ∷ (codes "azure", codes "microsoft" ∷ [])
    ∷ []

abbrev same_value : Value → Value → Bool
same_value null want = false
same_value got want = text_eq (lower (show got)) (lower (show want))

-- `flat.get(name)`
unfoldable pub column : Flat → Text → Value
unfolding Dict.get text_eq
column flat name = elim (Dict.get text name flat) [ none ↦ null | some v ↦ v ]

-- `ok`
unfoldable pub column_is : Flat → Text → Value → Bool
unfolding column lower show text_eq
column_is flat name want = same_value (column flat name) want

-- `"key" in ls and not ok(name, ls["key"])`, turned round: the key is absent or its value fits.
unfoldable pub fits : Value → Text → Flat → Text → Option Bool
unfolding column_is holds_key item_at
fits ls key flat name = do
  present ← holds_key key ls
  if present then (do want ← item_at key ls; some (column_is flat name want)) else some true

abbrev vendors_of : Option (List Text) → List Text
vendors_of none = []
vendors_of (some vs) = vs

-- `gv and str(gv).lower() in mapped`
unfoldable pub vendor_maps : Flat → Value → Bool
unfolding column lower show text_eq member Dict.get truthy
vendor_maps flat product =
    let mapped = vendors_of (Dict.get text (lower (show product)) product_vendor) in
    let gv = column flat (codes "vendor") in truthy gv && member (lower (show gv)) mapped

unfoldable pub product_fits : Value → Flat → Option Bool
unfolding column_is vendor_maps holds_key item_at
product_fits ls flat = do
  present ← holds_key (codes "product") ls
  if present
      then (do
        want ← item_at (codes "product") ls
        some (column_is flat (codes "product") want || vendor_maps flat want))
      else some true

-- One guard after another: the first that fails decides, and so does the first that raises.
abbrev pub and_then : Option Bool → Option Bool → Option Bool
and_then none r = none
and_then (some false) r = some false
and_then (some true) r = r

unfoldable pub logsource_matches : Value → Flat → Option Bool
unfolding fits product_fits truthy
logsource_matches ls flat =
    if not (truthy ls)
    then some true
    else and_then (fits ls (codes "vendor") flat (codes "vendor")) (
        and_then (fits ls (codes "log_type") flat (codes "log_type"))
          (and_then (fits ls (codes "service") flat (codes "log_type")) (product_fits ls flat)))
