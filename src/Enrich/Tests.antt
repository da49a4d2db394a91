-- ===== src/Enrich/Tests.antt =====
-- Tests of the address ranges.
use siem_lite.Prelude.{◌≡◌, refl, List, [], ◌∷◌, none, some, if◌then◌else◌, arith}
use siem_lite.Prelude.Dict
use siem_lite.Text.Chars.{codes, text_eq}
use siem_lite.Value.Defs.{str}
use siem_lite.Enrich.Ranges.{v4, v6, Parsers, Row, table_of, search, label_of, scope}
use siem_lite.Enrich.Ranges.Linear.{
  find_label, written_label, search-find_label, label_of-written_label,
}
use siem_lite.Enrich.Ranges.Memo.{IsMemo, fresh_scope, scope-fresh_scope}

-- 10.1.2.3, 192.0.2.5, 8.8.8.8 and fe80::1
private_example : label_of (v4 167838211) ≡ codes "private"
unfolding label_of
private_example = refl

documentation_example : label_of (v4 3221225989) ≡ codes "documentation"
unfolding label_of
documentation_example = refl

public_example : label_of (v4 134744072) ≡ codes "public"
unfolding label_of
public_example = refl

link_local_example : label_of (v6 338288524927261089654018896841347694593) ≡ codes "link-local"
unfolding label_of
link_local_example = refl

abbrev two_rows : List Row
two_rows =
    record { start = 10; stop = 19; label = codes "low" }
    ∷ record { start = 30; stop = 39; label = codes "high" }
    ∷ []

search-find_label_example : search 35 (table_of two_rows) ≡ find_label 35 two_rows
search-find_label_example =
    search-find_label 35 two_rows (omega arith, (omega arith, tt), (omega arith, tt, tt))

label_of-written_label_example : label_of (v4 167838211) ≡ written_label (v4 167838211)
label_of-written_label_example = label_of-written_label (v4 167838211)

-- One address is known.
abbrev one_parser : Parsers
one_parser = record {
  ip_address = λ s. if text_eq s (codes "10.1.2.3") then some (v4 167838211) else none;
  ip_interface = λ s. none;
}

IsMemo-nil : IsMemo one_parser []
unfolding Dict.get
IsMemo-nil = record { entries_true = λ s label h. absurd (ground arith); bounded = omega arith }

scope_example : (scope one_parser (str (codes " 10.1.2.3 ")) []).0 ≡ some (codes "private")
unfolding scope
scope_example = refl

scope-fresh_scope_example :
    ((scope one_parser (str (codes " 10.1.2.3 ")) []).0
      ≡ fresh_scope one_parser (str (codes " 10.1.2.3 ")))
    × IsMemo one_parser (scope one_parser (str (codes " 10.1.2.3 ")) []).1
scope-fresh_scope_example = scope-fresh_scope one_parser (str (codes " 10.1.2.3 ")) [] IsMemo-nil
