-- ===== src/Enrich/Ranges.antt =====
-- `app/enrich/ranges.py`: the scope of an address, from two tables of ranges.
--
-- An address is the integer that `int(addr)` gives, with its version. The parsers of the package
-- ipaddress enter as a record; an event's value is any JSON-like value.
pub mod Bisect
pub mod Linear
pub mod Memo
use siem_lite.Prelude.{
  ℕ, zero, suc, ◌+◌, ◌-◌, ◌*◌, ◌/◌, ◌%◌, ◌^◌, ◌==◌, Bool, true, false, ◌&&◌, List, [], ◌∷◌, Option,
  none, some, map, if◌then◌else◌, ltb, leb, length, is_empty,
}
use siem_lite.Prelude.Dict
use siem_lite.Prelude.Sort.{sorted}
use siem_lite.Text.Chars.{Text, codes, text, text_eq, strip}
use siem_lite.Value.Defs.{Value, str, or_else}
use siem_lite.Value.Render.{show}

pub data Address : Type 0 where
  v4 : ℕ → Address
  v6 : ℕ → Address

-- `ipaddress.ip_address` and `ipaddress.ip_interface(s).ip`, `none` for a ValueError
pub record Parsers : Type 0 where
  pub ip_address : Text → Option Address
  pub ip_interface : Text → Option Address

abbrev pub public : Text
public = codes "public"

-- A network of the tables as written: its address, its prefix length, its label.
pub record Entry : Type 0 where
  pub address : ℕ
  pub prefix : ℕ
  pub label : Text

abbrev quad : ℕ → ℕ → ℕ → ℕ → ℕ
quad a b c d = ((a * 256 + b) * 256 + c) * 256 + d

-- The first two groups of an IPv6 address whose other groups are 0.
abbrev hextets : ℕ → ℕ → ℕ
hextets a b = (a * 65536 + b) * 2 ^ 96

abbrev range : ℕ → ℕ → Text → Entry
range address prefix label = record { address = address; prefix = prefix; label = label }

abbrev pub v4_ranges : List Entry
v4_ranges =
    range (quad 0 0 0 0) 8 (codes "reserved")
    ∷ range (quad 10 0 0 0) 8 (codes "private")
    ∷ range (quad 100 64 0 0) 10 (codes "cgnat")
    ∷ range (quad 127 0 0 0) 8 (codes "loopback")
    ∷ range (quad 169 254 0 0) 16 (codes "link-local")
    ∷ range (quad 172 16 0 0) 12 (codes "private")
    ∷ range (quad 192 0 0 0) 24 (codes "reserved")
    ∷ range (quad 192 0 2 0) 24 (codes "documentation")
    ∷ range (quad 192 88 99 0) 24 (codes "reserved")
    ∷ range (quad 192 168 0 0) 16 (codes "private")
    ∷ range (quad 198 18 0 0) 15 (codes "reserved")
    ∷ range (quad 198 51 100 0) 24 (codes "documentation")
    ∷ range (quad 203 0 113 0) 24 (codes "documentation")
    ∷ range (quad 224 0 0 0) 4 (codes "multicast")
    ∷ range (quad 240 0 0 0) 4 (codes "reserved")
    ∷ []

abbrev pub v6_ranges : List Entry
v6_ranges =
    range 0 128 (codes "reserved")
    ∷ range 1 128 (codes "loopback")
    ∷ range (hextets 0x64 0xff9b) 96 (codes "reserved")
    ∷ range (hextets 0x64 0xff9b + 2 ^ 80) 48 (codes "reserved")
    ∷ range (hextets 0x100 0) 64 (codes "reserved")
    ∷ range (hextets 0x2001 0) 23 (codes "reserved")
    ∷ range (hextets 0x2001 0xdb8) 32 (codes "documentation")
    ∷ range (hextets 0x2002 0) 16 (codes "reserved")
    ∷ range (hextets 0x3fff 0) 20 (codes "documentation")
    ∷ range (hextets 0xfc00 0) 7 (codes "private")
    ∷ range (hextets 0xfe80 0) 10 (codes "link-local")
    ∷ range (hextets 0xfec0 0) 10 (codes "private")
    ∷ range (hextets 0xff00 0) 8 (codes "multicast")
    ∷ []

-- A row of `_build`: the first and the last address of a network.
pub record Row : Type 0 where
  pub start : ℕ
  pub stop : ℕ
  pub label : Text

abbrev pub row_of : ℕ → Entry → Row
row_of width e = record {
  start = e.address;
  stop = e.address + (2 ^ (width - e.prefix) - 1);
  label = e.label;
}

-- No two networks of the tables start at the same address, so the order of tuples is that of the
-- starts.
abbrev pub row_le : Row → Row → Bool
row_le a b = leb a.start b.start

pub record Table : Type 0 where
  pub starts : List ℕ
  pub ends : List ℕ
  pub labels : List Text

abbrev pub table_of : List Row → Table
table_of rows = record {
  starts = map (λ (r : Row). r.start) rows;
  ends = map (λ (r : Row). r.stop) rows;
  labels = map (λ (r : Row). r.label) rows;
}

-- `_build`
unfoldable pub build : ℕ → List Entry → Table
unfolding sorted
build width entries = table_of (sorted row_le (map (row_of width) entries))

-- `xs[i]`; no index below is out of range.
abbrev pub at {ℓ} : {A : Type ℓ} → A → List A → ℕ → A
at d [] i = d
at d (x ∷ xs) zero = x
at d (x ∷ xs) (suc i) = at d xs i

-- `bisect_right(a, x)`: one round halves the part of the list between `lo` and `hi`.
pub bisect_from : ℕ → List ℕ → ℕ → ℕ → ℕ → ℕ
bisect_from zero a x lo hi = lo
bisect_from (suc fuel) a x lo hi = elim (ltb lo hi) [
  | false ↦ lo
  | true ↦ elim (ltb x (at 0 a ((lo + hi) / 2))) [
    | true ↦ bisect_from fuel a x lo ((lo + hi) / 2)
    | false ↦ bisect_from fuel a x ((lo + hi) / 2 + 1) hi
  ]
]

unfoldable pub bisect_right : List ℕ → ℕ → ℕ
unfolding bisect_from
bisect_right a x = bisect_from (length a) a x 0 (length a)

-- `_search` for the index that `bisect_right` gives
abbrev pub pick : ℕ → Table → ℕ → Text
pick value t zero = public
pick value t (suc i) = if leb value (at 0 t.ends i) then at public t.labels i else public

-- `_search`
unfoldable pub search : ℕ → Table → Text
unfolding bisect_right
search value t = pick value t (bisect_right t.starts value)

-- `addr.ipv4_mapped`
abbrev pub unmapped : Address → Address
unmapped (v4 n) = v4 n
unmapped (v6 n) = if n / 2 ^ 32 == 0xffff then v4 (n % 2 ^ 32) else v6 n

abbrev pub first_address : Option Address → Option Address → Option Address
first_address (some a) b = some (unmapped a)
first_address none (some b) = some (unmapped b)
first_address none none = none

-- `parse_ip`, for a text
unfoldable pub parse_ip : Parsers → Text → Option Address
unfolding strip
parse_ip ip s =
    if is_empty (strip s)
    then none
    else first_address (ip.ip_address (strip s)) (ip.ip_interface (strip s))

unfoldable pub label_of : Address → Text
unfolding search build
label_of (v4 n) = search n (build 32 v4_ranges)
label_of (v6 n) = search n (build 128 v6_ranges)

abbrev pub labelled : Option Address → Option Text
labelled none = none
labelled (some a) = some (label_of a)

abbrev pub Memo : Type 0
Memo = List (Text × Option Text)

abbrev pub memo_max : ℕ
memo_max = 8192

abbrev pub scope_miss : Parsers → Text → Memo → Option Text × Memo
scope_miss ip s memo =
    let label = labelled (parse_ip ip s) in
    (label, Dict.set text s label (if leb memo_max (length memo) then [] else memo))

abbrev pub scope_after : Parsers → Text → Memo → Option (Option Text) → Option Text × Memo
scope_after ip s memo (some hit) = (hit, memo)
scope_after ip s memo none = scope_miss ip s memo

-- `scope`, with the memo of the module
unfoldable pub scope : Parsers → Value → Memo → Option Text × Memo
unfolding parse_ip strip or_else show Dict.get Dict.set text_eq label_of
scope ip value memo =
    let s = strip (show (or_else value (str []))) in
    if is_empty s then (none, memo) else scope_after ip s memo (Dict.get text s memo)

pub reset_memo : Memo → Memo
reset_memo memo = []
