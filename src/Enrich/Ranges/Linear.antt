-- ===== src/Enrich/Ranges/Linear.antt =====
-- `_search` against a scan of the table, and the two tables of `app/enrich/ranges.py`.
use siem_lite.Prelude.{
  ℕ, zero, suc, ◌≤◌, ◌<◌, ◌≡◌, refl, sym, ap, ◌∙◌, Bool, true, ◌&&◌, List, [], ◌∷◌, arith, ltb, leb,
  length, map, All, all_of, if◌then◌else◌, &&-eq-true,
}
use siem_lite.Text.Chars.{Text}
use siem_lite.Enrich.Ranges.{
  Address, v4, v6, public, Row, row_of, table_of, build, at, bisect_right, pick, search, v4_ranges,
  v6_ranges, label_of,
}
use siem_lite.Enrich.Ranges.Bisect.{IsAscending, Splits, bisect_right-Splits}

-- The label of the first range that holds the value.
abbrev pub find_label : ℕ → List Row → Text
find_label v [] = public
find_label v (r ∷ rs) = if leb r.start v && leb v r.stop then r.label else find_label v rs

-- Each range ends before all later ones start.
abbrev pub AreOrdered : List Row → Type 0
AreOrdered [] = Unit {0}
AreOrdered (r ∷ rs) = (r.start ≤ r.stop) × All (λ (s : Row). r.stop < s.start) rs × AreOrdered rs

abbrev starts_of : List Row → List ℕ
starts_of rows = map (λ (r : Row). r.start) rows

All-at :
    (n : ℕ) (rows : List Row) (i : ℕ)
    → All (λ (s : Row). n < s.start) rows
    → i < length (starts_of rows)
    → n < at 0 (starts_of rows) i
All-at n [] i h k = absurd (omega arith)
All-at n (r ∷ rs) zero h k = h.0
All-at n (r ∷ rs) (suc i) h k = All-at n rs i h.1 (omega arith)

AreOrdered-IsAscending : (rows : List Row) → AreOrdered rows → IsAscending (starts_of rows)
AreOrdered-IsAscending [] o i j h k = absurd (omega arith)
AreOrdered-IsAscending (r ∷ rs) o zero zero h k = omega arith
AreOrdered-IsAscending (r ∷ rs) o zero (suc j) h k =
    omega (arith, o.0, All-at r.stop rs j o.1 (omega arith))
AreOrdered-IsAscending (r ∷ rs) o (suc i) zero h k = absurd (omega arith)
AreOrdered-IsAscending (r ∷ rs) o (suc i) (suc j) h k =
    AreOrdered-IsAscending rs o.2 i j (omega arith) (omega arith)

Splits-tail : (x : ℕ) (a : List ℕ) (v r : ℕ) → Splits (x ∷ a) v (suc r) → Splits a v r
Splits-tail x a v r s = record {
  inside = let k = s.inside in omega arith;
  before = λ i h. s.before (suc i) (omega arith);
  after = λ i h k. s.after (suc i) (omega arith) (omega arith);
}

-- A value below every start is in no range.
find_label-above :
    (v : ℕ) (rows : List Row)
    → ((i : ℕ) → i < length (starts_of rows) → v < at 0 (starts_of rows) i)
    → find_label v rows ≡ public
find_label-above v [] h = refl
find_label-above v (r ∷ rs) h =
    let k = h 0 (omega arith) in
    let rest = find_label-above v rs (λ i l. h (suc i) (omega arith)) in ground (arith, rest)

pick-find_label :
    (v : ℕ) (rows : List Row) (r : ℕ)
    → AreOrdered rows
    → Splits (starts_of rows) v r
    → pick v (table_of rows) r ≡ find_label v rows
pick-find_label v [] zero o s = refl
pick-find_label v [] (suc r) o s = let k = s.inside in absurd (omega arith)
pick-find_label v (x ∷ rest) zero o s =
    sym (find_label-above v (x ∷ rest) (λ i h. s.after i (omega arith) h))
pick-find_label v (x ∷ rest) (suc zero) o s =
    let k = s.before 0 (omega arith) in
    let t = Splits-tail x.start (starts_of rest) v 0 s in
    let q = find_label-above v rest (λ i h. t.after i (omega arith) h) in ground (arith, q)
pick-find_label v (x ∷ []) (suc (suc r)) o s = let k = s.inside in absurd (omega arith)
pick-find_label v (x ∷ y ∷ rest) (suc (suc r)) o s =
    let k = s.before 1 (omega arith) in
    let gap = o.1.0 in
    let q =
      pick-find_label v (y ∷ rest) (suc r) o.2
        (Splits-tail x.start (starts_of (y ∷ rest)) v (suc r) s) in
    ground (arith, q)

-- Over ranges that end before later ones start, the bisection finds the label that a scan finds.
pub search-find_label :
    (v : ℕ) (rows : List Row) → AreOrdered rows → search v (table_of rows) ≡ find_label v rows
unfolding search
search-find_label v rows o =
    pick-find_label v rows (bisect_right (starts_of rows) v) o
      (bisect_right-Splits (starts_of rows) v (AreOrdered-IsAscending rows o))

abbrev test_ordered : List Row → Bool
test_ordered [] = true
test_ordered (r ∷ rs) =
    leb r.start r.stop && (all_of (λ (s : Row). ltb r.stop s.start) rs && test_ordered rs)

All-all_of :
    (n : ℕ) (rows : List Row)
    → all_of (λ (s : Row). ltb n s.start) rows ≡ true
    → All (λ (s : Row). n < s.start) rows
All-all_of n [] h = tt
All-all_of n (r ∷ rs) h =
    let p = &&-eq-true (ltb n r.start) (all_of (λ (s : Row). ltb n s.start) rs) h in
    let q = p.0 in (ground arith, All-all_of n rs p.1)

AreOrdered-test : (rows : List Row) → test_ordered rows ≡ true → AreOrdered rows
AreOrdered-test [] h = tt
AreOrdered-test (r ∷ rs) h =
    let later = all_of (λ (s : Row). ltb r.stop s.start) rs in
    let p = &&-eq-true (leb r.start r.stop) (later && test_ordered rs) h in
    let q = &&-eq-true later (test_ordered rs) p.1 in
    let k = p.0 in (ground arith, All-all_of r.stop rs q.0, AreOrdered-test rs q.1)

-- The label of the range, as the tables are written, that holds an address.
abbrev pub written_label : Address → Text
written_label (v4 n) = find_label n (map (row_of 32) v4_ranges)
written_label (v6 n) = find_label n (map (row_of 128) v6_ranges)

build-v4 : build 32 v4_ranges ≡ table_of (map (row_of 32) v4_ranges)
unfolding build
build-v4 = refl

build-v6 : build 128 v6_ranges ≡ table_of (map (row_of 128) v6_ranges)
unfolding build
build-v6 = refl

-- For every address the bisection of the sorted tables finds the label of the range, as the tables
-- are written, that holds it, and `public` where none does.
pub label_of-written_label : (a : Address) → label_of a ≡ written_label a
unfolding label_of
label_of-written_label (v4 n) =
    ap (search n) build-v4
    ∙ search-find_label n (map (row_of 32) v4_ranges)
        (AreOrdered-test (map (row_of 32) v4_ranges) refl)
label_of-written_label (v6 n) =
    ap (search n) build-v6
    ∙ search-find_label n (map (row_of 128) v6_ranges)
        (AreOrdered-test (map (row_of 128) v6_ranges) refl)
