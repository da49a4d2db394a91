-- ===== src/Enrich/Ranges/Memo.antt =====
-- The memo of `scope` changes no answer.
use siem_lite.Prelude.{
  ◌≤◌, ◌≡◌, refl, sym, ap, ◌∙◌, [], Option, none, some, arith, inl, inr, Bool-cases, leb, length,
  if◌then◌else◌, is_empty,
}
use siem_lite.Prelude.Dict
use siem_lite.Prelude.Dict.{get-set, length-set-le}
use siem_lite.Text.Chars.{Text, text, text_eq, text_eq_iff, strip}
use siem_lite.Value.Defs.{Value, str, or_else}
use siem_lite.Value.Render.{show}
use siem_lite.Enrich.Ranges.{
  Parsers, Memo, memo_max, parse_ip, labelled, scope_miss, scope_after, scope,
}

-- What the memo holds is what the tables say, and it is bounded.
abbrev IsTrue : Parsers → Memo → Type 0
IsTrue ip memo =
    (s : Text) (label : Option Text)
    → Dict.get text s memo ≡ some label
    → label ≡ labelled (parse_ip ip s)

pub record IsMemo (ip : Parsers) (memo : Memo) : Type 0 where
  pub entries_true : IsTrue ip memo
  pub bounded : length memo ≤ memo_max

-- The answer of `scope` with no memo.
abbrev pub fresh_scope : Parsers → Value → Option Text
fresh_scope ip value =
    let s = strip (show (or_else value (str []))) in
    if is_empty s then none else labelled (parse_ip ip s)

IsTrue-nil : (ip : Parsers) → IsTrue ip []
unfolding Dict.get
IsTrue-nil ip t label h = absurd (ground arith)

IsTrue-set :
    (ip : Parsers) (s : Text) (memo : Memo)
    → IsTrue ip memo
    → IsTrue ip (Dict.set text s (labelled (parse_ip ip s)) memo)
IsTrue-set ip s memo h t label e =
    let k = sym (get-set text s t (labelled (parse_ip ip s)) memo) ∙ e in
    elim (Bool-cases (text_eq s t)) [
      | inl f ↦
          let p = (text_eq_iff s t).0 f in
          let q = ap (λ u. labelled (parse_ip ip u)) p in ground (arith, q, k, f)
      | inr f ↦ h t label (ground (arith, k, f))
    ]

scope_miss-IsMemo :
    (ip : Parsers) (s : Text) (memo : Memo) → IsMemo ip memo → IsMemo ip (scope_miss ip s memo).1
scope_miss-IsMemo ip s memo m = elim (Bool-cases (leb memo_max (length memo))) [
  | inl e ↦ rw e (record {
    entries_true = IsTrue-set ip s [] (IsTrue-nil ip);
    bounded = let k = length-set-le text s (labelled (parse_ip ip s)) [] in omega (arith, k);
  })
  | inr e ↦ rw e (record {
    entries_true = IsTrue-set ip s memo m.entries_true;
    bounded = let k = length-set-le text s (labelled (parse_ip ip s)) memo in ground (arith, k);
  })
]

scope_after-IsMemo :
    (ip : Parsers) (s : Text) (memo : Memo) (hit : Option (Option Text))
    → Dict.get text s memo ≡ hit
    → IsMemo ip memo
    → ((scope_after ip s memo hit).0 ≡ labelled (parse_ip ip s))
      × IsMemo ip (scope_after ip s memo hit).1
scope_after-IsMemo ip s memo (some label) e m = (m.entries_true s label e, m)
scope_after-IsMemo ip s memo none e m = (refl, scope_miss-IsMemo ip s memo m)

-- With a memo that holds what the tables say, `scope` answers as with none, and the memo stays so
-- and within its bound.
pub scope-fresh_scope :
    (ip : Parsers) (value : Value) (memo : Memo)
    → IsMemo ip memo
    → ((scope ip value memo).0 ≡ fresh_scope ip value) × IsMemo ip (scope ip value memo).1
unfolding scope
scope-fresh_scope ip value memo m =
    let s = strip (show (or_else value (str []))) in
    elim (Bool-cases (is_empty s)) [
      | inl e ↦ rw e (refl, m)
      | inr e ↦ rw e (scope_after-IsMemo ip s memo (Dict.get text s memo) refl m)
    ]
