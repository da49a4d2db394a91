-- ===== src/Response/Reverts.antt =====
-- `process_due_reverts` of `app/response/revert.py` leaves nothing due.
use siem_lite.Prelude.{
  ℕ, zero, suc, ap₂, In, here, there, ◌≤◌, ◌==◌, ◌≡◌, refl, sym, ap, ◌∙◌, Bool, true, false, not,
  ◌&&◌, ◌||◌, List, [], ◌∷◌, none, arith, inl, inr, Bool-cases, any_of, any_of-append, keep, take,
  length, leb, ==_refl,
}
use siem_lite.Prelude.Sort.{sorted, any_of-sorted, length-sorted}
use siem_lite.Response.{
  Action, Row, is_due, due_reverts, mark_reverted, store_record, execute_revert, RevertWorld,
  revert_all, process_due_reverts, time_or_zero,
}

-- Is the row one of these?
abbrev pub is_among : List Row → ℕ → Bool
is_among rows id = any_of (λ (d : Row). d.id == id) rows

any_of-mark :
    (now id : ℕ) (q : ℕ → Bool) (table : List Row)
    → any_of (λ r. is_due now r && q r.id) (mark_reverted id now table)
      ≡ any_of (λ r. is_due now r && (not (id == r.id) && q r.id)) table
unfolding mark_reverted
any_of-mark now id q [] = refl
any_of-mark now id q (r ∷ table) = elim (Bool-cases (r.id == id)) [
  | inl e ↦
      let f : (id == r.id) ≡ true = ground arith in
      rw (e, f) (ground (arith, any_of-mark now id q table))
  | inr e ↦
      let f : (id == r.id) ≡ false = ground arith in
      rw (e, f) (ap (λ b. (is_due now r && q r.id) || b) (any_of-mark now id q table))
]

-- The record of a revert is never due itself.
any_of-store :
    (now fresh : ℕ) (stored : Bool) (rec : Action) (q : ℕ → Bool) (table : List Row)
    → rec.revert_at ≡ none
    → any_of (λ r. is_due now r && q r.id) (store_record stored fresh rec table)
      ≡ any_of (λ r. is_due now r && q r.id) table
any_of-store now fresh false rec q table h = refl
any_of-store now fresh true rec q table h =
    any_of-append (λ r. is_due now r && q r.id) table
      (record { id = fresh; action = rec; reverted_at = none } ∷ [])
    ∙ rw h (ground arith)

any_of-ext {ℓ} :
    {A : Type ℓ} (p q : A → Bool) (xs : List A) → ((x : A) → p x ≡ q x) → any_of p xs ≡ any_of q xs
any_of-ext p q [] h = refl
any_of-ext p q (x ∷ xs) h = ap₂ (λ a b. a || b) (h x) (any_of-ext p q xs h)

and_true : (b : Bool) → (b && true) ≡ b
and_true true = refl
and_true false = refl

split_guard : (due a b q : Bool) → (due && (not a && (not b && q))) ≡ (due && (not (a || b) && q))
split_guard due true b q = refl
split_guard due false b q = refl

-- After the loop the rows that are due are those that were due before and are not among its rows.
due-revert_all :
    (w : RevertWorld) (now : ℕ) (rows table : List Row) (q : ℕ → Bool)
    → any_of (λ r. is_due now r && q r.id) (revert_all w now rows table)
      ≡ any_of (λ r. is_due now r && (not (is_among rows r.id) && q r.id)) table
unfolding revert_all
due-revert_all w now [] table q = refl
due-revert_all w now (d ∷ rows) table q =
    let rest = λ (id : ℕ). not (is_among rows id) && q id in
    let rec = execute_revert w.url (w.error d) d in
    let stored = store_record (w.stored d) (w.fresh d) rec table in
    due-revert_all w now rows (mark_reverted d.id now stored) q
    ∙ any_of-mark now d.id rest stored
    ∙ any_of-store now (w.fresh d) (w.stored d) rec (λ id. not (d.id == id) && rest id) table
        (unfold execute_revert in refl)
    ∙ any_of-ext _ _ table
        (λ r. split_guard (is_due now r) (d.id == r.id) (is_among rows r.id) (q r.id))

keep-among :
    (now : ℕ) (r : Row) {table : List Row}
    → In r table
    → is_due now r ≡ true
    → is_among (keep (is_due now) table) r.id ≡ true
keep-among now r (here {x} {xs} e) h =
    let k = ap (is_due now) e ∙ h in
    let same = ap (λ (y : Row). y.id == r.id) e ∙ ==_refl r.id in rw k (ground (arith, same))
keep-among now r (there {x} {xs} i) h =
    let k = keep-among now r i h in
    elim (Bool-cases (is_due now x)) [ inl e ↦ rw e (ground (arith, k)) | inr e ↦ rw e k ]

none_left :
    (now : ℕ) (found : ℕ → Bool) (table : List Row)
    → ((r : Row) → In r table → is_due now r ≡ true → found r.id ≡ true)
    → any_of (λ r. is_due now r && (not (found r.id) && true)) table ≡ false
none_left now found [] h = refl
none_left now found (r ∷ table) h =
    let rest = none_left now found table (λ s i k. h s (there i) k) in
    elim (Bool-cases (is_due now r)) [
      | inl e ↦ let f = h r (here refl) e in rw (e, f) rest
      | inr e ↦ rw e rest
    ]

take_enough {ℓ} : {A : Type ℓ} (n : ℕ) (xs : List A) → length xs ≤ n → take n xs ≡ xs
take_enough zero [] h = refl
take_enough zero (x ∷ xs) h = absurd (omega arith)
take_enough (suc n) [] h = refl
take_enough (suc n) (x ∷ xs) h = ap (◌∷◌ x) (take_enough n xs (omega arith))

-- A run whose limit holds all the actions that are due leaves none due, also where a POST or an
-- insert fails: a bad endpoint is not asked again for the same action.
pub process_due_reverts-none :
    (w : RevertWorld) (now limit : ℕ) (table : List Row)
    → length (keep (is_due now) table) ≤ limit
    → any_of (is_due now) (process_due_reverts w now limit table) ≡ false
unfolding process_due_reverts due_reverts
process_due_reverts-none w now limit table h =
    let le =
      λ (a b : Row). leb (time_or_zero a.action.revert_at) (time_or_zero b.action.revert_at) in
    let rows = sorted le (keep (is_due now) table) in
    let whole =
      take_enough limit rows (omega (arith, h, length-sorted le (keep (is_due now) table))) in
    let found = λ (r : Row) (i : In r table) (k : is_due now r ≡ true).
      any_of-sorted le (λ (d : Row). d.id == r.id) (keep (is_due now) table)
      ∙ keep-among now r i k in
    ap (λ due. any_of (is_due now) (revert_all w now due table)) whole
    ∙ any_of-ext _ _ (revert_all w now rows table) (λ r. sym (and_true (is_due now r)))
    ∙ due-revert_all w now rows table (λ id. true)
    ∙ none_left now (is_among rows) table found
