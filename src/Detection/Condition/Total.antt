-- ===== src/Detection/Condition/Total.antt =====
-- The parser stops: its fuel, six for each token and six more, is enough for every input.
use siem_lite.Prelude.{
  ℕ, zero, suc, ◌+◌, ◌*◌, ◌≤◌, ◌<◌, ◌≡◌, refl, Bool, true, false, not, ◌&&◌, ◌||◌, [], ◌∷◌, Option,
  none, some, arith, length, is_empty, all_of, keep, In, here, Bool-cases, inl, inr, &&-eq-true,
}
use siem_lite.Text.Chars.{Text, codes}
use siem_lite.Text.Digits.{isdigit, int_of}
use siem_lite.Detection.Condition.{
  Tokens, Sel, Parsed, is_word, peek_is, next, opens, first_token, result_of, pattern_names,
  is_quantity, at_least_int, quantify, atom_plain, parse_or, or_tail, parse_and, and_tail,
  parse_not, parse_atom, parse, parse_fuel, eval_condition, tokenize,
}
use siem_lite.Detection.Condition.Run.{Outcome, done, value_error, out_of_fuel, ◌>>=◌}
use siem_lite.Detection.Condition.Suffix.{
  Suffix, whole, later, Suffix-trans, Suffix-length, In-Suffix, Suffix-next, Suffix-skip_close,
}

-- A token of these that `isdigit` accepts and `int` does not.
abbrev pub IsRefused : Tokens → Text → Type 0
IsRefused toks q = In q toks × (isdigit q ≡ true) × (int_of q ≡ none)

-- A run that ends: with a suffix of the tokens, or at a quantity among them that `int` refuses.
abbrev pub Stops : Tokens → Parsed → Type 0
Stops toks (done (v, rest)) = Suffix rest toks
Stops toks (value_error q) = IsRefused toks q
Stops toks out_of_fuel = ⊥

Stops-weaken : {r toks : Tokens} (p : Parsed) → Suffix r toks → Stops r p → Stops toks p
Stops-weaken (done (v, rest)) s h = Suffix-trans h s
Stops-weaken (value_error q) s (i, d, n) = (In-Suffix s i, d, n)
Stops-weaken out_of_fuel s h = h

Stops-bind :
    {r toks : Tokens} (p : Parsed) (f : Bool × Tokens → Parsed)
    → Suffix r toks
    → Stops r p
    → ((v : Bool) (rest : Tokens) → Suffix rest r → Stops toks (f (v, rest)))
    → Stops toks (p >>= f)
Stops-bind (done (v, rest)) f s h k = k v rest h
Stops-bind (value_error q) f s (i, d, n) k = (In-Suffix s i, d, n)
Stops-bind out_of_fuel f s h k = absurd h

-- A branch on a test.
Stops-split :
    (toks : Tokens) (b : Bool) (p q : Parsed)
    → (b ≡ true → Stops toks p)
    → (b ≡ false → Stops toks q)
    → Stops toks (elim b [ false ↦ q | true ↦ p ])
Stops-split toks true p q h k = h refl
Stops-split toks false p q h k = k refl

pub length-next :
    (toks : Tokens) (w : Text) → peek_is w toks ≡ true → suc (length (next toks)) ≡ length toks
length-next [] w h = absurd (ground arith)
length-next (t ∷ toks) w h = refl

pub opens-next : (toks : Tokens) → opens toks ≡ true → suc (length (next toks)) ≡ length toks
opens-next [] h = absurd (ground arith)
opens-next (t ∷ toks) h = refl

-- A quantity is `all`, or read by `int` or refused.
quantify-Stops :
    (sel : Sel) (t : Text) (pattern : Option Text) (rest toks : Tokens)
    → is_quantity t ≡ true
    → In t toks
    → Suffix rest toks
    → Stops toks (quantify sel t pattern >>= λ v. done (v, rest))
unfolding quantify
quantify-Stops sel t pattern rest toks h i s =
    let hits = length (keep (result_of sel) (pattern_names sel pattern)) in
    elim (Bool-cases (is_word (codes "all") t)) [
      | inl a ↦ rw a s
      | inr a ↦
          let d : isdigit t ≡ true = ground arith in
          rw a (
            (elim (int_of t)
                as (λ o.
                  int_of t ≡ o → Stops toks (at_least_int t hits o >>= λ v. done (v, rest))) [
                    | none ↦ λ q. (i, d, q)
                    | some n ↦ λ q. s
                  ])
              refl)
    ]

atom_plain-Stops : (sel : Sel) (toks : Tokens) → Stops toks (atom_plain sel toks)
unfolding atom_plain
atom_plain-Stops sel [] = whole
atom_plain-Stops sel (t ∷ toks) = elim (Bool-cases (is_quantity t && peek_is (codes "of") toks)) [
  | inl e ↦
      let (q, _) = &&-eq-true (is_quantity t) (peek_is (codes "of") toks) e in
      rw e (
        quantify-Stops sel t (first_token (next toks)) _ (t ∷ toks) q (here refl)
          (later (Suffix-trans (Suffix-next (next toks)) (Suffix-next toks))))
  | inr e ↦ rw e (later whole)
]

mutual
  unfolding parse_or

  pub parse_or-Stops :
      (f : ℕ) (sel : Sel) (toks : Tokens)
      → length toks * 6 + 5 < f
      → Stops toks (parse_or f sel toks)
  parse_or-Stops zero sel toks h = absurd (omega arith)
  parse_or-Stops (suc f) sel toks h =
      Stops-bind (parse_and f sel toks) _ whole (parse_and-Stops f sel toks (omega arith))
        (λ v rest s.
          let le = Suffix-length s in Stops-weaken _ s (or_tail-Stops f sel v rest (omega arith)))

  or_tail-Stops :
      (f : ℕ) (sel : Sel) (v : Bool) (toks : Tokens)
      → length toks * 6 < f
      → Stops toks (or_tail f sel v toks)
  or_tail-Stops zero sel v toks h = absurd (omega arith)
  or_tail-Stops (suc f) sel v toks h =
      Stops-split toks (peek_is (codes "or") toks) _ _
        (λ e.
          let d = length-next toks (codes "or") e in
          Stops-bind (parse_and f sel (next toks)) _ (Suffix-next toks)
            (parse_and-Stops f sel (next toks) (omega arith))
            (λ w rest s.
              let le = Suffix-length s in
              Stops-weaken _ (Suffix-trans s (Suffix-next toks))
                (or_tail-Stops f sel (w || v) rest (omega arith))))
        (λ e. whole)

  pub parse_and-Stops :
      (f : ℕ) (sel : Sel) (toks : Tokens)
      → length toks * 6 + 4 < f
      → Stops toks (parse_and f sel toks)
  parse_and-Stops zero sel toks h = absurd (omega arith)
  parse_and-Stops (suc f) sel toks h =
      Stops-bind (parse_not f sel toks) _ whole (parse_not-Stops f sel toks (omega arith))
        (λ v rest s.
          let le = Suffix-length s in Stops-weaken _ s (and_tail-Stops f sel v rest (omega arith)))

  and_tail-Stops :
      (f : ℕ) (sel : Sel) (v : Bool) (toks : Tokens)
      → length toks * 6 < f
      → Stops toks (and_tail f sel v toks)
  and_tail-Stops zero sel v toks h = absurd (omega arith)
  and_tail-Stops (suc f) sel v toks h =
      Stops-split toks (peek_is (codes "and") toks) _ _
        (λ e.
          let d = length-next toks (codes "and") e in
          Stops-bind (parse_not f sel (next toks)) _ (Suffix-next toks)
            (parse_not-Stops f sel (next toks) (omega arith))
            (λ w rest s.
              let le = Suffix-length s in
              Stops-weaken _ (Suffix-trans s (Suffix-next toks))
                (and_tail-Stops f sel (w && v) rest (omega arith))))
        (λ e. whole)

  pub parse_not-Stops :
      (f : ℕ) (sel : Sel) (toks : Tokens)
      → length toks * 6 + 3 < f
      → Stops toks (parse_not f sel toks)
  parse_not-Stops zero sel toks h = absurd (omega arith)
  parse_not-Stops (suc f) sel toks h =
      Stops-split toks (peek_is (codes "not") toks) _ _
        (λ e.
          let d = length-next toks (codes "not") e in
          Stops-bind (parse_not f sel (next toks)) _ (Suffix-next toks)
            (parse_not-Stops f sel (next toks) (omega arith))
            (λ w rest s. Suffix-trans s (Suffix-next toks)))
        (λ e. parse_atom-Stops f sel toks (omega arith))

  parse_atom-Stops :
      (f : ℕ) (sel : Sel) (toks : Tokens)
      → length toks * 6 + 2 < f
      → Stops toks (parse_atom f sel toks)
  parse_atom-Stops zero sel toks h = absurd (omega arith)
  parse_atom-Stops (suc f) sel toks h =
      Stops-split toks (opens toks) _ _
        (λ e.
          let d = opens-next toks e in
          Stops-bind (parse_or f sel (next toks)) _ (Suffix-next toks)
            (parse_or-Stops f sel (next toks) (omega arith))
            (λ w rest s. Suffix-trans (Suffix-skip_close rest) (Suffix-trans s (Suffix-next toks))))
        (λ e. atom_plain-Stops sel toks)

-- With the fuel that `parse` gives, the recursive descent ends.
pub parse_or-Stops_fuel :
    (sel : Sel) (toks : Tokens) → Stops toks (parse_or (parse_fuel toks) sel toks)
parse_or-Stops_fuel sel toks = parse_or-Stops (parse_fuel toks) sel toks (omega arith)

-- How the evaluation of a condition ends: with a value, or at a quantity among its tokens that
-- `int` refuses.
abbrev pub Ends : Tokens → Outcome Bool → Type 0
Ends toks (done v) = Unit
Ends toks (value_error q) = IsRefused toks q
Ends toks out_of_fuel = ⊥

Stops-Ends : (toks : Tokens) (p : Parsed) → Stops toks p → Ends toks (p >>= λ r. done r.0)
Stops-Ends toks (done (v, rest)) h = tt
Stops-Ends toks (value_error q) h = h
Stops-Ends toks out_of_fuel h = h

-- Every condition is evaluated to the end, whatever its tokens, and the fuel is enough: it has a
-- value, or raises the ValueError of a quantity among its tokens that isdigit accepts and int does not.
pub eval_condition-Ends :
    (condition : Text) (sel : Sel) → Ends (tokenize condition) (eval_condition condition sel)
unfolding eval_condition
eval_condition-Ends condition sel = go (tokenize condition)
  where
    go :
        (toks : Tokens)
        → Ends toks (elim toks [
          | [] ↦ done (not (is_empty sel) && all_of (λ (e : Text × Bool). e.1) sel)
          | t ∷ ts ↦ parse sel (t ∷ ts)
        ])
    go [] = tt
    go (t ∷ ts) = Stops-Ends (t ∷ ts) _ (parse_or-Stops_fuel sel (t ∷ ts))

-- What a run returns when it is known to return, measured.
pub Stops-rest :
    (toks : Tokens) {p : Parsed} {v : Bool} {r : Tokens}
    → p ≡ done (v, r)
    → Stops toks p
    → length r ≤ length toks
Stops-rest toks e h = Suffix-length (rw e at h)
