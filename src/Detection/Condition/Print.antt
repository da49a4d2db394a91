-- ===== src/Detection/Condition/Print.antt =====
-- Conditions as trees, their meaning, how they are written down with the precedence of Sigma
-- (`not` over `and` over `or`, both to the left), and that `_Cond` reads them back.
use siem_lite.Prelude.{
  ℕ, ◌≤◌, ◌≡◌, refl, Bool, true, false, not, ◌&&◌, ◌||◌, List, [], ◌∷◌, ◌++◌, some, arith, length,
  keep, all_of, is_empty, leb, ◌==◌, append_assoc, subst, append-nil,
}
use siem_lite.Text.Chars.{Text, codes, text_eq, lower}
use siem_lite.Text.Number.{show_number, read-show_number, digits_only-show_number, digits_only}
use siem_lite.Text.Digits.{max_int_digits, digits_only-isdigit, int_of-read_number}
use siem_lite.Detection.Condition.Run.{done}
use siem_lite.Detection.Condition.{
  Tokens, Sel, is_word, is_quantity, peek_is, atom_plain, result_of, pattern_names, quantify, parse,
}
use siem_lite.Detection.Condition.Grammar.{
  OrG, or_seq, OrTail, or_stop, or_step, AndG, and_seq, AndTail, and_stop, and_step, NotG, negated,
  plain, group, single, parse-OrG,
}

-- `every p` is `all of p`, and `at_least k p` is `k of p`.
pub data Cond : Type 0 where
  name : Text → Cond
  every : Text → Cond
  at_least : ℕ → Text → Cond
  neg : Cond → Cond
  conj : Cond → Cond → Cond
  disj : Cond → Cond → Cond

unfoldable pub meaning : Sel → Cond → Bool
meaning sel (name n) = result_of sel n
meaning sel (every p) =
    let ns = pattern_names sel (some p) in not (is_empty ns) && all_of (result_of sel) ns
meaning sel (at_least k p) = leb k (length (keep (result_of sel) (pattern_names sel (some p))))
meaning sel (neg c) = not (meaning sel c)
meaning sel (conj a b) = meaning sel a && meaning sel b
meaning sel (disj a b) = meaning sel a || meaning sel b

pub data Level : Type 0 where
  or_level and_level not_level : Level

abbrev parens : Tokens → Tokens
parens ts = codes "(" ∷ ts ++ codes ")" ∷ []

abbrev at_or_level : Level → Tokens → Tokens
at_or_level or_level ts = ts
at_or_level _ ts = parens ts

abbrev at_and_level : Level → Tokens → Tokens
at_and_level not_level ts = parens ts
at_and_level _ ts = ts

unfoldable pub print : Level → Cond → Tokens
print l (name n) = n ∷ []
print l (every p) = codes "all" ∷ codes "of" ∷ p ∷ []
print l (at_least k p) = show_number k ∷ codes "of" ∷ p ∷ []
print l (neg c) = codes "not" ∷ print not_level c
print l (conj a b) = at_and_level l (print and_level a ++ codes "and" ∷ print not_level b)
print l (disj a b) = at_or_level l (print or_level a ++ codes "or" ∷ print and_level b)

-- A selection's name that no keyword, parenthesis or quantity is spelled like.
abbrev pub IsName : Text → Type 0
IsName n =
    (is_word (codes "not") n ≡ false) × (text_eq n (codes "(") ≡ false) × (is_quantity n ≡ false)

-- A quantity that `int` reads, which has at most 4300 digits.
abbrev pub IsReadable : ℕ → Type 0
IsReadable k = leb (length (show_number k)) max_int_digits ≡ true

abbrev pub HasNames : Cond → Type 0
HasNames (name n) = IsName n
HasNames (every p) = Unit
HasNames (at_least k p) = IsReadable k
HasNames (neg c) = HasNames c
HasNames (conj a b) = HasNames a × HasNames b
HasNames (disj a b) = HasNames a × HasNames b

length-keep-le {ℓ} : {A : Type ℓ} (p : A → Bool) (xs : List A) → length (keep p xs) ≤ length xs
length-keep-le p [] = omega arith
length-keep-le p (x ∷ xs) = ground (arith, length-keep-le p xs)

-- As many hits as names: every name hits.
keep-all_of {ℓ} :
    {A : Type ℓ} (p : A → Bool) (xs : List A) → (length (keep p xs) == length xs) ≡ all_of p xs
keep-all_of p [] = refl
keep-all_of p (x ∷ xs) = ground (arith, keep-all_of p xs, length-keep-le p xs)

and_swap : (a b : Bool) → (a && b) ≡ (b && a)
and_swap a b = ground arith

or_swap : (a b : Bool) → (a || b) ≡ (b || a)
or_swap a b = ground arith

-- A text of digits is no keyword and no parenthesis.
digits_not_words :
    (s : Text)
    → digits_only s ≡ true
    → (is_word (codes "not") s ≡ false)
      × (text_eq s (codes "(") ≡ false)
      × (is_word (codes "all") s ≡ false)
unfolding digits_only lower text_eq
digits_not_words [] h = absurd (ground arith)
digits_not_words (c ∷ s) h = (ground arith, ground arith, ground arith)

module _ (sel : Sel) where
  -- How the three levels of the descent read the three prints of one condition.
  record Reads (c : Cond) : Type 0 where
    at_not : (rest : Tokens) → NotG sel (print not_level c ++ rest) (meaning sel c) rest
    at_and :
        (rest q : Tokens) (w : Bool)
        → AndTail sel (meaning sel c) rest w q
        → AndG sel (print and_level c ++ rest) w q
    at_or :
        (rest q : Tokens) (w : Bool)
        → peek_is (codes "and") rest ≡ false
        → OrTail sel (meaning sel c) rest w q
        → OrG sel (print or_level c ++ rest) w q

  -- A condition that prints alike at every level.
  Reads-flat :
      (c : Cond)
      → print and_level c ≡ print not_level c
      → print or_level c ≡ print not_level c
      → ((rest : Tokens) → NotG sel (print not_level c ++ rest) (meaning sel c) rest)
      → Reads c
  Reads-flat c p q h = record {
    at_not = h;
    at_and = λ rest r w tail. rw p (and_seq (h rest) tail);
    at_or = λ rest r w stop tail. rw q (or_seq (and_seq (h rest) (and_stop stop)) tail);
  }

  Reads-name : (n : Text) → IsName n → Reads (name n)
  unfolding print meaning atom_plain
  Reads-name n (a, b, c) = Reads-flat (name n) refl refl λ rest. plain a (single b (ground arith))

  atom_quantity :
      (q p : Text) (rest : Tokens) (v : Bool)
      → is_quantity q ≡ true
      → quantify sel q (some p) ≡ done v
      → atom_plain sel (q ∷ codes "of" ∷ p ∷ rest) ≡ done (v, rest)
  unfolding atom_plain
  atom_quantity q p rest v e h = rw (e, h)

  quantify-every : (p : Text) → quantify sel (codes "all") (some p) ≡ done (meaning sel (every p))
  unfolding quantify meaning
  quantify-every p = rw keep-all_of

  Reads-every : (p : Text) → Reads (every p)
  unfolding print lower text_eq
  Reads-every p = Reads-flat (every p) refl refl λ rest.
      plain refl (single refl (atom_quantity (codes "all") p rest _ refl (quantify-every p)))

  quantify-at_least :
      (k : ℕ) (p : Text)
      → is_word (codes "all") (show_number k) ≡ false
      → IsReadable k
      → quantify sel (show_number k) (some p) ≡ done (meaning sel (at_least k p))
  unfolding quantify meaning
  quantify-at_least k p e l =
      let read = int_of-read_number (show_number k) (digits_only-show_number k) l in
      rw (e, read, read-show_number)

  Reads-at_least : (k : ℕ) (p : Text) → IsReadable k → Reads (at_least k p)
  unfolding print
  Reads-at_least k p l =
      let d = digits_only-show_number k in
      let i = digits_only-isdigit (show_number k) d in
      let (a, b, c) = digits_not_words (show_number k) d in
      Reads-flat (at_least k p) refl refl λ rest. plain a (
        single b
          (atom_quantity (show_number k) p rest _ (ground arith) (quantify-at_least k p c l)))

  Reads-neg : (c : Cond) → Reads c → Reads (neg c)
  unfolding print meaning lower text_eq
  Reads-neg c r = Reads-flat (neg c) refl refl λ rest. negated refl (r.at_not rest)

  -- In parentheses the descent reads any condition whose lowest level it reads.
  NotG-parens :
      (ts rest : Tokens) (v : Bool)
      → OrG sel (ts ++ codes ")" ∷ rest) v (codes ")" ∷ rest)
      → NotG sel (parens ts ++ rest) v rest
  unfolding lower text_eq
  NotG-parens ts rest v d = rw (append_assoc ts (codes ")" ∷ []) rest) (plain refl (group refl d))

  conj-AndG :
      {a b : Cond} (rest q : Tokens) (w : Bool)
      → Reads a
      → Reads b
      → AndTail sel (meaning sel a && meaning sel b) rest w q
      → AndG sel ((print and_level a ++ codes "and" ∷ print not_level b) ++ rest) w q
  unfolding lower text_eq
  conj-AndG {a} {b} rest q w ra rb tail =
      rw (append_assoc (print and_level a) (codes "and" ∷ print not_level b) rest) (
        ra.at_and _ q w (
          and_step refl (rb.at_not rest)
            (subst (λ v. AndTail sel v rest w q) (and_swap (meaning sel a) (meaning sel b)) tail)))

  disj-OrG :
      {a b : Cond} (rest q : Tokens) (w : Bool)
      → Reads a
      → Reads b
      → peek_is (codes "and") rest ≡ false
      → OrTail sel (meaning sel a || meaning sel b) rest w q
      → OrG sel ((print or_level a ++ codes "or" ∷ print and_level b) ++ rest) w q
  unfolding lower text_eq
  disj-OrG {a} {b} rest q w ra rb stop tail =
      rw (append_assoc (print or_level a) (codes "or" ∷ print and_level b) rest) (
        ra.at_or _ q w refl (
          or_step refl (rb.at_and rest rest _ (and_stop stop))
            (subst (λ v. OrTail sel v rest w q) (or_swap (meaning sel a) (meaning sel b)) tail)))

  Reads-conj : (a b : Cond) → Reads a → Reads b → Reads (conj a b)
  unfolding print meaning lower text_eq
  Reads-conj a b ra rb = record {
    at_not = λ rest.
        NotG-parens _ rest _
          (or_seq (conj-AndG (codes ")" ∷ rest) _ _ ra rb (and_stop refl)) (or_stop refl));
    at_and = λ rest q w tail. conj-AndG rest q w ra rb tail;
    at_or = λ rest q w stop tail. or_seq (conj-AndG rest rest _ ra rb (and_stop stop)) tail;
  }

  Reads-disj : (a b : Cond) → Reads a → Reads b → Reads (disj a b)
  unfolding print meaning lower text_eq
  Reads-disj a b ra rb =
      let inner = λ (rest : Tokens).
        NotG-parens (print or_level (disj a b)) rest _
          (disj-OrG (codes ")" ∷ rest) _ _ ra rb refl (or_stop refl)) in
      record {
        at_not = inner;
        at_and = λ rest q w tail. and_seq (inner rest) tail;
        at_or = λ rest q w stop tail. disj-OrG rest q w ra rb stop tail;
      }

  reads : (c : Cond) → HasNames c → Reads c
  reads (name n) h = Reads-name n h
  reads (every p) h = Reads-every p
  reads (at_least k p) h = Reads-at_least k p h
  reads (neg c) h = Reads-neg c (reads c h)
  reads (conj a b) h = Reads-conj a b (reads a h.0) (reads b h.1)
  reads (disj a b) h = Reads-disj a b (reads a h.0) (reads b h.1)

-- Parsing what was written down evaluates the condition: the descent honours the precedence of
-- `not`, `and` and `or`, the parentheses, and the quantifiers `all of` and `k of`, where no name is
-- spelled like a keyword or a quantity and `int` reads each `k`.
pub parse-print :
    (sel : Sel) (c : Cond) → HasNames c → parse sel (print or_level c) ≡ done (meaning sel c)
parse-print sel c h =
    subst (λ ts. parse sel ts ≡ done (meaning sel c)) (append-nil (print or_level c))
      (parse-OrG sel ((reads sel c h).at_or [] [] _ refl (or_stop refl)))
