-- ===== src/Detection/Condition/Grammar.antt =====
-- The descent as a relation between the tokens read, the value and the tokens left, with no fuel.
use siem_lite.Prelude.{
  ℕ, zero, suc, ◌+◌, ◌*◌, ◌<◌, ◌≡◌, Bool, true, false, not, ◌&&◌, ◌||◌, arith, length,
}
use siem_lite.Text.Chars.{codes}
use siem_lite.Detection.Condition.{
  Tokens, Sel, peek_is, next, skip_close, opens, atom_plain, parse_or, or_tail, parse_and, and_tail,
  parse_not, parse_atom, parse, parse_fuel,
}
use siem_lite.Detection.Condition.Run.{done}
use siem_lite.Detection.Condition.Total.{
  Stops-rest, length-next, opens-next, parse_and-Stops, parse_not-Stops,
}

module _ (sel : Sel) where
  mutual
    pub data OrG : Tokens → Bool → Tokens → Type 0 where
      or_seq : {t r q : Tokens} {v w : Bool} → AndG t v r → OrTail v r w q → OrG t w q

    pub data OrTail : Bool → Tokens → Bool → Tokens → Type 0 where
      or_stop : {v : Bool} {r : Tokens} → peek_is (codes "or") r ≡ false → OrTail v r v r
      or_step :
          {v w u : Bool} {r q p : Tokens}
          → peek_is (codes "or") r ≡ true
          → AndG (next r) w q
          → OrTail (w || v) q u p
          → OrTail v r u p

    pub data AndG : Tokens → Bool → Tokens → Type 0 where
      and_seq : {t r q : Tokens} {v w : Bool} → NotG t v r → AndTail v r w q → AndG t w q

    pub data AndTail : Bool → Tokens → Bool → Tokens → Type 0 where
      and_stop : {v : Bool} {r : Tokens} → peek_is (codes "and") r ≡ false → AndTail v r v r
      and_step :
          {v w u : Bool} {r q p : Tokens}
          → peek_is (codes "and") r ≡ true
          → NotG (next r) w q
          → AndTail (w && v) q u p
          → AndTail v r u p

    pub data NotG : Tokens → Bool → Tokens → Type 0 where
      negated :
          {t r : Tokens} {v : Bool}
          → peek_is (codes "not") t ≡ true
          → NotG (next t) v r
          → NotG t (not v) r
      plain : {t r : Tokens} {v : Bool} → peek_is (codes "not") t ≡ false → AtomG t v r → NotG t v r

    pub data AtomG : Tokens → Bool → Tokens → Type 0 where
      group :
          {t r : Tokens} {v : Bool} → opens t ≡ true → OrG (next t) v r → AtomG t v (skip_close r)
      single :
          {t r : Tokens} {v : Bool} → opens t ≡ false → atom_plain sel t ≡ done (v, r) → AtomG t v r

  mutual
    unfolding parse_or

    or_runs :
        (f : ℕ) {t r : Tokens} {v : Bool}
        → OrG t v r
        → length t * 6 + 5 < f
        → parse_or f sel t ≡ done (v, r)
    or_runs zero d h = absurd (omega arith)
    or_runs (suc f) (or_seq {t = t} a b) h =
        let e = and_runs f a (omega arith) in
        let le = Stops-rest t e (parse_and-Stops f sel t (omega arith)) in
        rw (parse_or, e) (or_tail_runs f b (omega arith))

    or_tail_runs :
        (f : ℕ) {v w : Bool} {t r : Tokens}
        → OrTail v t w r
        → length t * 6 < f
        → or_tail f sel v t ≡ done (w, r)
    or_tail_runs zero d h = absurd (omega arith)
    or_tail_runs (suc f) (or_stop e) h = rw (e, or_tail)
    or_tail_runs (suc f) (or_step {r = t} e a b) h =
        let l = length-next t (codes "or") e in
        let k = and_runs f a (omega arith) in
        let le = Stops-rest (next t) k (parse_and-Stops f sel (next t) (omega arith)) in
        rw (e, or_tail, k) (or_tail_runs f b (omega arith))

    and_runs :
        (f : ℕ) {t r : Tokens} {v : Bool}
        → AndG t v r
        → length t * 6 + 4 < f
        → parse_and f sel t ≡ done (v, r)
    and_runs zero d h = absurd (omega arith)
    and_runs (suc f) (and_seq {t = t} a b) h =
        let e = not_runs f a (omega arith) in
        let le = Stops-rest t e (parse_not-Stops f sel t (omega arith)) in
        rw (parse_and, e) (and_tail_runs f b (omega arith))

    and_tail_runs :
        (f : ℕ) {v w : Bool} {t r : Tokens}
        → AndTail v t w r
        → length t * 6 < f
        → and_tail f sel v t ≡ done (w, r)
    and_tail_runs zero d h = absurd (omega arith)
    and_tail_runs (suc f) (and_stop e) h = rw (e, and_tail)
    and_tail_runs (suc f) (and_step {r = t} e a b) h =
        let l = length-next t (codes "and") e in
        let k = not_runs f a (omega arith) in
        let le = Stops-rest (next t) k (parse_not-Stops f sel (next t) (omega arith)) in
        rw (e, and_tail, k) (and_tail_runs f b (omega arith))

    not_runs :
        (f : ℕ) {t r : Tokens} {v : Bool}
        → NotG t v r
        → length t * 6 + 3 < f
        → parse_not f sel t ≡ done (v, r)
    not_runs zero d h = absurd (omega arith)
    not_runs (suc f) (negated {t = t} e a) h =
        let l = length-next t (codes "not") e in rw (e, parse_not, not_runs f a (omega arith))
    not_runs (suc f) (plain e a) h = rw (e, parse_not) (atom_runs f a (omega arith))

    atom_runs :
        (f : ℕ) {t r : Tokens} {v : Bool}
        → AtomG t v r
        → length t * 6 + 2 < f
        → parse_atom f sel t ≡ done (v, r)
    atom_runs zero d h = absurd (omega arith)
    atom_runs (suc f) (group {t = t} e a) h =
        let l = opens-next t e in rw (e, parse_atom, or_runs f a (omega arith))
    atom_runs (suc f) (single e a) h = rw (e, parse_atom) a

  -- What the grammar derives is what the parser returns.
  pub parse-OrG : {t r : Tokens} {v : Bool} → OrG t v r → parse sel t ≡ done v
  unfolding parse
  parse-OrG {t} d = rw (or_runs (parse_fuel t) d (omega arith))
