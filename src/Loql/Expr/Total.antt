-- ===== src/Loql/Expr/Total.antt =====
-- The expression parser of `app/loql/parser.py` on its fuel: the calls end within it, what they
-- leave is shorter, and what they build is closed.
use siem_lite.Prelude.{
  ℕ, zero, suc, ◌+◌, ◌*◌, ◌≤◌, ◌≡◌, refl, Bool, true, false, [], ◌∷◌, List, Option, none, some, ltb,
  All, arith, length, not, ◌&&◌,
}
use siem_lite.Text.Chars.{Text, codes, text_eq, member, lower}
use siem_lite.Loql.Result.{Returns, returned, refused, Returns-then, Returns-weaken, Returns-branch}
use siem_lite.Loql.Nodes.{Expr, binary}
use siem_lite.Loql.Lexer.{string, number, op, comma, lp, rp, id, kw, Tok, is_identifier}
use siem_lite.Loql.Tokens.{is, is_kind, starts_atom, at, IsNamed, eat-Shorter}
use siem_lite.Loql.Expr.{
  max_depth, Func, funcs, find_func, is_relation, is_additive, is_multiplicative, parse_or, or_tail,
  parse_and, and_tail, parse_not, parse_comparison, comparison_tail, parse_rhs, rhs_tail,
  parse_additive, additive_tail, parse_term, term_tail, parse_factor, parse_primary, name_or_call,
  func_call, call_args, args_tail,
}
use siem_lite.Loql.Expr.Closed.{
  IsClosed, is_binary, is_unary, is_relation-is_binary, is_additive-is_binary,
  is_multiplicative-is_binary,
}
use siem_lite.Loql.Expr.Atoms.{
  Parsed, Extended, Listed, Extended-Parsed, Extended-wider, of_kind, read_literal-Returns,
  standalone-IsClosed, call_of-Returns, search_value-Returns,
}

module _ (float_text : Text → Text) (stop : ℕ) where
  mutual
    unfolding parse_or IsClosed is_unary is_binary member text_eq

    pub parse_or-Returns :
        (n d : ℕ) (mode : Bool) (ts : List Tok)
        → All IsNamed ts
        → length ts * 16 + 9 ≤ n
        → Returns (Parsed ts) (parse_or float_text stop n d mode ts)
    parse_or-Returns zero d mode ts w h = absurd (omega arith)
    parse_or-Returns (suc n) d mode ts w h =
        Returns-branch (ltb max_depth (suc d)) (λ _. refused)
          λ _.
            Returns-then (parse_and-Returns n (suc d) mode ts w (omega arith))
              λ (e, rest) (c, s, w').
                Returns-weaken (Extended-Parsed ts rest s)
                  (or_tail-Returns n (suc d) mode e rest c w' (omega arith))

    or_tail-Returns :
        (n d : ℕ) (mode : Bool) (left : Expr) (ts : List Tok)
        → IsClosed left
        → All IsNamed ts
        → length ts * 16 + 10 ≤ n
        → Returns (Extended ts) (or_tail float_text stop n d mode left ts)
    or_tail-Returns zero d mode left ts c w h = absurd (omega arith)
    or_tail-Returns (suc n) d mode left [] c w h = returned (c, omega arith, w)
    or_tail-Returns (suc n) d mode left (t ∷ ts) c (v, w) h =
        Returns-branch (is kw (codes "or") t)
          (λ _.
            Returns-then (parse_and-Returns n d mode ts w (omega arith)) λ (e, rest) (c', s, w').
              Returns-weaken (Extended-wider (t ∷ ts) rest (omega arith)) (
                or_tail-Returns n d mode (binary (codes "or") left e) rest (refl, c, c') w'
                  (omega arith)))
          (λ _. returned (c, omega arith, (v, w)))

    parse_and-Returns :
        (n d : ℕ) (mode : Bool) (ts : List Tok)
        → All IsNamed ts
        → length ts * 16 + 8 ≤ n
        → Returns (Parsed ts) (parse_and float_text stop n d mode ts)
    parse_and-Returns zero d mode ts w h = absurd (omega arith)
    parse_and-Returns (suc n) d mode ts w h =
        Returns-then (parse_not-Returns n d mode ts w (omega arith)) λ (e, rest) (c, s, w').
          Returns-weaken (Extended-Parsed ts rest s)
            (and_tail-Returns n d mode e rest c w' (omega arith))

    and_tail-Returns :
        (n d : ℕ) (mode : Bool) (left : Expr) (ts : List Tok)
        → IsClosed left
        → All IsNamed ts
        → length ts * 16 + 10 ≤ n
        → Returns (Extended ts) (and_tail float_text stop n d mode left ts)
    and_tail-Returns zero d mode left ts c w h = absurd (omega arith)
    and_tail-Returns (suc n) d mode left [] c w h = returned (c, omega arith, w)
    and_tail-Returns (suc n) d mode left (t ∷ ts) c (v, w) h =
        Returns-branch (is kw (codes "and") t)
          (λ _.
            Returns-then (parse_not-Returns n d mode ts w (omega arith)) λ (e, rest) (c', s, w').
              Returns-weaken (Extended-wider (t ∷ ts) rest (omega arith)) (
                and_tail-Returns n d mode (binary (codes "and") left e) rest (refl, c, c') w'
                  (omega arith)))
          (λ _.
            Returns-branch (starts_atom t && not (is kw (codes "or") t))
              (λ _.
                Returns-then (parse_not-Returns n d mode (t ∷ ts) (v, w) (omega arith))
                  λ (e, rest) (c', s, w').
                    Returns-weaken (Extended-wider (t ∷ ts) rest (omega arith)) (
                      and_tail-Returns n d mode (binary (codes "and") left e) rest (refl, c, c') w'
                        (omega arith)))
              (λ _. returned (c, omega arith, (v, w))))

    parse_not-Returns :
        (n d : ℕ) (mode : Bool) (ts : List Tok)
        → All IsNamed ts
        → length ts * 16 + 7 ≤ n
        → Returns (Parsed ts) (parse_not float_text stop n d mode ts)
    parse_not-Returns zero d mode ts w h = absurd (omega arith)
    parse_not-Returns (suc n) d mode [] w h = parse_comparison-Returns n d mode [] w (omega arith)
    parse_not-Returns (suc n) d mode (t ∷ ts) (v, w) h =
        Returns-branch (is kw (codes "not") t)
          (λ _.
            Returns-branch (ltb max_depth (suc d)) (λ _. refused)
              λ _.
                Returns-then (parse_not-Returns n (suc d) mode ts w (omega arith))
                  λ (e, rest) (c, s, w'). returned ((refl, c), omega arith, w'))
          (λ _. parse_comparison-Returns n d mode (t ∷ ts) (v, w) (omega arith))

    parse_comparison-Returns :
        (n d : ℕ) (mode : Bool) (ts : List Tok)
        → All IsNamed ts
        → length ts * 16 + 6 ≤ n
        → Returns (Parsed ts) (parse_comparison float_text stop n d mode ts)
    parse_comparison-Returns zero d mode ts w h = absurd (omega arith)
    parse_comparison-Returns (suc n) d mode ts w h =
        Returns-then (parse_additive-Returns n d ts w (omega arith)) λ (e, rest) (c, s, w').
          Returns-weaken (Extended-Parsed ts rest s)
            (comparison_tail-Returns n d mode e rest c w' (omega arith))

    comparison_tail-Returns :
        (n d : ℕ) (mode : Bool) (left : Expr) (ts : List Tok)
        → IsClosed left
        → All IsNamed ts
        → length ts * 16 + 10 ≤ n
        → Returns (Extended ts) (comparison_tail float_text stop n d mode left ts)
    comparison_tail-Returns zero d mode left ts c w h = absurd (omega arith)
    comparison_tail-Returns (suc n) d mode left [] c w h =
        returned (standalone-IsClosed float_text stop mode left c, omega arith, w)
    comparison_tail-Returns (suc n) d mode left (t ∷ ts) c (v, w) h =
        Returns-branch (is_relation t)
          (λ r.
            Returns-then (parse_rhs-Returns n d mode ts w (omega arith)) λ (e, rest) (c', s, w').
              returned ((is_relation-is_binary t r, c, c'), omega arith, w'))
          (λ _.
            Returns-branch (is kw (codes "in") t)
              (λ _. Returns-then (eat-Shorter stop lp ts refl w) λ (_, rest₁) (s₁, w₁).
                Returns-then (parse_rhs-Returns n d mode rest₁ w₁ (omega arith))
                  λ (item, rest₂) (c₂, s₂, w₂).
                    Returns-then (rhs_tail-Returns n d mode rest₂ w₂ (omega arith))
                      λ (items, rest₃) (c₃, s₃, w₃).
                        Returns-then (eat-Shorter stop rp rest₃ refl w₃)
                          λ (_, rest) (s₄, w'). returned ((c, (c₂, c₃)), omega arith, w'))
              (λ _.
                returned (standalone-IsClosed float_text stop mode left c, omega arith, (v, w))))

    parse_rhs-Returns :
        (n d : ℕ) (mode : Bool) (ts : List Tok)
        → All IsNamed ts
        → length ts * 16 + 5 ≤ n
        → Returns (Parsed ts) (parse_rhs float_text stop n d mode ts)
    parse_rhs-Returns zero d mode ts w h = absurd (omega arith)
    parse_rhs-Returns (suc n) d true ts w h = search_value-Returns float_text stop ts w
    parse_rhs-Returns (suc n) d false ts w h = parse_additive-Returns n d ts w (omega arith)

    rhs_tail-Returns :
        (n d : ℕ) (mode : Bool) (ts : List Tok)
        → All IsNamed ts
        → length ts * 16 + 10 ≤ n
        → Returns (Listed ts) (rhs_tail float_text stop n d mode ts)
    rhs_tail-Returns zero d mode ts w h = absurd (omega arith)
    rhs_tail-Returns (suc n) d mode [] w h = returned (tt, omega arith, w)
    rhs_tail-Returns (suc n) d mode (t ∷ ts) (v, w) h =
        Returns-branch (is_kind comma t)
          (λ _.
            Returns-then (parse_rhs-Returns n d mode ts w (omega arith)) λ (e, rest₁) (c₁, s₁, w₁).
              Returns-then (rhs_tail-Returns n d mode rest₁ w₁ (omega arith))
                λ (es, rest) (c₂, s₂, w₂). returned ((c₁, c₂), omega arith, w₂))
          (λ _. returned (tt, omega arith, (v, w)))

    parse_additive-Returns :
        (n d : ℕ) (ts : List Tok)
        → All IsNamed ts
        → length ts * 16 + 4 ≤ n
        → Returns (Parsed ts) (parse_additive float_text stop n d ts)
    parse_additive-Returns zero d ts w h = absurd (omega arith)
    parse_additive-Returns (suc n) d ts w h =
        Returns-then (parse_term-Returns n d ts w (omega arith)) λ (e, rest) (c, s, w').
          Returns-weaken (Extended-Parsed ts rest s)
            (additive_tail-Returns n d e rest c w' (omega arith))

    additive_tail-Returns :
        (n d : ℕ) (left : Expr) (ts : List Tok)
        → IsClosed left
        → All IsNamed ts
        → length ts * 16 + 10 ≤ n
        → Returns (Extended ts) (additive_tail float_text stop n d left ts)
    additive_tail-Returns zero d left ts c w h = absurd (omega arith)
    additive_tail-Returns (suc n) d left [] c w h = returned (c, omega arith, w)
    additive_tail-Returns (suc n) d left (t ∷ ts) c (v, w) h =
        Returns-branch (is_additive t)
          (λ r. Returns-then (parse_term-Returns n d ts w (omega arith)) λ (e, rest) (c', s, w').
            Returns-weaken (Extended-wider (t ∷ ts) rest (omega arith)) (
              additive_tail-Returns n d (binary t.val left e) rest
                (is_additive-is_binary t r, c, c') w' (omega arith)))
          (λ _. returned (c, omega arith, (v, w)))

    parse_term-Returns :
        (n d : ℕ) (ts : List Tok)
        → All IsNamed ts
        → length ts * 16 + 3 ≤ n
        → Returns (Parsed ts) (parse_term float_text stop n d ts)
    parse_term-Returns zero d ts w h = absurd (omega arith)
    parse_term-Returns (suc n) d ts w h =
        Returns-then (parse_factor-Returns n d ts w (omega arith)) λ (e, rest) (c, s, w').
          Returns-weaken (Extended-Parsed ts rest s)
            (term_tail-Returns n d e rest c w' (omega arith))

    term_tail-Returns :
        (n d : ℕ) (left : Expr) (ts : List Tok)
        → IsClosed left
        → All IsNamed ts
        → length ts * 16 + 10 ≤ n
        → Returns (Extended ts) (term_tail float_text stop n d left ts)
    term_tail-Returns zero d left ts c w h = absurd (omega arith)
    term_tail-Returns (suc n) d left [] c w h = returned (c, omega arith, w)
    term_tail-Returns (suc n) d left (t ∷ ts) c (v, w) h =
        Returns-branch (is_multiplicative t)
          (λ r. Returns-then (parse_factor-Returns n d ts w (omega arith)) λ (e, rest) (c', s, w').
            Returns-weaken (Extended-wider (t ∷ ts) rest (omega arith)) (
              term_tail-Returns n d (binary t.val left e) rest
                (is_multiplicative-is_binary t r, c, c') w' (omega arith)))
          (λ _. returned (c, omega arith, (v, w)))

    parse_factor-Returns :
        (n d : ℕ) (ts : List Tok)
        → All IsNamed ts
        → length ts * 16 + 2 ≤ n
        → Returns (Parsed ts) (parse_factor float_text stop n d ts)
    parse_factor-Returns zero d ts w h = absurd (omega arith)
    parse_factor-Returns (suc n) d [] w h = parse_primary-Returns n d [] w (omega arith)
    parse_factor-Returns (suc n) d (t ∷ ts) (v, w) h =
        Returns-branch (is op (codes "-") t)
          (λ _.
            Returns-then (parse_factor-Returns n d ts w (omega arith))
              λ (e, rest) (c, s, w'). returned ((refl, c), omega arith, w'))
          (λ _. parse_primary-Returns n d (t ∷ ts) (v, w) (omega arith))

    parse_primary-Returns :
        (n d : ℕ) (ts : List Tok)
        → All IsNamed ts
        → length ts * 16 + 1 ≤ n
        → Returns (Parsed ts) (parse_primary float_text stop n d ts)
    parse_primary-Returns zero d ts w h = absurd (omega arith)
    parse_primary-Returns (suc n) d [] w h = refused
    parse_primary-Returns (suc n) d (t ∷ ts) (v, w) h =
        elim t.kind
            as (λ k.
              IsNamed (of_kind k t)
              → Returns (Parsed (t ∷ ts))
                  (parse_primary float_text stop (suc n) d (of_kind k t ∷ ts))) [
                    | number ↦ λ _. read_literal-Returns t.val t ts w
                    | string ↦ λ _. returned (tt, omega arith, w)
                    | kw ↦ λ named.
                        Returns-branch (member t.val (codes "true" ∷ codes "false" ∷ []))
                          (λ _. returned (tt, omega arith, w))
                          (λ _.
                            Returns-branch (text_eq t.val (codes "null"))
                              (λ _. returned (tt, omega arith, w))
                              λ _. name_or_call-Returns n d (of_kind kw t) ts named w (omega arith))
                    | lp ↦ λ _.
                        Returns-then (parse_or-Returns n d false ts w (omega arith))
                          λ (e, rest₁) (c, s₁, w₁).
                            Returns-then (eat-Shorter stop rp rest₁ refl w₁)
                              λ (_, rest) (s₂, w'). returned (c, omega arith, w')
                    | id ↦ λ named. name_or_call-Returns n d (of_kind id t) ts named w (omega arith)
                    | _ ↦ λ _. refused
                  ]
          v

    name_or_call-Returns :
        (n d : ℕ) (t : Tok) (ts : List Tok)
        → is_identifier t.val ≡ true
        → All IsNamed ts
        → length ts * 16 + 13 ≤ n
        → Returns (Parsed (t ∷ ts)) (name_or_call float_text stop n d t ts)
    name_or_call-Returns zero d t ts named w h = absurd (omega arith)
    name_or_call-Returns (suc n) d t ts named w h =
        Returns-branch (at stop lp ts)
          (λ _. Returns-weaken (Extended-Parsed (t ∷ ts) ts (omega arith)) (
            func_call-Returns n d (lower t.val) (find_func (lower t.val) funcs) t ts refl w
              (omega arith)))
          (λ _. returned (named, omega arith, w))

    func_call-Returns :
        (n d : ℕ) (name : Text) (entry : Option Func) (t : Tok) (ts : List Tok)
        → find_func name funcs ≡ entry
        → All IsNamed ts
        → length ts * 16 + 12 ≤ n
        → Returns (Extended ts) (func_call float_text stop n d entry t ts)
    func_call-Returns zero d name entry t ts e w h = absurd (omega arith)
    func_call-Returns (suc n) d name none t ts e w h = refused
    func_call-Returns (suc n) d name (some f) t ts e w h =
        Returns-then (eat-Shorter stop lp ts refl w) λ (_, rest₁) (s₁, w₁).
          Returns-then (call_args-Returns n d rest₁ w₁ (omega arith)) λ (es, rest₂) (c, s₂, w₂).
            Returns-then (eat-Shorter stop rp rest₂ refl w₂) λ (_, rest) (s₃, w').
              call_of-Returns float_text stop name f t es rest ts e c (omega arith) w'

    call_args-Returns :
        (n d : ℕ) (ts : List Tok)
        → All IsNamed ts
        → length ts * 16 + 11 ≤ n
        → Returns (Listed ts) (call_args float_text stop n d ts)
    call_args-Returns zero d ts w h = absurd (omega arith)
    call_args-Returns (suc n) d ts w h =
        Returns-branch (at stop rp ts) (λ _. returned (tt, omega arith, w))
          λ _.
            Returns-then (parse_or-Returns n d false ts w (omega arith)) λ (e, rest₁) (c₁, s₁, w₁).
              Returns-then (args_tail-Returns n d rest₁ w₁ (omega arith))
                λ (es, rest) (c₂, s₂, w₂). returned ((c₁, c₂), omega arith, w₂)

    args_tail-Returns :
        (n d : ℕ) (ts : List Tok)
        → All IsNamed ts
        → length ts * 16 + 10 ≤ n
        → Returns (Listed ts) (args_tail float_text stop n d ts)
    args_tail-Returns zero d ts w h = absurd (omega arith)
    args_tail-Returns (suc n) d [] w h = returned (tt, omega arith, w)
    args_tail-Returns (suc n) d (t ∷ ts) (v, w) h =
        Returns-branch (is_kind comma t)
          (λ _.
            Returns-then (parse_or-Returns n d false ts w (omega arith)) λ (e, rest₁) (c₁, s₁, w₁).
              Returns-then (args_tail-Returns n d rest₁ w₁ (omega arith))
                λ (es, rest) (c₂, s₂, w₂). returned ((c₁, c₂), omega arith, w₂))
          (λ _. returned (tt, omega arith, (v, w)))
