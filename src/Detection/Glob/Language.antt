-- ===== src/Detection/Glob/Language.antt =====
-- What a wildcard value of a rule matches: the language of the pattern's text.
use siem_lite.Prelude.{
  ℕ, ◌≡◌, refl, sym, ap, ◌∙◌, ◌↔◌, true, false, List, [], ◌∷◌, ◌++◌, arith, inl, inr, Bool-cases,
  ◌==◌, &&-eq-true, ||-eq-true,
}
use siem_lite.Text.Chars.{Text}
use siem_lite.Detection.Glob.{
  Piece, any_run, any_one, literal, glob_piece, glob_to_re, fullmatch, glob_match,
}

-- A `*` stands for any run of characters, a `?` for any one, and each other character for itself.
pub data Globs : Text → Text → Type 0 where
  done : Globs [] []
  star :
      {x : ℕ} {e s : Text} (run rest : Text)
      → (x == b'*') ≡ true
      → s ≡ run ++ rest
      → Globs e rest
      → Globs (x ∷ e) s
  one :
      {x c : ℕ} {e s : Text}
      → (x == b'*') ≡ false
      → (x == b'?') ≡ true
      → Globs e s
      → Globs (x ∷ e) (c ∷ s)
  same :
      {x c : ℕ} {e s : Text}
      → (x == b'*') ≡ false
      → (x == b'?') ≡ false
      → (c == x) ≡ true
      → Globs e s
      → Globs (x ∷ e) (c ∷ s)

run-splits :
    (p : List Piece) (s : Text)
    → fullmatch (any_run ∷ p) s ≡ true
    → (run : Text) × (rest : Text) × (s ≡ run ++ rest) × (fullmatch p rest ≡ true)
unfolding fullmatch
run-splits p [] h = ([], [], refl, h)
run-splits p (c ∷ s) h = elim (||-eq-true (fullmatch (any_run ∷ p) s) (fullmatch p (c ∷ s)) h) [
  | inl e ↦ let (run, rest, q, m) = run-splits p s e in (c ∷ run, rest, ap (◌∷◌ c) q, m)
  | inr e ↦ ([], c ∷ s, refl, e)
]

run-joins :
    (p : List Piece) (run rest : Text)
    → fullmatch p rest ≡ true
    → fullmatch (any_run ∷ p) (run ++ rest) ≡ true
unfolding fullmatch
run-joins p [] [] h = h
run-joins p [] (c ∷ s) h = ground arith
run-joins p (c ∷ run) rest h = let k = run-joins p run rest h in ground arith

piece_star : (x : ℕ) → (x == b'*') ≡ true → glob_piece x ≡ any_run
unfolding glob_piece
piece_star x h = rw h refl

piece_one : (x : ℕ) → (x == b'*') ≡ false → (x == b'?') ≡ true → glob_piece x ≡ any_one
unfolding glob_piece
piece_one x h k = rw (h, k) refl

piece_same : (x : ℕ) → (x == b'*') ≡ false → (x == b'?') ≡ false → glob_piece x ≡ literal x
unfolding glob_piece
piece_same x h k = rw (h, k) refl

-- A character of the text against the rest of the pattern.
any_one-Globs :
    (x : ℕ) (e s : Text)
    → ((t : Text) → glob_match e t ≡ true → Globs e t)
    → (x == b'*') ≡ false
    → (x == b'?') ≡ true
    → fullmatch (any_one ∷ glob_to_re e) s ≡ true
    → Globs (x ∷ e) s
unfolding glob_match glob_to_re fullmatch
any_one-Globs x e [] rest a b h = absurd (cc)
any_one-Globs x e (c ∷ s) rest a b h = one a b (rest s h)

literal-Globs :
    (x : ℕ) (e s : Text)
    → ((t : Text) → glob_match e t ≡ true → Globs e t)
    → (x == b'*') ≡ false
    → (x == b'?') ≡ false
    → fullmatch (literal x ∷ glob_to_re e) s ≡ true
    → Globs (x ∷ e) s
unfolding glob_match glob_to_re fullmatch
literal-Globs x e [] rest a b h = absurd (cc)
literal-Globs x e (c ∷ s) rest a b h =
    let p = &&-eq-true (c == x) (fullmatch (glob_to_re e) s) h in same a b p.0 (rest s p.1)

glob_match→Globs : (e s : Text) → glob_match e s ≡ true → Globs e s
unfolding glob_match glob_to_re fullmatch
glob_match→Globs [] [] h = done
glob_match→Globs [] (c ∷ s) h = absurd (cc)
glob_match→Globs (x ∷ e) s h = elim (Bool-cases (x == b'*')) [
  | inl a ↦
      let k = sym (ap (λ q. fullmatch (q ∷ glob_to_re e) s) (piece_star x a)) ∙ h in
      let (run, rest, q, m) = run-splits (glob_to_re e) s k in
      star run rest a q (glob_match→Globs e rest m)
  | inr a ↦ elim (Bool-cases (x == b'?')) [
    | inl b ↦
        any_one-Globs x e s (glob_match→Globs e) a b
          (sym (ap (λ q. fullmatch (q ∷ glob_to_re e) s) (piece_one x a b)) ∙ h)
    | inr b ↦
        literal-Globs x e s (glob_match→Globs e) a b
          (sym (ap (λ q. fullmatch (q ∷ glob_to_re e) s) (piece_same x a b)) ∙ h)
  ]
]

Globs→glob_match : {e s : Text} → Globs e s → glob_match e s ≡ true
unfolding glob_match glob_to_re fullmatch
Globs→glob_match done = refl
Globs→glob_match (star {x} {e} {s} run rest a q g) =
    ap (λ p. fullmatch (p ∷ glob_to_re e) s) (piece_star x a)
    ∙ ap (fullmatch (any_run ∷ glob_to_re e)) q
    ∙ run-joins (glob_to_re e) run rest (Globs→glob_match g)
Globs→glob_match (one {x} {c} {e} {s} a b g) =
    ap (λ p. fullmatch (p ∷ glob_to_re e) (c ∷ s)) (piece_one x a b) ∙ Globs→glob_match g
Globs→glob_match (same {x} {c} {e} {s} a b d g) =
    let k = Globs→glob_match g in
    ap (λ p. fullmatch (p ∷ glob_to_re e) (c ∷ s)) (piece_same x a b) ∙ rw d k

-- A wildcard value matches exactly the texts of its language, the whole of the text each time.
pub glob_match-Globs : (e s : Text) → (glob_match e s ≡ true) ↔ Globs e s
glob_match-Globs e s = (glob_match→Globs e s, Globs→glob_match)
