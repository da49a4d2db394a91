-- ===== src/Loql/Lexer/Covers.antt =====
-- `_lex` of `app/loql/parser.py` reads its text to the end: what lies between the tokens is white space.
use siem_lite.Prelude.{
  ℕ, zero, suc, ◌+◌, ◌≤◌, ◌<◌, ◌≡◌, refl, subst, ap, ◌∙◌, true, false, List, [], ◌∷◌, ◌++◌, none,
  some, inl, inr, Bool-cases, all_of, length, length-append, append_assoc, arith,
}
use siem_lite.Text.Chars.{Text, member, lower, is_space}
use siem_lite.Loql.Result.{
  Result, ok, failed, value_error, out_of_fuel, unexpected_character, ◌>>=◌,
}
use siem_lite.Loql.Lexer.{
  Kind, keywords, string, number, op, pipe, comma, colon, lp, rp, id, kw, eof, Tok, Match,
  is_identifier, match_at, add_match, word_or_keyword, lex_from, lex,
}
use siem_lite.Loql.Lexer.Matches.{WhenSome, WhenSome-some, IsMatch, Shape, match_at-IsMatch}

-- The kind and the value that a token of a text has.
abbrev pub Spells : Text → Kind → Text → Type 0
Spells raw kw val =
    (is_identifier raw ≡ true) × (member (lower raw) keywords ≡ true) × (val ≡ lower raw)
Spells raw id val = (is_identifier raw ≡ true) × (member (lower raw) keywords ≡ false) × (val ≡ raw)
Spells raw k val = Shape (some k) raw × (val ≡ raw)

-- Tokens that cover a text from a position on: nothing but white space is left out.
pub data Covers : ℕ → Text → List Tok → Type 0 where
  ended : {pos : ℕ} → Covers pos [] []
  skipped :
      {pos : ℕ} (gap rest : Text) {toks : List Tok}
      → all_of is_space gap ≡ true
      → Covers (pos + length gap) rest toks
      → Covers pos (gap ++ rest) toks
  taken :
      {pos : ℕ} (raw rest : Text) {t : Tok} {toks : List Tok}
      → t.pos ≡ pos
      → 0 < length raw
      → Spells raw t.kind t.val
      → Covers (pos + length raw) rest toks
      → Covers pos (raw ++ rest) (t ∷ toks)

word-Covers :
    (pos : ℕ) (raw rest : Text) (toks : List Tok)
    → 0 < length raw
    → is_identifier raw ≡ true
    → Covers (pos + length raw) rest toks
    → Covers pos (raw ++ rest) (word_or_keyword raw pos ∷ toks)
unfolding member
word-Covers pos raw rest toks l h c = elim (Bool-cases (member (lower raw) keywords)) [
  | inl k ↦ rw k (taken raw rest refl l (h, k, refl) c)
  | inr k ↦ rw k (taken raw rest refl l (h, k, refl) c)
]

add_match-Covers :
    (m : Match) (pos : ℕ) (toks : List Tok)
    → 0 < length m.text
    → Shape m.group m.text
    → Covers (pos + length m.text) m.rest toks
    → Covers pos (m.text ++ m.rest) (add_match m pos toks)
add_match-Covers m pos toks l shape c =
    elim m.group
        as (λ g.
          Shape g m.text
          → Covers pos (m.text ++ m.rest)
              (add_match (record { group = g; text = m.text; rest = m.rest }) pos toks)) [
                | none ↦ λ n. skipped m.text m.rest n c
                | some id ↦ λ n. word-Covers pos m.text m.rest toks l n c
                | some kw ↦ λ n. absurd n
                | some string ↦ λ n. taken m.text m.rest refl l (n, refl) c
                | some number ↦ λ n. taken m.text m.rest refl l (n, refl) c
                | some op ↦ λ n. taken m.text m.rest refl l (n, refl) c
                | some pipe ↦ λ n. taken m.text m.rest refl l (n, refl) c
                | some comma ↦ λ n. taken m.text m.rest refl l (n, refl) c
                | some colon ↦ λ n. taken m.text m.rest refl l (n, refl) c
                | some lp ↦ λ n. taken m.text m.rest refl l (n, refl) c
                | some rp ↦ λ n. taken m.text m.rest refl l (n, refl) c
                | some eof ↦ λ n. absurd n
              ]
      shape

-- What the lexer gives: tokens that cover the text, or the error at the first character that begins
-- nothing.
abbrev pub IsRead : ℕ → Text → Result (List Tok) → Type 0
IsRead pos s (ok toks) = Covers pos s toks
IsRead pos s (failed e) =
    (front : Text) × (c : ℕ) × (rest : Text) × (front ++ c ∷ rest ≡ s)
    × (match_at c rest ≡ none)
    × (e ≡ record { problem = unexpected_character c; pos = some (pos + length front) })
IsRead pos s value_error = ⊥
IsRead pos s out_of_fuel = ⊥

IsRead-match :
    (m : Match) (pos : ℕ) (s : Text) (r : Result (List Tok))
    → IsMatch s m
    → IsRead (pos + length m.text) m.rest r
    → IsRead pos s (do toks ← r; ok (add_match m pos toks))
IsRead-match m pos s (ok toks) (split, some_text, shape) h =
    subst (λ t. Covers pos t (add_match m pos toks)) split
      (add_match-Covers m pos toks some_text shape h)
IsRead-match m pos s (failed e) (split, some_text, shape) (front, c, rest, q, n, p) =
    let at : pos + length m.text + length front ≡ pos + length (m.text ++ front) =
      omega (arith, length-append m.text front) in
    (
      m.text ++ front,
      c,
      rest,
      append_assoc m.text front (c ∷ rest) ∙ ap (λ r. m.text ++ r) q ∙ split,
      n,
      p ∙ ap (λ k. record { problem = unexpected_character c; pos = some k }) at,
    )
IsRead-match m pos s value_error k h = absurd h
IsRead-match m pos s out_of_fuel k h = absurd h

lex_from-IsRead : (fuel pos : ℕ) (s : Text) → length s ≤ fuel → IsRead pos s (lex_from fuel pos s)
unfolding lex_from
lex_from-IsRead fuel pos [] h = ended
lex_from-IsRead zero pos (c ∷ s) h = absurd (omega arith)
lex_from-IsRead (suc fuel) pos (c ∷ s) h =
    (elim (match_at c s)
        as (λ o.
          match_at c s ≡ o
          → WhenSome (IsMatch (c ∷ s)) o
          → IsRead pos (c ∷ s) (elim o [
            | none ↦ failed (record { problem = unexpected_character c; pos = some pos })
            | some m ↦ do
              toks ← lex_from fuel (pos + length m.text) m.rest
              ok (add_match m pos toks)
          ])) [
            | none ↦ λ n _.
                let at : pos ≡ pos + 0 = omega arith in
                (
                  [],
                  c,
                  s,
                  refl,
                  n,
                  ap (λ k. record { problem = unexpected_character c; pos = some k }) at,
                )
            | some m ↦ λ _ found.
                let (split, some_text, shape) = WhenSome-some found in
                IsRead-match m pos (c ∷ s) (lex_from fuel (pos + length m.text) m.rest)
                  (split, some_text, shape)
                  (lex_from-IsRead fuel (pos + length m.text) m.rest
                    (omega (arith, ap length split, length-append m.text m.rest)))
          ])
      refl (match_at-IsMatch c s)

-- The lexer ends on every text. Its tokens cover the text in order: between them is white space only,
-- each has the position, the kind and the text that stand there, a word is a keyword exactly if its lower
-- case is one, and a keyword's value is in lower case. Otherwise it gives the error of a character
-- that begins no token, with its position.
pub lex-IsRead : (s : Text) → IsRead 0 s (lex s)
unfolding lex
lex-IsRead s = lex_from-IsRead (length s) 0 s (omega arith)
