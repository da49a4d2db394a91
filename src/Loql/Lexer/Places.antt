-- ===== src/Loql/Lexer/Places.antt =====
-- Where the tokens of `_lex` in `app/loql/parser.py` stand in the text.
use siem_lite.Prelude.{
  ℕ, zero, suc, ◌+◌, ◌≤◌, ◌≡◌, refl, subst, ap, ◌∙◌, true, List, [], ◌∷◌, ◌++◌, append_assoc, none,
  some, inl, inr, Bool-cases, All, length, length-append, arith,
}
use siem_lite.Text.Chars.{Text, member, lower}
use siem_lite.Loql.Result.{
  ok, failed, unexpected_character, ◌>>=◌, Returns, returned, refused, Returns-then,
}
use siem_lite.Loql.Tokens.{IsNamed}
use siem_lite.Loql.Lexer.{
  Kind, keywords, string, number, op, pipe, comma, colon, lp, rp, id, kw, eof, Tok, Match,
  is_identifier, match_at, add_match, word_or_keyword, lex_from, lex,
}
use siem_lite.Loql.Lexer.Matches.{WhenSome, WhenSome-some, IsMatch, Shape, match_at-IsMatch}
use siem_lite.Loql.Lexer.Names.{is_identifier-lower}

-- The value of a token: its text, of a keyword in lower case.
abbrev pub written : Kind → Text → Text
written kw raw = lower raw
written _ raw = raw

-- Where the token stands in the text: at its position, as it is or, a keyword, in lower case.
pub record Placed (s : Text) (t : Tok) : Type 0 where
  pub before : Text
  pub raw : Text
  pub after : Text
  pub whole : before ++ raw ++ after ≡ s
  pub position : length before ≡ t.pos
  pub same : t.val ≡ written t.kind raw

-- A token that the lexer may give for the text.
abbrev pub IsLexed : Text → Tok → Type 0
IsLexed s t = Placed s t × IsNamed t

word_or_keyword-IsLexed :
    (front raw after s : Text)
    → front ++ raw ++ after ≡ s
    → is_identifier raw ≡ true
    → IsLexed s (word_or_keyword raw (length front))
unfolding member
word_or_keyword-IsLexed front raw after s e h = elim (Bool-cases (member (lower raw) keywords)) [
  | inl k ↦ rw k (
    record { before = front; raw = raw; after = after; whole = e; position = refl; same = refl },
    is_identifier-lower raw h,
  )
  | inr k ↦ rw k (
    record { before = front; raw = raw; after = after; whole = e; position = refl; same = refl },
    h,
  )
]

add_match-IsLexed :
    (m : Match) (front here s : Text) (toks : List Tok)
    → IsMatch here m
    → front ++ here ≡ s
    → All (IsLexed s) toks
    → All (IsLexed s) (add_match m (length front) toks)
add_match-IsLexed m front here s toks (split, _, named) e h =
    elim m.group
        as (λ g.
          Shape g m.text
          → All (IsLexed s) (
              add_match (record { group = g; text = m.text; rest = m.rest }) (length front) toks)) [
                | none ↦ λ _. h
                | some id ↦ λ n. (word_or_keyword-IsLexed front m.text m.rest s there n, h)
                | some kw ↦ λ n. absurd n
                | some string ↦ λ _. ((here_it_is refl, refl), h)
                | some number ↦ λ _. ((here_it_is refl, refl), h)
                | some op ↦ λ _. ((here_it_is refl, refl), h)
                | some pipe ↦ λ _. ((here_it_is refl, refl), h)
                | some comma ↦ λ _. ((here_it_is refl, refl), h)
                | some colon ↦ λ _. ((here_it_is refl, refl), h)
                | some lp ↦ λ _. ((here_it_is refl, refl), h)
                | some rp ↦ λ _. ((here_it_is refl, refl), h)
                | some eof ↦ λ n. absurd n
              ]
      named
  where
    there : front ++ m.text ++ m.rest ≡ s
    there = append_assoc front m.text m.rest ∙ ap (λ r. front ++ r) split ∙ e

    here_it_is :
        {k : Kind}
        → m.text ≡ written k m.text
        → Placed s (record { kind = k; val = m.text; pos = length front })
    here_it_is {k} q = record {
      before = front;
      raw = m.text;
      after = m.rest;
      whole = there;
      position = refl;
      same = q;
    }

lex_from-IsLexed :
    (fuel : ℕ) (front here s : Text)
    → front ++ here ≡ s
    → length here ≤ fuel
    → Returns (All (IsLexed s)) (lex_from fuel (length front) here)
unfolding lex_from
lex_from-IsLexed fuel front [] s e h = returned tt
lex_from-IsLexed zero front (c ∷ here) s e h = absurd (omega arith)
lex_from-IsLexed (suc fuel) front (c ∷ here) s e h =
    elim (match_at c here)
        as (λ o.
          WhenSome (IsMatch (c ∷ here)) o
          → Returns (All (IsLexed s)) (elim o [
            | none ↦ failed (record { problem = unexpected_character c; pos = some (length front) })
            | some m ↦ do
              toks ← lex_from fuel (length front + length m.text) m.rest
              ok (add_match m (length front) toks)
          ])) [
            | none ↦ λ _. refused
            | some m ↦ λ found.
                let (split, some_text, named) = WhenSome-some found in
                Returns-then
                  (subst (λ p. Returns (All (IsLexed s)) (lex_from fuel p m.rest))
                    (length-append front m.text)
                    (lex_from-IsLexed fuel (front ++ m.text) m.rest s
                      (append_assoc front m.text m.rest ∙ ap (λ r. front ++ r) split ∙ e)
                      (omega (arith, ap length split, length-append m.text m.rest))))
                  λ toks lexed.
                    returned (
                      add_match-IsLexed m front (c ∷ here) s toks (split, some_text, named) e lexed)
          ]
      (match_at-IsMatch c here)

-- Each token stands in the text at its position, and a name is an identifier.
pub lex-IsLexed : (s : Text) → Returns (All (IsLexed s)) (lex s)
unfolding lex
lex-IsLexed s = lex_from-IsLexed (length s) [] s s refl (omega arith)
