-- ===== src/Loql/Sources.antt =====
-- The two ways to name a data model in `app/loql/parser.py`.
use siem_lite.Prelude.{
  ℕ, zero, suc, ◌<◌, ◌≡◌, fun_ext, refl, ap, Bool, true, false, List, [], ◌∷◌, none, some, All,
  length, arith,
}
use siem_lite.Text.Chars.{Text, codes, text_eq, lower}
use siem_lite.Loql.Result.{Result, ok, failed, value_error, out_of_fuel, ◌>>=◌, Returns, returned}
use siem_lite.Loql.Nodes.{Stage, search}
use siem_lite.Loql.Lexer.{Kind, pipe, colon, id, eof, Tok, is_identifier}
use siem_lite.Loql.Tokens.{is_kind, IsNamed, cur, eat}
use siem_lite.Loql.Commands.{model_name}
use siem_lite.Loql.Parser.{
  command, find_command, run_command, set_datamodel, add_stage, more_stages, datamodel_prefix,
  parse_tokens,
}
use siem_lite.Loql.Parser.Total.{command-Returns}

-- Two continuations that agree on every result that a step can give.
then-agree {ℓ κ λ'} :
    {A : Type ℓ} {P : A → Type κ} {B : Type λ'} (r : Result A) (f g : A → Result B)
    → Returns P r
    → ((a : A) → P a → f a ≡ g a)
    → (r >>= f) ≡ (r >>= g)
then-agree (ok a) f g (returned p) h = h a p
then-agree (failed e) f g r h = refl
then-agree value_error f g r h = refl
then-agree out_of_fuel f g r h = refl

branch-agree {ℓ} :
    {A : Type ℓ} (b : Bool) {x y : A} (z : A)
    → x ≡ y
    → elim b [ true ↦ x | false ↦ z ] ≡ elim b [ true ↦ y | false ↦ z ]
branch-agree true z h = h
branch-agree false z h = refl

module _ (float_text : Text → Text) (stop : ℕ) where
  -- Any fuel that is enough gives the same stages.
  more_stages-agree :
      (n m : ℕ) (stages : List Stage) (ts : List Tok)
      → All IsNamed ts
      → length ts < n
      → length ts < m
      → more_stages float_text stop n stages ts ≡ more_stages float_text stop m stages ts
  unfolding more_stages
  more_stages-agree zero m stages ts w h k = absurd (omega arith)
  more_stages-agree (suc n) zero stages ts w h k = absurd (omega arith)
  more_stages-agree (suc n) (suc m) stages [] w h k = refl
  more_stages-agree (suc n) (suc m) stages (t ∷ ts) (v, w) h k =
      branch-agree (is_kind pipe t) (ok (stages, t ∷ ts)) (
        then-agree (command float_text stop ts) _ _ (command-Returns float_text stop ts w)
          λ (stage, rest) (_, s, w').
            ap (λ k'. add_stage float_text stop stages stage (cur stop ts).pos >>= k')
              (fun_ext
                λ stages'. more_stages-agree n m stages' rest w' (omega arith) (omega arith)))

abbrev pub token : Kind → Text → ℕ → Tok
token k v p = record { kind = k; val = v; pos = p }

abbrev pub pipe_at : ℕ → Tok
pipe_at p = token pipe (codes "|") p

-- `from datamodel:<Name>`, then the pipeline.
abbrev pub prefixed : (p q r t : ℕ) (name : Text) → List Tok → List Tok
prefixed p q r t name more =
    token id (codes "from") p
    ∷ token id (codes "datamodel") q
    ∷ token colon (codes ":") r
    ∷ token id name t
    ∷ more

-- `| datamodel <Name>`, then the pipeline.
abbrev pub staged : (p q t : ℕ) (name : Text) → List Tok → List Tok
staged p q t name more = pipe_at p ∷ token id (codes "datamodel") q ∷ token id name t ∷ more

-- Before a pipeline, `from datamodel:<Name>` and `| datamodel <Name>` are the same query, or the
-- same error.
pub parse_tokens-sources :
    (float_text : Text → Text) (stop p q r t p' q' t' u : ℕ) (name : Text) (more : List Tok)
    → is_identifier name ≡ true
    → All IsNamed more
    → parse_tokens float_text stop (prefixed p q r t name (pipe_at u ∷ more))
      ≡ parse_tokens float_text stop (staged p' q' t' name (pipe_at u ∷ more))
unfolding parse_tokens datamodel_prefix more_stages command text_eq find_command run_command
    add_stage set_datamodel lower eat model_name is_identifier
parse_tokens-sources float_text stop p q r t p' q' t' u [] more n w = absurd (ground arith)
parse_tokens-sources float_text stop p q r t p' q' t' u (c ∷ s) more n w =
    ap (λ r'. r' >>= λ (stages, rest). eat stop eof rest >>= λ _. ok (record { stages = stages }))
      (more_stages-agree float_text stop (suc (suc (length more)))
        (suc (suc (suc (suc (length more))))) (search none (some (c ∷ s)) ∷ []) (pipe_at u ∷ more)
        (refl, w) (omega arith) (omega arith))
