-- ===== src/Cim/Agree.antt =====
-- The compiled plan against the reference walk, and the plan's cache against compiling each time.
use siem_lite.Prelude.{
  ◌≡◌, refl, sym, ap, ◌∙◌, Bool, true, false, not, ◌&&◌, ◌||◌, List, [], ◌∷◌, Option, some,
  is_empty, if◌then◌else◌, any_of, all_of, arith, inl, inr, Bool-cases,
}
use siem_lite.Prelude.Dict
use siem_lite.Prelude.Sort.{sorted, text_le, any_of-sorted}
use siem_lite.Prelude.Except.{Except, ok, raise, ◌>>=◌}
use siem_lite.Text.Chars.{Text, text, text_eq, text_eq_iff, text_eq_refl, member}
use siem_lite.Value.Defs.{Fields}
use siem_lite.Cim.Spec.{CimError, CimTerm, CimClause, CimModel, CimRegistry}
use siem_lite.Cim.Match.{
  EventLike, ColumnTexts, column_of, column_texts, raw_of, text_of, term_columns, Term,
  compile_term, term_hit, all_terms, clause_matches, any_clause, model_matches,
}
use siem_lite.Cim.Plan.{
  Compiled, Plan, compile_terms, compile_clauses, compile_models, compile, hits_all, hits_any,
  hit_tags, tags_of_plan, term_columns_of, clause_columns, model_columns,
}

-- The tags of the models that the reference walk accepts, in the registry's order.
unfoldable pub reference_tags : List CimModel → EventLike → Except CimError (List Text)
reference_tags [] evt = ok []
reference_tags (m ∷ ms) evt = do
  hit ← model_matches m evt
  rest ← reference_tags ms evt
  ok (if hit then m.tag ∷ rest else rest)

-- A chain that returns has a first part that returns.
returned {ℓ κ ι} :
    {E : Type κ} {X : Type ℓ} {Y : Type ι} (first : Except E X) (onward : X → Except E Y) {y : Y}
    → (first >>= onward) ≡ ok y
    → (x : X) × (first ≡ ok x) × (onward x ≡ ok y)
returned (raise e) onward h = cc
returned (ok x) onward h = (x, refl, h)

ok-injective {ℓ κ} :
    {E : Type κ} {A : Type ℓ} {a b : A} → ◌≡◌ {A = Except E A} (ok a) (ok b) → a ≡ b
ok-injective h = ground arith

if_ok {κ} :
    {E : Type κ} (b x : Bool)
    → ◌≡◌ {A = Except E Bool} (if b then ok true else ok x) (ok (if b then true else x))
if_ok true x = refl
if_ok false x = refl

any_step {κ} :
    {E : Type κ} (m r : Except E Bool) {b x : Bool}
    → m ≡ ok b
    → r ≡ ok x
    → (m >>= λ hit. if hit then ok true else r) ≡ ok (if b then true else x)
any_step m r {b} {x} p q = rw (p, q) (if_ok b x)

-- The columns that a list of columns must have for a term to be read from it.
abbrev covered : List Text → Term → Bool
covered cols t = is_empty t.column || member t.column cols

compile_term-covered :
    (term : CimTerm) (t : Term) → compile_term term ≡ ok t → covered term_columns t ≡ true
unfolding compile_term
compile_term-covered term t h = ground arith

get-column_texts :
    (evt : EventLike) (c : Text) (cols : List Text)
    → member c cols ≡ true
    → Dict.get text c (column_texts evt cols) ≡ some (text_of (column_of evt c))
unfolding member column_texts Dict.get
get-column_texts evt c [] h = absurd (ground arith)
get-column_texts evt c (d ∷ cols) h = elim (Bool-cases (text_eq d c)) [
  | inl e ↦ rw e (ap (λ x. some (text_of (column_of evt x))) ((text_eq_iff d c).0 e))
  | inr e ↦ rw e (get-column_texts evt c cols (ground (arith, text_eq_iff c d, text_eq_iff d c)))
]

-- Two lists of columns that both cover a term decide it alike.
term_hit-cols :
    (evt : EventLike) (raw : Option Fields) (t : Term) (cols cols' : List Text)
    → covered cols t ≡ true
    → covered cols' t ≡ true
    → term_hit t (column_texts evt cols) raw ≡ term_hit t (column_texts evt cols') raw
unfolding term_hit
term_hit-cols evt raw t cols cols' h h' = elim (Bool-cases (is_empty t.column)) [
  | inl e ↦ rw e
  | inr e ↦ rw (
    get-column_texts evt t.column cols (ground arith),
    get-column_texts evt t.column cols' (ground arith),
  )
]

hits_all-cols :
    (evt : EventLike) (raw : Option Fields) (cols cols' : List Text) (ts : List Term)
    → all_of (covered cols) ts ≡ true
    → all_of (covered cols') ts ≡ true
    → hits_all ts (column_texts evt cols) raw ≡ hits_all ts (column_texts evt cols') raw
unfolding hits_all
hits_all-cols evt raw cols cols' [] h h' = refl
hits_all-cols evt raw cols cols' (t ∷ ts) h h' =
    ground (arith, term_hit-cols evt raw t cols cols', hits_all-cols evt raw cols cols' ts)

hits_any-cols :
    (evt : EventLike) (raw : Option Fields) (cols cols' : List Text) (cs : List (List Term))
    → all_of (all_of (covered cols)) cs ≡ true
    → all_of (all_of (covered cols')) cs ≡ true
    → hits_any cs (column_texts evt cols) raw ≡ hits_any cs (column_texts evt cols') raw
unfolding hits_any
hits_any-cols evt raw cols cols' [] h h' = refl
hits_any-cols evt raw cols cols' ([] ∷ cs) h h' = hits_any-cols evt raw cols cols' cs h h'
hits_any-cols evt raw cols cols' ((t ∷ ts) ∷ cs) h h' =
    ground (arith, hits_all-cols evt raw cols cols' (t ∷ ts), hits_any-cols evt raw cols cols' cs)

-- A clause that compiles is decided by its compiled terms.
all_terms-hits_all :
    (terms : List CimTerm) (ts : List Term) (ctext : ColumnTexts) (raw : Option Fields)
    → compile_terms terms ≡ ok ts
    → all_terms terms ctext raw ≡ ok (hits_all ts ctext raw)
unfolding all_terms hits_all
all_terms-hits_all [] ts ctext raw h = ground arith
all_terms-hits_all (term ∷ terms) ts ctext raw h =
    let (c, e, k) = returned (compile_term term) _ h in
    let (cs, e', k') = returned (compile_terms terms) _ k in
    ground (arith, all_terms-hits_all terms cs ctext raw e')

compile_terms-covered :
    (terms : List CimTerm) (ts : List Term)
    → compile_terms terms ≡ ok ts
    → all_of (covered term_columns) ts ≡ true
compile_terms-covered [] ts h = ground arith
compile_terms-covered (term ∷ terms) ts h =
    let (c, e, k) = returned (compile_term term) _ h in
    let (cs, e', k') = returned (compile_terms terms) _ k in
    ground (arith, compile_term-covered term c e, compile_terms-covered terms cs e')

clause_matches-hits_all :
    (evt : EventLike) (clause : CimClause) (c : List Term)
    → compile_terms clause ≡ ok c
    → clause_matches clause evt
      ≡ ok (not (is_empty c) && hits_all c (column_texts evt term_columns) (raw_of evt))
unfolding clause_matches
clause_matches-hits_all evt [] c h = ground arith
clause_matches-hits_all evt (t ∷ ts) c h =
    let (c', e, k) = returned (compile_term t) _ h in
    let (cs, e', k') = returned (compile_terms ts) _ k in
    all_terms-hits_all (t ∷ ts) c (column_texts evt term_columns) (raw_of evt) h
    ∙ ap ok (ground arith)

hits_any-cons :
    (c : List Term) (cs : List (List Term)) (ctext : ColumnTexts) (raw : Option Fields)
    → hits_any (c ∷ cs) ctext raw
      ≡ (if not (is_empty c) && hits_all c ctext raw then true else hits_any cs ctext raw)
unfolding hits_any
hits_any-cons [] cs ctext raw = refl
hits_any-cons (t ∷ ts) cs ctext raw = refl

any_clause-hits_any :
    (evt : EventLike) (clauses : List CimClause) (cs : List (List Term))
    → compile_clauses clauses ≡ ok cs
    → any_clause clauses evt ≡ ok (hits_any cs (column_texts evt term_columns) (raw_of evt))
unfolding any_clause
any_clause-hits_any evt [] cs h = unfold hits_any in ground arith
any_clause-hits_any evt (clause ∷ clauses) cs h =
    let (c, e, k) = returned (compile_terms clause) _ h in
    let (rest, e', k') = returned (compile_clauses clauses) _ k in
    any_step (clause_matches clause evt) (any_clause clauses evt)
      (clause_matches-hits_all evt clause c e) (any_clause-hits_any evt clauses rest e')
    ∙ ap ok (sym (hits_any-cons c rest _ _))
    ∙ ap (λ x. ok (hits_any x (column_texts evt term_columns) (raw_of evt))) (ok-injective k')

compile_clauses-covered :
    (clauses : List CimClause) (cs : List (List Term))
    → compile_clauses clauses ≡ ok cs
    → all_of (all_of (covered term_columns)) cs ≡ true
compile_clauses-covered [] cs h = ground arith
compile_clauses-covered (c ∷ clauses) cs h =
    let (ts, e, k) = returned (compile_terms c) _ h in
    let (rest, e', k') = returned (compile_clauses clauses) _ k in
    ground (arith, compile_terms-covered c ts e, compile_clauses-covered clauses rest e')

abbrev Sub : List Text → List Text → Type 0
Sub xs ys = (c : Text) → member c xs ≡ true → member c ys ≡ true

member-any_of : (c : Text) (xs : List Text) → member c xs ≡ any_of (text_eq c) xs
unfolding member
member-any_of c [] = refl
member-any_of c (x ∷ xs) = ap (λ b. text_eq c x || b) (member-any_of c xs)

Sub-sorted : (xs : List Text) → Sub xs (sorted text_le xs)
Sub-sorted xs c h =
    member-any_of c (sorted text_le xs)
    ∙ any_of-sorted text_le (text_eq c) xs
    ∙ sym (member-any_of c xs)
    ∙ h

add_text-covers :
    (x : Text) (xs cols : List Text)
    → Sub (if member x xs then xs else x ∷ xs) cols
    → (member x cols ≡ true) × Sub xs cols
unfolding member
add_text-covers x xs cols h = elim (Bool-cases (member x xs)) [
  | inl e ↦ let k = rw e at h in (k x e, k)
  | inr e ↦ let k = rw e at h in (k x (ground (arith, text_eq_refl x)), λ c m. k c (ground arith))
]

term_columns_of-covers :
    (ts : List Term) (rest cols : List Text)
    → Sub (term_columns_of ts rest) cols
    → (all_of (covered cols) ts ≡ true) × Sub rest cols
term_columns_of-covers [] rest cols h = (refl, h)
term_columns_of-covers (t ∷ ts) rest cols h = elim (Bool-cases (is_empty t.column)) [
  | inl e ↦ let (a, b) = term_columns_of-covers ts rest cols (rw e at h) in (ground arith, b)
  | inr e ↦
      let (m, k) = add_text-covers t.column (term_columns_of ts rest) cols (rw e at h) in
      let (a, b) = term_columns_of-covers ts rest cols k in (ground arith, b)
]

clause_columns-covers :
    (cs : List (List Term)) (rest cols : List Text)
    → Sub (clause_columns cs rest) cols
    → (all_of (all_of (covered cols)) cs ≡ true) × Sub rest cols
clause_columns-covers [] rest cols h = (refl, h)
clause_columns-covers (c ∷ cs) rest cols h =
    let (a, k) = term_columns_of-covers c (clause_columns cs rest) cols h in
    let (b, r) = clause_columns-covers cs rest cols k in (ground arith, r)

-- The columns of the plan decide every model as the reference walk does.
hit_tags-reference :
    (evt : EventLike) (cols : List Text) (models : List CimModel) (cs : List Compiled)
    → compile_models models ≡ ok cs
    → Sub (model_columns cs) cols
    → reference_tags models evt ≡ ok (hit_tags cs (column_texts evt cols) (raw_of evt))
unfolding reference_tags model_matches hit_tags
hit_tags-reference evt cols [] cs h sub = ground arith
hit_tags-reference evt cols (m ∷ models) cs h sub =
    let (c, e, k) = returned (compile_clauses m.clauses) _ h in
    let (rest, e', k') = returned (compile_models models) _ k in
    let (cover, sub') =
      clause_columns-covers c (model_columns rest) cols (λ x p. sub x (ground arith)) in
    ground (
      arith,
      any_clause-hits_any evt m.clauses c e,
      hits_any-cols evt (raw_of evt) cols term_columns c cover
          (compile_clauses-covered m.clauses c e),
      hit_tags-reference evt cols models rest e' sub',
    )

-- The compiled plan, which reads each event's columns once and only those that some term names,
-- gives the sorted tags of exactly the models that the readable walk accepts.
pub tags_of_plan-reference :
    (reg : CimRegistry) (plan : Plan) (evt : EventLike)
    → compile reg ≡ ok plan
    → (ts : List Text) × (reference_tags reg.models evt ≡ ok ts)
      × (tags_of_plan plan evt ≡ sorted text_le ts)
unfolding compile tags_of_plan
tags_of_plan-reference reg plan evt h =
    let (cs, e, k) = returned (compile_models reg.models) _ h in
    let p = ok-injective k in
    let sub = Sub-sorted (model_columns cs) in
    (
      hit_tags cs (column_texts evt (sorted text_le (model_columns cs))) (raw_of evt),
      hit_tags-reference evt _ reg.models cs e sub,
      ap
          (λ (q : Plan).
            sorted text_le (hit_tags q.models (column_texts evt q.columns) (raw_of evt)))
          (sym p),
    )
