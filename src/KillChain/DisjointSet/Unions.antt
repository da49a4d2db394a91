-- ===== src/KillChain/DisjointSet/Unions.antt =====
-- A run of unions in `_DisjointSet` of `app/killchain.py`: two ids get the same root exactly if the
-- pairs connect them.
use siem_lite.Prelude.{
  ℕ, ◌==◌, ◌≡◌, ◌≢◌, refl, sym, ap, ◌∙◌, Option, some, ◌⊎◌, inl, inr, Bool-cases, arith, if_true,
  if_false,
}
use siem_lite.Prelude.Dict.{set}
use siem_lite.KillChain.DisjointSet.{number, Parents, merge, union}
use siem_lite.KillChain.DisjointSet.Forest.{
  IsForest, HasKey, HasKey-set, find-Kept, root_of_root, merged, lifted, merged_in, merged_out,
  merged-root, merge-IsForest, number_cases,
}

-- A forest after a union of two ids: they have one root, and who had one root before has one still.
pub record Joined (p : Parents) (root : ℕ → ℕ) (a b : ℕ) (result : Option Parents) : Type 0 where
  pub table : Parents
  pub root' : ℕ → ℕ
  pub rank' : ℕ → ℕ
  pub given : result ≡ some table
  pub forest : IsForest table root' rank'
  pub keys : (z : ℕ) → HasKey p z → HasKey table z
  pub joined : root' a ≡ root' b
  pub kept : (x y : ℕ) → root x ≡ root y → root' x ≡ root' y
  pub only : (x : ℕ) → (root' x ≡ root x) ⊎ ((root x ≡ root a) × (root' x ≡ root b))

pub union-Joined :
    (p : Parents) (root rank : ℕ → ℕ) (a b : ℕ)
    → IsForest p root rank
    → HasKey p a
    → HasKey p b
    → Joined p root a b (union p a b)
unfolding union
union-Joined p root rank a b f ka kb =
    let (p₁, e₁, (f₁, keys₁)) = find-Kept root rank p a f ka in
    let (p₂, e₂, (f₂, keys₂)) = find-Kept root rank p₁ b f₁ (keys₁ b kb) in
    let steps : union p a b ≡ some (merge (root a) (root b) p₂) = rw (e₁, e₂) refl in
    let both : (z : ℕ) → HasKey p z → HasKey p₂ z = λ z k. keys₂ z (keys₁ z k) in
    elim (Bool-cases (root a == root b)) [
      | inl same ↦ record {
        table = p₂;
        root' = root;
        rank' = rank;
        given = steps ∙ ap some (if_true (root a == root b) p₂ _ same);
        forest = f₂;
        keys = both;
        joined = ground (arith, same);
        kept = λ x y e. e;
        only = λ x. inl refl;
      }
      | inr other ↦
          let apart : root a ≢ root b = ground (arith, other) in
          let (va, ha) = both a ka in
          let (vb, hb) = both b kb in
          let ra = root_of_root root rank p₂ a f₂ (va, ha) in
          let rb = root_of_root root rank p₂ b f₂ (vb, hb) in
          let step =
            merge-IsForest root rank p₂ f₂ (root a) (root b) (root a, f₂.rooted a va ha)
              (root b, f₂.rooted b vb hb) ra.0 rb.0 apart in
          record {
            table = set number (root a) (root b) p₂;
            root' = merged root (root a) (root b);
            rank' = lifted root rank (root a);
            given = steps ∙ ap some (if_false (root a == root b) p₂ _ other);
            forest = step;
            keys = λ z k. HasKey-set (root a) (root b) z p₂ (both z k);
            joined =
                (merged_in root rank (root a) (root b) a refl).0
                ∙ sym (merged_out root rank (root a) (root b) b (λ e. apart (sym e))).0;
            kept = λ x y e. merged-root root (root a) (root b) y x e;
            only = only_of;
          }
    ]
  where
    only_of :
        (x : ℕ)
        → (merged root (root a) (root b) x ≡ root x)
          ⊎ ((root x ≡ root a) × (merged root (root a) (root b) x ≡ root b))
    only_of x = elim (number_cases (root x) (root a)) [
      | inl e ↦ inr (e, (merged_in root rank (root a) (root b) x e).0)
      | inr n ↦ inl (merged_out root rank (root a) (root b) x n).0
    ]
