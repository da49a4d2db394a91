-- ===== src/KillChain/DisjointSet/Runs.antt =====
-- A run of `_DisjointSet` in `app/killchain.py`, from no ids on: ids are added, then pairs joined.
-- Two ids get the same root exactly if the pairs connect them.
use siem_lite.Prelude.{
  ℕ, ◌≡◌, ◌↔◌, refl, sym, ap, ◌∙◌, subst, List, [], ◌∷◌, Option, some, inl, inr, Option-cases, All,
  All-In, All-append, All-weaken, All-each, In, arith,
}
use siem_lite.Prelude.Dict.{
  get, set_default_new, set_default_old, get-append_left, get-append_right, get-In,
}
use siem_lite.KillChain.DisjointSet.{number, Parents, add, add_all, unions}
use siem_lite.KillChain.DisjointSet.Forest.{IsForest, HasKey}
use siem_lite.KillChain.DisjointSet.Unions.{union-Joined}

-- The least equivalence of the related pairs.
pub data Connected (R : ℕ → ℕ → Type 0) : ℕ → ℕ → Type 0 where
  itself : {a : ℕ} → Connected R a a
  linked : {a b : ℕ} → R a b → Connected R a b
  back : {a b : ℕ} → Connected R a b → Connected R b a
  chained : {a b c : ℕ} → Connected R a b → Connected R b c → Connected R a c

pub Connected-map :
    {R S : ℕ → ℕ → Type 0} {a b : ℕ}
    → ((x y : ℕ) → R x y → Connected S x y)
    → Connected R a b
    → Connected S a b
Connected-map f itself = itself
Connected-map f (linked r) = f _ _ r
Connected-map f (back c) = back (Connected-map f c)
Connected-map f (chained c d) = chained (Connected-map f c) (Connected-map f d)

-- Whatever has equal values at related pairs has them at connected ones.
Connected-equal :
    {R : ℕ → ℕ → Type 0} (g : ℕ → ℕ) {a b : ℕ}
    → ((x y : ℕ) → R x y → g x ≡ g y)
    → Connected R a b
    → g a ≡ g b
Connected-equal g f itself = refl
Connected-equal g f (linked r) = f _ _ r
Connected-equal g f (back c) = sym (Connected-equal g f c)
Connected-equal g f (chained c d) = Connected-equal g f c ∙ Connected-equal g f d

-- Each id is its own parent.
abbrev IsFresh : Parents → Type 0
IsFresh p = All (λ (x, y). x ≡ y) p

IsFresh-IsForest : (p : Parents) → IsFresh p → IsForest p (λ x. x) (λ x. 0)
IsFresh-IsForest p h = record {
  same_root = λ x y g. sym (own x y g);
  leads = λ x y g. inl (own x y g, refl, refl);
  closed = λ x y g. (y, subst (λ z. get number z p ≡ some y) (own x y g) g);
  rooted = λ x y g. g ∙ ap some (sym (own x y g));
  bounded = λ x y g. omega arith;
}
  where
    own : (x y : ℕ) → get number x p ≡ some y → x ≡ y
    own x y g = All-In (λ (a, b). a ≡ b) (get-In number x y p g) h

abbrev Added : ℕ → Parents → Parents → Type 0
Added x p p' = IsFresh p' × HasKey p' x × ((z : ℕ) → HasKey p z → HasKey p' z)

add_Fresh : (x : ℕ) (p : Parents) → IsFresh p → Added x p (add x p)
unfolding add
add_Fresh x p h = elim (Option-cases (get number x p)) [
  | inl e ↦ subst (Added x p) (sym (set_default_new number x x p e)) (
    All-append (λ (a, b). a ≡ b) p ((x, x) ∷ []) h (refl, tt),
    (x, get-append_right number x x p e),
    λ z (y, g). (y, get-append_left number z y p ((x, x) ∷ []) g),
  )
  | inr (y, e) ↦ subst (Added x p) (sym (set_default_old number x x p e)) (h, (y, e), λ z k. k)
]

pub add_all-Fresh :
    (xs : List ℕ) (p : Parents)
    → IsFresh p
    → IsFresh (add_all xs p)
      × All (HasKey (add_all xs p)) xs
      × ((z : ℕ) → HasKey p z → HasKey (add_all xs p) z)
unfolding add_all
add_all-Fresh [] p h = (h, tt, λ z k. k)
add_all-Fresh (x ∷ xs) p h =
    let (h₁, kx, keys₁) = add_Fresh x p h in
    let (h₂, ks, keys₂) = add_all-Fresh xs (add x p) h₁ in
    (h₂, (keys₂ x kx, ks), λ z k. keys₂ z (keys₁ z k))

-- A forest whose roots connect as the pairs do.
pub record Linked (R : ℕ → ℕ → Type 0) (p : Parents) (root : ℕ → ℕ) (result : Option Parents)
    (pairs : List (ℕ × ℕ)) : Type 0 where
  pub table : Parents
  pub root' : ℕ → ℕ
  pub rank' : ℕ → ℕ
  pub given : result ≡ some table
  pub forest : IsForest table root' rank'
  pub keys : (z : ℕ) → HasKey p z → HasKey table z
  pub joined : All (λ (a, b). root' a ≡ root' b) pairs
  pub sound : (x : ℕ) → Connected R x (root' x)
  pub kept : (x y : ℕ) → root x ≡ root y → root' x ≡ root' y

-- A table for some ids, whose roots are equal exactly for connected ids.
pub record Grouped (R : ℕ → ℕ → Type 0) (ids : List ℕ) (result : Option Parents) : Type 0 where
  pub table : Parents
  pub root : ℕ → ℕ
  pub rank : ℕ → ℕ
  pub given : result ≡ some table
  pub forest : IsForest table root rank
  pub keys : (z : ℕ) → In z ids → HasKey table z
  pub exact : (a b : ℕ) → (root a ≡ root b) ↔ Connected R a b

unions-Linked :
    (R : ℕ → ℕ → Type 0) (p : Parents) (root rank : ℕ → ℕ) (pairs : List (ℕ × ℕ))
    → IsForest p root rank
    → All (λ (a, b). R a b × HasKey p a × HasKey p b) pairs
    → ((x : ℕ) → Connected R x (root x))
    → Linked R p root (unions pairs p) pairs
unfolding unions
unions-Linked R p root rank [] f h sound = record {
  table = p;
  root' = root;
  rank' = rank;
  given = refl;
  forest = f;
  keys = λ z k. k;
  joined = tt;
  sound = sound;
  kept = λ x y e. e;
}
unions-Linked R p root rank ((a, b) ∷ pairs) f ((r, ka, kb), h) sound =
    let u = union-Joined p root rank a b f ka kb in
    let v =
      unions-Linked R u.table u.root' u.rank' pairs u.forest
        (All-weaken (λ (x, y). R x y × HasKey p x × HasKey p y)
          (λ (x, y). R x y × HasKey u.table x × HasKey u.table y) pairs
          (λ (x, y) (q, kx, ky). (q, u.keys x kx, u.keys y ky)) h)
        (λ x. elim (u.only x) [
          | inl e ↦ subst (Connected R x) (sym e) (sound x)
          | inr (e, e') ↦ subst (Connected R x) (sym e') (
              chained (sound x) (
                chained (subst (λ z. Connected R z a) (sym e) (back (sound a)))
                  (chained (linked r) (sound b))))
        ]) in
    record {
      table = v.table;
      root' = v.root';
      rank' = v.rank';
      given = rw u.given v.given;
      forest = v.forest;
      keys = λ z k. v.keys z (u.keys z k);
      joined = (v.kept a b u.joined, v.joined);
      sound = v.sound;
      kept = λ x y e. v.kept x y (u.kept x y e);
    }

-- The roots after a run, for any ids and any pairs of them.
pub run-Linked :
    (R : ℕ → ℕ → Type 0) (ids : List ℕ) (pairs : List (ℕ × ℕ))
    → All (λ (a, b). R a b × In a ids × In b ids) pairs
    → ((a b : ℕ) → R a b → In (a, b) pairs)
    → Grouped R ids (unions pairs (add_all ids []))
run-Linked R ids pairs h all =
    let (fresh, keys, _) = add_all-Fresh ids [] tt in
    let f = IsFresh-IsForest (add_all ids []) fresh in
    let has : (z : ℕ) → In z ids → HasKey (add_all ids []) z =
      λ z i. All-In (HasKey (add_all ids [])) i keys in
    let v =
      unions-Linked R (add_all ids []) (λ x. x) (λ x. 0) pairs f
        (All-weaken (λ (x, y). R x y × In x ids × In y ids)
          (λ (x, y). R x y × HasKey (add_all ids []) x × HasKey (add_all ids []) y) pairs
          (λ (x, y) (q, i, j). (q, has x i, has y j)) h)
        (λ x. itself) in
    record {
      table = v.table;
      root = v.root';
      rank = v.rank';
      given = v.given;
      forest = v.forest;
      keys = λ z i. v.keys z (has z i);
      exact = λ a b. (
        (λ e. chained (v.sound a) (subst (λ z. Connected R z b) (sym e) (back (v.sound b)))),
        Connected-equal v.root'
            (λ x y r. All-In (λ (c, d). v.root' c ≡ v.root' d) (all x y r) v.joined),
      );
    }

-- After ids are added and pairs of them joined, the table finds one root for two ids exactly if the
-- pairs connect them.
pub unions-Grouped :
    (ids : List ℕ) (pairs : List (ℕ × ℕ))
    → All (λ (a, b). In a ids × In b ids) pairs
    → Grouped (λ a b. In (a, b) pairs) ids (unions pairs (add_all ids []))
unions-Grouped ids pairs h =
    run-Linked (λ a b. In (a, b) pairs) ids pairs
      (All-each (λ (a, b). In (a, b) pairs × In a ids × In b ids) pairs
        (λ (a, b) k. let (i, j) = All-In (λ (x, y). In x ids × In y ids) k h in (k, i, j)))
      (λ a b k. k)
