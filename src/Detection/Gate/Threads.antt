-- ===== src/Detection/Gate/Threads.antt =====
-- The gate cache under every interleaving of threads and resets.
use siem_lite.Prelude.{
  ℕ, ◌≤◌, ◌≡◌, refl, sym, ap, subst, subst₂, ◌∙◌, Bool, true, false, List, [], ◌∷◌, ◌++◌, Option,
  none, some, length, arith, inl, inr, Bool-cases, ◌==◌, if_true, if_false, All,
}
use siem_lite.Cim.Spec.{CimRegistry}
use siem_lite.Detection.Gate.{
  Key, Gate, CimState, log_once, cim, reset_cim_cache, gate_of, cached, gate_commit,
  gate_log_unknown, gate_cache_max, store_gate,
}
use siem_lite.Detection.Gate.Facts.{Gates-cached, Gates-store, length-store_make_room, make_room}
use siem_lite.Detection.Gate.Steps.{
  Flight, waiting, holding, System, Step, start, resolve, give_up, finish, call_cim, report, reset,
  Reach, begin, next,
}
use siem_lite.Detection.Gate.Keeps.{
  Backed, Keeps, Keeps-log_once, Keeps-gate_log_unknown, Keeps-cim, cim-some, Gates-make_room,
}

-- What a flight has read is of the past, or still in force.
abbrev Current : ℕ → Bool → Option CimRegistry → Flight → Type 0
Current generation resolved registry (waiting n key) = n ≤ generation
Current generation resolved registry (holding n key reg) =
    (n ≤ generation) × ((n == generation) ≡ true → (resolved ≡ true) × (registry ≡ some reg))

abbrev InForce : CimState → Flight → Type 0
InForce st f = Current st.generation st.resolved st.registry f

record Inv (s : System) : Type 0 where
  backed : Backed s.shared.resolved s.shared.registry s.shared.gate_cache
  bounded : length s.shared.gate_cache ≤ gate_cache_max
  in_force : All (InForce s.shared) s.flights

InForce-Keeps : {st st' : CimState} → Keeps st st' → (f : Flight) → InForce st f → InForce st' f
InForce-Keeps k (waiting n key) h = omega (arith, k.same_generation)
InForce-Keeps {st} {st'} k (holding n key reg) h = (
  omega (arith, k.same_generation),
  λ e.
      let (p, q) = h.1 (rw k.same_generation at e) in let (u, v) = k.resolved_stays p in (u, v ∙ q),
)

All-Keeps :
    {st st' : CimState}
    → Keeps st st'
    → (fs : List Flight) → All (InForce st) fs
    → All (InForce st') fs
All-Keeps k [] h = tt
All-Keeps k (f ∷ fs) h = (InForce-Keeps k f h.0, All-Keeps k fs h.1)

-- A step of the shared state alone.
Inv-Keeps :
    (st st' : CimState) (fs : List Flight)
    → Keeps st st'
    → Inv (record { shared = st; flights = fs })
    → Inv (record { shared = st'; flights = fs })
Inv-Keeps st st' fs k i = record {
  backed = k.backed_stays i.backed;
  bounded = rw k.same_cache i.bounded;
  in_force = All-Keeps k fs i.in_force;
}

module _ {ℓ κ} {A : Type ℓ} (P : A → Type κ) where
  All-middle : (xs : List A) (y : A) (ys : List A) → All P (xs ++ y ∷ ys) → P y
  All-middle [] y ys h = h.0
  All-middle (x ∷ xs) y ys h = All-middle xs y ys h.1

  All-remove : (xs : List A) (y : A) (ys : List A) → All P (xs ++ y ∷ ys) → All P (xs ++ ys)
  All-remove [] y ys h = h.1
  All-remove (x ∷ xs) y ys h = (h.0, All-remove xs y ys h.1)

  All-replace :
      (xs : List A) (y z : A) (ys : List A) → P z → All P (xs ++ y ∷ ys) → All P (xs ++ z ∷ ys)
  All-replace [] y z ys p h = (p, h.1)
  All-replace (x ∷ xs) y z ys p h = (h.0, All-replace xs y z ys p h.1)

Inv-commit :
    (st : CimState) (before after : List Flight) (n : ℕ) (key : Key) (reg : CimRegistry)
    → Inv (record { shared = st; flights = before ++ holding n key reg ∷ after })
    → Inv (record {
      shared = gate_commit n key (gate_of reg key.names) st;
      flights = before ++ after;
    })
unfolding gate_commit
Inv-commit st before after n key reg i = elim (Bool-cases (n == st.generation)) [
  | inl e ↦
      let (p, q) = (All-middle (InForce st) before (holding n key reg) after i.in_force).1 e in
      let gates = subst₂ (λ b r. Backed b r st.gate_cache) p q i.backed in
      let cache = store_gate key (gate_of reg key.names) (make_room st.gate_cache) in
      subst (λ s. Inv (record { shared = s; flights = before ++ after })) (sym (if_true _ _ _ e))
        (record {
          backed =
              subst₂ (λ b r. Backed b r cache) (sym p) (sym q)
                (Gates-store reg key (make_room st.gate_cache)
                  (Gates-make_room reg st.gate_cache gates));
          bounded = length-store_make_room key (gate_of reg key.names) st.gate_cache;
          in_force = All-remove (InForce st) before (holding n key reg) after i.in_force;
        })
  | inr e ↦
      subst (λ s. Inv (record { shared = s; flights = before ++ after })) (sym (if_false _ _ _ e))
        (record {
          backed = i.backed;
          bounded = i.bounded;
          in_force = All-remove (InForce st) before (holding n key reg) after i.in_force;
        })
]

-- A reset puts every flight in the past.
InForce-reset : (st : CimState) (f : Flight) → InForce st f → InForce (reset_cim_cache st) f
unfolding reset_cim_cache
InForce-reset st (waiting n key) h = omega arith
InForce-reset st (holding n key reg) h = (omega arith, λ e. absurd (ground arith))

All-reset :
    (st : CimState) (fs : List Flight) → All (InForce st) fs → All (InForce (reset_cim_cache st)) fs
All-reset st [] h = tt
All-reset st (f ∷ fs) h = (InForce-reset st f h.0, All-reset st fs h.1)

Inv-reset :
    (st : CimState) (fs : List Flight)
    → Inv (record { shared = st; flights = fs })
    → Inv (record { shared = reset_cim_cache st; flights = fs })
Inv-reset st fs i = record {
  backed = unfold reset_cim_cache in refl;
  bounded = unfold reset_cim_cache in omega arith;
  in_force = All-reset st fs i.in_force;
}

Step-Inv : {s t : System} → Step s t → Inv s → Inv t
Step-Inv (start st fs key miss) i = record {
  backed = i.backed;
  bounded = i.bounded;
  in_force = (omega arith, i.in_force);
}
Step-Inv (resolve st before after n key attempt now reg h) i =
    let j = Inv-Keeps st (cim attempt now st).1 _ (Keeps-cim attempt now st) i in
    let old = All-middle (InForce (cim attempt now st).1) before (waiting n key) after j.in_force in
    record {
      backed = j.backed;
      bounded = j.bounded;
      in_force =
          All-replace (InForce (cim attempt now st).1) before (waiting n key) (holding n key reg)
            after (old, λ e. cim-some attempt now st reg h) j.in_force;
    }
Step-Inv (give_up st before after n key attempt now h) i =
    let j = Inv-Keeps st (cim attempt now st).1 _ (Keeps-cim attempt now st) i in
    record {
      backed = j.backed;
      bounded = j.bounded;
      in_force =
          All-remove (InForce (cim attempt now st).1) before (waiting n key) after j.in_force;
    }
Step-Inv (finish st before after n key reg) i =
    Inv-commit (gate_log_unknown reg key st) before after n key reg
      (Inv-Keeps st (gate_log_unknown reg key st) _ (Keeps-gate_log_unknown reg key st) i)
Step-Inv (call_cim st fs attempt now) i =
    Inv-Keeps st (cim attempt now st).1 fs (Keeps-cim attempt now st) i
Step-Inv (report st fs key) i = Inv-Keeps st (log_once key st) fs (Keeps-log_once key st) i
Step-Inv (reset st fs) i = Inv-reset st fs i

Reach-Inv : {s : System} → Reach s → Inv s
Reach-Inv begin = record { backed = refl; bounded = omega arith; in_force = tt }
Reach-Inv (next r st) = Step-Inv st (Reach-Inv r)

Backed-cached :
    (resolved : Bool) (registry : Option CimRegistry) (cache : List (Key × Gate)) (key : Key)
    (g : Gate)
    → Backed resolved registry cache
    → cached key cache ≡ some g
    → (reg : CimRegistry) × (resolved ≡ true) × (registry ≡ some reg) × (g ≡ gate_of reg key.names)
Backed-cached true (some reg) cache key g b h = (reg, refl, refl, Gates-cached reg key cache b h)
Backed-cached true none cache key g b h = absurd b
Backed-cached false registry cache key g b h = absurd (no_hit (ap (cached key) b ∙ refl))
  where
    no_hit : cached key cache ≡ none → ⊥
    no_hit e = let k = sym e ∙ h in cc

-- However the threads interleave and wherever resets fall, a gate found in the cache is the one
-- that the registry now in force gives for the key's names: none outlives its registry.
pub Reach-cached :
    {s : System} (key : Key) (g : Gate)
    → Reach s
    → cached key s.shared.gate_cache ≡ some g
    → (reg : CimRegistry) × (s.shared.resolved ≡ true)
      × (s.shared.registry ≡ some reg)
      × (g ≡ gate_of reg key.names)
Reach-cached key g r h = Backed-cached _ _ _ key g (Reach-Inv r).backed h

-- The cache never grows past its bound.
pub Reach-bounded : {s : System} → Reach s → length s.shared.gate_cache ≤ gate_cache_max
Reach-bounded r = (Reach-Inv r).bounded
