-- ===== src/Detection/Gate/Keeps.antt =====
-- What `_cim` and the reports of `_log_once` leave as it was: the generation, the gate cache, and
-- a registry once resolved.
use siem_lite.Prelude.{
  ℕ, ◌≡◌, refl, sym, subst, ◌∙◌, Bool, true, false, List, [], Option, none, some, length, inl, inr,
  Bool-cases, leb,
}
use siem_lite.Cim.Spec.{CimRegistry}
use siem_lite.Detection.Gate.{
  Key, Gate, LogKey, CimState, log_once, cim, gate_log_unknown, gate_cache_max, cim_outcome,
  inside_wall, cim_unavailable,
}
use siem_lite.Detection.Gate.Facts.{
  Gates, make_room, log_once_keeps, gate_log_unknown_keeps, cim-resolved, cim-wall, cim-attempt,
}

-- The cache holds gates of the registry in force, and nothing while there is none.
abbrev pub Backed : Bool → Option CimRegistry → List (Key × Gate) → Type 0
Backed true (some reg) cache = Gates reg cache
Backed true none cache = ⊥
Backed false _ cache = cache ≡ []

-- A step of the shared state that keeps the generation and what is resolved.
pub record Keeps (st st' : CimState) : Type 0 where
  pub same_generation : st'.generation ≡ st.generation
  pub same_cache : st'.gate_cache ≡ st.gate_cache
  pub resolved_stays : st.resolved ≡ true → (st'.resolved ≡ true) × (st'.registry ≡ st.registry)
  pub backed_stays :
      Backed st.resolved st.registry st.gate_cache → Backed st'.resolved st'.registry st'.gate_cache

Keeps-of :
    (st st' : CimState)
    → st'.resolved ≡ st.resolved
    → st'.registry ≡ st.registry
    → st'.generation ≡ st.generation
    → st'.gate_cache ≡ st.gate_cache
    → Keeps st st'
Keeps-of st st' a b c d = record {
  same_generation = c;
  same_cache = d;
  resolved_stays = λ h. (a ∙ h, b);
  backed_stays = λ h. rw (a, b, d) h;
}

pub Keeps-log_once : (key : LogKey) (st : CimState) → Keeps st (log_once key st)
Keeps-log_once key st =
    let (a, b, _, c, d) = log_once_keeps key st in Keeps-of st (log_once key st) a b c d

pub Keeps-gate_log_unknown :
    (reg : CimRegistry) (key : Key) (st : CimState) → Keeps st (gate_log_unknown reg key st)
Keeps-gate_log_unknown reg key st =
    let (a, b, _, c, d) = gate_log_unknown_keeps reg key st in
    Keeps-of st (gate_log_unknown reg key st) a b c d

Keeps-trans : {a b c : CimState} → Keeps a b → Keeps b c → Keeps a c
Keeps-trans k l = record {
  same_generation = l.same_generation ∙ k.same_generation;
  same_cache = l.same_cache ∙ k.same_cache;
  resolved_stays =
      λ h. let (p, q) = k.resolved_stays h in let (u, v) = l.resolved_stays p in (u, v ∙ q);
  backed_stays = λ h. l.backed_stays (k.backed_stays h);
}

-- While nothing is resolved the cache is empty, so any registry backs it.
Backed-unresolved :
    (reg : CimRegistry) (r : Option CimRegistry) (cache : List (Key × Gate))
    → Backed false r cache
    → Backed true (some reg) cache
Backed-unresolved reg r cache e = subst (Gates reg) (sym e) tt

Keeps-outcome :
    (attempt : Option CimRegistry) (now : ℕ) (st : CimState)
    → st.resolved ≡ false
    → Keeps st (cim_outcome now st attempt).1
Keeps-outcome none now st e =
    Keeps-trans
      (record {
        same_generation = refl;
        same_cache = refl;
        resolved_stays = λ h. absurd (cc);
        backed_stays = λ h.
            subst (λ b. Backed b none st.gate_cache) (sym e)
              (subst (λ b. Backed b st.registry st.gate_cache) e h);
      })
      (Keeps-log_once cim_unavailable _)
Keeps-outcome (some reg) now st e = record {
  same_generation = refl;
  same_cache = refl;
  resolved_stays = λ h. absurd (cc);
  backed_stays = λ h.
      Backed-unresolved reg st.registry st.gate_cache
        (subst (λ b. Backed b st.registry st.gate_cache) e h);
}

pub Keeps-cim :
    (attempt : Option CimRegistry) (now : ℕ) (st : CimState) → Keeps st (cim attempt now st).1
Keeps-cim attempt now st = elim (Bool-cases st.resolved) [
  | inl e ↦ rw (cim-resolved attempt now st e) (Keeps-of st st refl refl refl refl)
  | inr e ↦ elim (Bool-cases (inside_wall st.retry_at now)) [
    | inl w ↦ rw (cim-wall attempt now st e w) (Keeps-of st st refl refl refl refl)
    | inr w ↦ rw (cim-attempt attempt now st e w) (Keeps-outcome attempt now st e)
  ]
]

outcome-some :
    (attempt : Option CimRegistry) (now : ℕ) (st : CimState) (reg : CimRegistry)
    → (cim_outcome now st attempt).0 ≡ some reg
    → ((cim_outcome now st attempt).1.resolved ≡ true)
      × ((cim_outcome now st attempt).1.registry ≡ some reg)
outcome-some none now st reg h = absurd (cc)
outcome-some (some r) now st reg h = (refl, h)

-- A call of `_cim` that gives a registry leaves that registry in force.
pub cim-some :
    (attempt : Option CimRegistry) (now : ℕ) (st : CimState) (reg : CimRegistry)
    → (cim attempt now st).0 ≡ some reg
    → ((cim attempt now st).1.resolved ≡ true) × ((cim attempt now st).1.registry ≡ some reg)
cim-some attempt now st reg h = elim (Bool-cases st.resolved) [
  | inl e ↦ let q = cim-resolved attempt now st e in rw q (e, rw q at h)
  | inr e ↦ elim (Bool-cases (inside_wall st.retry_at now)) [
    | inl w ↦ let q = cim-wall attempt now st e w in let k = rw q at h in absurd (cc)
    | inr w ↦
        let q = cim-attempt attempt now st e w in rw q (outcome-some attempt now st reg (rw q at h))
  ]
]

pub Gates-make_room :
    (reg : CimRegistry) (cache : List (Key × Gate)) → Gates reg cache → Gates reg (make_room cache)
Gates-make_room reg cache v = elim (Bool-cases (leb gate_cache_max (length cache))) [
  | inl e ↦ rw e tt
  | inr e ↦ rw e v
]
