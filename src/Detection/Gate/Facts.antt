-- ===== src/Detection/Gate/Facts.antt =====
-- Facts on the gate's keys, cache and log that the proofs about the gate share.
use siem_lite.Prelude.{
  ℕ, suc, ◌≤◌, ◌<◌, ◌≡◌, refl, sym, ap, ◌∙◌, true, false, List, [], ◌∷◌, Option, none, some,
  if◌then◌else◌, if_true, if_false, length, arith, inl, inr, Bool-cases, leb, is_empty,
}
use siem_lite.Text.Chars.{Text, text_eq_iff}
use siem_lite.Cim.Spec.{CimRegistry}
use siem_lite.Detection.Gate.{
  Key, texts_eq, key_eq, Gate, LogKey, CimState, log_once, cim, gate_of, cached, store_gate,
  gate_log_unknown, gate_cache_max, resolve_names, unknown_datamodel, inside_wall, cim_outcome,
}

texts_eq→eq : (ss ts : List Text) → texts_eq ss ts ≡ true → ss ≡ ts
texts_eq→eq [] [] h = refl
texts_eq→eq [] (t ∷ ts) h = absurd (ground arith)
texts_eq→eq (s ∷ ss) [] h = absurd (ground arith)
texts_eq→eq (s ∷ ss) (t ∷ ts) h = ground (arith, text_eq_iff s t, texts_eq→eq ss ts)

pub key_eq-names : (a b : Key) → key_eq a b ≡ true → a.names ≡ b.names
key_eq-names a b h = texts_eq→eq a.names b.names (ground arith)

-- Every cached gate is the one that this registry gives.
abbrev pub Gates : CimRegistry → List (Key × Gate) → Type 0
Gates reg [] = Unit {0}
Gates reg ((k, g) ∷ cache) = (g ≡ gate_of reg k.names) × Gates reg cache

pub Gates-cached :
    (reg : CimRegistry) (key : Key) (cache : List (Key × Gate)) {g : Gate}
    → Gates reg cache
    → cached key cache ≡ some g
    → g ≡ gate_of reg key.names
Gates-cached reg key [] v h = absurd (ground arith)
Gates-cached reg key ((k, f) ∷ cache) {g} (a, v) h = elim (Bool-cases (key_eq k key)) [
  | inl e ↦ let p : f ≡ g = ground arith in sym p ∙ a ∙ ap (gate_of reg) (key_eq-names k key e)
  | inr e ↦ Gates-cached reg key cache v (ground arith)
]

pub Gates-store :
    (reg : CimRegistry) (key : Key) (cache : List (Key × Gate))
    → Gates reg cache
    → Gates reg (store_gate key (gate_of reg key.names) cache)
Gates-store reg key [] v = (refl, tt)
Gates-store reg key ((k, f) ∷ cache) (a, v) = elim (Bool-cases (key_eq k key)) [
  | inl e ↦ rw e (ap (gate_of reg) (sym (key_eq-names k key e)), v)
  | inr e ↦ rw e (a, Gates-store reg key cache v)
]

length-store_gate-le :
    (key : Key) (g : Gate) (cache : List (Key × Gate))
    → length (store_gate key g cache) ≤ suc (length cache)
length-store_gate-le key g [] = omega arith
length-store_gate-le key g ((k, f) ∷ cache) = ground (arith, length-store_gate-le key g cache)

abbrev pub make_room : List (Key × Gate) → List (Key × Gate)
make_room cache = if leb gate_cache_max (length cache) then [] else cache

pub length-store_make_room :
    (key : Key) (g : Gate) (cache : List (Key × Gate))
    → length (store_gate key g (make_room cache)) ≤ gate_cache_max
length-store_make_room key g cache = elim (Bool-cases (leb gate_cache_max (length cache))) [
  | inl e ↦ rw e (omega arith)
  | inr e ↦ rw e (omega (arith, length-store_gate-le key g cache, small e))
]
  where
    small : leb gate_cache_max (length cache) ≡ false → length cache < gate_cache_max
    small e = ground arith

-- Logging changes the log and nothing else.
pub log_once_keeps :
    (key : LogKey) (st : CimState)
    → ((log_once key st).resolved ≡ st.resolved)
      × ((log_once key st).registry ≡ st.registry)
      × ((log_once key st).retry_at ≡ st.retry_at)
      × ((log_once key st).generation ≡ st.generation)
      × ((log_once key st).gate_cache ≡ st.gate_cache)
unfolding log_once
log_once_keeps key st = ground arith

pub gate_log_unknown_keeps :
    (reg : CimRegistry) (key : Key) (st : CimState)
    → ((gate_log_unknown reg key st).resolved ≡ st.resolved)
      × ((gate_log_unknown reg key st).registry ≡ st.registry)
      × ((gate_log_unknown reg key st).retry_at ≡ st.retry_at)
      × ((gate_log_unknown reg key st).generation ≡ st.generation)
      × ((gate_log_unknown reg key st).gate_cache ≡ st.gate_cache)
unfolding gate_log_unknown
gate_log_unknown_keeps reg key st = elim (Bool-cases (is_empty (resolve_names reg key.names).1)) [
  | inl e ↦ rw e (refl, refl, refl, refl, refl)
  | inr e ↦ rw e (log_once_keeps (unknown_datamodel key) st)
]

-- The three branches of `_cim`.
module _ (attempt : Option CimRegistry) (now : ℕ) (st : CimState) where
  pub cim-resolved : st.resolved ≡ true → cim attempt now st ≡ (st.registry, st)
  unfolding cim
  cim-resolved h = if_true _ _ _ h

  pub cim-wall :
      st.resolved ≡ false → inside_wall st.retry_at now ≡ true → cim attempt now st ≡ (none, st)
  unfolding cim
  cim-wall h w = if_false _ _ _ h ∙ if_true _ _ _ w

  -- Past the wall the attempt decides.
  pub cim-attempt :
      st.resolved ≡ false
      → inside_wall st.retry_at now ≡ false
      → cim attempt now st ≡ cim_outcome now st attempt
  unfolding cim
  cim-attempt h w = if_false _ _ _ h ∙ if_false _ _ _ w
