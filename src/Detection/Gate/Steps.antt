-- ===== src/Detection/Gate/Steps.antt =====
-- Several threads in `_gate` at once, with resets in between: the critical sections of `_cim`,
-- `_gate` and `reset_cim_cache` are atomic steps, and a thread in the unlocked middle of `_gate`
-- is a flight with what it has read so far.
use siem_lite.Prelude.{ℕ, ◌≡◌, List, [], ◌∷◌, ◌++◌, Option, none, some}
use siem_lite.Cim.Spec.{CimRegistry}
use siem_lite.Detection.Gate.{
  Key, LogKey, CimState, initial, log_once, cim, reset_cim_cache, gate_of, cached, gate_commit,
  gate_log_unknown,
}

-- A thread that has read the generation, and one that has a registry too.
pub data Flight : Type 0 where
  waiting : ℕ → Key → Flight
  holding : ℕ → Key → CimRegistry → Flight

pub record System : Type 0 where
  pub shared : CimState
  pub flights : List Flight

pub data Step : System → System → Type 0 where
  -- a miss, in the first critical section of `_gate`
  start :
      (st : CimState) (fs : List Flight) (key : Key)
      → cached key st.gate_cache ≡ none
      → Step
          (record { shared = st; flights = fs })
          (record { shared = st; flights = waiting st.generation key ∷ fs })
  -- `_cim` gives a registry
  resolve :
      (st : CimState) (before after : List Flight) (n : ℕ) (key : Key)
      (attempt : Option CimRegistry) (now : ℕ) (reg : CimRegistry)
      → (cim attempt now st).0 ≡ some reg
      → Step
          (record { shared = st; flights = before ++ waiting n key ∷ after })
          (record {
            shared = (cim attempt now st).1;
            flights = before ++ holding n key reg ∷ after;
          })
  -- `_cim` gives none: the call returns a dead gate and writes nothing
  give_up :
      (st : CimState) (before after : List Flight) (n : ℕ) (key : Key)
      (attempt : Option CimRegistry) (now : ℕ)
      → (cim attempt now st).0 ≡ none
      → Step
          (record { shared = st; flights = before ++ waiting n key ∷ after })
          (record { shared = (cim attempt now st).1; flights = before ++ after })
  -- the report of unknown names, and the last critical section
  finish :
      (st : CimState) (before after : List Flight) (n : ℕ) (key : Key) (reg : CimRegistry)
      → Step
          (record { shared = st; flights = before ++ holding n key reg ∷ after })
          (record {
            shared = gate_commit n key (gate_of reg key.names) (gate_log_unknown reg key st);
            flights = before ++ after;
          })
  -- a call of `_cim` by `cim_tags`, a report, and `reset_cim_cache`
  call_cim :
      (st : CimState) (fs : List Flight) (attempt : Option CimRegistry) (now : ℕ)
      → Step
          (record { shared = st; flights = fs })
          (record { shared = (cim attempt now st).1; flights = fs })
  report :
      (st : CimState) (fs : List Flight) (key : LogKey)
      → Step
          (record { shared = st; flights = fs })
          (record { shared = log_once key st; flights = fs })
  reset :
      (st : CimState) (fs : List Flight)
      → Step
          (record { shared = st; flights = fs })
          (record { shared = reset_cim_cache st; flights = fs })

pub data Reach : System → Type 0 where
  begin : Reach (record { shared = initial; flights = [] })
  next : {s t : System} → Reach s → Step s t → Reach t
