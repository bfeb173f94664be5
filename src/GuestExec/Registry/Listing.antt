-- ===== src/GuestExec/Registry/Listing.antt =====
-- List of internal/guestexec/registry.go.
use gha_mac_broker.Prelude.{ℕ, String, Bool, List, [], ◌∷◌, none, some, get_elem?}
use gha_mac_broker.GuestExec.Types.{JobMeta, Event, Execution, Registry}

pub record ExecutionState : Type 0 where
  pub execution_id : String
  pub slot : ℕ
  pub meta : JobMeta
  pub phase : String
  pub running : Bool
  pub last_sequence : ℕ

-- The sequence number of the last event.
abbrev pub last_sequence : List Event → ℕ
last_sequence [] = 0
last_sequence (x ∷ []) = x.sequence
last_sequence (x ∷ y ∷ es) = last_sequence (y ∷ es)

abbrev pub state_of : Execution → ExecutionState
state_of e = record {
  execution_id = e.id;
  slot = e.slot;
  meta = e.meta;
  phase = e.phase;
  running = e.running;
  last_sequence = last_sequence e.log.events;
}

-- The states, in the order of the map.
unfoldable pub states_of : List Execution → List (String × ℕ) → List ExecutionState
states_of heap [] = []
states_of heap ((id, h) ∷ rest) =
    let later = states_of heap rest in
    elim (get_elem? heap h) [ none ↦ later | some e ↦ state_of e ∷ later ]

-- `sort_states` is sort.Slice by the execution id.
unfoldable pub list_executions :
    (List ExecutionState → List ExecutionState) → Registry → List ExecutionState
unfolding states_of
list_executions sort_states r = sort_states (states_of r.heap r.executions)
