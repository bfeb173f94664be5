-- ===== src/GuestAgent/RunJob.antt =====
-- RunJob, Hello and the slot locks of internal/guestagent/guestagent.go, and the spec that Build of
-- internal/guestagent/runner.go makes. RunJob is cut where other goroutines may run.
use gha_mac_broker.Prelude.{
  ℕ, zero, suc, String, Bool, true, false, List, [], ◌∷◌, Option, none, some, is_some,
  if◌then◌else◌,
}
use gha_mac_broker.GuestExec.Types.{Outcome, accepted, JobMeta, ExecSpec, Registry}
use gha_mac_broker.GuestExec.Maps.{lookup, insert, remove}
use gha_mac_broker.GuestExec.Keys.{slot_key}
use gha_mac_broker.GuestExec.Registry.Admission.{
  StartError, draining_refused, id_required, command_required, not_absolute, launch_failed,
  new_registry, check_admission, Launched, start,
}
use gha_mac_broker.GuestExec.Registry.System.{Step, registers, step}
use gha_mac_broker.GuestExec.Registry.Listing.{ExecutionState}
use gha_mac_broker.GuestAgent.Wire.{RunOutcome, RpcCode, internal}
use gha_mac_broker.GuestAgent.Convert.{
  RegistryError, is_draining, other_error, map_registry_error, outcome_to_proto,
}

pub record JobRequest : Type 0 where
  pub execution_id : String
  pub slot : ℕ
  pub meta : JobMeta
  pub jit_config : String
  pub env : List (String × String)

-- What RunJob answers.
pub data Answer : Type 0 where
  answered : RunOutcome → Answer
  failed : RpcCode → Answer

-- Where the holder of a slot's lock stands: in Build, or in Start after its first look at a registry.
pub data Holder : Type 0 where
  building : JobRequest → Holder
  starting : ExecSpec → Registry → Holder

-- A handler: its registry, and the slot locks that are held.
pub record Handler : Type 0 where
  pub registry : Registry
  pub holders : List (ℕ × Holder)

abbrev pub new_handler : Handler
new_handler = record { registry = new_registry; holders = [] }

-- Which of the errors that mapRegistryError tells apart an error of the registry is.
abbrev pub registry_error : StartError → RegistryError
registry_error draining_refused = is_draining
registry_error id_required = other_error
registry_error command_required = other_error
registry_error not_absolute = other_error
registry_error launch_failed = other_error

abbrev pub answer_of : Outcome → Option StartError → Answer
answer_of o none = answered (outcome_to_proto o)
answer_of o (some e) = failed (map_registry_error (registry_error e))

-- The spec that CheckAdmission is given.
abbrev pub peek_spec : JobRequest → ExecSpec
peek_spec q = record { execution_id = q.execution_id; slot = q.slot; meta = q.meta; command = "" }

-- What registration reads of the spec that Build returns.
abbrev pub built_spec : JobRequest → String → ExecSpec
built_spec q command = record {
  execution_id = q.execution_id;
  slot = q.slot;
  meta = q.meta;
  command = command;
}

-- `admission != OutcomeAccepted`, negated.
abbrev pub is_accepted : Outcome → Bool
is_accepted accepted = true
is_accepted _ = false

-- RunJob up to the call of Build: it waits for the slot's lock, so it does nothing while another
-- one holds it, and it answers at once when admission refuses.
unfoldable pub begin_job : JobRequest → Handler → Handler × Option Answer
unfolding lookup insert check_admission
begin_job q a =
    if is_some (lookup q.slot a.holders)
    then (a, none)
    else let (outcome, error) = check_admission (peek_spec q) a.registry in
      elim error [
        | some e ↦ (a, some (answer_of outcome (some e)))
        | none ↦
            if is_accepted outcome
            then (record a { holders = insert q.slot (building q) a.holders }, none)
            else (a, some (answer_of outcome none))
      ]

-- Build returns, with the command or an error. Start looks at the registry.
unfoldable pub end_build : ℕ → Option String → Handler → Handler × Option Answer
unfolding lookup insert remove
end_build slot command a = elim (lookup slot a.holders) [
  | none ↦ (a, none)
  | some h ↦ elim h [
    | starting spec before ↦ (a, none)
    | building q ↦ elim command [
      | none ↦ (record a { holders = remove slot a.holders }, some (failed internal))
      | some c ↦ (
        record a { holders = insert slot (starting (built_spec q c) a.registry) a.holders },
        none,
      )
    ]
  ]
]

-- Start returns, and with it RunJob, which gives the lock back.
unfoldable pub end_start : (String → Bool) → ℕ → Option Launched → Handler → Handler × Option Answer
unfolding lookup remove start
end_start is_abs slot launch a = elim (lookup slot a.holders) [
  | none ↦ (a, none)
  | some h ↦ elim h [
    | building q ↦ (a, none)
    | starting spec before ↦
        let result = start is_abs spec launch before a.registry in
        (
          record { registry = result.0; holders = remove slot a.holders },
          some (answer_of result.1 result.2),
        )
  ]
]

-- The goroutines of the registry. A registration comes from RunJob only.
unfoldable pub background : (String → Bool) → Step → Handler → Handler
unfolding step
background is_abs (registers spec pid pgid) a = a
background is_abs s a = record a { registry = step is_abs s a.registry }

pub data HandlerStep : Type 0 where
  begins : JobRequest → HandlerStep
  builds : ℕ → Option String → HandlerStep
  starts : ℕ → Option Launched → HandlerStep
  others : Step → HandlerStep

unfoldable pub handler_step : (String → Bool) → HandlerStep → Handler → Handler
unfolding begin_job end_build end_start background
handler_step is_abs (begins q) a = (begin_job q a).0
handler_step is_abs (builds slot command) a = (end_build slot command a).0
handler_step is_abs (starts slot launch) a = (end_start is_abs slot launch a).0
handler_step is_abs (others s) a = background is_abs s a

unfoldable pub handler_run : (String → Bool) → List HandlerStep → Handler → Handler
unfolding handler_step
handler_run is_abs [] a = a
handler_run is_abs (s ∷ ss) a = handler_run is_abs ss (handler_step is_abs s a)

-- An entry of Hello's slots.
pub record SlotInfo : Type 0 where
  pub index : ℕ
  pub busy : Bool
  pub execution_id : String

-- `activeBySlot`: a later running execution takes the place of an earlier one.
unfoldable pub active_by_slot : List ExecutionState → List (ℕ × String) → List (ℕ × String)
unfolding insert
active_by_slot [] m = m
active_by_slot (s ∷ ss) m =
    active_by_slot ss (if s.running then insert s.slot s.execution_id m else m)

-- The loop over the slots, from `slot` on.
unfoldable pub slot_infos : ℕ → ℕ → List (ℕ × String) → List SlotInfo
unfolding lookup
slot_infos zero slot m = []
slot_infos (suc n) slot m =
    let found = lookup slot m in
    record {
      index = slot;
      busy = is_some found;
      execution_id = elim found [ none ↦ "" | some id ↦ id ];
    }
    ∷ slot_infos n (suc slot) m

-- slots, which Hello sends, of what List returns.
unfoldable pub slots : ℕ → List ExecutionState → List SlotInfo
unfolding active_by_slot slot_infos
slots slot_count states = slot_infos slot_count 0 (active_by_slot states [])
