-- ===== src/GuestExec/Registry/Admission.antt =====
-- checkAdmissionLocked, CheckAdmission, Register, Start and Drain of internal/guestexec/registry.go.
use gha_mac_broker.Prelude.{
  ℕ, ◌+◌, ◌%◌, String, Bool, true, false, not, [], ◌∷◌, ◌++◌, Option, none, some, pos, ◌==◌, length,
  get_elem?, str_eq, is_some, if◌then◌else◌,
}
use gha_mac_broker.GuestExec.Types.{
  Outcome, unspecified, accepted, already_running, already_completed, conflict, ExecSpec,
  phase_change, awaiting, Execution, Registry,
}
use gha_mac_broker.GuestExec.Log.{empty_log, append_event}
use gha_mac_broker.GuestExec.Maps.{lookup, insert}
use gha_mac_broker.GuestExec.Keys.{id_key, slot_key}

-- The errors that a caller can meet here.
pub data StartError : Type 0 where
  id_required command_required not_absolute draining_refused launch_failed : StartError

abbrev pub new_registry : Registry
new_registry = record {
  heap = [];
  executions = [];
  slots = [];
  draining = false;
  active_count = 0;
  drained_closed = false;
}

pub record Admission : Type 0 where
  pub outcome : Outcome
  pub proceed : Bool
  pub error : Option StartError

abbrev pub refuse : Outcome → Admission
refuse o = record { outcome = o; proceed = false; error = none }

-- The execution that an id leads to.
abbrev pub find_execution : String → Registry → Option Execution
find_execution id r = elim (lookup id r.executions) [ none ↦ none | some h ↦ get_elem? r.heap h ]

unfoldable pub check_admission_locked : ExecSpec → Registry → Admission
unfolding lookup
check_admission_locked spec r =
    if r.draining
    then record { outcome = unspecified; proceed = false; error = some draining_refused }
    else elim (find_execution spec.execution_id r) [
      | some e ↦
          if not (e.slot == spec.slot)
          then refuse conflict
          else if e.running
          then refuse already_running
          else refuse already_completed
      | none ↦
          if is_some (lookup spec.slot r.slots)
          then refuse conflict
          else record { outcome = accepted; proceed = true; error = none }
    ]

unfoldable pub check_admission : ExecSpec → Registry → Outcome × Option StartError
unfolding check_admission_locked
check_admission spec r =
    if str_eq spec.execution_id ""
    then (unspecified, some id_required)
    else let a = check_admission_locked spec r in (a.outcome, a.error)

abbrev pub u32 : ℕ → ℕ
u32 n = n % 4294967296

abbrev pub new_execution : ExecSpec → ℕ → ℕ → Execution
new_execution spec pid pgid = record {
  id = spec.execution_id;
  slot = spec.slot;
  meta = spec.meta;
  process_id = pid;
  pgid = pgid;
  phase = "running";
  running = true;
  reaped = false;
  cancelled = false;
  log = append_event (phase_change "running") empty_log;
  completed_at = 0;
  exit_reported = false;
  exit_code = pos 0;
  exit_msg = "";
  exit_report = none;
  reap_once = false;
  stdout_open = true;
  stderr_open = true;
  supervisor = awaiting;
  timer_armed = false;
}

abbrev pub admit : ExecSpec → ℕ → ℕ → Registry → Registry
admit spec pid pgid r = record r {
  heap = r.heap ++ new_execution spec pid pgid ∷ [];
  executions = insert spec.execution_id (length r.heap) r.executions;
  slots = insert spec.slot spec.execution_id r.slots;
  active_count = u32 (r.active_count + 1);
}

-- The checks that Start and Register share; `is_abs` is filepath.IsAbs.
unfoldable pub invalid_spec : (String → Bool) → ExecSpec → Option StartError
invalid_spec is_abs spec =
    if str_eq spec.execution_id ""
    then some id_required
    else if str_eq spec.command ""
    then some command_required
    else if not (is_abs spec.command)
    then some not_absolute
    else none

unfoldable pub register :
    (String → Bool) → ExecSpec → ℕ → ℕ → Registry → Registry × Outcome × Option StartError
unfolding invalid_spec check_admission_locked insert append_event
register is_abs spec pid pgid r = elim (invalid_spec is_abs spec) [
  | some e ↦ (r, unspecified, some e)
  | none ↦
      let a = check_admission_locked spec r in
      if a.proceed then (admit spec pid pgid r, accepted, none) else (r, a.outcome, a.error)
]

-- A process that Launch made: its pid and its process group.
abbrev pub Launched : Type 0
Launched = ℕ × ℕ

-- `registerErr != nil || outcome != OutcomeAccepted`, which discards the launched process.
abbrev pub discard_unless :
    Registry × Outcome × Option StartError → Registry × Outcome × Option StartError × Bool
discard_unless (r, accepted, none) = (r, accepted, none, false)
discard_unless (r, o, e) = (r, o, e, true)

-- Start. Between the first look and Register other goroutines may change the registry from the
-- first to the second one given. The last part says whether the launched process is killed and
-- reaped because it was not accepted.
unfoldable pub start :
    (String → Bool)
    → ExecSpec
    → Option Launched
    → Registry
    → Registry
    → Registry × Outcome × Option StartError × Bool
unfolding register
start is_abs spec launch before now = elim (invalid_spec is_abs spec) [
  | some e ↦ (now, unspecified, some e, false)
  | none ↦
      let a = check_admission_locked spec before in
      if not a.proceed then (now, a.outcome, a.error, false) else elim launch [
        | none ↦ (now, unspecified, some launch_failed, false)
        | some (pid, pgid) ↦ discard_unless (register is_abs spec pid pgid now)
      ]
]

-- What Drain returns beside the channel.
pub record DrainState : Type 0 where
  pub idle : Bool
  pub active_executions : ℕ

unfoldable pub close_drained : Registry → Registry
close_drained r = record r { drained_closed = true }

unfoldable pub drain : Registry → Registry × DrainState
unfolding close_drained
drain r =
    let d = record r { draining = true } in
    (
      if d.active_count == 0 then close_drained d else d,
      record { idle = d.active_count == 0; active_executions = d.active_count },
    )
