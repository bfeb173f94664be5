-- ===== src/RunnerPool/Types.antt =====
-- The data of internal/runnerpool (pool.go), with what it uses of internal/broker/bind.go.
-- An instant is a count of nanoseconds since Go's zero Time, which is 0; durations and GitHub ids
-- are signed. An error is known by its text and by what errors.Is answers about it.
use gha_mac_broker.Prelude.{
  ℕ, String, Bool, false, ◌&&◌, ◌||◌, List, Option, none, some, ℤ, pos, is_pos, str_eq, any,
}

pub record Error : Type 0 where
  pub text : String
  -- errors.Is(err, broker.ErrJobTerminal), (err, context.Canceled), (err, broker.ErrDrainStalled)
  pub is_job_terminal : Bool
  pub is_canceled : Bool
  pub is_drain_stalled : Bool

pub record Job : Type 0 where
  pub repo : String
  pub job_id : ℤ
  pub run_id : ℤ

pub record Options : Type 0 where
  pub runner_count : ℤ
  pub jobs_per_vm : ℤ
  pub image : String
  pub max_idle : ℤ
  pub max_age : ℤ
  pub max_bind : ℤ
  pub pickup_timeout : ℤ
  pub run_token : String
  pub warm_retry_delay : ℤ
  -- the clock; `none` is a nil function, which stands for time.Now
  pub clock : Option ℕ

-- broker.WarmVM, without the boot process and the guest connection.
pub record Vm : Type 0 where
  pub name : String
  pub image : String

-- Why a job's context was cancelled; `plain` is a nil cause, which reads as context.Canceled.
pub data Cause : Type 0 where
  recycle_slot cancel_run plain : Cause

-- A call of a slot's jobCancel: the context that it cancels, and the cause.
abbrev pub Cancel : Type 0
Cancel = ℕ × Cause

pub record Slot : Type 0 where
  pub bound_at : ℕ
  pub busy : Bool
  pub job_id : ℤ
  pub run_id : ℤ
  pub execution_id : String
  pub resume_cursor : ℕ
  -- the context that this function cancels
  pub job_cancel : Option ℕ
  pub reap_warned_at : ℕ
  pub adopted : Bool
  pub last_err : Option Error

pub record Worker : Type 0 where
  pub vm : Option Vm
  pub born_at : ℕ
  pub idle_since : ℕ
  pub warming : Bool
  pub recycle : Bool
  pub slots : List Slot
  pub last_err : Option Error

-- `contexts` and `cancels` are the runtime's: how many job contexts were made, and which calls of
-- jobCancel were made, the latest first.
pub record Pool : Type 0 where
  pub options : Options
  pub queue : List Job
  pub states : List Worker
  pub started : Bool
  pub shutting_down : Bool
  pub counter : ℕ
  pub contexts : ℕ
  pub cancels : List Cancel

-- broker.SlotBinding and broker.AdoptedVM.
pub record SlotBinding : Type 0 where
  pub slot_index : ℤ
  pub repo : String
  pub job_id : ℤ
  pub run_id : ℤ
  pub execution_id : String
  pub resume_cursor : ℕ
  pub bound_at : ℕ
  pub observed_active : Bool

pub record AdoptedVm : Type 0 where
  pub vm : Option Vm
  pub slots : List SlotBinding

-- The zero Slot, which `make([]slotState, n)` holds and `emptySlotState` builds.
abbrev pub empty_slot_state : Slot
empty_slot_state = record {
  bound_at = 0;
  busy = false;
  job_id = pos 0;
  run_id = pos 0;
  execution_id = "";
  resume_cursor = 0;
  job_cancel = none;
  reap_warned_at = 0;
  adopted = false;
  last_err = none;
}

abbrev pub empty_job : Job
empty_job = record { repo = ""; job_id = pos 0; run_id = pos 0 }

-- `state.vm == nil || state.vm.Name != vm.Name`, negated.
abbrev pub owns : Worker → Vm → Bool
owns w vm = elim w.vm [ none ↦ false | some v ↦ str_eq v.name vm.name ]

unfoldable pub worker_busy : Worker → Bool
worker_busy w = any (λ s. s.busy) w.slots

unfoldable pub has_job_metadata : SlotBinding → Bool
has_job_metadata b = is_pos b.job_id && is_pos b.run_id

unfoldable pub adopted_slot_binding_busy : SlotBinding → Bool
unfolding has_job_metadata
adopted_slot_binding_busy b = b.observed_active || has_job_metadata b
