-- ===== src/RunnerPool/Invariant/Defs.antt =====
-- The well-formedness of the state of internal/runnerpool/pool.go.
use gha_mac_broker.Prelude.{◌<◌, ◌≡◌, true, false, none, is_some, is_pos, pos_part, All, length}
use gha_mac_broker.RunnerPool.Types.{Options, Slot, Worker, Pool, empty_slot_state, worker_busy}

-- A free slot holds nothing of its last job but the error; a busy one has its binding time.
pub record SlotIsValid (s : Slot) : Type 0 where
  pub free : s.busy ≡ false → s ≡ record empty_slot_state { last_err = s.last_err }
  pub bound : s.busy ≡ true → 0 < s.bound_at

pub record WorkerIsValid (w : Worker) : Type 0 where
  pub slots_valid : All SlotIsValid w.slots
  pub nonempty : 0 < length w.slots
  pub vm_less : w.vm ≡ none → worker_busy w ≡ false
  pub idle_free : 0 < w.idle_since → worker_busy w ≡ false
  pub idle_vm : 0 < w.idle_since → is_some w.vm ≡ true
  pub warming_vm_less : w.warming ≡ true → w.vm ≡ none
  pub recycle_vm : w.recycle ≡ true → is_some w.vm ≡ true

-- What normalizeOptions establishes.
pub record OptionsIsValid (o : Options) : Type 0 where
  pub runner_count_pos : is_pos o.runner_count ≡ true
  pub jobs_per_vm_pos : is_pos o.jobs_per_vm ≡ true
  pub warm_retry_delay_pos : is_pos o.warm_retry_delay ≡ true
  pub max_bind_pos : is_pos o.max_bind ≡ true
  pub pickup_timeout_pos : is_pos o.pickup_timeout ≡ true

pub record PoolIsValid (p : Pool) : Type 0 where
  pub options_valid : OptionsIsValid p.options
  pub worker_count : length p.states ≡ pos_part p.options.runner_count
  pub workers_valid : All WorkerIsValid p.states
