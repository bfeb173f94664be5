-- ===== src/RunnerPool/Invariant/Steps.antt =====
-- Every critical section of internal/runnerpool, and so every interleaving of its goroutines, keeps
-- the pool well formed.
use mathlib.Core.Bool.{false≢true}
use gha_mac_broker.Prelude.{
  ℕ, suc, ◌<◌, ◌≡◌, refl, Bool, true, not, ◌||◌, List, [], ◌∷◌, Option, some, ℤ, get_elem?, set,
  All-get_elem?, arith, found_cases, if_cases, option_cases, list_cases, sym, ◌∙◌,
}
use gha_mac_broker.RunnerPool.Types.{Job, Options, Vm, Slot, Worker, Pool, AdoptedVm, owns}
use gha_mac_broker.RunnerPool.Options.{reconfigure, new}
use gha_mac_broker.RunnerPool.Jobs.{
  enqueue, Claim, bind_slot, dispatch, wait_for_slot_job, finish_slot_job, Resume, can_resume,
  claim_resume_slot, recycle_worker_freeing_slot, free_slot, drop_slot,
}
use gha_mac_broker.RunnerPool.Workers.{next_id}
use gha_mac_broker.RunnerPool.Recycle.{
  BusyCandidate, request_recycle, request_busy_recycle, claim_slot_reap_warning, cancel_job,
  mark_recycle, busy_recycle, warn_slot,
}
use gha_mac_broker.RunnerPool.Adopt.{start, shutdown}
use gha_mac_broker.RunnerPool.System.{
  Section, enqueues, waits_for_job, finishes, frees_and_recycles, calls_cancel, claims_resume,
  marks_warming, marks_warm_error, activates, watches, clears, takes_id, requests_recycle,
  requests_busy_recycle, claims_warning, cancels_job, reconfigures, starts, shuts_down, step, run,
}
use gha_mac_broker.RunnerPool.Invariant.Defs.{SlotIsValid, WorkerIsValid, PoolIsValid}
use gha_mac_broker.RunnerPool.Invariant.Workers.{set_slot-IsValid, bound_slot-IsValid, owns-is_some}
use gha_mac_broker.RunnerPool.Invariant.Sections.{
  free_slot-IsValid, drop_slot-IsValid, mark_recycle-IsValid, busy_recycle-IsValid,
  warn_slot-IsValid,
}
use gha_mac_broker.RunnerPool.Invariant.Pools.{
  normalize_options-IsValid, new-IsValid, put_worker-IsValid, at_worker-IsValid,
  mark_warming-IsValid, mark_warm_error-IsValid, activate_worker-IsValid, clear_worker-IsValid,
  watch-IsValid,
}
use gha_mac_broker.RunnerPool.Invariant.Walks.{install_from-IsValid, cancel_in_workers-IsValid}

module _ {p : Pool} (v : PoolIsValid p) where
  -- The fields that the invariant does not read may change.
  same-IsValid : (q : Pool) → q.options ≡ p.options → q.states ≡ p.states → PoolIsValid q
  same-IsValid q o s = record {
    options_valid = rw o v.options_valid;
    worker_count = rw (o, s) v.worker_count;
    workers_valid = rw s v.workers_valid;
  }

  found : (i : ℕ) {w : Worker} → get_elem? p.states i ≡ some w → WorkerIsValid w
  found i at = All-get_elem? WorkerIsValid i p.states v.workers_valid at

  enqueue-IsValid : (done : Bool) (job : Job) → PoolIsValid (enqueue done job p).0
  unfolding enqueue
  enqueue-IsValid done job = same-IsValid (enqueue done job p).0 (ground arith) (ground arith)

  dispatch-IsValid :
      (now i j : ℕ) (w : Worker) (s : Slot) (vm : Vm)
      → 0 < now
      → WorkerIsValid w
      → owns w vm ≡ true
      → get_elem? w.slots j ≡ some s
      → PoolIsValid (dispatch now i j w s p).0
  unfolding dispatch
  dispatch-IsValid now i j w s vm t h o at =
      list_cases (λ (r : Pool × Claim). PoolIsValid r.0) p.queue (λ _. v)
        λ job rest _.
          let q = put_worker-IsValid v i (
            bound_slot-IsValid h j at (bind_slot now p.contexts job s)
              (record { free = λ e. absurd (false≢true (sym e)); bound = λ _. t })
              (owns-is_some w vm o)) in
          record {
            options_valid = q.options_valid;
            worker_count = q.worker_count;
            workers_valid = q.workers_valid;
          }

  wait_for_slot_job-IsValid :
      (now : ℕ) (done : Bool) (i j : ℕ) (vm : Vm)
      → 0 < now
      → PoolIsValid (wait_for_slot_job now done i j vm p).0
  unfolding wait_for_slot_job
  wait_for_slot_job-IsValid now done i j vm t =
      if_cases Good (p.shutting_down || done) (λ _. v)
        λ _.
          option_cases Good (get_elem? p.states i) (λ _. v)
            λ w at.
              if_cases Good (not (owns w vm) || w.recycle) (λ _. v)
                λ own.
                  option_cases Good (get_elem? w.slots j) (λ _. v)
                    λ s here.
                      if_cases Good s.busy (λ _. v)
                        λ _. dispatch-IsValid now i j w s vm t (found i at) (ground arith) here
    where
      Good : Pool × Claim → Type 0
      Good r = PoolIsValid r.0

  claim_resume_slot-IsValid :
      (done : Bool) (i j : ℕ) (vm : Vm) → PoolIsValid (claim_resume_slot done i j vm p).0
  unfolding claim_resume_slot
  claim_resume_slot-IsValid done i j vm =
      if_cases Good (done || p.shutting_down) (λ _. v)
        λ _.
          option_cases Good (get_elem? p.states i) (λ _. v)
            λ w at. found_cases Good (owns w vm) (get_elem? w.slots j) v λ s o here.
              if_cases Good (can_resume s) (λ can. resumed w s (found i at) here can) (λ _. v)
    where
      Good : Pool × Option Resume → Type 0
      Good r = PoolIsValid r.0

      resumed :
          (w : Worker) (s : Slot)
          → WorkerIsValid w
          → get_elem? w.slots j ≡ some s
          → can_resume s ≡ true
          → PoolIsValid (record p {
            contexts = suc p.contexts;
            states =
                set p.states i
                  (record w { slots = set w.slots j (record s { job_cancel = some p.contexts }) });
          })
      resumed w s h here can =
          let old = All-get_elem? SlotIsValid j w.slots h.slots_valid here in
          let q = put_worker-IsValid v i (
            set_slot-IsValid h j here (record s { job_cancel = some p.contexts })
              (record { free = λ e. absurd (ground arith); bound = old.bound }) (λ free. free)) in
          record {
            options_valid = q.options_valid;
            worker_count = q.worker_count;
            workers_valid = q.workers_valid;
          }

  reconfigure-IsValid : (now : ℕ) (o : Options) → PoolIsValid (reconfigure now o p).0
  unfolding reconfigure
  reconfigure-IsValid now o =
      let n = normalize_options-IsValid now o in
      record {
        options_valid = record {
          runner_count_pos = v.options_valid.runner_count_pos;
          jobs_per_vm_pos = n.jobs_per_vm_pos;
          warm_retry_delay_pos = n.warm_retry_delay_pos;
          max_bind_pos = n.max_bind_pos;
          pickup_timeout_pos = n.pickup_timeout_pos;
        };
        worker_count = v.worker_count;
        workers_valid = v.workers_valid;
      }

  start-IsValid : (now : ℕ) (adopted : List AdoptedVm) → 0 < now → PoolIsValid (start now adopted p)
  unfolding start
  start-IsValid now adopted t =
      let r =
        install_from-IsValid now p.options.jobs_per_vm adopted p.states t
          v.options_valid.jobs_per_vm_pos v.workers_valid in
      record {
        options_valid = v.options_valid;
        worker_count = r.1 ∙ v.worker_count;
        workers_valid = r.0;
      }

  cancel_job-IsValid : (id : ℤ) → PoolIsValid (cancel_job id p)
  unfolding cancel_job
  cancel_job-IsValid id =
      let r = cancel_in_workers-IsValid id p.states v.workers_valid in
      record {
        options_valid = v.options_valid;
        worker_count = r.1 ∙ v.worker_count;
        workers_valid = r.0;
      }

  claim_slot_reap_warning-IsValid :
      (c : BusyCandidate) → PoolIsValid (claim_slot_reap_warning c p).0
  unfolding claim_slot_reap_warning
  claim_slot_reap_warning-IsValid c =
      option_cases (λ (r : Pool × Bool). PoolIsValid r.0) (get_elem? p.states c.index) (λ _. v)
        λ w at.
          at_worker-IsValid v c.index (λ x. ((warn_slot c x).0, [])) λ x h. warn_slot-IsValid h c

-- One critical section at a time after Go's zero Time.
pub step-IsValid :
    (now : ℕ) (s : Section) (p : Pool) → 0 < now → PoolIsValid p → PoolIsValid (step now s p)
unfolding step
step-IsValid now (enqueues done job) p t v = enqueue-IsValid v done job
step-IsValid now (waits_for_job done i j vm) p t v = wait_for_slot_job-IsValid v now done i j vm t
step-IsValid now (finishes i j vm err) p t v =
    unfold finish_slot_job in
    at_worker-IsValid v i (λ w. (free_slot now j vm err w, []))
      λ w h. free_slot-IsValid h now j vm err
step-IsValid now (frees_and_recycles i j vm err) p t v =
    unfold recycle_worker_freeing_slot in
    at_worker-IsValid v i (λ w. (drop_slot j vm err w, [])) λ w h. drop_slot-IsValid h j vm err
step-IsValid now (calls_cancel context) p t v = same-IsValid v _ refl refl
step-IsValid now (claims_resume done i j vm) p t v = claim_resume_slot-IsValid v done i j vm
step-IsValid now (marks_warming i) p t v = mark_warming-IsValid v i
step-IsValid now (marks_warm_error i err) p t v = mark_warm_error-IsValid v i err
step-IsValid now (activates i vm n) p t v = activate_worker-IsValid v now i vm n
step-IsValid now (watches done i vm) p t v = watch-IsValid v done i vm
step-IsValid now (clears i) p t v = clear_worker-IsValid v i
step-IsValid now takes_id p t v = unfold next_id in same-IsValid v _ refl refl
step-IsValid now (requests_recycle i vm err) p t v =
    unfold request_recycle in
    at_worker-IsValid v i (λ w. (mark_recycle vm err w, [])) λ w h. mark_recycle-IsValid h vm err
step-IsValid now (requests_busy_recycle c) p t v =
    unfold request_busy_recycle in
    at_worker-IsValid v c.index (busy_recycle c) λ w h. busy_recycle-IsValid h c
step-IsValid now (claims_warning c) p t v = claim_slot_reap_warning-IsValid v c
step-IsValid now (cancels_job id) p t v = cancel_job-IsValid v id
step-IsValid now (reconfigures o) p t v = reconfigure-IsValid v now o
step-IsValid now (starts adopted) p t v = start-IsValid v now adopted t
step-IsValid now shuts_down p t v = unfold shutdown in same-IsValid v _ refl refl

abbrev pub AfterZero : List (ℕ × Section) → Type 0
AfterZero [] = Unit
AfterZero ((now, s) ∷ rest) = (0 < now) × AfterZero rest

pub run-IsValid :
    (ss : List (ℕ × Section)) (p : Pool) → AfterZero ss → PoolIsValid p → PoolIsValid (run ss p)
unfolding run
run-IsValid [] p t v = v
run-IsValid ((now, s) ∷ rest) p t v =
    run-IsValid rest (step now s p) t.1 (step-IsValid now s p t.0 v)

-- From a new pool, any critical sections of its goroutines in any order, at times after Go's zero
-- Time, lead to a well-formed pool: options positive, as many workers as configured, a free slot
-- holds nothing of its last job but the error, a worker without a VM has no busy slot, an idle time
-- is set only on a worker with a VM and no busy slot, a warming worker has no VM, and only a worker
-- with a VM is marked for recycling.
pub run-new-IsValid :
    (system_now : ℕ) (o : Options) (ss : List (ℕ × Section))
    → AfterZero ss
    → PoolIsValid (run ss (new system_now o))
run-new-IsValid system_now o ss t = run-IsValid ss _ t (new-IsValid system_now o)
