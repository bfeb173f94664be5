-- ===== src/RunnerPool/Examples.antt =====
-- Tests of internal/runnerpool on small pools, and its theorems at concrete inputs.
use gha_mac_broker.Prelude.{
  ℕ, ◌≡◌, ◌⊎◌, refl, Bool, true, false, List, [], ◌∷◌, ◌++◌, none, some, pos, get_elem?, arith, All,
}
use gha_mac_broker.RunnerPool.Types.{
  Cancel, Job, Options, Vm, Slot, Worker, Pool, empty_slot_state, worker_busy,
}
use gha_mac_broker.RunnerPool.Options.{new}
use gha_mac_broker.RunnerPool.Workers.{activate_worker, recycle_worker, waiting}
use gha_mac_broker.RunnerPool.Jobs.{wait_for_slot_job, enqueue}
use gha_mac_broker.RunnerPool.Adopt.{start}
use gha_mac_broker.RunnerPool.Recycle.{cancel_job}
use gha_mac_broker.RunnerPool.CancelRun.{IsFreeOf, Ended, cancel_job-Ends}
use gha_mac_broker.RunnerPool.Reconcile.{IdleCandidate, recycle_idle}
use gha_mac_broker.RunnerPool.IdleRecycle.{recycle_idle-keeps_busy}
use gha_mac_broker.RunnerPool.Reap.{reap_busy_workers}
use gha_mac_broker.RunnerPool.Status.{snapshot}
use gha_mac_broker.RunnerPool.System.{
  Section, enqueues, waits_for_job, activates, starts, step, run, taken, accepted,
}
use gha_mac_broker.RunnerPool.Invariant.Defs.{PoolIsValid}
use gha_mac_broker.RunnerPool.Invariant.Steps.{run-new-IsValid}
use gha_mac_broker.RunnerPool.Fifo.{run-Fifo}
use gha_mac_broker.RunnerPool.Dispatch.{Outcome, wait_for_slot_job-Outcome}
use gha_mac_broker.RunnerPool.Capacity.Counts.{IsTruthful, snapshot-IsTruthful}
use gha_mac_broker.RunnerPool.Capacity.Drain.{OnlyDispatches, ready-serves}
use gha_mac_broker.RunnerPool.Reaping.Ceiling.{
  Marked, passes, reap_busy_workers-ceiling, passes-skip_marked,
}

abbrev given : Options
given = record {
  runner_count = pos 1;
  jobs_per_vm = pos 2;
  image = "macos-26";
  max_idle = pos 0;
  max_age = pos 0;
  max_bind = pos 100;
  pickup_timeout = pos 10;
  run_token = "";
  warm_retry_delay = pos 5;
  clock = none;
}

abbrev first_vm : Vm
first_vm = record { name = "pool-1"; image = "macos-26" }

abbrev build : Job
build = record { repo = "owner/app"; job_id = pos 7; run_id = pos 70 }

abbrev lint : Job
lint = record { repo = "owner/lib"; job_id = pos 8; run_id = pos 80 }

-- A worker comes up, and takes two jobs at times 50 and 60.
abbrev morning : List (ℕ × Section)
morning =
    (10, starts [])
    ∷ (20, activates 0 first_vm (pos 2))
    ∷ (30, enqueues false build)
    ∷ (40, enqueues false lint)
    ∷ (50, waits_for_job false 0 0 first_vm)
    ∷ (60, waits_for_job false 0 1 first_vm)
    ∷ []

abbrev fresh : Pool
fresh = record {
  options = record given { run_token = "pool"; clock = some 1 };
  queue = [];
  states =
      record {
        vm = some first_vm;
        born_at = 20;
        idle_since = 20;
        warming = false;
        recycle = false;
        slots = empty_slot_state ∷ empty_slot_state ∷ [];
        last_err = none;
      }
      ∷ [];
  started = true;
  shutting_down = false;
  counter = 1;
  contexts = 0;
  cancels = [];
}

abbrev bound : ℕ → Job → ℕ → Slot
bound now job context = record empty_slot_state {
  busy = true;
  bound_at = now;
  job_id = job.job_id;
  run_id = job.run_id;
  job_cancel = some context;
}

abbrev busy_worker : Bool → Worker
busy_worker marked = record {
  vm = some first_vm;
  born_at = 20;
  idle_since = 0;
  warming = false;
  recycle = marked;
  slots = bound 50 build 0 ∷ bound 60 lint 1 ∷ [];
  last_err = none;
}

abbrev busy_pool : Bool → Pool
busy_pool marked = record fresh { states = busy_worker marked ∷ []; contexts = 2 }

run-new-IsValid_example : PoolIsValid (run morning (new 1 given))
run-new-IsValid_example = run-new-IsValid 1 given morning (omega arith)

run-Fifo_example :
    taken morning (new 1 given) ++ (run morning (new 1 given)).queue
    ≡ (new 1 given).queue ++ accepted morning (new 1 given)
run-Fifo_example = run-Fifo morning (new 1 given)

wait_for_slot_job-Outcome_example :
    Outcome 50 false 0 0 first_vm
      (record fresh { queue = build ∷ lint ∷ [] })
      (wait_for_slot_job 50 false 0 0 first_vm (record fresh { queue = build ∷ lint ∷ [] }))
wait_for_slot_job-Outcome_example =
    wait_for_slot_job-Outcome 50 false 0 0 first_vm (record fresh { queue = build ∷ lint ∷ [] })

snapshot-IsTruthful_example : IsTruthful (busy_pool false) (snapshot (busy_pool false))
snapshot-IsTruthful_example = snapshot-IsTruthful (busy_pool false)

ready-serves_example :
    (ss : List (ℕ × Section)) × (All OnlyDispatches ss)
    × (taken ((50, enqueues false lint) ∷ ss) (record fresh { queue = build ∷ [] })
        ≡ build ∷ lint ∷ [])
    × ((run ((50, enqueues false lint) ∷ ss) (record fresh { queue = build ∷ [] })).queue ≡ [])
unfolding snapshot
ready-serves_example = ready-serves 50 (record fresh { queue = build ∷ [] }) lint refl

reap_busy_workers-ceiling_example : Marked 0 (reap_busy_workers 200 none (busy_pool false)).pool
reap_busy_workers-ceiling_example =
    reap_busy_workers-ceiling 200 none (busy_pool false) 0 1 (busy_worker false) first_vm
      (bound 60 lint 1) refl refl refl refl refl (omega arith) (omega arith) (omega arith)
      (omega arith)

-- The second slot has been bound for far more than the 100 ns of the ceiling.
passes-skip_marked_example :
    (get_elem? (passes ((200, none) ∷ (5000, none) ∷ []) (busy_pool true)).states 0
      ≡ some (busy_worker true))
    × (recycle_worker
          (passes ((200, none) ∷ (5000, none) ∷ []) (busy_pool true))
          first_vm
          (busy_worker true)
        ≡ (busy_worker true, [], waiting))
unfolding worker_busy
passes-skip_marked_example =
    passes-skip_marked ((200, none) ∷ (5000, none) ∷ []) (busy_pool true) 0 (busy_worker true)
      first_vm refl refl refl refl

morning_queue : (run morning (new 1 given)).queue ≡ []
unfolding run step new wait_for_slot_job enqueue activate_worker start
morning_queue = refl

cancel_job-Ends_example :
    ((cancel_job (pos 8) (busy_pool false) ≡ busy_pool false)
      × All (IsFreeOf (pos 8)) (busy_pool false).states)
    ⊎ ((calls : List Cancel) × (cancel_job (pos 8) (busy_pool false) ≡ record (busy_pool false) {
      states = (cancel_job (pos 8) (busy_pool false)).states;
      cancels = calls ++ [];
    })
        × Ended
            (pos 8)
            (busy_pool false).states
            (cancel_job (pos 8) (busy_pool false)).states
            calls)
cancel_job-Ends_example = cancel_job-Ends (pos 8) (busy_pool false)

-- The VM was read as idle before it took its two jobs, and is past every limit.
abbrev stale : IdleCandidate
stale = record {
  index = 0;
  vm = first_vm;
  born_at = 20;
  idle_since = 20;
  slot_count = 1;
  now = 9000;
}

recycle_idle-keeps_busy_example :
    get_elem? (recycle_idle (λ vm n. none) (stale ∷ []) (busy_pool false)).states 0
    ≡ some (busy_worker false)
unfolding worker_busy
recycle_idle-keeps_busy_example =
    recycle_idle-keeps_busy (λ vm n. none) (stale ∷ []) (busy_pool false) 0 (busy_worker false) refl
      refl
