-- ===== src/RunnerPool/Invariant/Pools.antt =====
-- Every critical section of internal/runnerpool keeps the whole pool well formed.
use mathlib.Core.Bool.{false≢true}
use gha_mac_broker.Prelude.{
  ℕ, ◌<◌, ◌≡◌, refl, Bool, true, ◌||◌, List, [], none, ℤ, is_pos, pos_part, get_elem?, set, length,
  length-set, All, All-set, All-get_elem?, All-replicate, arith, is_some, subst, sym, if_cases,
  option_cases, length-replicate,
}
use gha_mac_broker.RunnerPool.Types.{Error, Options, Vm, Cancel, Worker, Pool}
use gha_mac_broker.RunnerPool.Options.{normalize_options, new_worker_state, new, new_worker_states}
use gha_mac_broker.RunnerPool.Workers.{
  at_worker, Watch, reset_worker_slots_to, slot_count_or, mark_warming, mark_warm_error,
  activate_worker, wait_for_worker_recycle_or_shutdown, clear_worker,
}
use gha_mac_broker.RunnerPool.Invariant.Defs.{WorkerIsValid, OptionsIsValid, PoolIsValid}
use gha_mac_broker.RunnerPool.Invariant.Slots.{
  slot_count_or-pos, reset_worker_slots_to-IsReset, replicate-IsReset, IsReset-worker, IsReset,
}
use gha_mac_broker.RunnerPool.Invariant.Sections.{recycle_worker-IsValid}

pub normalize_options-IsValid : (now : ℕ) (o : Options) → OptionsIsValid (normalize_options now o)
unfolding normalize_options
normalize_options-IsValid now o = record {
  runner_count_pos = if_cases (λ z. is_pos z ≡ true) (is_pos o.runner_count) (λ e. e) (λ _. refl);
  jobs_per_vm_pos = if_cases (λ z. is_pos z ≡ true) (is_pos o.jobs_per_vm) (λ e. e) (λ _. refl);
  warm_retry_delay_pos =
      if_cases (λ z. is_pos z ≡ true) (is_pos o.warm_retry_delay) (λ e. e) (λ _. refl);
  max_bind_pos = if_cases (λ z. is_pos z ≡ true) (is_pos o.max_bind) (λ e. e) (λ _. refl);
  pickup_timeout_pos =
      if_cases (λ z. is_pos z ≡ true) (is_pos o.pickup_timeout) (λ e. e) (λ _. refl);
}

pub new_worker_state-IsValid : (n : ℤ) → is_pos n ≡ true → WorkerIsValid (new_worker_state n)
new_worker_state-IsValid n h =
    IsReset-worker (new_worker_state n) (ground arith) (replicate-IsReset (pos_part n))
      (λ e. elim e [ ]) (λ e. absurd (false≢true e)) (λ e. absurd (false≢true e))

length-new_worker_states : (n m : ℤ) → length (new_worker_states n m) ≡ pos_part n
unfolding new_worker_states
length-new_worker_states n m = length-replicate (pos_part n) (new_worker_state m)

new_worker_states-IsValid : (n m : ℤ) → is_pos m ≡ true → All WorkerIsValid (new_worker_states n m)
unfolding new_worker_states
new_worker_states-IsValid n m h =
    All-replicate WorkerIsValid (pos_part n) (new_worker_state m) (new_worker_state-IsValid m h)

-- A new pool is well formed, whatever options it is given.
pub new-IsValid : (now : ℕ) (o : Options) → PoolIsValid (new now o)
unfolding new
new-IsValid now o =
    let v = normalize_options-IsValid now o in
    record {
      options_valid = v;
      worker_count =
          length-new_worker_states (normalize_options now o).runner_count
            (normalize_options now o).jobs_per_vm;
      workers_valid =
          new_worker_states-IsValid (normalize_options now o).runner_count
            (normalize_options now o).jobs_per_vm v.jobs_per_vm_pos;
    }

module _ {p : Pool} (v : PoolIsValid p) where
  pub put_worker-IsValid :
      (i : ℕ) {w : Worker} → WorkerIsValid w → PoolIsValid (record p { states = set p.states i w })
  put_worker-IsValid i {w} h = record {
    options_valid = v.options_valid;
    worker_count = ground (arith, length-set p.states i w, v.worker_count);
    workers_valid = All-set WorkerIsValid p.states i w h v.workers_valid;
  }

  pub at_worker-IsValid :
      (i : ℕ) (f : Worker → Worker × List Cancel)
      → ((w : Worker) → WorkerIsValid w → WorkerIsValid (f w).0)
      → PoolIsValid (at_worker i f p)
  unfolding at_worker
  at_worker-IsValid i f keep =
      option_cases PoolIsValid (get_elem? p.states i) (λ _. v)
        λ w at.
          let q =
            put_worker-IsValid i
              (keep w (All-get_elem? WorkerIsValid i p.states v.workers_valid at)) in
          record {
            options_valid = q.options_valid;
            worker_count = q.worker_count;
            workers_valid = q.workers_valid;
          }

module _ {p : Pool} (v : PoolIsValid p) where
  reset-IsValid :
      (i : ℕ) (n : ℤ) (f : Worker → Worker × List Cancel)
      → ((w : Worker) → (f w).0.slots ≡ (reset_worker_slots_to n w.slots).0)
      → ((w : Worker) → WorkerIsValid w → 0 < (f w).0.idle_since → is_some (f w).0.vm ≡ true)
      → ((w : Worker) → (f w).0.warming ≡ true → (f w).0.vm ≡ none)
      → ((w : Worker) → (f w).0.recycle ≡ true → is_some (f w).0.vm ≡ true)
      → PoolIsValid (at_worker i f p)
  reset-IsValid i n f slots idle warm rec = at_worker-IsValid v i f λ w h.
      IsReset-worker (f w).0 (slot_count_or-pos n)
        (subst (IsReset (slot_count_or n)) (sym (slots w))
          (reset_worker_slots_to-IsReset n w.slots))
        (idle w h) (warm w) (rec w)

  pub mark_warming-IsValid : (i : ℕ) → PoolIsValid (mark_warming i p)
  unfolding mark_warming
  mark_warming-IsValid i =
      reset-IsValid i p.options.jobs_per_vm _ (λ w. refl) (λ w h e. elim e [ ]) (λ w e. refl)
        (λ w e. absurd (false≢true e))

  pub mark_warm_error-IsValid : (i : ℕ) (err : Error) → PoolIsValid (mark_warm_error i err p)
  unfolding mark_warm_error
  mark_warm_error-IsValid i err =
      reset-IsValid i p.options.jobs_per_vm _ (λ w. refl) (λ w h e. h.idle_vm e)
        (λ w e. absurd (false≢true e)) (λ w e. absurd (false≢true e))

  pub activate_worker-IsValid :
      (now i : ℕ) (vm : Vm) (n : ℤ) → PoolIsValid (activate_worker now i vm n p)
  unfolding activate_worker
  activate_worker-IsValid now i vm n =
      reset-IsValid i n _ (λ w. refl) (λ w h e. refl) (λ w e. absurd (false≢true e)) (λ w e. refl)

  pub clear_worker-IsValid : (i : ℕ) → PoolIsValid (clear_worker i p)
  unfolding clear_worker
  clear_worker-IsValid i =
      at_worker-IsValid v i (λ _. (new_worker_state p.options.jobs_per_vm, []))
        λ w h. new_worker_state-IsValid p.options.jobs_per_vm v.options_valid.jobs_per_vm_pos

  pub watch-IsValid :
      (done : Bool) (i : ℕ) (vm : Vm)
      → PoolIsValid (wait_for_worker_recycle_or_shutdown done i vm p).0
  unfolding wait_for_worker_recycle_or_shutdown
  watch-IsValid done i vm =
      if_cases (λ (r : Pool × Watch). PoolIsValid r.0) (p.shutting_down || done) (λ _. v)
        λ _.
          option_cases (λ (r : Pool × Watch). PoolIsValid r.0) (get_elem? p.states i) (λ _. v)
            λ w at. at_worker-IsValid v i _ λ x h. recycle_worker-IsValid h p vm
