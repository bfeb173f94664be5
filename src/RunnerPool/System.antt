-- ===== src/RunnerPool/System.antt =====
-- The goroutines of internal/runnerpool share one pool behind one mutex. Whatever they do is a
-- sequence of critical sections, each with the time at which it reads the clock.
use gha_mac_broker.Prelude.{ℕ, Bool, List, [], ◌∷◌, ◌++◌, Option, none, some, ℤ}
use gha_mac_broker.RunnerPool.Types.{Error, Job, Options, Vm, Pool, AdoptedVm}
use gha_mac_broker.RunnerPool.Options.{reconfigure}
use gha_mac_broker.RunnerPool.Workers.{
  mark_warming, mark_warm_error, activate_worker, next_id, wait_for_worker_recycle_or_shutdown,
  clear_worker,
}
use gha_mac_broker.RunnerPool.Jobs.{
  enqueue, Claim, stop, wait, take, wait_for_slot_job, finish_slot_job, claim_resume_slot,
  recycle_worker_freeing_slot, cancel_plain,
}
use gha_mac_broker.RunnerPool.Recycle.{
  BusyCandidate, request_recycle, request_busy_recycle, claim_slot_reap_warning, cancel_job,
}
use gha_mac_broker.RunnerPool.Adopt.{start, shutdown}

-- A critical section with its arguments. The Boolean of a section is `ctx.Err() != nil`.
pub data Section : Type 0 where
  enqueues : Bool → Job → Section
  waits_for_job : Bool → ℕ → ℕ → Vm → Section
  finishes : ℕ → ℕ → Vm → Option Error → Section
  frees_and_recycles : ℕ → ℕ → Vm → Option Error → Section
  calls_cancel : ℕ → Section
  claims_resume : Bool → ℕ → ℕ → Vm → Section
  marks_warming : ℕ → Section
  marks_warm_error : ℕ → Error → Section
  activates : ℕ → Vm → ℤ → Section
  watches : Bool → ℕ → Vm → Section
  clears : ℕ → Section
  takes_id : Section
  requests_recycle : ℕ → Vm → Option Error → Section
  requests_busy_recycle : BusyCandidate → Section
  claims_warning : BusyCandidate → Section
  cancels_job : ℤ → Section
  reconfigures : Options → Section
  starts : List AdoptedVm → Section
  shuts_down : Section

unfoldable pub step : ℕ → Section → Pool → Pool
step now (enqueues done job) p = (enqueue done job p).0
step now (waits_for_job done i j vm) p = (wait_for_slot_job now done i j vm p).0
step now (finishes i j vm err) p = finish_slot_job now i j vm err p
step now (frees_and_recycles i j vm err) p = recycle_worker_freeing_slot i j vm err p
step now (calls_cancel context) p = cancel_plain context p
step now (claims_resume done i j vm) p = (claim_resume_slot done i j vm p).0
step now (marks_warming i) p = mark_warming i p
step now (marks_warm_error i err) p = mark_warm_error i err p
step now (activates i vm count) p = activate_worker now i vm count p
step now (watches done i vm) p = (wait_for_worker_recycle_or_shutdown done i vm p).0
step now (clears i) p = clear_worker i p
step now takes_id p = (next_id p).0
step now (requests_recycle i vm err) p = request_recycle i vm err p
step now (requests_busy_recycle c) p = request_busy_recycle c p
step now (claims_warning c) p = (claim_slot_reap_warning c p).0
step now (cancels_job id) p = cancel_job id p
step now (reconfigures o) p = (reconfigure now o p).0
step now (starts adopted) p = start now adopted p
step now shuts_down p = shutdown p

unfoldable pub run : List (ℕ × Section) → Pool → Pool
run [] p = p
run ((now, s) ∷ rest) p = run rest (step now s p)

abbrev pub claimed_job : Claim → List Job
claimed_job stop = []
claimed_job wait = []
claimed_job (take job now context count) = job ∷ []

-- The jobs that a section hands to a slot, and those that it accepts.
unfoldable pub taken_by : ℕ → Section → Pool → List Job
taken_by now (waits_for_job done i j vm) p = claimed_job (wait_for_slot_job now done i j vm p).1
taken_by now _ p = []

unfoldable pub accepted_by : Section → Pool → List Job
accepted_by (enqueues done job) p = elim (enqueue done job p).1 [ none ↦ job ∷ [] | some e ↦ [] ]
accepted_by _ p = []

-- The same over a whole run, in the order of the sections.
unfoldable pub taken : List (ℕ × Section) → Pool → List Job
unfolding taken_by
taken [] p = []
taken ((now, s) ∷ rest) p = taken_by now s p ++ taken rest (step now s p)

unfoldable pub accepted : List (ℕ × Section) → Pool → List Job
unfolding accepted_by
accepted [] p = []
accepted ((now, s) ∷ rest) p = accepted_by s p ++ accepted rest (step now s p)
