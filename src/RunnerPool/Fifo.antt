-- ===== src/RunnerPool/Fifo.antt =====
-- The queue of internal/runnerpool across all critical sections: no job is lost, made up, or served
-- out of order.
use mathlib.Core.List.{append-nil, append_assoc}
use gha_mac_broker.Prelude.{
  ℕ, ◌≡◌, refl, sym, ap, ◌∙◌, Bool, not, ◌||◌, List, [], ◌∷◌, ◌++◌, Option, none, some, ℤ, arith,
  get_elem?, if_cases, option_cases, list_cases, found_cases,
}
use gha_mac_broker.RunnerPool.Types.{Error, Job, Vm, Cancel, Slot, Worker, Pool, owns}
use gha_mac_broker.RunnerPool.Options.{reconfigure}
use gha_mac_broker.RunnerPool.Workers.{
  at_worker, mark_warming, mark_warm_error, activate_worker, next_id, Watch,
  wait_for_worker_recycle_or_shutdown, clear_worker,
}
use gha_mac_broker.RunnerPool.Jobs.{
  enqueue, Claim, dispatch, wait_for_slot_job, finish_slot_job, Resume, can_resume,
  claim_resume_slot, recycle_worker_freeing_slot,
}
use gha_mac_broker.RunnerPool.Recycle.{
  BusyCandidate, request_recycle, request_busy_recycle, claim_slot_reap_warning, warn_slot,
  cancel_job,
}
use gha_mac_broker.RunnerPool.Adopt.{start, shutdown}
use gha_mac_broker.RunnerPool.System.{
  Section, enqueues, waits_for_job, finishes, frees_and_recycles, calls_cancel, claims_resume,
  marks_warming, marks_warm_error, activates, watches, clears, takes_id, requests_recycle,
  requests_busy_recycle, claims_warning, cancels_job, reconfigures, starts, shuts_down, step, run,
  claimed_job, taken_by, accepted_by, taken, accepted,
}

pub queue-at_worker :
    (i : ℕ) (f : Worker → Worker × List Cancel) (p : Pool) → (at_worker i f p).queue ≡ p.queue
unfolding at_worker
queue-at_worker i f p =
    option_cases (λ (q : Pool). q.queue ≡ p.queue) (get_elem? p.states i) (λ _. refl) (λ w e. refl)

dispatch-queue :
    (now i j : ℕ) (w : Worker) (s : Slot) (p : Pool)
    → claimed_job (dispatch now i j w s p).1 ++ (dispatch now i j w s p).0.queue ≡ p.queue
unfolding dispatch
dispatch-queue now i j w s p =
    list_cases (λ (r : Pool × Claim). claimed_job r.1 ++ r.0.queue ≡ p.queue) p.queue (λ _. refl)
      (λ job rest e. sym e)

wait_for_slot_job-queue :
    (now : ℕ) (done : Bool) (i j : ℕ) (vm : Vm) (p : Pool)
    → let r = wait_for_slot_job now done i j vm p in claimed_job r.1 ++ r.0.queue ≡ p.queue
unfolding wait_for_slot_job
wait_for_slot_job-queue now done i j vm p =
    if_cases Kept (p.shutting_down || done) (λ _. refl)
      λ _.
        option_cases Kept (get_elem? p.states i) (λ _. refl)
          λ w _.
            if_cases Kept (not (owns w vm) || w.recycle) (λ _. refl)
              λ _.
                option_cases Kept (get_elem? w.slots j) (λ _. refl)
                  λ s _. if_cases Kept s.busy (λ _. refl) (λ _. dispatch-queue now i j w s p)
  where
    Kept : Pool × Claim → Type 0
    Kept r = claimed_job r.1 ++ r.0.queue ≡ p.queue

claim_resume_slot-queue :
    (done : Bool) (i j : ℕ) (vm : Vm) (p : Pool)
    → (claim_resume_slot done i j vm p).0.queue ≡ p.queue
unfolding claim_resume_slot
claim_resume_slot-queue done i j vm p =
    if_cases Kept (done || p.shutting_down) (λ _. refl)
      λ _.
        option_cases Kept (get_elem? p.states i) (λ _. refl)
          λ w _.
            found_cases Kept (owns w vm) (get_elem? w.slots j) refl
              λ s _ _. if_cases Kept (can_resume s) (λ _. refl) (λ _. refl)
  where
    Kept : Pool × Option Resume → Type 0
    Kept r = r.0.queue ≡ p.queue

watch-queue :
    (done : Bool) (i : ℕ) (vm : Vm) (p : Pool)
    → (wait_for_worker_recycle_or_shutdown done i vm p).0.queue ≡ p.queue
unfolding wait_for_worker_recycle_or_shutdown
watch-queue done i vm p =
    if_cases Kept (p.shutting_down || done) (λ _. refl)
      λ _. option_cases Kept (get_elem? p.states i) (λ _. refl) (λ w _. queue-at_worker i _ p)
  where
    Kept : Pool × Watch → Type 0
    Kept r = r.0.queue ≡ p.queue

claim_slot_reap_warning-queue :
    (c : BusyCandidate) (p : Pool) → (claim_slot_reap_warning c p).0.queue ≡ p.queue
unfolding claim_slot_reap_warning
claim_slot_reap_warning-queue c p =
    option_cases (λ (r : Pool × Bool). r.0.queue ≡ p.queue) (get_elem? p.states c.index) (λ _. refl)
      (λ w _. queue-at_worker c.index (λ v. ((warn_slot c v).0, [])) p)

enqueue-queue :
    (done : Bool) (job : Job) (p : Pool)
    → (enqueue done job p).0.queue
      ≡ p.queue ++ (elim (enqueue done job p).1 [ none ↦ job ∷ [] | some e ↦ [] ])
unfolding enqueue
enqueue-queue done job p = ground (arith, append-nil p.queue)

finish_slot_job-queue :
    (now i j : ℕ) (vm : Vm) (err : Option Error) (p : Pool)
    → (finish_slot_job now i j vm err p).queue ≡ p.queue
unfolding finish_slot_job
finish_slot_job-queue now i j vm err p = ground arith

recycle_worker_freeing_slot-queue :
    (i j : ℕ) (vm : Vm) (err : Option Error) (p : Pool)
    → (recycle_worker_freeing_slot i j vm err p).queue ≡ p.queue
unfolding recycle_worker_freeing_slot
recycle_worker_freeing_slot-queue i j vm err p = ground arith

mark_warming-queue : (i : ℕ) (p : Pool) → (mark_warming i p).queue ≡ p.queue
unfolding mark_warming
mark_warming-queue i p = ground arith

mark_warm_error-queue : (i : ℕ) (err : Error) (p : Pool) → (mark_warm_error i err p).queue ≡ p.queue
unfolding mark_warm_error
mark_warm_error-queue i err p = ground arith

activate_worker-queue :
    (now i : ℕ) (vm : Vm) (n : ℤ) (p : Pool) → (activate_worker now i vm n p).queue ≡ p.queue
unfolding activate_worker
activate_worker-queue now i vm n p = ground arith

clear_worker-queue : (i : ℕ) (p : Pool) → (clear_worker i p).queue ≡ p.queue
unfolding clear_worker
clear_worker-queue i p = ground arith

request_recycle-queue :
    (i : ℕ) (vm : Vm) (err : Option Error) (p : Pool) → (request_recycle i vm err p).queue ≡ p.queue
unfolding request_recycle
request_recycle-queue i vm err p = ground arith

request_busy_recycle-queue :
    (c : BusyCandidate) (p : Pool) → (request_busy_recycle c p).queue ≡ p.queue
unfolding request_busy_recycle
request_busy_recycle-queue c p = ground arith

-- What a section takes from the queue stood at its front, and what it accepts goes to its end.
step-queue :
    (now : ℕ) (s : Section) (p : Pool)
    → taken_by now s p ++ (step now s p).queue ≡ p.queue ++ accepted_by s p
unfolding step taken_by accepted_by
step-queue now (enqueues done job) p = enqueue-queue done job p
step-queue now (waits_for_job done i j vm) p =
    wait_for_slot_job-queue now done i j vm p ∙ sym (append-nil p.queue)
step-queue now (finishes i j vm err) p =
    finish_slot_job-queue now i j vm err p ∙ sym (append-nil p.queue)
step-queue now (frees_and_recycles i j vm err) p =
    recycle_worker_freeing_slot-queue i j vm err p ∙ sym (append-nil p.queue)
step-queue now (calls_cancel context) p = sym (append-nil p.queue)
step-queue now (claims_resume done i j vm) p =
    claim_resume_slot-queue done i j vm p ∙ sym (append-nil p.queue)
step-queue now (marks_warming i) p = mark_warming-queue i p ∙ sym (append-nil p.queue)
step-queue now (marks_warm_error i err) p = mark_warm_error-queue i err p ∙ sym (append-nil p.queue)
step-queue now (activates i vm n) p = activate_worker-queue now i vm n p ∙ sym (append-nil p.queue)
step-queue now (watches done i vm) p = watch-queue done i vm p ∙ sym (append-nil p.queue)
step-queue now (clears i) p = clear_worker-queue i p ∙ sym (append-nil p.queue)
step-queue now takes_id p = unfold next_id in sym (append-nil p.queue)
step-queue now (requests_recycle i vm err) p =
    request_recycle-queue i vm err p ∙ sym (append-nil p.queue)
step-queue now (requests_busy_recycle c) p =
    request_busy_recycle-queue c p ∙ sym (append-nil p.queue)
step-queue now (claims_warning c) p = claim_slot_reap_warning-queue c p ∙ sym (append-nil p.queue)
step-queue now (cancels_job id) p = unfold cancel_job in sym (append-nil p.queue)
step-queue now (reconfigures o) p = unfold reconfigure in sym (append-nil p.queue)
step-queue now (starts adopted) p = unfold start in sym (append-nil p.queue)
step-queue now shuts_down p = unfold shutdown in sym (append-nil p.queue)

-- Over any sequence of critical sections, from any pool: the jobs handed to slots, in the order of
-- their dispatch, followed by those still queued, are the jobs queued at the beginning followed by
-- the accepted ones in the order of their acceptance. So every accepted job is dispatched at most
-- once and in its turn, and none is lost.
pub run-Fifo :
    (ss : List (ℕ × Section)) (p : Pool) → taken ss p ++ (run ss p).queue ≡ p.queue ++ accepted ss p
unfolding run taken accepted
run-Fifo [] p = sym (append-nil p.queue)
run-Fifo ((now, s) ∷ rest) p =
    append_assoc (taken_by now s p) (taken rest (step now s p)) (run rest (step now s p)).queue
    ∙ ap (λ t. taken_by now s p ++ t) (run-Fifo rest (step now s p))
    ∙ sym (append_assoc (taken_by now s p) (step now s p).queue (accepted rest (step now s p)))
    ∙ ap (λ t. t ++ accepted rest (step now s p)) (step-queue now s p)
    ∙ append_assoc p.queue (accepted_by s p) (accepted rest (step now s p))
