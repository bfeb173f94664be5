-- ===== src/RunnerPool/Dispatch.antt =====
-- Where waitForSlotJob of internal/runnerpool/pool.go puts a job, and when it does.
use gha_mac_broker.Prelude.{
  ℕ, suc, ◌≡◌, refl, Bool, true, false, not, ◌||◌, List, ◌∷◌, some, arith, get_elem?, set, length,
  if_cases, option_cases, list_cases,
}
use gha_mac_broker.RunnerPool.Types.{Job, Vm, Slot, Worker, Pool, owns}
use gha_mac_broker.RunnerPool.Jobs.{Claim, stop, wait, take, bind_slot, dispatch, wait_for_slot_job}

-- The conditions under which a job may go to slot `j` of worker `i`.
pub record CanServe (p : Pool) (i j : ℕ) (vm : Vm) (w : Worker) (s : Slot) : Type 0 where
  pub open_pool : p.shutting_down ≡ false
  pub at_index : get_elem? p.states i ≡ some w
  pub same_vm : owns w vm ≡ true
  pub kept : w.recycle ≡ false
  pub at_slot : get_elem? w.slots j ≡ some s
  pub free : s.busy ≡ false

-- The pool after the dispatch: the head of the queue is bound to the slot under a fresh context, the
-- worker is no longer idle, and nothing else differs.
abbrev pub served : ℕ → ℕ → ℕ → Worker → Slot → Job → List Job → Pool → Pool
served now i j w s job rest p = record p {
  queue = rest;
  contexts = suc p.contexts;
  states =
      set p.states i
        (record w { idle_since = 0; slots = set w.slots j (bind_slot now p.contexts job s) });
}

abbrev pub Outcome : ℕ → Bool → ℕ → ℕ → Vm → Pool → Pool × Claim → Type 0
Outcome now done i j vm p (q, stop) = q ≡ p
Outcome now done i j vm p (q, wait) = q ≡ p
Outcome now done i j vm p (q, take job bound context count) =
    (w : Worker) × (s : Slot) × (rest : List Job) × (done ≡ false)
    × CanServe p i j vm w s
    × (p.queue ≡ job ∷ rest)
    × (q ≡ served now i j w s job rest p)
    × (bound ≡ now)
    × (context ≡ p.contexts)
    × (count ≡ length w.slots)

-- waitForSlotJob changes the pool only when it hands out a job. Then neither the pool nor the
-- context has ended, the worker still has the caller's VM and is not to be recycled, the slot exists
-- and is free, and the job is the head of the queue, which goes to that slot and nowhere else.
pub wait_for_slot_job-Outcome :
    (now : ℕ) (done : Bool) (i j : ℕ) (vm : Vm) (p : Pool)
    → Outcome now done i j vm p (wait_for_slot_job now done i j vm p)
unfolding wait_for_slot_job dispatch
wait_for_slot_job-Outcome now done i j vm p =
    if_cases O (p.shutting_down || done) (λ _. refl)
      λ live.
        option_cases O (get_elem? p.states i) (λ _. refl)
          λ w at.
            if_cases O (not (owns w vm) || w.recycle) (λ _. refl)
              λ own.
                option_cases O (get_elem? w.slots j) (λ _. refl)
                  λ s here.
                    if_cases O s.busy (λ _. refl)
                      λ free.
                        list_cases O p.queue (λ _. refl)
                          λ job rest e. (
                            w,
                            s,
                            rest,
                            ground arith,
                            record {
                              open_pool = ground arith;
                              at_index = at;
                              same_vm = ground arith;
                              kept = ground arith;
                              at_slot = here;
                              free = free;
                            },
                            e,
                            refl,
                            refl,
                            refl,
                            refl,
                          )
  where
    O : Pool × Claim → Type 0
    O = Outcome now done i j vm p

-- A free slot of a VM that is not to be recycled takes the head of the queue at once.
pub wait_for_slot_job-serves :
    (now : ℕ) (i j : ℕ) (vm : Vm) (p : Pool) {w : Worker} {s : Slot} {job : Job} {rest : List Job}
    → CanServe p i j vm w s
    → p.queue ≡ job ∷ rest
    → wait_for_slot_job now false i j vm p
      ≡ (served now i j w s job rest p, take job now p.contexts (length w.slots))
unfolding wait_for_slot_job dispatch
wait_for_slot_job-serves now i j vm p c q = ground arith
