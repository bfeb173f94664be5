-- ===== src/RunnerPool/Jobs.antt =====
-- The slot's side of internal/runnerpool (pool.go and worker.go): the queue, the dispatch of a job to
-- a slot, the end of a job, and the resumption of an adopted one.
use gha_mac_broker.Prelude.{
  ℕ, suc, String, Bool, true, false, not, ◌&&◌, ◌||◌, [], ◌∷◌, ◌++◌, Option, none, some, length,
  get_elem?, set, str_eq, is_some, if◌then◌else◌,
}
use gha_mac_broker.RunnerPool.Types.{
  Error, Job, Vm, plain, Slot, Worker, Pool, empty_slot_state, owns, worker_busy,
}
use gha_mac_broker.RunnerPool.Workers.{at_worker}

-- Why Enqueue refuses.
pub data EnqueueError : Type 0 where
  context_failed after_shutdown : EnqueueError

unfoldable pub enqueue : Bool → Job → Pool → Pool × Option EnqueueError
enqueue ctx_done job p =
    if ctx_done
    then (p, some context_failed)
    else if p.shutting_down
    then (p, some after_shutdown)
    else (record p { queue = p.queue ++ job ∷ [] }, none)

-- What one look of waitForSlotJob finds: the end of the slot's loop, nothing yet, or a job with the
-- time of its binding, its context and the worker's slot count.
pub data Claim : Type 0 where
  stop wait : Claim
  take : Job → ℕ → ℕ → ℕ → Claim

abbrev pub bind_slot : ℕ → ℕ → Job → Slot → Slot
bind_slot now context job s = record s {
  busy = true;
  bound_at = now;
  job_id = job.job_id;
  run_id = job.run_id;
  execution_id = "";
  resume_cursor = 0;
  job_cancel = some context;
  reap_warned_at = 0;
  adopted = false;
  last_err = none;
}

-- The dispatch to a free slot `s` of the worker `w`, with dequeueJobLocked.
unfoldable pub dispatch : ℕ → ℕ → ℕ → Worker → Slot → Pool → Pool × Claim
dispatch now index slot_index w s p = elim p.queue [
  | [] ↦ (p, wait)
  | job ∷ rest ↦ (
    record p {
      queue = rest;
      contexts = suc p.contexts;
      states = set p.states index (record w {
        idle_since = 0;
        slots = set w.slots slot_index (bind_slot now p.contexts job s);
      });
    },
    take job now p.contexts (length w.slots),
  )
]

-- One pass of the loop of waitForSlotJob.
unfoldable pub wait_for_slot_job : ℕ → Bool → ℕ → ℕ → Vm → Pool → Pool × Claim
unfolding dispatch
wait_for_slot_job now ctx_done index slot_index vm p =
    if p.shutting_down || ctx_done then (p, stop) else elim (get_elem? p.states index) [
      | none ↦ (p, stop)
      | some w ↦
          if not (owns w vm) || w.recycle then (p, stop) else elim (get_elem? w.slots slot_index) [
            | none ↦ (p, stop)
            | some s ↦ if s.busy then (p, wait) else dispatch now index slot_index w s p
          ]
    ]

-- `idleSince` after a slot has been freed.
abbrev pub settle_idle : ℕ → Worker → Worker
settle_idle now w =
    if worker_busy w then w else record w { idle_since = if w.recycle then 0 else now }

unfoldable pub free_slot : ℕ → ℕ → Vm → Option Error → Worker → Worker
unfolding worker_busy
free_slot now slot_index vm err w =
    if owns w vm
    then elim (get_elem? w.slots slot_index) [
      | none ↦ w
      | some s ↦
          settle_idle now (record w {
            slots = set w.slots slot_index (record empty_slot_state { last_err = err });
          })
    ]
    else w

unfoldable pub finish_slot_job : ℕ → ℕ → ℕ → Vm → Option Error → Pool → Pool
unfolding at_worker free_slot
finish_slot_job now index slot_index vm err p =
    at_worker index (λ w. (free_slot now slot_index vm err w, [])) p

-- What claimResumeSlot returns: the execution, the cursor, the new context and the slot count.
pub record Resume : Type 0 where
  pub execution_id : String
  pub cursor : ℕ
  pub context : ℕ
  pub slot_count : ℕ

-- `slot.busy && slot.adopted && slot.executionID != "" && slot.jobCancel == nil`
abbrev pub can_resume : Slot → Bool
can_resume s = s.busy && s.adopted && not (str_eq s.execution_id "") && not (is_some s.job_cancel)

unfoldable pub claim_resume_slot : Bool → ℕ → ℕ → Vm → Pool → Pool × Option Resume
claim_resume_slot ctx_done index slot_index vm p =
    if ctx_done || p.shutting_down then (p, none) else elim (get_elem? p.states index) [
      | none ↦ (p, none)
      | some w ↦
          if owns w vm
          then elim (get_elem? w.slots slot_index) [
            | none ↦ (p, none)
            | some s ↦
                if can_resume s
                then (
                  record p {
                    contexts = suc p.contexts;
                    states = set p.states index (record w {
                      slots = set w.slots slot_index (record s { job_cancel = some p.contexts });
                    });
                  },
                  some (record {
                    execution_id = s.execution_id;
                    cursor = s.resume_cursor;
                    context = p.contexts;
                    slot_count = length w.slots;
                  }),
                )
                else (p, none)
          ]
          else (p, none)
    ]

unfoldable pub drop_slot : ℕ → Vm → Option Error → Worker → Worker
drop_slot slot_index vm err w =
    if owns w vm
    then elim (get_elem? w.slots slot_index) [
      | none ↦ w
      | some s ↦ record w {
        recycle = true;
        slots = set w.slots slot_index (record empty_slot_state { last_err = err });
      }
    ]
    else w

unfoldable pub recycle_worker_freeing_slot : ℕ → ℕ → Vm → Option Error → Pool → Pool
unfolding at_worker drop_slot
recycle_worker_freeing_slot index slot_index vm err p =
    at_worker index (λ w. (drop_slot slot_index vm err w, [])) p

-- The deferred `cancel(nil)` of slotLoop.
abbrev pub cancel_plain : ℕ → Pool → Pool
cancel_plain context p = record p { cancels = (context, plain) ∷ p.cancels }

-- What slotLoop does with the result of ResumeJob under the given context. The second part says
-- whether the slot goes on to new jobs.
unfoldable pub after_resume : ℕ → ℕ → ℕ → Vm → ℕ → Option Error → Pool → Pool × Bool
unfolding finish_slot_job recycle_worker_freeing_slot
after_resume now index slot_index vm context err p =
    let q = cancel_plain context p in
    elim err [
      | none ↦ (finish_slot_job now index slot_index vm none q, true)
      | some e ↦
          if e.is_job_terminal || e.is_canceled
          then (finish_slot_job now index slot_index vm (some e) q, true)
          else (recycle_worker_freeing_slot index slot_index vm (some e) q, false)
    ]

-- What slotLoop does with the result of RunJob: finishSlotJob always, and then the recycling of a VM
-- whose status stream stalled.
unfoldable pub after_run : ℕ → ℕ → ℕ → Vm → ℕ → Option Error → Pool → Pool × Bool
unfolding finish_slot_job recycle_worker_freeing_slot
after_run now index slot_index vm context err p =
    let q = finish_slot_job now index slot_index vm err (cancel_plain context p) in
    elim err [
      | none ↦ (q, true)
      | some e ↦
          if e.is_drain_stalled
          then (recycle_worker_freeing_slot index slot_index vm (some e) q, false)
          else (q, true)
    ]
