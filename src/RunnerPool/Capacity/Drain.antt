-- ===== src/RunnerPool/Capacity/Drain.antt =====
-- `Ready` of internal/runnerpool/pool.go is truthful: a ready pool can hand out every queued job and
-- the next one at once, without waiting for a slot.
use mathlib.Core.List.{append-nil}
use gha_mac_broker.Prelude.{
  ℕ, suc, ◌≤◌, ◌<◌, ◌≡◌, refl, sym, ap, ◌∙◌, true, false, not, List, [], ◌∷◌, ◌++◌, some, none,
  Option, length, length-append, get_elem?, set, count-set, count-pos, sum_of, sum_of-set,
  sum_of-pos, arith, All, eq_refl, inl, inr, Option-cases,
}
use gha_mac_broker.RunnerPool.Types.{Job, Vm, Slot, Worker, Pool}
use gha_mac_broker.RunnerPool.Jobs.{bind_slot, enqueue, EnqueueError}
use gha_mac_broker.RunnerPool.Status.{is_alive, snapshot}
use gha_mac_broker.RunnerPool.System.{
  Section, enqueues, waits_for_job, step, run, taken, accepted, accepted_by,
}
use gha_mac_broker.RunnerPool.Dispatch.{CanServe, served, wait_for_slot_job-serves}
use gha_mac_broker.RunnerPool.Fifo.{run-Fifo}
use gha_mac_broker.RunnerPool.Capacity.Counts.{free_slots, ready-up}

-- A slot that can serve the next job.
record Server (p : Pool) : Type 0 where
  i : ℕ
  j : ℕ
  vm : Vm
  w : Worker
  s : Slot
  alive : is_alive w ≡ true
  serves : CanServe p i j vm w s

find_free_slot : (p : Pool) → p.shutting_down ≡ false → 0 < sum_of free_slots p.states → Server p
find_free_slot p up h =
    let (i, w, at, some_free) = sum_of-pos free_slots p.states h in
    let (j, s, here, is_free) = count-pos (λ (x : Slot). not x.busy) w.slots (ground arith) in
    go i w at some_free j s here is_free
  where
    go :
        (i : ℕ) (w : Worker)
        → get_elem? p.states i ≡ some w
        → 0 < free_slots w
        → (j : ℕ) (s : Slot) → get_elem? w.slots j ≡ some s
        → not s.busy ≡ true
        → Server p
    go i w at h j s here free = elim (Option-cases w.vm) [
      | inl e ↦ absurd (ground arith)
      | inr (vm, e) ↦ record {
        i = i;
        j = j;
        vm = vm;
        w = w;
        s = s;
        alive = ground arith;
        serves = record {
          open_pool = up;
          at_index = at;
          same_vm = rw e (eq_refl vm.name);
          kept = ground arith;
          at_slot = here;
          free = ground arith;
        };
      }
    ]

-- Serving a job uses up one free slot.
served-free_slots :
    (now : ℕ) (p : Pool) (x : Server p) (job : Job) (rest : List Job)
    → suc (sum_of free_slots (served now x.i x.j x.w x.s job rest p).states)
      ≡ sum_of free_slots p.states
served-free_slots now p x job rest = ground (
  arith,
  x.alive,
  x.serves,
  sum_of-set free_slots p.states x.i
      (record x.w { idle_since = 0; slots = set x.w.slots x.j (bind_slot now p.contexts job x.s) })
      x.serves.at_index,
  count-set (λ (s : Slot). not s.busy) x.w.slots x.j (bind_slot now p.contexts job x.s)
      x.serves.at_slot,
)

abbrev pub OnlyDispatches : ℕ × Section → Type 0
OnlyDispatches (now, s) = (i : ℕ) × (j : ℕ) × (vm : Vm) × (s ≡ waits_for_job false i j vm)

-- Sections that empty the queue by dispatches alone.
record Draining (now : ℕ) (p : Pool) : Type 0 where
  sections : List (ℕ × Section)
  empties : (run sections p).queue ≡ []
  none_accepted : accepted sections p ≡ []
  only_dispatches : All OnlyDispatches sections

dispatch_first :
    (now : ℕ) (p : Pool) (x : Server p) (job : Job) (q : List Job)
    → p.queue ≡ job ∷ q
    → Draining now (served now x.i x.j x.w x.s job q p)
    → Draining now p
unfolding run accepted accepted_by
dispatch_first now p x job q e rest = record {
  sections = (now, waits_for_job false x.i x.j x.vm) ∷ rest.sections;
  empties = ap (λ r. (run rest.sections r).queue) stepped ∙ rest.empties;
  none_accepted = ap (accepted rest.sections) stepped ∙ rest.none_accepted;
  only_dispatches = ((x.i, x.j, x.vm, refl), rest.only_dispatches);
}
  where
    stepped : step now (waits_for_job false x.i x.j x.vm) p ≡ served now x.i x.j x.w x.s job q p
    stepped = unfold step in ap (λ r. r.0) (wait_for_slot_job-serves now x.i x.j x.vm p x.serves e)

drain :
    (now : ℕ) (q : List Job) (p : Pool)
    → p.queue ≡ q
    → p.shutting_down ≡ false
    → length q ≤ sum_of free_slots p.states
    → Draining now p
unfolding run accepted
drain now [] p e up h = record {
  sections = [];
  empties = e;
  none_accepted = refl;
  only_dispatches = tt;
}
drain now (job ∷ q) p e up h =
    let x = find_free_slot p up (omega arith) in
    dispatch_first now p x job q e (
      drain now q (served now x.i x.j x.w x.s job q p) refl up
        (omega (arith, served-free_slots now p x job q)))

abbrev accept : Job → Pool → Pool
accept job p = record p { queue = p.queue ++ job ∷ [] }

enqueue-accepts :
    (job : Job) (p : Pool) → p.shutting_down ≡ false → enqueue false job p ≡ (accept job p, none)
unfolding enqueue
enqueue-accepts job p up = ground arith

drained :
    (now : ℕ) (p : Pool) (job : Job)
    → p.shutting_down ≡ false
    → length p.queue < sum_of free_slots p.states
    → Draining now (accept job p)
drained now p job up room =
    drain now (p.queue ++ job ∷ []) (accept job p) refl up
      (omega (arith, length-append p.queue (job ∷ [])))

abbrev jobs_of : Job → Option EnqueueError → List Job
jobs_of job none = job ∷ []
jobs_of job (some e) = []

dispatch_everything :
    (now : ℕ) (p : Pool) (job : Job)
    → p.shutting_down ≡ false
    → Draining now (accept job p)
    → (ss : List (ℕ × Section)) × (All OnlyDispatches ss)
      × (taken ((now, enqueues false job) ∷ ss) p ≡ p.queue ++ job ∷ [])
      × ((run ((now, enqueues false job) ∷ ss) p).queue ≡ [])
unfolding run accepted accepted_by step
dispatch_everything now p job up d =
    let e = enqueue-accepts job p up in
    let all = (now, enqueues false job) ∷ d.sections in
    let empty : (run all p).queue ≡ [] = ap (λ r. (run d.sections r.0).queue) e ∙ d.empties in
    let acc : accepted all p ≡ job ∷ [] =
      ap (λ (r : Pool × Option EnqueueError). jobs_of job r.1 ++ accepted d.sections r.0) e
      ∙ ap (λ t. job ∷ t) d.none_accepted in
    (
      d.sections,
      d.only_dispatches,
      sym (append-nil (taken all p))
          ∙ ap (λ q. taken all p ++ q) (sym empty)
          ∙ run-Fifo all p
          ∙ ap (λ a. p.queue ++ a) acc,
      empty,
    )

-- If a pool reports itself ready, a job that arrives next is accepted, and there is a sequence of
-- critical sections that only accepts that job and dispatches, with no job ending in between, after
-- which the queue is empty; it has handed out every job that was queued, in order, and then the new
-- one.
pub ready-serves :
    (now : ℕ) (p : Pool) (job : Job)
    → (snapshot p).ready ≡ true
    → (ss : List (ℕ × Section)) × (All OnlyDispatches ss)
      × (taken ((now, enqueues false job) ∷ ss) p ≡ p.queue ++ job ∷ [])
      × ((run ((now, enqueues false job) ∷ ss) p).queue ≡ [])
ready-serves now p job h =
    let (up, room) = ready-up p h in dispatch_everything now p job up (drained now p job up room)
