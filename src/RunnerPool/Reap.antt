-- ===== src/RunnerPool/Reap.antt =====
-- internal/runnerpool/reap.go: one pass over the busy slots. Other goroutines may take the mutex
-- between its critical sections; the pass is modelled as it runs alone.
use gha_mac_broker.Prelude.{
  ℕ, suc, String, Bool, not, ◌&&◌, List, [], ◌∷◌, ◌++◌, Option, none, some, ℤ, is_pos, leb_ℤ, sub_ℕ,
  ◌==◌, length, str_eq, if◌then◌else◌,
}
use gha_mac_broker.RunnerPool.Types.{Error, Options, Vm, Slot, Worker, Pool}
use gha_mac_broker.RunnerPool.Recycle.{BusyCandidate, request_busy_recycle, claim_slot_reap_warning}

-- The inner loop of busyCandidates, from slot `j` on.
unfoldable pub slot_candidates : ℕ → ℕ → Vm → ℕ → ℕ → List Slot → List BusyCandidate
slot_candidates now i vm count j [] = []
slot_candidates now i vm count j (s ∷ ss) =
    let rest = slot_candidates now i vm count (suc j) ss in
    if s.busy && not (s.bound_at == 0)
    then record {
      index = i;
      slot_index = j;
      slot_count = count;
      vm = vm;
      bound_at = s.bound_at;
      job_id = s.job_id;
      run_id = s.run_id;
      now = now;
    }
      ∷ rest
    else rest

abbrev pub candidates_of : ℕ → ℕ → Worker → List BusyCandidate
candidates_of now i w = elim w.vm [
  | none ↦ []
  | some vm ↦ slot_candidates now i vm (length w.slots) 0 w.slots
]

-- The outer loop, from worker `i` on.
unfoldable pub worker_candidates : ℕ → ℕ → List Worker → List BusyCandidate
unfolding slot_candidates
worker_candidates now i [] = []
worker_candidates now i (w ∷ ws) = candidates_of now i w ++ worker_candidates now (suc i) ws

unfoldable pub busy_candidates : ℕ → Pool → List BusyCandidate
unfolding worker_candidates
busy_candidates now p = worker_candidates now 0 p.states

-- runningProbe: the answer of one RunningSlots call.
pub data Probe : Type 0 where
  running : (ℕ → Bool) → Probe
  failed : Error → Probe

-- The pool and the answers of this pass by VM name.
pub record Pass : Type 0 where
  pub pool : Pool
  pub probes : List (String × Probe)

-- `limit > 0 && bindAge >= limit`
abbrev pub past : ℤ → BusyCandidate → Bool
past limit c = is_pos limit && leb_ℤ limit (sub_ℕ c.now c.bound_at)

unfoldable pub warn_and_request_busy_recycle : BusyCandidate → Pool → Pool
unfolding claim_slot_reap_warning request_busy_recycle
warn_and_request_busy_recycle c p =
    let (p', claimed) = claim_slot_reap_warning c p in
    if claimed then request_busy_recycle c p' else p'

unfoldable pub find_probe : String → List (String × Probe) → Option Probe
find_probe name [] = none
find_probe name ((n, a) ∷ rest) = if str_eq n name then some a else find_probe name rest

abbrev pub act_on : BusyCandidate → Probe → Pass → Pass
act_on c (failed e) r = r
act_on c (running slots) r =
    if slots c.slot_index then r else record r { pool = warn_and_request_busy_recycle c r.pool }

-- One round of the loop of reapBusyWorkers. `prober` answers RunningSlots, where there is one.
unfoldable pub reap_candidate : Options → Option (Vm → Probe) → BusyCandidate → Pass → Pass
unfolding warn_and_request_busy_recycle find_probe
reap_candidate o prober c r =
    if past o.max_bind c
    then record r { pool = warn_and_request_busy_recycle c r.pool }
    else elim prober [
      | none ↦ r
      | some ask ↦
          if past o.pickup_timeout c
          then elim (find_probe c.vm.name r.probes) [
            | some a ↦ act_on c a r
            | none ↦ act_on c (ask c.vm) (record r { probes = (c.vm.name, ask c.vm) ∷ r.probes })
          ]
          else r
    ]

unfoldable pub reap_candidates : Options → Option (Vm → Probe) → List BusyCandidate → Pass → Pass
unfolding reap_candidate
reap_candidates o prober [] r = r
reap_candidates o prober (c ∷ cs) r = reap_candidates o prober cs (reap_candidate o prober c r)

-- reapBusyWorkers
unfoldable pub reap_busy_workers : ℕ → Option (Vm → Probe) → Pool → Pass
unfolding busy_candidates reap_candidates
reap_busy_workers now prober p =
    reap_candidates p.options prober (busy_candidates now p) (record { pool = p; probes = [] })
