-- ===== src/RunnerPool/Reaping/Candidates.antt =====
-- busyCandidates of internal/runnerpool/reap.go lists every busy slot with a VM.
use mathlib.Core.Option.{some-injective}
use gha_mac_broker.Prelude.{
  ℕ, zero, suc, ◌+◌, ◌<◌, ◌≡◌, sym, subst, Bool, true, false, not, ◌&&◌, List, [], ◌∷◌, some, ◌==◌,
  length, get_elem?, arith, Has, Has-append_left, Has-append_right, inl, inr, if◌then◌else◌,
}
use gha_mac_broker.RunnerPool.Types.{Vm, Slot, Worker, Pool}
use gha_mac_broker.RunnerPool.Recycle.{BusyCandidate}
use gha_mac_broker.RunnerPool.Reap.{
  slot_candidates, candidates_of, worker_candidates, busy_candidates,
}

-- The candidate for slot `j`, with binding `s`, of worker `i`.
abbrev pub candidate : ℕ → ℕ → ℕ → Worker → Vm → Slot → BusyCandidate
candidate now i j w vm s = record {
  index = i;
  slot_index = j;
  slot_count = length w.slots;
  vm = vm;
  bound_at = s.bound_at;
  job_id = s.job_id;
  run_id = s.run_id;
  now = now;
}

slot_candidates-Has :
    (now i : ℕ) (vm : Vm) (count k j n : ℕ) (ss : List Slot) {s : Slot}
    → k + j ≡ n
    → get_elem? ss j ≡ some s
    → s.busy ≡ true
    → 0 < s.bound_at
    → Has
        (record {
          index = i;
          slot_index = n;
          slot_count = count;
          vm = vm;
          bound_at = s.bound_at;
          job_id = s.job_id;
          run_id = s.run_id;
          now = now;
        })
        (slot_candidates now i vm count k ss)
unfolding slot_candidates
slot_candidates-Has now i vm count k j n [] q at b t = cc
slot_candidates-Has now i vm count k zero n (x ∷ ss) {s} q at b t =
    let e : x ≡ s = some-injective _ _ at in
    let test : x.busy && not (x.bound_at == 0) ≡ true = ground arith in rw test (inl (ground arith))
slot_candidates-Has now i vm count k (suc j) n (x ∷ ss) q at b t =
    let rest = slot_candidates-Has now i vm count (suc k) j n ss (omega arith) at b t in
    later _ (slot_candidates now i vm count (suc k) ss) _ (x.busy && not (x.bound_at == 0)) rest
  where
    later :
        (c : BusyCandidate) (r : List BusyCandidate) (d : BusyCandidate) (test : Bool)
        → Has d r
        → Has d (if test then c ∷ r else r)
    later c r d true m = inr m
    later c r d false m = m

worker_candidates-Has :
    (now k i n : ℕ) (ws : List Worker) {w : Worker} (c : BusyCandidate)
    → k + i ≡ n
    → get_elem? ws i ≡ some w
    → Has c (candidates_of now n w)
    → Has c (worker_candidates now k ws)
unfolding worker_candidates
worker_candidates-Has now k i n [] c q at m = cc
worker_candidates-Has now k zero n (x ∷ ws) {w} c q at m =
    let e : w ≡ x = sym (some-injective _ _ at) in
    let e' : n ≡ k = omega arith in
    Has-append_left c (candidates_of now k x) (worker_candidates now (suc k) ws) (
      subst (λ v. Has c (candidates_of now k v)) e
        (subst (λ v. Has c (candidates_of now v w)) e' m))
worker_candidates-Has now k (suc i) n (x ∷ ws) c q at m =
    Has-append_right c (candidates_of now k x) (worker_candidates now (suc k) ws)
      (worker_candidates-Has now (suc k) i n ws c (omega arith) at m)

-- Every busy slot with a binding time, on a worker with a VM, is a candidate of the pass.
pub busy_candidates-Has :
    (now i j : ℕ) (p : Pool) (w : Worker) (vm : Vm) (s : Slot)
    → get_elem? p.states i ≡ some w
    → w.vm ≡ some vm
    → get_elem? w.slots j ≡ some s
    → s.busy ≡ true
    → 0 < s.bound_at
    → Has (candidate now i j w vm s) (busy_candidates now p)
unfolding busy_candidates
busy_candidates-Has now i j p w vm s at has here b t =
    worker_candidates-Has now 0 i i p.states _ (omega arith) at
      (rw has (slot_candidates-Has now i vm (length w.slots) 0 j j w.slots (omega arith) here b t))
