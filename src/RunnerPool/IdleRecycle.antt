-- ===== src/RunnerPool/IdleRecycle.antt =====
-- The idle side of Reconcile in internal/runnerpool/pool.go never reaches a worker with a job.
use mathlib.Core.Option.{some-injective}
use gha_mac_broker.Prelude.{
  ℕ, ◌≡◌, sym, ap, ◌∙◌, inl, inr, true, List, [], ◌∷◌, Option, some, ◌==◌, ==_iff, get_elem?,
  get_elem?-set_ne, set, set-get_elem?, Bool-cases, if_cases, option_cases, arith,
}
use gha_mac_broker.RunnerPool.Types.{Error, Vm, Worker, Pool, worker_busy}
use gha_mac_broker.RunnerPool.Workers.{at_worker}
use gha_mac_broker.RunnerPool.Recycle.{mark_recycle, request_recycle}
use gha_mac_broker.RunnerPool.Reconcile.{IdleCandidate, should_recycle, recycle_idle}

abbrev Holds : ℕ → Worker → Pool → Type 0
Holds i w p = get_elem? p.states i ≡ some w

mark_recycle-busy :
    (vm : Vm) (err : Option Error) (w : Worker) → worker_busy w ≡ true → mark_recycle vm err w ≡ w
unfolding mark_recycle
mark_recycle-busy vm err w b = ground (arith, b)

request_recycle-busy :
    (i k : ℕ) (vm : Vm) (err : Option Error) (w : Worker) (p : Pool)
    → worker_busy w ≡ true
    → Holds i w p
    → Holds i w (request_recycle k vm err p)
unfolding request_recycle at_worker
request_recycle-busy i k vm err w p b at =
    option_cases (Holds i w) (get_elem? p.states k) (λ _. at) λ v here. kept v here
  where
    kept :
        (v : Worker)
        → get_elem? p.states k ≡ some v
        → get_elem? (set p.states k (mark_recycle vm err v)) i ≡ some w
    kept v here = elim (Bool-cases (k == i)) [
      | inl y ↦
          let q : k ≡ i = (==_iff k i).0 y in
          let same : v ≡ w = some-injective _ _ (sym here ∙ ap (get_elem? p.states) q ∙ at) in
          rw (q, same, mark_recycle-busy vm err w b, set-get_elem? p.states i at) at
      | inr n ↦
          get_elem?-set_ne p.states k i _ (λ q. absurd (ground (arith, n, q, ==_iff k i))) ∙ at
    ]

-- Whatever candidates were read before and whatever their health, the loop over them leaves a worker
-- that by now has a busy slot exactly as it is: it is not marked for recycling and keeps its jobs.
pub recycle_idle-keeps_busy :
    (health : Vm → ℕ → Option Error) (cs : List IdleCandidate) (p : Pool) (i : ℕ) (w : Worker)
    → get_elem? p.states i ≡ some w
    → worker_busy w ≡ true
    → get_elem? (recycle_idle health cs p).states i ≡ some w
unfolding recycle_idle
recycle_idle-keeps_busy health [] p i w at b = at
recycle_idle-keeps_busy health (c ∷ cs) p i w at b =
    let verdict = should_recycle p.options (health c.vm c.slot_count) c in
    recycle_idle-keeps_busy health cs _ i w
      (if_cases (Holds i w) verdict.0 (λ _. request_recycle-busy i c.index c.vm verdict.1 w p b at)
        (λ _. at))
      b
