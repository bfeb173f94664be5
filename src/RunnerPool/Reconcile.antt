-- ===== src/RunnerPool/Reconcile.antt =====
-- Reconcile of internal/runnerpool/pool.go: the idle candidates, their verdicts and the requests.
-- checkHealth asks the VM and GitHub, so its result is an argument.
use gha_mac_broker.Prelude.{
  ℕ, suc, Bool, true, false, not, ◌&&◌, ◌||◌, List, [], ◌∷◌, Option, none, some, ℤ, pos, is_pos,
  eqb_ℤ, leb_ℤ, sub_ℕ, ◌==◌, length, if◌then◌else◌,
}
use gha_mac_broker.RunnerPool.Types.{Error, Options, Vm, Worker, Pool, worker_busy}
use gha_mac_broker.RunnerPool.Recycle.{request_recycle}
use gha_mac_broker.RunnerPool.Reap.{Probe, reap_busy_workers}

pub record IdleCandidate : Type 0 where
  pub index : ℕ
  pub vm : Vm
  pub born_at : ℕ
  pub idle_since : ℕ
  pub slot_count : ℕ
  pub now : ℕ

abbrev idle_candidate : ℕ → ℕ → Worker → List IdleCandidate → List IdleCandidate
idle_candidate now i w rest = elim w.vm [
  | none ↦ rest
  | some vm ↦
      if w.warming || worker_busy w || w.recycle
      then rest
      else record {
        index = i;
        vm = vm;
        born_at = w.born_at;
        idle_since = w.idle_since;
        slot_count = length w.slots;
        now = now;
      }
        ∷ rest
]

-- The loop of idleCandidates, from worker `i` on.
unfoldable pub idle_from : ℕ → ℕ → List Worker → List IdleCandidate
unfolding worker_busy
idle_from now i [] = []
idle_from now i (w ∷ ws) = idle_candidate now i w (idle_from now (suc i) ws)

unfoldable pub idle_candidates : ℕ → Pool → List IdleCandidate
unfolding idle_from
idle_candidates now p = idle_from now 0 p.states

-- `limit > 0 && !since.IsZero() && now.Sub(since) >= limit`
abbrev pub expired : ℤ → ℕ → ℕ → Bool
expired limit since now = is_pos limit && not (since == 0) && leb_ℤ limit (sub_ℕ now since)

-- `health` is what checkHealth returns for this candidate; it is asked last.
unfoldable pub should_recycle : Options → Option Error → IdleCandidate → Bool × Option Error
should_recycle o health c =
    if not (eqb_ℤ (pos c.slot_count) o.jobs_per_vm)
    then (true, none)
    else if expired o.max_idle c.idle_since c.now
    then (true, none)
    else if expired o.max_age c.born_at c.now
    then (true, none)
    else elim health [ none ↦ (false, none) | some e ↦ (true, some e) ]

-- The loop over the candidates; the options are read anew for each.
unfoldable pub recycle_idle : (Vm → ℕ → Option Error) → List IdleCandidate → Pool → Pool
unfolding should_recycle request_recycle
recycle_idle health [] p = p
recycle_idle health (c ∷ cs) p =
    let (verdict, err) = should_recycle p.options (health c.vm c.slot_count) c in
    recycle_idle health cs (if verdict then request_recycle c.index c.vm err p else p)

unfoldable pub reconcile : ℕ → Option (Vm → Probe) → (Vm → ℕ → Option Error) → Pool → Pool
unfolding reap_busy_workers idle_candidates recycle_idle
reconcile now prober health p =
    let reaped = (reap_busy_workers now prober p).pool in
    recycle_idle health (idle_candidates now reaped) reaped
