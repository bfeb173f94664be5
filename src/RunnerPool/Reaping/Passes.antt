-- ===== src/RunnerPool/Reaping/Passes.antt =====
-- One round of a pass of internal/runnerpool/reap.go: it leaves the pool as it was, or it marks the
-- candidate's worker for recycling.
use gha_mac_broker.Prelude.{
  ◌≡◌, refl, sym, subst, true, false, not, ◌&&◌, ◌∷◌, ◌++◌, Option, some, ◌⊎◌, inl, inr, ◌==◌,
  get_elem?, get_elem?-set_self, get_elem?-lt, set, set-set, set-get_elem?, arith, if_cases,
  option_cases, Bool-cases, Option-cases,
}
use gha_mac_broker.RunnerPool.Types.{Options, Vm, recycle_slot, Slot, Worker, Pool, owns}
use gha_mac_broker.RunnerPool.Workers.{at_worker}
use gha_mac_broker.RunnerPool.Recycle.{
  BusyCandidate, same_binding, take_cancel, cancel_calls, busy_recycle, request_busy_recycle,
  warn_slot, claim_slot_reap_warning,
}
use gha_mac_broker.RunnerPool.Reap.{
  Probe, running, failed, Pass, past, act_on, find_probe, warn_and_request_busy_recycle,
  reap_candidate,
}

-- The candidate still names a slot whose binding is the one that was read, on a VM that is not yet
-- marked, and the slot has not been warned about.
pub record IsReapable (c : BusyCandidate) (w : Worker) (s : Slot) : Type 0 where
  pub same_vm : owns w c.vm ≡ true
  pub unmarked : w.recycle ≡ false
  pub at_slot : get_elem? w.slots c.slot_index ≡ some s
  pub binding : same_binding c s ≡ true
  pub unwarned : (s.reap_warned_at == c.bound_at) ≡ false

-- The worker after the slot's recycling was requested.
abbrev pub reaped : BusyCandidate → Slot → Worker → Worker
reaped c s w = record w {
  recycle = true;
  slots = set w.slots c.slot_index (take_cancel (record s { reap_warned_at = c.bound_at }));
}

-- The pool after that.
abbrev pub reap_at : BusyCandidate → Worker → Slot → Pool → Pool
reap_at c w s p = record p {
  states = set p.states c.index (reaped c s w);
  cancels = cancel_calls recycle_slot s ++ p.cancels;
}

abbrev warned_slot : BusyCandidate → Slot → Slot
warned_slot c s = record s { reap_warned_at = c.bound_at }

abbrev warned_worker : BusyCandidate → Worker → Slot → Worker
warned_worker c w s = record w { slots = set w.slots c.slot_index (warned_slot c s) }

module _ (c : BusyCandidate) (w : Worker) (s : Slot) (r : IsReapable c w s) where
  claims : warn_slot c w ≡ (warned_worker c w s, true)
  unfolding warn_slot
  claims = ground (arith, r)

  recycles : busy_recycle c (warned_worker c w s) ≡ (reaped c s w, cancel_calls recycle_slot s)
  unfolding busy_recycle
  recycles = ground (
    arith,
    r,
    get_elem?-set_self w.slots c.slot_index (warned_slot c s)
        (get_elem?-lt c.slot_index w.slots r.at_slot),
    set-set w.slots c.slot_index (warned_slot c s) (take_cancel (warned_slot c s)),
  )

-- A reapable candidate's worker is marked, its job is cancelled with the recycling cause, and no
-- other worker changes.
pub warn_and_request_busy_recycle-reapable :
    (c : BusyCandidate) (p : Pool) (w : Worker) (s : Slot)
    → get_elem? p.states c.index ≡ some w
    → IsReapable c w s
    → warn_and_request_busy_recycle c p ≡ reap_at c w s p
unfolding warn_and_request_busy_recycle claim_slot_reap_warning request_busy_recycle at_worker
warn_and_request_busy_recycle-reapable c p w s at r = ground (
  arith,
  at,
  claims c w s r,
  recycles c w s r,
  get_elem?-set_self p.states c.index (warned_worker c w s) (get_elem?-lt c.index p.states at),
  set-set p.states c.index (warned_worker c w s) (reaped c s w),
)

-- What one candidate does to the pool.
abbrev pub Round : BusyCandidate → Pool → Pool → Type 0
Round c p q =
    (q ≡ p)
    ⊎ ((w : Worker) × (s : Slot) × (get_elem? p.states c.index ≡ some w)
        × IsReapable c w s
        × (q ≡ reap_at c w s p))

-- A refused warning leaves the worker as it was.
warn_slot_cases :
    (c : BusyCandidate) (w : Worker)
    → (warn_slot c w ≡ (w, false)) ⊎ ((s : Slot) × IsReapable c w s)
unfolding warn_slot
warn_slot_cases c w = elim (Bool-cases (owns w c.vm && not w.recycle)) [
  | inr e ↦ inl (ground arith)
  | inl e ↦ elim (Option-cases (get_elem? w.slots c.slot_index)) [
    | inl out ↦ inl (ground arith)
    | inr (s, here) ↦ elim (Bool-cases (same_binding c s && not (s.reap_warned_at == c.bound_at))) [
      | inr f ↦ inl (ground arith)
      | inl f ↦ inr (
        s,
        record {
          same_vm = ground arith;
          unmarked = ground arith;
          at_slot = here;
          binding = ground arith;
          unwarned = ground arith;
        },
      )
    ]
  ]
]

pub warn_and_request_busy_recycle-Round :
    (c : BusyCandidate) (p : Pool) → Round c p (warn_and_request_busy_recycle c p)
unfolding warn_and_request_busy_recycle claim_slot_reap_warning at_worker
warn_and_request_busy_recycle-Round c p = elim (Option-cases (get_elem? p.states c.index)) [
  | inl e ↦ inl (ground arith)
  | inr (w, at) ↦ elim (warn_slot_cases c w) [
    | inl refused ↦ inl (ground (arith, set-get_elem? p.states c.index at))
    | inr (s, r) ↦ inr (w, s, at, r, warn_and_request_busy_recycle-reapable c p w s at r)
  ]
]

-- Whatever the prober answers, a round of the loop is one of the two.
pub reap_candidate-Round :
    (o : Options) (prober : Option (Vm → Probe)) (c : BusyCandidate) (r : Pass)
    → Round c r.pool (reap_candidate o prober c r).pool
unfolding reap_candidate
reap_candidate-Round o prober c r =
    if_cases Good (past o.max_bind c) (λ _. warn_and_request_busy_recycle-Round c r.pool)
      λ _.
        option_cases Good prober (λ _. inl refl)
          λ ask _.
            if_cases Good (past o.pickup_timeout c)
              (λ _.
                option_cases Good (find_probe c.vm.name r.probes)
                  (λ _.
                    acted (ask c.vm) (record r { probes = (c.vm.name, ask c.vm) ∷ r.probes }) refl)
                  (λ a _. acted a r refl))
              (λ _. inl refl)
  where
    Good : Pass → Type 0
    Good q = Round c r.pool q.pool

    acted : (a : Probe) (q : Pass) → q.pool ≡ r.pool → Good (act_on c a q)
    acted (failed e) q same = inl same
    acted (running slots) q same =
        if_cases Good (slots c.slot_index) (λ _. inl same)
          (λ _.
            subst (λ x. Round c r.pool (warn_and_request_busy_recycle c x)) (sym same)
              (warn_and_request_busy_recycle-Round c r.pool))
