-- ===== src/RunnerPool/Reaping/Ceiling.antt =====
-- The MaxBind ceiling of internal/runnerpool/reap.go: where a pass enforces it, and the workers on
-- which it does nothing. The README and docs/runnerpool/overview.md describe max_bind differently: by
-- them a slot past it is recycled only when the probe reports no active job.
use gha_mac_broker.Prelude.{
  ℕ, ◌+◌, ◌≤◌, ◌<◌, ◌≡◌, refl, sym, ap, subst, ◌∙◌, Bool, true, false, List, [], ◌∷◌, Option, some,
  pos_part, ◌⊎◌, inl, inr, ◌≢◌, ◌==◌, eq_refl, get_elem?, get_elem?-set_self, get_elem?-set_ne,
  get_elem?-lt, arith, Has,
}
use gha_mac_broker.RunnerPool.Types.{Options, Vm, Slot, Worker, Pool, owns, worker_busy}
use gha_mac_broker.RunnerPool.Workers.{waiting, recycle_worker}
use gha_mac_broker.RunnerPool.Recycle.{BusyCandidate}
use gha_mac_broker.RunnerPool.Reap.{
  Probe, Pass, past, warn_and_request_busy_recycle, reap_candidate, reap_candidates,
  reap_busy_workers, busy_candidates,
}
use gha_mac_broker.RunnerPool.Reaping.Candidates.{candidate, busy_candidates-Has}
use gha_mac_broker.RunnerPool.Reaping.Passes.{
  IsReapable, reaped, reap_at, Round, warn_and_request_busy_recycle-reapable, reap_candidate-Round,
}

-- Through the rounds, worker `i` stays as it was or is marked for recycling.
abbrev pub KeptOrMarked : ℕ → Worker → Pool → Type 0
KeptOrMarked i w p =
    (w' : Worker) × (get_elem? p.states i ≡ some w') × ((w' ≡ w) ⊎ (w'.recycle ≡ true))

Round-KeptOrMarked :
    (i : ℕ) (w : Worker) (c : BusyCandidate) (p q : Pool)
    → Round c p q
    → KeptOrMarked i w p
    → KeptOrMarked i w q
Round-KeptOrMarked i w c p q (inl e) k = subst (KeptOrMarked i w) (sym e) k
Round-KeptOrMarked i w c p q (inr (x, s, at, r, e)) (w', here, k) =
    subst (KeptOrMarked i w) (sym e) (go (c.index == i) refl)
  where
    go : (b : Bool) → (c.index == i) ≡ b → KeptOrMarked i w (reap_at c x s p)
    go true hit =
        let same : c.index ≡ i = ground arith in
        (
          reaped c s x,
          rw (← same) (get_elem?-set_self p.states c.index _ (get_elem?-lt c.index p.states at)),
          inr refl,
        )
    go false miss =
        (w', get_elem?-set_ne p.states c.index i _ (λ (h : c.index ≡ i). ground arith) ∙ here, k)

pub reap_candidates-KeptOrMarked :
    (o : Options) (prober : Option (Vm → Probe)) (i : ℕ) (w : Worker) (cs : List BusyCandidate)
    (r : Pass)
    → KeptOrMarked i w r.pool
    → KeptOrMarked i w (reap_candidates o prober cs r).pool
unfolding reap_candidates
reap_candidates-KeptOrMarked o prober i w [] r k = k
reap_candidates-KeptOrMarked o prober i w (c ∷ cs) r k =
    reap_candidates-KeptOrMarked o prober i w cs (reap_candidate o prober c r)
      (Round-KeptOrMarked i w c r.pool _ (reap_candidate-Round o prober c r) k)

abbrev pub Marked : ℕ → Pool → Type 0
Marked i p = (w : Worker) × (get_elem? p.states i ≡ some w) × (w.recycle ≡ true)

kept_mark : (i : ℕ) (w : Worker) (p : Pool) → w.recycle ≡ true → KeptOrMarked i w p → Marked i p
kept_mark i w p m (w', here, inl e) = (w', here, rw e m)
kept_mark i w p m (w', here, inr m') = (w', here, m')

reap_candidates-Marked :
    (o : Options) (prober : Option (Vm → Probe)) (w : Worker) (s : Slot) (c : BusyCandidate)
    (cs : List BusyCandidate) (r : Pass)
    → IsReapable c w s
    → past o.max_bind c ≡ true
    → Has c cs
    → KeptOrMarked c.index w r.pool
    → Marked c.index (reap_candidates o prober cs r).pool
unfolding reap_candidates
reap_candidates-Marked o prober w s c [] r reapable over m k = absurd m
reap_candidates-Marked o prober w s c (d ∷ cs) r reapable over (inr m) k =
    reap_candidates-Marked o prober w s c cs (reap_candidate o prober d r) reapable over m
      (Round-KeptOrMarked c.index w d r.pool _ (reap_candidate-Round o prober d r) k)
reap_candidates-Marked o prober w s c (d ∷ cs) r reapable over (inl e) (w', here, k) =
    let (x, at, m) = now_marked k in
    kept_mark c.index x (reap_candidates o prober cs (reap_candidate o prober d r)).pool m (
      reap_candidates-KeptOrMarked o prober c.index x cs (reap_candidate o prober d r)
        (x, at, inl refl))
  where
    first : reap_candidate o prober c r ≡ record r { pool = warn_and_request_busy_recycle c r.pool }
    first = unfold reap_candidate in rw over

    marks : w' ≡ w → Marked c.index (warn_and_request_busy_recycle c r.pool)
    marks same =
        let at = here ∙ ap some same in
        rw (warn_and_request_busy_recycle-reapable c r.pool w s at reapable) (
          reaped c s w,
          get_elem?-set_self r.pool.states c.index _ (get_elem?-lt c.index r.pool.states at),
          refl,
        )

    now_marked : (w' ≡ w) ⊎ (w'.recycle ≡ true) → Marked c.index (reap_candidate o prober d r).pool
    now_marked (inl same) =
        subst (λ (x : BusyCandidate). Marked c.index (reap_candidate o prober x r).pool) (sym e)
          (subst (λ (q : Pass). Marked c.index q.pool) (sym first) (marks same))
    now_marked (inr m) = kept_mark c.index w' (reap_candidate o prober d r).pool m (
        Round-KeptOrMarked c.index w' d r.pool (reap_candidate o prober d r).pool
          (reap_candidate-Round o prober d r) (w', here, inl refl))

-- A pass marks for recycling every worker, not marked yet, with a busy slot that has been bound for
-- at least a positive MaxBind and has not been warned about at that binding time, whatever the
-- prober answers and also when there is none.
pub reap_busy_workers-ceiling :
    (now : ℕ) (prober : Option (Vm → Probe)) (p : Pool) (i j : ℕ) (w : Worker) (vm : Vm) (s : Slot)
    → get_elem? p.states i ≡ some w
    → w.vm ≡ some vm
    → w.recycle ≡ false
    → get_elem? w.slots j ≡ some s
    → s.busy ≡ true
    → 0 < s.bound_at
    → s.reap_warned_at ≢ s.bound_at
    → 0 < pos_part p.options.max_bind
    → s.bound_at + pos_part p.options.max_bind ≤ now
    → Marked i (reap_busy_workers now prober p).pool
unfolding reap_busy_workers
reap_busy_workers-ceiling now prober p i j w vm s at has unmarked here busy bound unwarned ceiling
      over =
    reap_candidates-Marked p.options prober w s (candidate now i j w vm s) (busy_candidates now p)
      (record { pool = p; probes = [] })
      (record {
        same_vm = rw has (eq_refl vm.name);
        unmarked = unmarked;
        at_slot = here;
        binding = ground arith;
        unwarned = ground arith;
      })
      (ground arith) (busy_candidates-Has now i j p w vm s at has here busy bound) (w, at, inl refl)

Round-skips :
    (i : ℕ) (w : Worker) (c : BusyCandidate) (p q : Pool)
    → w.recycle ≡ true
    → Round c p q
    → get_elem? p.states i ≡ some w
    → get_elem? q.states i ≡ some w
Round-skips i w c p q m (inl e) here = rw e here
Round-skips i w c p q m (inr (x, s, at, r, e)) here =
    rw e (get_elem?-set_ne p.states c.index i _ other ∙ here)
  where
    other : c.index ≢ i
    other same =
        ground (arith, r.unmarked, subst (λ (n : ℕ). get_elem? p.states n ≡ some x) same at)

reap_candidates-skips :
    (o : Options) (prober : Option (Vm → Probe)) (i : ℕ) (w : Worker) (cs : List BusyCandidate)
    (r : Pass)
    → w.recycle ≡ true
    → get_elem? r.pool.states i ≡ some w
    → get_elem? (reap_candidates o prober cs r).pool.states i ≡ some w
unfolding reap_candidates
reap_candidates-skips o prober i w [] r m here = here
reap_candidates-skips o prober i w (c ∷ cs) r m here =
    reap_candidates-skips o prober i w cs (reap_candidate o prober c r) m
      (Round-skips i w c r.pool _ m (reap_candidate-Round o prober c r) here)

-- Passes one after another, each at its own time and with its own answers.
unfoldable pub passes : List (ℕ × Option (Vm → Probe)) → Pool → Pool
unfolding reap_busy_workers
passes [] p = p
passes ((now, prober) ∷ rest) p = passes rest (reap_busy_workers now prober p).pool

passes-skip :
    (ps : List (ℕ × Option (Vm → Probe))) (p : Pool) (i : ℕ) (w : Worker)
    → get_elem? p.states i ≡ some w
    → w.recycle ≡ true
    → get_elem? (passes ps p).states i ≡ some w
unfolding passes
passes-skip [] p i w at m = at
passes-skip ((now, prober) ∷ rest) p i w at m =
    passes-skip rest (reap_busy_workers now prober p).pool i w
      (unfold reap_busy_workers in
        reap_candidates-skips p.options prober i w (busy_candidates now p)
          (record { pool = p; probes = [] }) m at)
      m

-- On a worker that is already marked for recycling, while one of its slots is busy, no number of
-- passes does anything, whatever their times and answers are and however long a slot has been bound:
-- the worker stays the same with all its slots, so none of its jobs has been cancelled, and its
-- worker loop finds that it has to go on waiting.
pub passes-skip_marked :
    (ps : List (ℕ × Option (Vm → Probe))) (p : Pool) (i : ℕ) (w : Worker) (vm : Vm)
    → get_elem? p.states i ≡ some w
    → w.recycle ≡ true
    → owns w vm ≡ true
    → worker_busy w ≡ true
    → (get_elem? (passes ps p).states i ≡ some w)
      × (recycle_worker (passes ps p) vm w ≡ (w, [], waiting))
unfolding recycle_worker
passes-skip_marked ps p i w vm at m own busy = (passes-skip ps p i w at m, ground arith)
