-- ===== src/RunnerPool/CancelRun.antt =====
-- CancelRun of internal/runnerpool/pool.go: which slot it ends, and that it touches no other.
use gha_mac_broker.Prelude.{
  ℕ, suc, ◌≡◌, refl, ◌⊎◌, inl, inr, Bool, true, false, ◌&&◌, List, [], ◌∷◌, ◌++◌, none, some, ℤ,
  eqb_ℤ, get_elem?, set, All, subst, sym, ap, Bool-cases, Option-cases, Option, arith,
}
use gha_mac_broker.RunnerPool.Types.{cancel_run, Cancel, Slot, empty_slot_state, Worker, Pool}
use gha_mac_broker.RunnerPool.Recycle.{
  cancel_calls, take_cancel, cancel_in_slots, cancel_in_workers, cancel_job,
}

abbrev pub runs_job : ℤ → Slot → Bool
runs_job job_id s = s.busy && eqb_ℤ s.job_id job_id

-- No slot of the worker runs the job.
abbrev pub IsFreeOf : ℤ → Worker → Type 0
IsFreeOf job_id w = All (λ s. runs_job job_id s ≡ false) w.slots

-- What becomes of the slot, and the cancel functions that are called: one that is still there is called
-- once, with the cancel cause, and is gone from the slot, which stays else the same; without one an
-- adopted slot is emptied, and any other slot is left as it is.
abbrev pub IsCancelled : Slot → Slot → List Cancel → Type 0
IsCancelled s t calls =
    ((c : ℕ) × (s.job_cancel ≡ some c)
      × (t ≡ record s { job_cancel = none })
      × (calls ≡ (c, cancel_run) ∷ []))
    ⊎ ((s.job_cancel ≡ none)
        × (calls ≡ [])
        × (((s.adopted ≡ true) × (t ≡ empty_slot_state)) ⊎ ((s.adopted ≡ false) × (t ≡ s))))

take_cancel-IsCancelled : (s : Slot) → IsCancelled s (take_cancel s) (cancel_calls cancel_run s)
take_cancel-IsCancelled s = elim (Option-cases s.job_cancel) [
  | inr (c, here) ↦ inl (c, here, ground (arith, here), ground (arith, here))
  | inl gone ↦ inr (
    gone,
    ground (arith, gone),
    elim (Bool-cases s.adopted) [
      | inl was ↦ inl (was, ground (arith, gone, was))
      | inr not_so ↦ inr (
        not_so,
        (let same : record s { job_cancel = none } ≡ s =
              ap (λ (o : Option ℕ). record s { job_cancel = o }) (sym gone) in
            ground (arith, not_so, same)),
      )
    ],
  )
]

slots_cases :
    (job_id : ℤ) (ss : List Slot)
    → ((cancel_in_slots job_id ss ≡ none) × All (λ s. runs_job job_id s ≡ false) ss)
      ⊎ ((j : ℕ) × (s : Slot) × (get_elem? ss j ≡ some s)
          × (runs_job job_id s ≡ true)
          × (cancel_in_slots job_id ss
              ≡ some (set ss j (take_cancel s), cancel_calls cancel_run s)))
unfolding cancel_in_slots
slots_cases job_id [] = inl (refl, tt)
slots_cases job_id (s ∷ ss) = elim (Bool-cases (runs_job job_id s)) [
  | inl hit ↦ inr (0, s, refl, hit, ground (arith, hit))
  | inr miss ↦ elim (slots_cases job_id ss) [
    | inl (e, free) ↦ inl (ground (arith, miss, e), (miss, free))
    | inr (j, x, at, hit, e) ↦ inr (suc j, x, at, hit, ground (arith, miss, e))
  ]
]

-- A worker with a slot that runs the job, and that slot.
abbrev pub Ended : ℤ → List Worker → List Worker → List Cancel → Type 0
Ended job_id before after calls =
    (i : ℕ) × (j : ℕ) × (w : Worker) × (s : Slot) × (t : Slot) × (get_elem? before i ≡ some w)
    × (get_elem? w.slots j ≡ some s)
    × (runs_job job_id s ≡ true)
    × (after ≡ set before i (record w { recycle = true; slots = set w.slots j t }))
    × IsCancelled s t calls

workers_cases :
    (job_id : ℤ) (ws : List Worker)
    → ((cancel_in_workers job_id ws ≡ (ws, [])) × All (IsFreeOf job_id) ws)
      ⊎ Ended job_id ws (cancel_in_workers job_id ws).0 (cancel_in_workers job_id ws).1
unfolding cancel_in_workers
workers_cases job_id [] = inl (refl, tt)
workers_cases job_id (w ∷ ws) = elim (slots_cases job_id w.slots) [
  | inr (j, s, at, hit, e) ↦ inr (
    0,
    j,
    w,
    s,
    take_cancel s,
    refl,
    at,
    hit,
    ground (arith, e),
    subst (IsCancelled s (take_cancel s)) (ground (arith, e)) (take_cancel-IsCancelled s),
  )
  | inl (e, free) ↦ elim (workers_cases job_id ws) [
    | inl (same, rest) ↦ inl (ground (arith, e, same), (free, rest))
    | inr (i, j, v, s, t, here, at, hit, after, calls) ↦ inr (
      suc i,
      j,
      v,
      s,
      t,
      here,
      at,
      hit,
      ground (arith, e, after),
      subst (IsCancelled s t) (ground (arith, e)) calls,
    )
  ]
]

-- CancelRun either finds no slot that runs the job, and changes nothing; or it ends one such slot:
-- its VM is marked for recycling, its cancel function is called with the cancel cause and taken from
-- the slot if it is still there, an adopted slot without one is emptied, and no other worker or slot
-- changes.
pub cancel_job-Ends :
    (job_id : ℤ) (p : Pool)
    → ((cancel_job job_id p ≡ p) × All (IsFreeOf job_id) p.states)
      ⊎ ((calls : List Cancel) × (cancel_job job_id p
            ≡ record p { states = (cancel_job job_id p).states; cancels = calls ++ p.cancels })
          × Ended job_id p.states (cancel_job job_id p).states calls)
unfolding cancel_job
cancel_job-Ends job_id p = elim (workers_cases job_id p.states) [
  | inl (same, free) ↦ inl (rw same refl, free)
  | inr ended ↦ inr ((cancel_in_workers job_id p.states).1, refl, ended)
]
