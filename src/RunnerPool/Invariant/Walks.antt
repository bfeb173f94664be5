-- ===== src/RunnerPool/Invariant/Walks.antt =====
-- Adoption and cancellation in internal/runnerpool walk over several workers; they keep each of
-- them well formed.
use mathlib.Core.Bool.{false≢true}
use gha_mac_broker.Prelude.{
  ℕ, suc, ◌<◌, ◌≡◌, refl, true, ◌&&◌, List, [], ◌∷◌, Option, none, some, ℤ, pos, negsuc, is_pos,
  pos_part, get_elem?, length, All, arith, is_some, eqb_ℤ, sym, ◌∙◌, if_cases, option_cases, any,
}
use gha_mac_broker.RunnerPool.Types.{
  Vm, Cancel, Slot, Worker, SlotBinding, AdoptedVm, worker_busy, adopted_slot_binding_busy,
}
use gha_mac_broker.RunnerPool.Recycle.{cancel_in_slots, cancel_in_workers}
use gha_mac_broker.RunnerPool.Adopt.{
  install_from, bind_all, bind_adopted, bind_at, adopted_worker, adopted_slot,
}
use gha_mac_broker.RunnerPool.Invariant.Defs.{SlotIsValid, WorkerIsValid}
use gha_mac_broker.RunnerPool.Invariant.Slots.{replicate-IsReset, IsReset-worker}
use gha_mac_broker.RunnerPool.Invariant.Workers.{bound_slot-IsValid, take_cancel-IsValid}

adopted_slot-IsValid : (now : ℕ) (b : SlotBinding) → 0 < now → SlotIsValid (adopted_slot now b)
adopted_slot-IsValid now b t = record { free = λ e. cc; bound = λ _. ground arith }

module _ {w : Worker} (v : WorkerIsValid w) (h : is_some w.vm ≡ true) where
  bind_adopted-IsValid :
      (now : ℕ) (b : SlotBinding)
      → 0 < now
      → WorkerIsValid (bind_adopted now b w) × (is_some (bind_adopted now b w).vm ≡ true)
  unfolding bind_adopted
  bind_adopted-IsValid now b t = go b.slot_index
    where
      Good : Worker → Type 0
      Good x = WorkerIsValid x × (is_some x.vm ≡ true)

      go :
          (z : ℤ)
          → let r : Worker = elim z [ negsuc n ↦ w | pos j ↦ bind_at now b j w ] in
            WorkerIsValid r × (is_some r.vm ≡ true)
      go (negsuc n) = (v, h)
      go (pos j) =
          option_cases Good (get_elem? w.slots j) (λ _. (v, h))
            λ s at.
              if_cases Good (adopted_slot_binding_busy b)
                (λ _. (bound_slot-IsValid v j at _ (adopted_slot-IsValid now b t) h, h))
                (λ _. (v, h))

bind_all-IsValid :
    (now : ℕ) (bs : List SlotBinding) (w : Worker)
    → 0 < now
    → WorkerIsValid w
    → is_some w.vm ≡ true
    → WorkerIsValid (bind_all now bs w)
unfolding bind_all
bind_all-IsValid now [] w t v h = v
bind_all-IsValid now (b ∷ bs) w t v h =
    let r = bind_adopted-IsValid v h now b t in
    bind_all-IsValid now bs (bind_adopted now b w) t r.0 r.1

adopted_worker-IsValid :
    (now : ℕ) (n : ℤ) (vm : Vm) → is_pos n ≡ true → WorkerIsValid (adopted_worker now n vm)
adopted_worker-IsValid now n vm h =
    IsReset-worker (adopted_worker now n vm) (ground arith) (replicate-IsReset (pos_part n))
      (λ _. refl) (λ e. absurd (false≢true e)) (λ _. refl)

-- The workers after an adoption: valid, and as many as before.
pub install_from-IsValid :
    (now : ℕ) (n : ℤ) (as_ : List AdoptedVm) (ws : List Worker)
    → 0 < now
    → is_pos n ≡ true
    → All WorkerIsValid ws
    → All WorkerIsValid (install_from now n as_ ws)
      × (length (install_from now n as_ ws) ≡ length ws)
unfolding install_from
install_from-IsValid now n [] ws t h v = (v, refl)
install_from-IsValid now n (a ∷ as_) [] t h v = (tt, refl)
install_from-IsValid now n (a ∷ as_) (w ∷ ws) t h v =
    option_cases (λ r. All WorkerIsValid r × (length r ≡ suc (length ws))) a.vm
      (λ _. install_from-IsValid now n as_ (w ∷ ws) t h v)
      λ vm _.
        let rest = install_from-IsValid now n as_ ws t h v.1 in
        (
          (
            bind_all-IsValid now a.slots (adopted_worker now n vm) t
                (adopted_worker-IsValid now n vm h) refl,
            rest.0,
          ),
          omega (arith, rest.1),
        )

-- What a hit of CancelRun leaves of the slots that it walked over.
record IsHit (ss ss' : List Slot) : Type 0 where
  was_busy : any (λ s. s.busy) ss ≡ true
  valid : All SlotIsValid ss'
  same_length : length ss' ≡ length ss

abbrev Hits : List Slot → Option (List Slot × List Cancel) → Type 0
Hits ss none = Unit
Hits ss (some r) = IsHit ss r.0

later-Hits :
    (s : Slot) (ss : List Slot) (o : Option (List Slot × List Cancel))
    → SlotIsValid s
    → Hits ss o
    → Hits (s ∷ ss) (elim o [ none ↦ none | some (ss', calls) ↦ some (s ∷ ss', calls) ])
later-Hits s ss none v h = tt
later-Hits s ss (some r) v h = record {
  was_busy = ground (arith, h.was_busy);
  valid = (v, h.valid);
  same_length = omega (arith, h.same_length);
}

cancel_in_slots-Hits :
    (id : ℤ) (ss : List Slot) → All SlotIsValid ss → Hits ss (cancel_in_slots id ss)
unfolding cancel_in_slots
cancel_in_slots-Hits id [] v = tt
cancel_in_slots-Hits id (s ∷ ss) v =
    if_cases (Hits (s ∷ ss)) (s.busy && eqb_ℤ s.job_id id)
      (λ hit. record {
        was_busy = ground arith;
        valid = (take_cancel-IsValid s v.0 (ground arith), v.1);
        same_length = refl;
      })
      (λ _. later-Hits s ss (cancel_in_slots id ss) v.0 (cancel_in_slots-Hits id ss v.1))

hit-IsValid :
    {w : Worker} (ss' : List Slot)
    → WorkerIsValid w
    → IsHit w.slots ss'
    → WorkerIsValid (record w { recycle = true; slots = ss' })
unfolding worker_busy
hit-IsValid {w} ss' v h = record {
  slots_valid = h.valid;
  nonempty = omega (arith, h.same_length, v.nonempty);
  vm_less = λ e. absurd (false≢true (sym (v.vm_less e) ∙ h.was_busy));
  idle_free = λ e. absurd (false≢true (sym (v.idle_free e) ∙ h.was_busy));
  idle_vm = v.idle_vm;
  warming_vm_less = v.warming_vm_less;
  recycle_vm = λ _. has_vm w.vm refl;
}
  where
    has_vm : (o : Option Vm) → w.vm ≡ o → is_some w.vm ≡ true
    has_vm none e = absurd (false≢true (sym (v.vm_less e) ∙ h.was_busy))
    has_vm (some vm) e = rw e

pub cancel_in_workers-IsValid :
    (id : ℤ) (ws : List Worker)
    → All WorkerIsValid ws
    → All WorkerIsValid (cancel_in_workers id ws).0
      × (length (cancel_in_workers id ws).0 ≡ length ws)
unfolding cancel_in_workers
cancel_in_workers-IsValid id [] v = (tt, refl)
cancel_in_workers-IsValid id (w ∷ ws) v =
    let rest = cancel_in_workers-IsValid id ws v.1 in
    go (cancel_in_slots id w.slots) (cancel_in_slots-Hits id w.slots v.0.slots_valid) rest
  where
    Good : List Worker × List Cancel → Type 0
    Good r = All WorkerIsValid r.0 × (length r.0 ≡ suc (length ws))

    go :
        (o : Option (List Slot × List Cancel))
        → Hits w.slots o
        → All WorkerIsValid (cancel_in_workers id ws).0
          × (length (cancel_in_workers id ws).0 ≡ length ws)
        → Good (elim o [
          | none ↦ (w ∷ (cancel_in_workers id ws).0, (cancel_in_workers id ws).1)
          | some (slots, calls) ↦ (record w { recycle = true; slots = slots } ∷ ws, calls)
        ])
    go none h rest = ((v.0, rest.0), omega (arith, rest.1))
    go (some r) h rest = ((hit-IsValid r.0 v.0 h, v.1), refl)
