-- ===== src/RunnerPool/Invariant/Slots.antt =====
-- The slot lists that the operations of internal/runnerpool build are well formed.
use gha_mac_broker.Prelude.{
  ℕ, ◌<◌, ◌≡◌, refl, true, false, List, [], ◌∷◌, none, ℤ, ◌==◌, All, All-replicate, any,
  any-replicate-false, length, length-replicate, arith, inl, inr, Bool-cases, map, replicate,
  is_some,
}
use gha_mac_broker.RunnerPool.Types.{Slot, Worker, empty_slot_state, worker_busy}
use gha_mac_broker.RunnerPool.Workers.{reset_worker_slots_to, slot_count_or}
use gha_mac_broker.RunnerPool.Invariant.Defs.{SlotIsValid, WorkerIsValid}

pub empty_slot_state-IsValid : SlotIsValid empty_slot_state
empty_slot_state-IsValid = ground arith

abbrev pub AllFree : List Slot → Type 0
AllFree ss = any (λ s. s.busy) ss ≡ false

pub slot_count_or-pos : (n : ℤ) → 0 < slot_count_or n
slot_count_or-pos n = ground arith

reset-valid : (ss : List Slot) → All SlotIsValid (map (λ _. empty_slot_state) ss)
reset-valid [] = tt
reset-valid (s ∷ ss) = (empty_slot_state-IsValid, reset-valid ss)

reset-free : (ss : List Slot) → AllFree (map (λ _. empty_slot_state) ss)
reset-free [] = refl
reset-free (s ∷ ss) = reset-free ss

reset-length : (ss : List Slot) → length (map (λ (_ : Slot). empty_slot_state) ss) ≡ length ss
reset-length [] = refl
reset-length (s ∷ ss) = omega (arith, reset-length ss)

-- After a reset the slots are valid and free, and as many as asked for.
pub record IsReset (n : ℕ) (ss : List Slot) : Type 0 where
  pub valid : All SlotIsValid ss
  pub free : AllFree ss
  pub count : length ss ≡ n

pub replicate-IsReset : (n : ℕ) → IsReset n (replicate n empty_slot_state)
replicate-IsReset n = record {
  valid = All-replicate SlotIsValid n empty_slot_state empty_slot_state-IsValid;
  free = any-replicate-false (λ s. s.busy) n empty_slot_state refl;
  count = length-replicate n empty_slot_state;
}

pub reset_worker_slots_to-IsReset :
    (n : ℤ) (ss : List Slot) → IsReset (slot_count_or n) (reset_worker_slots_to n ss).0
unfolding reset_worker_slots_to
reset_worker_slots_to-IsReset n ss = elim (Bool-cases (length ss == slot_count_or n)) [
  | inl same ↦ rw same (record {
    valid = reset-valid ss;
    free = reset-free ss;
    count = ground (arith, reset-length ss);
  })
  | inr other ↦ rw other (replicate-IsReset (slot_count_or n))
]

-- A worker with reset slots and no sign of a VM, or one that has just got its VM.
pub IsReset-worker :
    (w : Worker) {n : ℕ}
    → 0 < n
    → IsReset n w.slots
    → (0 < w.idle_since → is_some w.vm ≡ true)
    → (w.warming ≡ true → w.vm ≡ none)
    → (w.recycle ≡ true → is_some w.vm ≡ true)
    → WorkerIsValid w
unfolding worker_busy
IsReset-worker w pos r idle warm rec = record {
  slots_valid = r.valid;
  nonempty = omega (arith, r.count);
  vm_less = λ _. r.free;
  idle_free = λ _. r.free;
  idle_vm = idle;
  warming_vm_less = warm;
  recycle_vm = rec;
}
