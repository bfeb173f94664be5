-- ===== src/RunnerPool/Capacity/Counts.antt =====
-- The counters of snapshotLocked against a count of the slots.
use gha_mac_broker.Prelude.{
  ℕ, ◌+◌, ◌≤◌, ◌<◌, ◌≡◌, refl, ◌∙◌, Bool, true, false, not, ◌&&◌, List, [], ◌∷◌, ltb, length, count,
  sum_of, sum_of-le, sum_of-add, arith, if◌then◌else◌,
}
use gha_mac_broker.RunnerPool.Types.{Slot, Worker, Pool}
use gha_mac_broker.RunnerPool.Status.{
  Snapshot, Tally, is_alive, tally_slots, tally_workers, snapshot,
}

abbrev pub free_slots : Worker → ℕ
free_slots w = if is_alive w then count (λ s. not s.busy) w.slots else 0

abbrev pub busy_slots : Worker → ℕ
busy_slots w = count (λ s. s.busy) w.slots

abbrev pub live_slots : Worker → ℕ
live_slots w = if is_alive w then length w.slots else 0

abbrev pub all_slots : Worker → ℕ
all_slots w = length w.slots

tally_slots-eq :
    (alive : Bool) (ss : List Slot) (t : Tally)
    → tally_slots alive ss t ≡ record t {
      idle = t.idle + (if alive then count (λ s. not s.busy) ss else 0);
      busy = t.busy + count (λ s. s.busy) ss;
    }
unfolding tally_slots
tally_slots-eq true [] t = ground arith
tally_slots-eq false [] t = ground arith
tally_slots-eq true (s ∷ ss) t = tally_slots-eq true ss _ ∙ ground arith
tally_slots-eq false (s ∷ ss) t = tally_slots-eq false ss _ ∙ ground arith

pub tally_workers-eq :
    (ws : List Worker) (t : Tally)
    → tally_workers ws t ≡ record {
      active = t.active + sum_of live_slots ws;
      idle = t.idle + sum_of free_slots ws;
      busy = t.busy + sum_of busy_slots ws;
    }
unfolding tally_workers
tally_workers-eq [] t = ground arith
tally_workers-eq (w ∷ ws) t =
    rw (tally_slots-eq (is_alive w) w.slots _) (tally_workers-eq ws _ ∙ ground arith)

count_split : (ss : List Slot) → count (λ s. not s.busy) ss + count (λ s. s.busy) ss ≡ length ss
count_split [] = refl
count_split (s ∷ ss) = ground (arith, count_split ss)

free_busy-le : (w : Worker) → free_slots w + busy_slots w ≤ all_slots w
free_busy-le w = ground (arith, count_split w.slots)

abbrev pub is_up : Pool → Bool
is_up p = p.started && not p.shutting_down

-- The snapshot of a pool against a count of its slots.
pub record IsTruthful (p : Pool) (s : Snapshot) : Type 0 where
  pub queued_all : s.queued ≡ length p.queue
  pub idle_free : s.idle ≡ (if is_up p then sum_of free_slots p.states else 0)
  pub busy_all : s.busy ≡ (if is_up p then sum_of busy_slots p.states else 0)
  pub in_slots : s.idle + s.busy ≤ sum_of all_slots p.states
  pub healthy_live : s.healthy ≡ (is_up p && ltb 0 (sum_of live_slots p.states))
  pub ready_exact : s.ready ≡ ltb s.queued s.idle

free_busy_sum-le :
    (ws : List Worker) → sum_of free_slots ws + sum_of busy_slots ws ≤ sum_of all_slots ws
free_busy_sum-le ws = omega (
  arith,
  sum_of-le (λ w. free_slots w + busy_slots w) all_slots ws free_busy-le,
  sum_of-add free_slots busy_slots ws,
)

-- A running pool reports as idle exactly the free slots of its live workers (those with a VM, not
-- marked for recycling and without an error), as busy exactly its busy slots, together never more
-- than its slots, and as healthy that a live worker has a slot. A pool that has not started or is
-- shutting down reports none of these. In both cases the backlog is the queue's length, and the
-- pool is ready exactly if more slots are idle than jobs are queued.
pub snapshot-IsTruthful : (p : Pool) → IsTruthful p (snapshot p)
unfolding snapshot
snapshot-IsTruthful p = ground (
  arith,
  tally_workers-eq p.states (record { active = 0; idle = 0; busy = 0 }),
  free_busy_sum-le p.states,
)

pub ready-up :
    (p : Pool)
    → (snapshot p).ready ≡ true
    → (p.shutting_down ≡ false) × (length p.queue < sum_of free_slots p.states)
ready-up p h = ground (arith, snapshot-IsTruthful p)
