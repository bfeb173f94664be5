-- ===== src/RunnerPool/Status.antt =====
-- snapshotLocked of internal/runnerpool/pool.go, and the phases of internal/runnerpool/status.go.
use gha_mac_broker.Prelude.{
  ℕ, suc, ◌+◌, Bool, false, not, ◌&&◌, ◌||◌, List, [], ◌∷◌, ℤ, ltb, length, is_some, if◌then◌else◌,
}
use gha_mac_broker.RunnerPool.Types.{Slot, Worker, Pool, worker_busy}

pub record Snapshot : Type 0 where
  pub runner_count : ℤ
  pub idle : ℕ
  pub busy : ℕ
  pub queued : ℕ
  pub healthy : Bool
  pub ready : Bool

-- The three counters of the loop.
pub record Tally : Type 0 where
  pub active : ℕ
  pub idle : ℕ
  pub busy : ℕ

abbrev pub is_alive : Worker → Bool
is_alive w = is_some w.vm && not w.recycle && not (is_some w.last_err)

unfoldable pub tally_slots : Bool → List Slot → Tally → Tally
tally_slots alive [] t = t
tally_slots alive (s ∷ ss) t = tally_slots alive ss (record t {
  idle = if alive && not s.busy then suc t.idle else t.idle;
  busy = if s.busy then suc t.busy else t.busy;
})

unfoldable pub tally_workers : List Worker → Tally → Tally
unfolding tally_slots
tally_workers [] t = t
tally_workers (w ∷ ws) t = tally_workers ws (
    tally_slots (is_alive w) w.slots
      (record t { active = if is_alive w then t.active + length w.slots else t.active }))

abbrev down : Pool → Snapshot
down p = record {
  runner_count = p.options.runner_count;
  idle = 0;
  busy = 0;
  queued = length p.queue;
  healthy = false;
  ready = false;
}

unfoldable pub snapshot : Pool → Snapshot
unfolding tally_workers
snapshot p =
    if not p.started || p.shutting_down
    then down p
    else let t = tally_workers p.states (record { active = 0; idle = 0; busy = 0 }) in
      record {
        runner_count = p.options.runner_count;
        idle = t.idle;
        busy = t.busy;
        queued = length p.queue;
        healthy = ltb 0 t.active;
        ready = ltb (length p.queue) t.idle;
      }

-- The texts "recycle", "warming", "empty", "busy" and "idle".
pub data Phase : Type 0 where
  recycling warming empty busy idle : Phase

unfoldable pub worker_phase : Worker → Phase
unfolding worker_busy
worker_phase w =
    if w.recycle
    then recycling
    else if w.warming
    then warming
    else if not (is_some w.vm)
    then empty
    else if worker_busy w
    then busy
    else idle

unfoldable pub slot_phase : Worker → Slot → Phase
slot_phase w s =
    if s.busy
    then busy
    else if w.recycle
    then recycling
    else if w.warming
    then warming
    else if not (is_some w.vm)
    then empty
    else idle
