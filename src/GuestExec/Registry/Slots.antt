-- ===== src/GuestExec/Registry/Slots.antt =====
-- The maps of internal/guestexec/registry.go against its executions: a slot runs one at a time.
pub mod Touch
pub mod Change
pub mod Steps
use gha_mac_broker.Prelude.{ℕ, ◌≡◌, Bool, true, some, get_elem?, count}
use gha_mac_broker.GuestExec.Types.{Execution, Registry}
use gha_mac_broker.GuestExec.Maps.{lookup}
use gha_mac_broker.GuestExec.Keys.{id_key, slot_key}
use gha_mac_broker.GuestExec.Registry.Admission.{u32}

abbrev pub is_running : Execution → Bool
is_running e = e.running

-- A running execution is the one that its id leads to, its slot is claimed for its id, and the
-- counter is the number of running executions as a uint32.
pub record IsPlaced (r : Registry) : Type 0 where
  pub listed :
      (h : ℕ) (e : Execution)
      → get_elem? r.heap h ≡ some e
      → e.running ≡ true
      → lookup e.id r.executions ≡ some h
  pub slotted :
      (h : ℕ) (e : Execution)
      → get_elem? r.heap h ≡ some e
      → e.running ≡ true
      → lookup e.slot r.slots ≡ some e.id
  pub counted : r.active_count ≡ u32 (count is_running r.heap)
