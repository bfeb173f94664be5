-- ===== src/Deploy.antt =====
-- internal/deploy/decide.go: which action reconciles the running broker with a compiled artifact.
mod Examples
use gha_mac_broker.Prelude.{
  ℕ, ◌≡◌, ◌↔◌, ◌≢◌, ◌⊎◌, String, Bool, true, false, not, ◌&&◌, ◌||◌, str_eq, eq_iff, ◌==◌, ==_iff,
  if◌then◌else◌, arith,
}

-- The constants from ActionNoop on.
pub data Action : Type 0 where
  noop worker_reload service_restart guest_reload golden_rebuild_recycle : Action

pub record Inputs : Type 0 where
  pub compiled_base_ref : String
  pub running_base_ref : String
  pub compiled_guest_fingerprint : String
  pub running_guest_fingerprint : String
  pub compiled_protocol_major : ℕ
  pub guest_protocol_major : ℕ
  pub compiled_host_fingerprint : String
  pub running_host_fingerprint : String
  pub supervisor_present : Bool

unfoldable pub decide : Inputs → Action
decide i =
    if not (str_eq i.compiled_base_ref i.running_base_ref)
    then golden_rebuild_recycle
    else if not (str_eq i.compiled_guest_fingerprint i.running_guest_fingerprint)
    then if i.guest_protocol_major == i.compiled_protocol_major
      then guest_reload
      else golden_rebuild_recycle
    else if not (str_eq i.compiled_host_fingerprint i.running_host_fingerprint)
    then if i.supervisor_present then worker_reload else service_restart
    else noop

-- The three differences.
abbrev pub BaseChanged : Inputs → Type 0
BaseChanged i = i.compiled_base_ref ≢ i.running_base_ref

abbrev pub GuestChanged : Inputs → Type 0
GuestChanged i = i.compiled_guest_fingerprint ≢ i.running_guest_fingerprint

abbrev pub HostChanged : Inputs → Type 0
HostChanged i = i.compiled_host_fingerprint ≢ i.running_host_fingerprint

abbrev pub ProtocolBroken : Inputs → Type 0
ProtocolBroken i = i.guest_protocol_major ≢ i.compiled_protocol_major

-- VMs are recycled exactly if the base image changed, or the guest changed and its protocol major is
-- another one: not only for a base image.
pub decide-recycles :
    (i : Inputs)
    → (decide i ≡ golden_rebuild_recycle) ↔ (BaseChanged i ⊎ (GuestChanged i × ProtocolBroken i))
unfolding decide
decide-recycles i = ground (
  arith,
  eq_iff i.compiled_base_ref i.running_base_ref,
  eq_iff i.compiled_guest_fingerprint i.running_guest_fingerprint,
)

-- Nothing is done exactly if base image, guest and host binary are all the same, whatever the
-- protocol majors say.
decide-noop :
    (i : Inputs) → (decide i ≡ noop) ↔ ((¬ BaseChanged i) × (¬ GuestChanged i) × (¬ HostChanged i))
unfolding decide
decide-noop i = ground (
  arith,
  eq_iff i.compiled_base_ref i.running_base_ref,
  eq_iff i.compiled_guest_fingerprint i.running_guest_fingerprint,
  eq_iff i.compiled_host_fingerprint i.running_host_fingerprint,
)
