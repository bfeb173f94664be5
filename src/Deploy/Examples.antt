-- ===== src/Deploy/Examples.antt =====
-- The theorems on internal/deploy/decide.go at concrete inputs.
use gha_mac_broker.Prelude.{◌≡◌, ◌↔◌, ◌⊎◌, true, refl}
use gha_mac_broker.Deploy.{
  Inputs, golden_rebuild_recycle, decide, BaseChanged, GuestChanged, ProtocolBroken,
  decide-recycles,
}

-- A new guest that speaks the next protocol, on the old base image.
abbrev new_guest : Inputs
new_guest = record {
  compiled_base_ref = "macos-26";
  running_base_ref = "macos-26";
  compiled_guest_fingerprint = "b2";
  running_guest_fingerprint = "a1";
  compiled_protocol_major = 2;
  guest_protocol_major = 1;
  compiled_host_fingerprint = "h";
  running_host_fingerprint = "h";
  supervisor_present = true;
}

rebuilt : decide new_guest ≡ golden_rebuild_recycle
unfolding decide
rebuilt = refl

decide-recycles_example :
    (decide new_guest ≡ golden_rebuild_recycle)
    ↔ (BaseChanged new_guest ⊎ (GuestChanged new_guest × ProtocolBroken new_guest))
decide-recycles_example = decide-recycles new_guest
