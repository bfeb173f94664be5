-- ===== src/HostedLoad/Examples.antt =====
-- Tests of internal/hostedload, and its theorems at concrete inputs.
use gha_mac_broker.Prelude.{◌≡◌, false, List, [], ◌∷◌, pos}
use gha_mac_broker.HostedLoad.{new_tracker}
use gha_mac_broker.HostedLoad.Deliveries.{
  Delivery, in_progress, completed, deliver_all, has_id, last_word, has_id-deliver_all,
}

-- Job 7 is announced twice and job 8 ends.
abbrev noisy : List Delivery
noisy = in_progress (pos 8) ∷ in_progress (pos 7) ∷ in_progress (pos 7) ∷ completed (pos 8) ∷ []

has_id-deliver_all_example :
    has_id (pos 7) (deliver_all noisy new_tracker).jobs ≡ last_word (pos 7) noisy false
has_id-deliver_all_example = has_id-deliver_all (pos 7) noisy new_tracker
