-- ===== src/GuestAgent/Examples.antt =====
-- A test of RunJob in internal/guestagent, and its theorem at a concrete input.
use gha_mac_broker.Prelude.{
  ◌≡◌, ◌≢◌, refl, String, Bool, true, List, [], ◌∷◌, none, some, pos, get_elem?,
}
use gha_mac_broker.GuestExec.Maps.{lookup}
use gha_mac_broker.GuestExec.Keys.{slot_key}
use gha_mac_broker.GuestExec.Registry.Admission.{new_execution}
use gha_mac_broker.GuestAgent.RunJob.{
  JobRequest, building, new_handler, built_spec, HandlerStep, begins, builds, starts, handler_run,
}
use gha_mac_broker.GuestAgent.Exclusion.{slot_of}
use gha_mac_broker.GuestAgent.Exclusion.Steps.{handler_run-exclusive}

abbrev job : JobRequest
job = record {
  execution_id = "job-7";
  slot = 0;
  meta = record { repo = "owner/app"; job_id = pos 7; run_id = pos 70; runner_name = "mac-7" };
  jit_config = "jit";
  env = [];
}

abbrev neighbour : JobRequest
neighbour = record job { execution_id = "job-8"; slot = 1 }

-- A job starts in slot 0, another is prepared in slot 1, and a third one for slot 0 is refused.
abbrev calls : List HandlerStep
calls =
    begins job
    ∷ builds 0 (some "/bin/run")
    ∷ begins neighbour
    ∷ starts 0 (some (11, 11))
    ∷ begins (record job { execution_id = "job-9" })
    ∷ []

abbrev any_path : String → Bool
any_path p = true

first_free : lookup 0 (handler_run any_path calls new_handler).holders ≡ none
unfolding handler_run
first_free = refl

second_held : lookup 1 (handler_run any_path calls new_handler).holders ≡ some (building neighbour)
unfolding handler_run
second_held = refl

first_runs :
    get_elem? (handler_run any_path calls new_handler).registry.heap 0
    ≡ some (new_execution (built_spec job "/bin/run") 11 11)
unfolding handler_run
first_runs = refl

handler_run-exclusive_example : (slot_of (building neighbour) ≡ 1) × (job.slot ≢ 1)
handler_run-exclusive_example =
    handler_run-exclusive any_path calls 1 (building neighbour) 0
      (new_execution (built_spec job "/bin/run") 11 11) second_held first_runs refl
