-- ===== src/Server/Examples.antt =====
-- The theorems on internal/server/server.go at a concrete request and platform.
use gha_mac_broker.Prelude.{
  ℕ, ◌≡◌, ◌≤◌, refl, String, true, false, List, [], ◌∷◌, ◌++◌, none, some, pos, str_eq, All,
}
use gha_mac_broker.RunnerPool.Types.{Options, Pool}
use gha_mac_broker.RunnerPool.Options.{new}
use gha_mac_broker.RunnerPool.Workers.{activate_worker}
use gha_mac_broker.RunnerPool.Adopt.{start}
use gha_mac_broker.RunnerPool.Status.{snapshot}
use gha_mac_broker.RunnerPool.System.{Section, starts, activates, enqueues, step, run, taken}
use gha_mac_broker.RunnerPool.Capacity.Drain.{OnlyDispatches}
use gha_mac_broker.HostedLoad.{new_tracker}
use gha_mac_broker.Server.Types.{
  queued, WebhookPayload, ServerConfig, Request, Platform, Broker, CapacityResponse,
}
use gha_mac_broker.Server.Images.{resolve_image}
use gha_mac_broker.Server.Guards.{check_webhook_ip, verify_signature}
use gha_mac_broker.Server.Handlers.{job_of, handle_webhook, handle_capacity}
use gha_mac_broker.Server.Properties.{is_authentic, handle_webhook-guarded, handle_capacity-serves}

-- A platform whose texts are all in lower case and which knows one signature.
abbrev platform : Platform
platform = record {
  strings = record { to_lower = λ s. s; has_prefix = λ s p. true; equal_fold = str_eq };
  trim_space = λ s. s;
  cut = λ s sep. some ("ghcr.io/cirruslabs/macos-26-xcode", "16");
  contains_any = λ s cs. false;
  has_suffix = λ s p. true;
  trim_prefix = λ s p. "26-xcode";
  trim_suffix = λ s p. "26";
  byte_length = λ s. 7;
  first_bytes = λ n s. s;
  after = λ n s. s;
  bytes_of = λ s. [];
  hex_decode = λ s. some (7 ∷ []);
  hmac_sha256 = λ key body. 9 ∷ [];
  parse_ip = λ s. some (10 ∷ 0 ∷ 0 ∷ 1 ∷ []);
  cidr_contains = λ cidr ip. true;
  split_host = λ s. some s;
  unmarshal = λ body. none;
}

abbrev settings : ServerConfig
settings = record {
  webhook_key = 1 ∷ [];
  capacity_token = [];
  webhook_cidrs = [];
  cfg = record {
    labels = "mac-pool" ∷ [];
    base_image = "ghcr.io/cirruslabs/macos-26-xcode:16";
    images = [];
    hosted_macos_concurrency_limit = pos 5;
  };
}

abbrev request : String → Request
request method = record {
  method = method;
  header = λ name. "";
  query = λ name. "";
  remote_addr = "10.0.0.1:443";
  body = some (123 ∷ []);
  context_done = false;
}

abbrev given : Options
given = record {
  runner_count = pos 1;
  jobs_per_vm = pos 2;
  image = "macos-26";
  max_idle = pos 0;
  max_age = pos 0;
  max_bind = pos 100;
  pickup_timeout = pos 10;
  run_token = "";
  warm_retry_delay = pos 5;
  clock = none;
}

-- A pool of one VM with two free slots.
abbrev warm_pool : Pool
warm_pool =
    run
      ((10, starts [])
        ∷ (20, activates 0 (record { name = "pool-1"; image = "macos-26" }) (pos 2))
        ∷ [])
      (new 0 given)

abbrev broker : Broker
broker = record { pool = warm_pool; tracker = new_tracker; can_cancel = false; closures = [] }

abbrev push_job : WebhookPayload
push_job = record {
  action = queued;
  full_name = "owner/app";
  workflow_job = record { id = pos 7; labels = "mac-pool" ∷ []; run_id = pos 70; conclusion = "" };
  head_sha = "";
}

forged : is_authentic platform settings (request "POST") ≡ false
unfolding check_webhook_ip verify_signature
forged = refl

-- The body is there, but its signature is not the one of the key.
handle_webhook-guarded_example :
    ((handle_webhook platform settings (request "POST") broker).0 ≡ broker)
    × (400 ≤ (handle_webhook platform settings (request "POST") broker).1)
    × ((handle_webhook platform settings (request "POST") broker).1 ≤ 405)
handle_webhook-guarded_example =
    handle_webhook-guarded platform settings (request "POST") broker forged

abbrev offered : CapacityResponse
offered = record { available = true; hosted_free = true }

offered_now : handle_capacity platform settings (request "GET") broker ≡ (some offered, 200)
unfolding handle_capacity snapshot run step activate_worker start new
offered_now = refl

handle_capacity-serves_example :
    (resolve_image platform settings.cfg "" "" ≡ some settings.cfg.base_image)
    × ((ss : List (ℕ × Section)) × (All OnlyDispatches ss)
        × (taken ((30, enqueues false (job_of push_job)) ∷ ss) warm_pool
            ≡ warm_pool.queue ++ job_of push_job ∷ [])
        × ((run ((30, enqueues false (job_of push_job)) ∷ ss) warm_pool).queue ≡ []))
handle_capacity-serves_example =
    handle_capacity-serves platform settings (request "GET") broker true 200 30 (job_of push_job)
      offered_now
