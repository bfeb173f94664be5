-- ===== src/Config/Examples.antt =====
-- Tests of internal/config, and its theorem at a concrete input.
use gha_mac_broker.Prelude.{
  ℕ, ◌≡◌, ◌↔◌, refl, String, true, false, List, [], none, some, pos, str_eq, if◌then◌else◌,
}
use gha_mac_broker.Server.Types.{Platform}
use gha_mac_broker.Config.Load.{
  Settings, Paths, apply_defaults, loaded, refused, missing_fields, fast_pull_dir_inside, load,
}
use gha_mac_broker.Config.Usable.{IsUsable, load_iff}

abbrev platform : Platform
platform = record {
  strings = record {
    to_lower = λ s. s;
    has_prefix = λ s p. str_eq p "ghcr.io/cirruslabs/macos-";
    equal_fold = str_eq;
  };
  trim_space = λ s. s;
  cut = λ s sep. some ("ghcr.io/cirruslabs/macos-tahoe-xcode", "26.5");
  contains_any = λ s cs. false;
  has_suffix = λ s p. true;
  trim_prefix = λ s p. "tahoe-xcode";
  trim_suffix = λ s p. "tahoe";
  byte_length = λ s. 7;
  first_bytes = λ n s. s;
  after = λ n s. s;
  bytes_of = λ s. [];
  hex_decode = λ s. none;
  hmac_sha256 = λ key body. [];
  parse_ip = λ s. none;
  cidr_contains = λ cidr ip. true;
  split_host = λ s. some s;
  unmarshal = λ body. none;
}

-- The way from the cache directory to the default directory of the blobs leads up.
abbrev paths : Paths
paths = record {
  user_home_dir = some "/home";
  temp_dir = "/tmp";
  join = λ a b. b;
  abs = λ s. some s;
  rel = λ root s. if str_eq s "gha-mac-broker-fastpull-blobs" then some ".." else some "blobs";
}

-- A file with nothing but the App and a directory for the blobs.
abbrev given : String → String → Settings
given app_id fast_pull_dir = record {
  listen_addr = "";
  runner_count = pos 0;
  jobs_per_vm = pos 0;
  max_idle = pos 0;
  max_age = pos 0;
  max_bind = pos 0;
  pickup_timeout = pos 0;
  stall_timeout = pos 0;
  stall_reap = false;
  hosted_macos_concurrency_limit = pos 0;
  app = record {
    app_id = app_id;
    private_key_path = "/key";
    webhook_secret_path = "";
    capacity_token_path = "";
    webhook_cidrs_path = "";
  };
  tart = record {
    binary = "";
    golden_image = "";
    base_image = "";
    warm_budget = pos 0;
    golden_budget = pos 0;
    images = [];
    vm_name_prefix = "";
    cache_dir = "";
    fast_pull = none;
    fast_pull_dir = fast_pull_dir;
    fast_pull_parallel = pos 0;
  };
  maintenance = record { command = ""; interval_seconds = pos 0 };
  metrics = record { enabled = none; interval = pos 0; disk_path = "" };
  labels = [];
}

abbrev config : Settings
config = apply_defaults paths (given "1" "")

loads : load platform paths (λ raw. some (given "1" "")) (some []) ≡ loaded config
unfolding load
loads = refl

refuses :
    (load platform paths (λ raw. some (given "" "")) (some []) ≡ refused missing_fields)
    × (load platform paths (λ raw. some (given "1" "pool-cache/blobs")) (some [])
        ≡ refused fast_pull_dir_inside)
unfolding load
refuses = (refl, refl)

load_iff_example : (load platform paths (λ raw. some (given "1" "")) (some []) ≡ loaded config) ↔ (
    (raw : List ℕ) × (cfg : Settings) × (some [] ≡ some raw)
    × ((λ (r : List ℕ). some (given "1" "")) raw ≡ some cfg)
    × (config ≡ apply_defaults paths cfg)
    × IsUsable platform paths (apply_defaults paths cfg))
load_iff_example = load_iff platform paths (λ raw. some (given "1" "")) (some []) config
