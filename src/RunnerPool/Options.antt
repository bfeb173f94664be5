-- ===== src/RunnerPool/Options.antt =====
-- New, normalizeOptions and Reconfigure of internal/runnerpool/pool.go.
use gha_mac_broker.Prelude.{
  ℕ, Bool, false, not, ◌&&◌, List, [], none, some, ℤ, pos, pos_part, is_pos, eqb_ℤ, str_eq, is_some,
  replicate, if◌then◌else◌,
}
use gha_mac_broker.RunnerPool.Types.{Options, Worker, Pool, empty_slot_state}

abbrev pub default_runner_count : ℤ
default_runner_count = pos 3

abbrev pub default_jobs_per_vm : ℤ
default_jobs_per_vm = pos 1

-- 5 s, 7 h and 5 min in nanoseconds.
abbrev pub default_warm_retry_delay : ℤ
default_warm_retry_delay = pos 5_000_000_000

abbrev pub default_max_bind : ℤ
default_max_bind = pos 25_200_000_000_000

abbrev pub default_pickup_timeout : ℤ
default_pickup_timeout = pos 300_000_000_000

-- `if value <= 0 { value = fallback }`
abbrev positive_or : ℤ → ℤ → ℤ
positive_or value fallback = if is_pos value then value else fallback

-- `system_now` is time.Now.
unfoldable pub normalize_options : ℕ → Options → Options
normalize_options system_now o = record o {
  runner_count = positive_or o.runner_count default_runner_count;
  jobs_per_vm = positive_or o.jobs_per_vm default_jobs_per_vm;
  warm_retry_delay = positive_or o.warm_retry_delay default_warm_retry_delay;
  max_bind = positive_or o.max_bind default_max_bind;
  pickup_timeout = positive_or o.pickup_timeout default_pickup_timeout;
  clock = if is_some o.clock then o.clock else some system_now;
  run_token = if str_eq o.run_token "" then "pool" else o.run_token;
}

-- `make([]slotState, n)`: Go panics at a negative n, which a normalized option is not.
abbrev pub new_worker_state : ℤ → Worker
new_worker_state jobs_per_vm = record {
  vm = none;
  born_at = 0;
  idle_since = 0;
  warming = false;
  recycle = false;
  slots = replicate (pos_part jobs_per_vm) empty_slot_state;
  last_err = none;
}

unfoldable pub new_worker_states : ℤ → ℤ → List Worker
new_worker_states runner_count jobs_per_vm =
    replicate (pos_part runner_count) (new_worker_state jobs_per_vm)

unfoldable pub new : ℕ → Options → Pool
unfolding normalize_options new_worker_states
new system_now given =
    let options = normalize_options system_now given in
    record {
      options = options;
      queue = [];
      states = new_worker_states options.runner_count options.jobs_per_vm;
      started = false;
      shutting_down = false;
      counter = 0;
      contexts = 0;
      cancels = [];
    }

-- The new pool, and whether Reconfigure warns of a runner count and of an image that need a restart.
unfoldable pub reconfigure : ℕ → Options → Pool → Pool × Bool × Bool
unfolding normalize_options
reconfigure system_now given p =
    let old = p.options in
    let wanted = normalize_options system_now given in
    let live : Options = record wanted {
      clock = if is_some given.clock then wanted.clock else old.clock;
      run_token = if str_eq given.run_token "" then old.run_token else wanted.run_token;
      image = old.image;
      runner_count = old.runner_count;
    } in
    (
      record p { options = live },
      not (eqb_ℤ wanted.runner_count old.runner_count),
      not (str_eq given.image "") && not (str_eq given.image old.image),
    )
