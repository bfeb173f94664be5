-- ===== src/Config/Load.antt =====
-- Load, Default, applyDefaults and validate of internal/config/config.go.
use gha_mac_broker.Prelude.{
  ℕ, String, Bool, true, false, not, ◌&&◌, ◌||◌, List, [], ◌∷◌, Option, none, some, ℤ, pos, leb_ℤ,
  eqb_ℤ, is_pos, str_eq, if◌then◌else◌,
}
use gha_mac_broker.Server.Types.{Image, Platform}
use gha_mac_broker.Server.Images.{safe_cirrus_image_tag}

pub record AppConfig : Type 0 where
  pub app_id : String
  pub private_key_path : String
  pub webhook_secret_path : String
  pub capacity_token_path : String
  pub webhook_cidrs_path : String

pub record TartConfig : Type 0 where
  pub binary : String
  pub golden_image : String
  pub base_image : String
  pub warm_budget : ℤ
  pub golden_budget : ℤ
  pub images : List Image
  pub vm_name_prefix : String
  pub cache_dir : String
  pub fast_pull : Option Bool
  pub fast_pull_dir : String
  pub fast_pull_parallel : ℤ

pub record MaintenanceConfig : Type 0 where
  pub command : String
  pub interval_seconds : ℤ

pub record MetricsConfig : Type 0 where
  pub enabled : Option Bool
  pub interval : ℤ
  pub disk_path : String

-- A duration is a count of nanoseconds, an int64.
pub record Settings : Type 0 where
  pub listen_addr : String
  pub runner_count : ℤ
  pub jobs_per_vm : ℤ
  pub max_idle : ℤ
  pub max_age : ℤ
  pub max_bind : ℤ
  pub pickup_timeout : ℤ
  pub stall_timeout : ℤ
  pub stall_reap : Bool
  pub hosted_macos_concurrency_limit : ℤ
  pub app : AppConfig
  pub tart : TartConfig
  pub maintenance : MaintenanceConfig
  pub metrics : MetricsConfig
  pub labels : List String

-- What config.go takes from os and path/filepath; `none` is an error.
pub record Paths : Type 0 where
  pub user_home_dir : Option String
  pub temp_dir : String
  pub join : String → String → String
  pub abs : String → Option String
  pub rel : String → String → Option String

abbrev pub text_or : String → String → String
text_or value fallback = if str_eq value "" then fallback else value

abbrev pub nonzero_or : ℤ → ℤ → ℤ
nonzero_or value fallback = if eqb_ℤ value (pos 0) then fallback else value

abbrev pub positive_or : ℤ → ℤ → ℤ
positive_or value fallback = if is_pos value then value else fallback

abbrev pub list_or : {A : Type 0} → List A → List A → List A
list_or [] fallback = fallback
list_or (x ∷ xs) fallback = x ∷ xs

abbrev pub true_unless_set : Option Bool → Option Bool
true_unless_set none = some true
true_unless_set (some b) = some b

abbrev pub default_cache_dir : Paths → String
default_cache_dir p = elim p.user_home_dir [
  | some home ↦ p.join home "pool-cache"
  | none ↦ p.join p.temp_dir "gha-mac-broker-pool-cache"
]

abbrev pub default_images : String → List Image
default_images base = record { macos = "tahoe"; xcode = "26.5"; tag = base } ∷ []

unfoldable pub tart_defaults : Paths → TartConfig → TartConfig
tart_defaults p t =
    let base = text_or t.base_image "ghcr.io/cirruslabs/macos-tahoe-xcode:26.5" in
    record t {
      binary = text_or t.binary "tart";
      vm_name_prefix = text_or t.vm_name_prefix "gha-runner";
      base_image = base;
      warm_budget = nonzero_or t.warm_budget (pos 2);
      golden_budget = nonzero_or t.golden_budget (pos 3);
      images = list_or t.images (default_images base);
      fast_pull = true_unless_set t.fast_pull;
      cache_dir = text_or t.cache_dir (default_cache_dir p);
      fast_pull_dir = text_or t.fast_pull_dir (p.join p.temp_dir "gha-mac-broker-fastpull-blobs");
      fast_pull_parallel = positive_or t.fast_pull_parallel (pos 16);
    }

unfoldable pub apply_defaults : Paths → Settings → Settings
unfolding tart_defaults
apply_defaults p c = record c {
  listen_addr = text_or c.listen_addr "[::1]:8080";
  runner_count = nonzero_or c.runner_count (pos 3);
  jobs_per_vm = nonzero_or c.jobs_per_vm (pos 1);
  hosted_macos_concurrency_limit = nonzero_or c.hosted_macos_concurrency_limit (pos 5);
  tart = tart_defaults p c.tart;
  maintenance = record c.maintenance {
    interval_seconds = positive_or c.maintenance.interval_seconds (pos 3600);
  };
  metrics = record c.metrics {
    interval = nonzero_or c.metrics.interval (pos 60_000_000_000);
    disk_path = text_or c.metrics.disk_path "/";
    enabled = true_unless_set c.metrics.enabled;
  };
  labels = list_or c.labels ("self-hosted" ∷ "macOS" ∷ "ARM64" ∷ "agk-local-macos-26" ∷ []);
}

pub data ConfigError : Type 0 where
  unreadable unparsable missing_fields runner_count_low jobs_per_vm_low max_idle_negative
        max_age_negative max_bind_negative pickup_timeout_negative stall_timeout_negative
        metrics_interval_negative base_image_unsafe image_incomplete image_unsafe
        fast_pull_dir_inside :
      ConfigError

-- isWithin; `has_prefix` is strings.HasPrefix.
unfoldable pub is_within : Platform → Paths → String → String → Bool
is_within os p path root = elim (p.abs path) [
  | none ↦ false
  | some abs_path ↦ elim (p.abs root) [
    | none ↦ false
    | some abs_root ↦ elim (p.rel abs_root abs_path) [
      | none ↦ false
      | some rel ↦
          str_eq rel "." || (not (os.strings.has_prefix rel "../") && not (str_eq rel ".."))
    ]
  ]
]

-- The loop over the images: the first entry that is incomplete or unsafe.
unfoldable pub bad_image : Platform → List Image → Option ConfigError
unfolding safe_cirrus_image_tag
bad_image os [] = none
bad_image os (image ∷ images) =
    let rest = bad_image os images in
    if str_eq image.macos "" || str_eq image.xcode "" || str_eq image.tag ""
    then some image_incomplete
    else if not (safe_cirrus_image_tag os image.tag)
    then some image_unsafe
    else rest

-- The last check of validate: the blob store must not be in the mounted directory.
abbrev pub dirs_overlap : Platform → Paths → TartConfig → Bool
dirs_overlap os p t =
    not (str_eq t.cache_dir "")
    && not (str_eq t.fast_pull_dir "")
    && is_within os p t.fast_pull_dir t.cache_dir

abbrev pub is_negative : ℤ → Bool
is_negative a = not (leb_ℤ (pos 0) a)

unfoldable pub validate_tart : Platform → Paths → TartConfig → Option ConfigError
unfolding bad_image is_within
validate_tart os p t =
    if not (safe_cirrus_image_tag os t.base_image)
    then some base_image_unsafe
    else elim (bad_image os t.images) [
      | some e ↦ some e
      | none ↦ if dirs_overlap os p t then some fast_pull_dir_inside else none
    ]

unfoldable pub validate : Platform → Paths → Settings → Option ConfigError
unfolding validate_tart
validate os p c =
    if str_eq c.app.app_id "" || str_eq c.app.private_key_path ""
    then some missing_fields
    else if not (leb_ℤ (pos 1) c.runner_count)
    then some runner_count_low
    else if not (leb_ℤ (pos 1) c.jobs_per_vm)
    then some jobs_per_vm_low
    else if is_negative c.max_idle
    then some max_idle_negative
    else if is_negative c.max_age
    then some max_age_negative
    else if is_negative c.max_bind
    then some max_bind_negative
    else if is_negative c.pickup_timeout
    then some pickup_timeout_negative
    else if is_negative c.stall_timeout
    then some stall_timeout_negative
    else if is_negative c.metrics.interval
    then some metrics_interval_negative
    else validate_tart os p c.tart

-- A configuration, or an error.
pub data Loaded : Type 0 where
  refused : ConfigError → Loaded
  loaded : Settings → Loaded

-- Load, of the file's bytes and of what they decode to.
unfoldable pub load : Platform → Paths → (List ℕ → Option Settings) → Option (List ℕ) → Loaded
unfolding apply_defaults validate
load os p unmarshal file = elim file [
  | none ↦ refused unreadable
  | some raw ↦ elim (unmarshal raw) [
    | none ↦ refused unparsable
    | some cfg ↦
        let c = apply_defaults p cfg in
        elim (validate os p c) [ none ↦ loaded c | some e ↦ refused e ]
  ]
]
