-- ===== src/Config/Usable.antt =====
-- What Load of internal/config/config.go accepts.
use gha_mac_broker.Prelude.{
  ℕ, ◌≤◌, ◌≡◌, ◌≢◌, ◌↔◌, refl, sym, ap, ◌∙◌, inl, inr, Bool-cases, Option-cases, String, Bool, true,
  false, not, ◌||◌, List, [], ◌∷◌, Option, none, some, ℤ, leb_ℤ, if◌then◌else◌, pos, pos_part,
  neg_part, str_eq, eq_iff, All, arith,
}
use gha_mac_broker.Server.Types.{Image, Platform}
use gha_mac_broker.Server.Images.{safe_cirrus_image_tag}
use gha_mac_broker.Config.Load.{
  missing_fields, runner_count_low, jobs_per_vm_low, max_idle_negative, max_age_negative,
  max_bind_negative, pickup_timeout_negative, stall_timeout_negative, metrics_interval_negative,
  is_negative, Settings, TartConfig, Paths, apply_defaults, bad_image, dirs_overlap, validate_tart,
  validate, ConfigError, loaded, load,
}

abbrev pub ImageIsUsable : Platform → Image → Type 0
ImageIsUsable os image =
    (image.macos ≢ "")
    × (image.xcode ≢ "")
    × (image.tag ≢ "")
    × (safe_cirrus_image_tag os image.tag ≡ true)

-- The App is named, the pool has room, no duration is negative, every image is approved, and the
-- image blobs are not in the directory that the guests see.
pub record IsUsable (os : Platform) (p : Paths) (c : Settings) : Type 0 where
  pub app_id : c.app.app_id ≢ ""
  pub private_key_path : c.app.private_key_path ≢ ""
  pub runner_count : 1 ≤ pos_part c.runner_count
  pub jobs_per_vm : 1 ≤ pos_part c.jobs_per_vm
  pub max_idle : neg_part c.max_idle ≡ 0
  pub max_age : neg_part c.max_age ≡ 0
  pub max_bind : neg_part c.max_bind ≡ 0
  pub pickup_timeout : neg_part c.pickup_timeout ≡ 0
  pub stall_timeout : neg_part c.stall_timeout ≡ 0
  pub metrics_interval : neg_part c.metrics.interval ≡ 0
  pub base_image : safe_cirrus_image_tag os c.tart.base_image ≡ true
  pub images : All (ImageIsUsable os) c.tart.images
  pub apart : dirs_overlap os p c.tart ≡ false

filled : (s : String) → (str_eq s "" ≡ false) ↔ (s ≢ "")
filled s = (
  λ n q. absurd (ground (arith, n, q, eq_iff s "")),
  λ n. elim (Bool-cases (str_eq s "")) [ inl y ↦ absurd (n ((eq_iff s "").0 y)) | inr z ↦ z ],
)

bad_image_iff :
    (os : Platform) (images : List Image)
    → (bad_image os images ≡ none) ↔ All (ImageIsUsable os) images
unfolding bad_image
bad_image_iff os [] = (λ _. tt, λ _. refl)
bad_image_iff os (i ∷ is) = (
  λ h. (
    (
      (filled i.macos).0 (ground (arith, h)),
      (filled i.xcode).0 (ground (arith, h)),
      (filled i.tag).0 (ground (arith, h)),
      ground (arith, h),
    ),
    (bad_image_iff os is).0 (ground (arith, h)),
  ),
  λ ok.
      let a = (filled i.macos).1 ok.0.0 in
      let b = (filled i.xcode).1 ok.0.1 in
      let c = (filled i.tag).1 ok.0.2 in
      let rest = (bad_image_iff os is).1 ok.1 in ground (arith, a, b, c, ok.0.3, rest),
)

from_zero : (a : ℤ) → is_negative a ≡ false → neg_part a ≡ 0
from_zero a h = ground (arith, h)

positive : (a : ℤ) → not (leb_ℤ (pos 1) a) ≡ false → 1 ≤ pos_part a
positive a h = ground (arith, h)

validate_tart_iff :
    (os : Platform) (p : Paths) (t : TartConfig)
    → (validate_tart os p t ≡ none) ↔ (
        (safe_cirrus_image_tag os t.base_image ≡ true)
        × (bad_image os t.images ≡ none)
        × (dirs_overlap os p t ≡ false))
unfolding validate_tart
validate_tart_iff os p t = (
  λ h. (ground (arith, h), ground (arith, h), ground (arith, h)),
  λ ok. ground (arith, ok.0, ok.1, ok.2),
)

-- A check that was passed.
passed :
    (b : Bool) (e : ConfigError) {o : Option ConfigError}
    → (if b then some e else o) ≡ none
    → (b ≡ false) × (o ≡ none)
passed true e h = absurd (cc)
passed false e h = (refl, h)

validate-IsUsable :
    (os : Platform) (p : Paths) (c : Settings) → validate os p c ≡ none → IsUsable os p c
unfolding validate
validate-IsUsable os p c h =
    let (app, h1) =
      passed (str_eq c.app.app_id "" || str_eq c.app.private_key_path "") missing_fields h in
    let (runners, h2) = passed (not (leb_ℤ (pos 1) c.runner_count)) runner_count_low h1 in
    let (jobs, h3) = passed (not (leb_ℤ (pos 1) c.jobs_per_vm)) jobs_per_vm_low h2 in
    let (idle, h4) = passed (is_negative c.max_idle) max_idle_negative h3 in
    let (age, h5) = passed (is_negative c.max_age) max_age_negative h4 in
    let (bind, h6) = passed (is_negative c.max_bind) max_bind_negative h5 in
    let (pickup, h7) = passed (is_negative c.pickup_timeout) pickup_timeout_negative h6 in
    let (stall, h8) = passed (is_negative c.stall_timeout) stall_timeout_negative h7 in
    let (metrics, h9) = passed (is_negative c.metrics.interval) metrics_interval_negative h8 in
    let tart = (validate_tart_iff os p c.tart).0 h9 in
    record {
      app_id = (filled c.app.app_id).0 (ground (arith, app));
      private_key_path = (filled c.app.private_key_path).0 (ground (arith, app));
      runner_count = positive c.runner_count runners;
      jobs_per_vm = positive c.jobs_per_vm jobs;
      max_idle = from_zero c.max_idle idle;
      max_age = from_zero c.max_age age;
      max_bind = from_zero c.max_bind bind;
      pickup_timeout = from_zero c.pickup_timeout pickup;
      stall_timeout = from_zero c.stall_timeout stall;
      metrics_interval = from_zero c.metrics.interval metrics;
      base_image = tart.0;
      images = (bad_image_iff os c.tart.images).0 tart.1;
      apart = tart.2;
    }

IsUsable-validate :
    (os : Platform) (p : Paths) (c : Settings) → IsUsable os p c → validate os p c ≡ none
unfolding validate
IsUsable-validate os p c u =
    let tart =
      (validate_tart_iff os p c.tart).1
        (u.base_image, (bad_image_iff os c.tart.images).1 u.images, u.apart) in
    let a = (filled c.app.app_id).1 u.app_id in
    let b = (filled c.app.private_key_path).1 u.private_key_path in
    ground (
      arith, tart, a, b, u.runner_count, u.jobs_per_vm, u.max_idle, u.max_age, u.max_bind,
      u.pickup_timeout, u.stall_timeout, u.metrics_interval,
    )

validated :
    (os : Platform) (p : Paths) (unmarshal : List ℕ → Option Settings) (raw : List ℕ)
    (cfg : Settings)
    → unmarshal raw ≡ some cfg
    → validate os p (apply_defaults p cfg) ≡ none
    → load os p unmarshal (some raw) ≡ loaded (apply_defaults p cfg)
unfolding load
validated os p unmarshal raw cfg e ok = ground (arith, e, ok)

accepted :
    (os : Platform) (p : Paths) (unmarshal : List ℕ → Option Settings) (file : Option (List ℕ))
    (c : Settings)
    → load os p unmarshal file ≡ loaded c
    → (raw : List ℕ) × (cfg : Settings) × (file ≡ some raw)
      × (unmarshal raw ≡ some cfg)
      × (c ≡ apply_defaults p cfg)
      × (validate os p (apply_defaults p cfg) ≡ none)
unfolding load
accepted os p unmarshal none c h = cc
accepted os p unmarshal (some raw) c h = elim (Option-cases (unmarshal raw)) [
  | inl bad ↦ absurd (ground (arith, bad, h))
  | inr (cfg, e) ↦ elim (Option-cases (validate os p (apply_defaults p cfg))) [
    | inl ok ↦ (raw, cfg, refl, e, ground (arith, e, ok, h), ok)
    | inr (x, bad) ↦ absurd (ground (arith, e, bad, h))
  ]
]

-- Load gives a configuration exactly if the file can be read and decoded and its values, with the
-- defaults applied, name the App and its key, have at least one runner and one job for a VM, have no
-- negative duration, list approved images only, and keep the image blobs out of the directory that
-- the guests see; and the configuration is then those values with the defaults applied.
pub load_iff :
    (os : Platform) (p : Paths) (unmarshal : List ℕ → Option Settings) (file : Option (List ℕ))
    (c : Settings)
    → (load os p unmarshal file ≡ loaded c) ↔ (
        (raw : List ℕ) × (cfg : Settings) × (file ≡ some raw)
        × (unmarshal raw ≡ some cfg)
        × (c ≡ apply_defaults p cfg)
        × IsUsable os p (apply_defaults p cfg))
load_iff os p unmarshal file c = (
  λ h.
      let (raw, cfg, read, e, same, ok) = accepted os p unmarshal file c h in
      (raw, cfg, read, e, same, validate-IsUsable os p (apply_defaults p cfg) ok),
  λ (raw, cfg, read, e, same, usable).
      let ok = IsUsable-validate os p (apply_defaults p cfg) usable in
      ap (load os p unmarshal) read ∙ validated os p unmarshal raw cfg e ok ∙ ap loaded (sym same),
)
