-- ===== src/GuestAgent/Homebrew.antt =====
-- The Homebrew refresh of a boot in internal/guestagent/runner.go.
pub mod Once
mod Examples
use gha_mac_broker.Prelude.{
  ℕ, zero, suc, ◌+◌, ◌<◌, ◌≡◌, ◌↔◌, refl, sym, ap, ◌∙◌, subst, Bool, true, false, not,
  if◌then◌else◌, ◌==◌, arith, if_cases,
}

-- What stands at the path of the marker: nothing, a regular file that can be opened, or else, such as
-- a symbolic link or a FIFO.
pub data Occupant : Type 0 where
  no_file regular_file other_file : Occupant

-- How `brew update` ends; `locked` is whether its output matches brewLockContentionPattern.
pub record BrewRun : Type 0 where
  pub succeeded : Bool
  pub locked : Bool

-- What the machine answers: whether brew is on the path, how its n-th run ends, what other processes
-- meanwhile make of the path of the marker, and whether it can be removed and created.
pub record Machine : Type 0 where
  pub look_brew : Bool
  pub brew_update : ℕ → BrewRun
  pub others : ℕ → Occupant → Occupant
  pub removable : Bool
  pub creatable : Bool

-- The path of the marker, clearMarkerOnce, the runs of brew and the pauses between them.
pub record Refresh : Type 0 where
  pub marker : Occupant
  pub cleared : Bool
  pub brew_runs : ℕ
  pub sleeps : ℕ

abbrev pub brew_refresh_max_attempts : ℕ
brew_refresh_max_attempts = 3

abbrev pub clear_stale_marker : Machine → Refresh → Refresh
clear_stale_marker m r =
    if r.cleared
    then r
    else record r { marker = if m.removable then no_file else r.marker; cleared = true }

abbrev pub marker_present : Refresh → Bool
marker_present r = elim r.marker [ no_file ↦ false | regular_file ↦ true | other_file ↦ false ]

-- O_EXCL and O_NOFOLLOW: whatever is at the path stays as it is.
abbrev pub write_boot_refresh_marker : Machine → Refresh → Refresh
write_boot_refresh_marker m r = record r {
  marker = elim r.marker [
    | no_file ↦ if m.creatable then regular_file else no_file
    | regular_file ↦ regular_file
    | other_file ↦ other_file
  ];
}

-- One run of brew.
abbrev pub run_brew : Machine → Refresh → Refresh
run_brew m r = record r { marker = m.others r.brew_runs r.marker; brew_runs = suc r.brew_runs }

-- The loop of refreshHomebrewIndex, with the attempts that are left.
unfoldable pub refresh_homebrew_index : Machine → ℕ → Refresh → Refresh
refresh_homebrew_index m zero r = r
refresh_homebrew_index m (suc left) r =
    let out = m.brew_update r.brew_runs in
    let ran = run_brew m r in
    let retry = refresh_homebrew_index m left (record ran { sleeps = suc ran.sleeps }) in
    if out.succeeded
    then write_boot_refresh_marker m ran
    else if not out.locked
    then ran
    else if left == 0
    then ran
    else retry

unfoldable pub ensure_homebrew_refreshed : Machine → Refresh → Refresh
ensure_homebrew_refreshed m r =
    let ready = clear_stale_marker m r in
    if marker_present ready
    then ready
    else if not m.look_brew
    then ready
    else refresh_homebrew_index m brew_refresh_max_attempts ready
