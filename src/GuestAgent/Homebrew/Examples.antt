-- ===== src/GuestAgent/Homebrew/Examples.antt =====
-- The Homebrew refresh of internal/guestagent/runner.go at a concrete boot.
use gha_mac_broker.Prelude.{ℕ, zero, suc, ◌≡◌, ◌↔◌, ◌⊎◌, inr, ◌≤◌, ◌<◌, ◌+◌, refl, true, false}
use gha_mac_broker.GuestAgent.Homebrew.{
  no_file, regular_file, other_file, BrewRun, Machine, Refresh, refresh_homebrew_index,
  ensure_homebrew_refreshed,
}
use gha_mac_broker.GuestAgent.Homebrew.Once.{Succeeds, MayRefresh, ensure_homebrew_refreshed-once}

-- The first run meets the lock of another one, the second succeeds.
abbrev contended : ℕ → BrewRun
contended zero = record { succeeded = false; locked = true }
contended (suc n) = record { succeeded = true; locked = false }

abbrev machine : Machine
machine = record {
  look_brew = true;
  brew_update = contended;
  others = λ n o. o;
  removable = true;
  creatable = true;
}

-- The golden image has a marker of its own.
abbrev boot : Refresh
boot = record { marker = regular_file; cleared = false; brew_runs = 0; sleeps = 0 }

refreshed :
    ensure_homebrew_refreshed machine boot
    ≡ record { marker = regular_file; cleared = true; brew_runs = 2; sleeps = 1 }
unfolding ensure_homebrew_refreshed refresh_homebrew_index
refreshed = refl

abbrev intruded : Machine
intruded = record machine { brew_update = λ n. contended 1; others = λ n o. other_file }

-- A symbolic link that somebody plants during the run is left as it is.
planted : (ensure_homebrew_refreshed intruded boot).marker ≡ other_file
unfolding ensure_homebrew_refreshed refresh_homebrew_index
planted = refl

abbrev broken : Machine
broken = record machine { brew_update = λ n. record { succeeded = false; locked = true } }

abbrev later : Refresh
later = ensure_homebrew_refreshed broken boot

-- A first job whose runs all fail, and a later one.
failed_once : MayRefresh (ensure_homebrew_refreshed broken boot)
unfolding ensure_homebrew_refreshed refresh_homebrew_index
failed_once = inr refl

ensure_homebrew_refreshed-once_example :
    let after = ensure_homebrew_refreshed machine later in
    (((after.marker ≡ regular_file) × (ensure_homebrew_refreshed machine after ≡ after))
      ↔ Succeeds machine 3 later.brew_runs)
    × ((after.marker ≡ regular_file) ⊎ (after.marker ≡ no_file))
    × (later.brew_runs < after.brew_runs)
    × (after.brew_runs ≤ later.brew_runs + 3)
ensure_homebrew_refreshed-once_example =
    ensure_homebrew_refreshed-once machine later
      (record { has_brew = refl; alone = λ n o. refl; removes = refl; creates = refl }) failed_once
