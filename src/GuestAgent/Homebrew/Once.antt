-- ===== src/GuestAgent/Homebrew/Once.antt =====
-- How often internal/guestagent/runner.go refreshes Homebrew in a boot.
use gha_mac_broker.Prelude.{
  ℕ, zero, suc, ◌+◌, ◌<◌, ◌≡◌, ◌≢◌, ◌↔◌, ◌⊎◌, inl, inr, ◌≤◌, Bool-cases, refl, sym, ap, ◌∙◌, subst,
  true, false, not, ◌==◌, arith, if_cases,
}
use gha_mac_broker.GuestAgent.Homebrew.{
  Occupant, no_file, regular_file, BrewRun, Machine, Refresh, write_boot_refresh_marker, run_brew,
  refresh_homebrew_index, ensure_homebrew_refreshed,
}

-- A run of brew that fails because another one holds the lock.
abbrev IsLocked : BrewRun → Type 0
IsLocked out = (out.succeeded ≡ false) × (out.locked ≡ true)

-- One of the next `left` runs succeeds, and each run before it meets the lock.
abbrev pub Succeeds : Machine → ℕ → ℕ → Type 0
Succeeds m left n =
    (k : ℕ) × (k < left)
    × ((m.brew_update (n + k)).succeeded ≡ true)
    × ((j : ℕ) → j < k → IsLocked (m.brew_update (n + j)))

-- Nobody else touches the marker, which can be removed and created, and brew is there.
pub record IsQuiet (m : Machine) : Type 0 where
  pub has_brew : m.look_brew ≡ true
  pub alone : (n : ℕ) (o : Occupant) → m.others n o ≡ o
  pub removes : m.removable ≡ true
  pub creates : m.creatable ≡ true

at :
    (m : Machine) {n k : ℕ} (P : BrewRun → Type 0)
    → n ≡ k
    → P (m.brew_update n)
    → P (m.brew_update k)
at m P q = subst (λ i. P (m.brew_update i)) q

Succeeds-now :
    (m : Machine) (left n : ℕ) → (m.brew_update n).succeeded ≡ true → Succeeds m (suc left) n
Succeeds-now m left n ok =
    (0, omega arith, at m (λ o. o.succeeded ≡ true) (omega arith) ok, λ j h. absurd (omega arith))

Succeeds-later :
    (m : Machine) (left n : ℕ)
    → IsLocked (m.brew_update n)
    → Succeeds m left (suc n)
    → Succeeds m (suc left) n
Succeeds-later m left n held (k, less, ok, before) =
    (suc k, omega arith, at m (λ o. o.succeeded ≡ true) (omega arith) ok, all_before)
  where
    all_before : (j : ℕ) → j < suc k → IsLocked (m.brew_update (n + j))
    all_before zero h = at m IsLocked (omega arith) held
    all_before (suc j) h = at m IsLocked (omega arith) (before j (omega arith))

Succeeds-tail :
    (m : Machine) (left n : ℕ)
    → (m.brew_update n).succeeded ≡ false
    → Succeeds m (suc left) n
    → ((m.brew_update n).locked ≡ true) × Succeeds m left (suc n)
Succeeds-tail m left n bad (zero, less, ok, before) =
    let now = at m {n = n + 0} {k = n} (λ o. o.succeeded ≡ true) (omega arith) ok in
    absurd (ground (arith, now, bad))
Succeeds-tail m left n bad (suc k, less, ok, before) = (
  (at m {n = n + 0} {k = n} IsLocked (omega arith) (before 0 (omega arith))).1,
  (
    k,
    omega arith,
    at m (λ o. o.succeeded ≡ true) (omega arith) ok,
    λ j h. at m IsLocked (omega arith) (before (suc j) (omega arith)),
  ),
)

-- Without a marker, the loop leaves one exactly if a run succeeds before a failure of another kind.
refresh_homebrew_index-marker :
    (m : Machine) (left : ℕ) (r : Refresh)
    → IsQuiet m
    → r.marker ≡ no_file
    → ((refresh_homebrew_index m left r).marker ≡ regular_file) ↔ Succeeds m left r.brew_runs
unfolding refresh_homebrew_index
refresh_homebrew_index-marker m zero r quiet none =
    (λ q. absurd (cc), λ (k, less, ok, before). absurd (omega arith))
refresh_homebrew_index-marker m (suc left) r quiet none =
    if_cases Good (m.brew_update r.brew_runs).succeeded
      (λ ok. (λ _. Succeeds-now m left r.brew_runs ok, λ _. made))
      λ bad.
        if_cases Good (not (m.brew_update r.brew_runs).locked)
          (λ other. (
            λ q. absurd (gone q),
            λ s.
                let tail = Succeeds-tail m left r.brew_runs bad s in
                absurd (ground (arith, other, tail.0)),
          ))
          λ held.
            let locked : IsLocked (m.brew_update r.brew_runs) = (bad, ground (arith, held)) in
            if_cases Good (left == 0)
              (λ last. (
                λ q. absurd (gone q),
                λ s.
                    let (k, less, ok, before) = (Succeeds-tail m left r.brew_runs bad s).1 in
                    absurd (ground (arith, last, less)),
              ))
              λ more.
                let rest =
                  refresh_homebrew_index-marker m left
                    (record (run_brew m r) { sleeps = suc r.sleeps }) quiet still in
                (
                  λ q. Succeeds-later m left r.brew_runs locked (rest.0 q),
                  λ s. rest.1 (Succeeds-tail m left r.brew_runs bad s).1,
                )
  where
    Good : Refresh → Type 0
    Good after = (after.marker ≡ regular_file) ↔ Succeeds m (suc left) r.brew_runs

    still : m.others r.brew_runs r.marker ≡ no_file
    still = quiet.alone r.brew_runs r.marker ∙ none

    gone : m.others r.brew_runs r.marker ≢ regular_file
    gone q = let same = still in absurd (cc)

    made : (write_boot_refresh_marker m (run_brew m r)).marker ≡ regular_file
    made = let same = still in let there = quiet.creates in ground (arith, same, there)

-- While the marker is there, and the stale one was cleared, a job changes nothing.
marked-refreshes_nothing :
    (m : Machine) (r : Refresh)
    → r.cleared ≡ true
    → r.marker ≡ regular_file
    → ensure_homebrew_refreshed m r ≡ r
unfolding ensure_homebrew_refreshed
marked-refreshes_nothing m r once there = ground (arith, once, there)

refresh_homebrew_index-cleared :
    (m : Machine) (left : ℕ) (r : Refresh) → (refresh_homebrew_index m left r).cleared ≡ r.cleared
unfolding refresh_homebrew_index
refresh_homebrew_index-cleared m zero r = refl
refresh_homebrew_index-cleared m (suc left) r =
    let rest =
      refresh_homebrew_index-cleared m left (record (run_brew m r) { sleeps = suc r.sleeps }) in
    ground (arith, rest)

-- A job of the boot that does not find a marker: the first one, which clears what stands at the path,
-- or a later one without a marker.
abbrev pub MayRefresh : Refresh → Type 0
MayRefresh r = (r.cleared ≡ false) ⊎ (r.marker ≡ no_file)

-- Such a job runs the loop.
ensure-MayRefresh :
    (m : Machine) (r : Refresh)
    → IsQuiet m
    → MayRefresh r
    → ensure_homebrew_refreshed m r
      ≡ refresh_homebrew_index m 3 (record r { marker = no_file; cleared = true })
unfolding ensure_homebrew_refreshed
ensure-MayRefresh m r quiet may = elim (Bool-cases r.cleared) [
  | inr boot ↦
      let removes = quiet.removes in
      let brew = quiet.has_brew in ground (arith, boot, removes, brew)
  | inl later ↦ elim may [
    | inl boot ↦ absurd (ground (arith, later, boot))
    | inr none ↦
        let brew = quiet.has_brew in
        let start : r ≡ record r { marker = no_file; cleared = true } =
          ap (λ o. record r { marker = o }) none
          ∙ ap (λ b. record r { marker = no_file; cleared = b }) later in
        subst (λ x. ensure_homebrew_refreshed m r ≡ refresh_homebrew_index m 3 x) start
          (ground (arith, later, none, brew))
  ]
]

-- The loop runs brew at least once and not more often than it may, and leaves a marker or nothing.
refresh_homebrew_index-runs :
    (m : Machine) (left : ℕ) (r : Refresh)
    → IsQuiet m
    → r.marker ≡ no_file
    → 0 < left
    → let after = refresh_homebrew_index m left r in
      ((after.marker ≡ regular_file) ⊎ (after.marker ≡ no_file))
      × (r.brew_runs < after.brew_runs)
      × (after.brew_runs ≤ r.brew_runs + left)
unfolding refresh_homebrew_index
refresh_homebrew_index-runs m zero r quiet none some_left = absurd (omega arith)
refresh_homebrew_index-runs m (suc left) r quiet none some_left =
    if_cases Good (m.brew_update r.brew_runs).succeeded
      (λ _. (
        inl (let creates = quiet.creates in ground (arith, still, creates)),
        omega arith,
        omega arith,
      ))
      λ _.
        if_cases Good (not (m.brew_update r.brew_runs).locked) (λ _. once)
          λ _.
            if_cases Good (left == 0) (λ _. once)
              λ more.
                let rest =
                  refresh_homebrew_index-runs m left
                    (record (run_brew m r) { sleeps = suc r.sleeps }) quiet still
                    (ground (arith, more)) in
                (rest.0, omega (arith, rest.1), omega (arith, rest.2))
  where
    Good : Refresh → Type 0
    Good after =
        ((after.marker ≡ regular_file) ⊎ (after.marker ≡ no_file))
        × (r.brew_runs < after.brew_runs)
        × (after.brew_runs ≤ r.brew_runs + suc left)

    still : m.others r.brew_runs r.marker ≡ no_file
    still = quiet.alone r.brew_runs r.marker ∙ none

    once : Good (run_brew m r)
    once = (inr still, omega arith, omega arith)

-- At a job of a boot that does not find a marker, the first one or a later one, on a machine with
-- brew, whose marker can be removed and created and is touched by nobody else: brew runs at least once
-- and at most three times; the marker stands afterwards, and the next job then changes nothing, exactly
-- if one of the next three runs of brew succeeds and each run before it fails at the lock of another
-- run; and otherwise there is no marker afterwards, so that the same holds of the next job.
pub ensure_homebrew_refreshed-once :
    (m : Machine) (r : Refresh)
    → IsQuiet m
    → MayRefresh r
    → let after = ensure_homebrew_refreshed m r in
      (((after.marker ≡ regular_file) × (ensure_homebrew_refreshed m after ≡ after))
        ↔ Succeeds m 3 r.brew_runs)
      × ((after.marker ≡ regular_file) ⊎ (after.marker ≡ no_file))
      × (r.brew_runs < after.brew_runs)
      × (after.brew_runs ≤ r.brew_runs + 3)
ensure_homebrew_refreshed-once m r quiet may =
    let start : Refresh = record r { marker = no_file; cleared = true } in
    let first = ensure-MayRefresh m r quiet may in
    let index = refresh_homebrew_index-marker m 3 start quiet refl in
    let runs = refresh_homebrew_index-runs m 3 start quiet refl (omega arith) in
    let once : (ensure_homebrew_refreshed m r).cleared ≡ true =
      ap (λ x. x.cleared) first ∙ refresh_homebrew_index-cleared m 3 start in
    (
      (
        λ (there, _). index.0 (ap (λ x. x.marker) (sym first) ∙ there),
        λ s.
            let there = ap (λ x. x.marker) first ∙ index.1 s in
            (there, marked-refreshes_nothing m (ensure_homebrew_refreshed m r) once there),
      ),
      rw first runs.0,
      rw first runs.1,
      rw first runs.2,
    )
