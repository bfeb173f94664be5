-- ===== src/GuestAgent/RunnerEnv/Examples.antt =====
-- The environment of runners in internal/guestagent/runner.go at a concrete agent of two slots.
use gha_mac_broker.Prelude.{
  ℕ, zero, suc, ◌≡◌, ◌≢◌, refl, sym, String, true, false, List, [], ◌∷◌, some, str_eq, arith,
  eq_iff, Bool,
}
use gha_mac_broker.GuestExec.Maps.{lookup}
use gha_mac_broker.GuestExec.Keys.{id_key}
use gha_mac_broker.GuestAgent.RunnerEnv.{
  System, Executor, runner_env, env_with_overrides, wrap_runner_for_aqua_session,
}
use gha_mac_broker.GuestAgent.RunnerEnv.Isolation.{NamesDiffer, runner_env-isolates}

abbrev named : Bool → ℕ → String
named true zero = "tmp-0"
named true (suc n) = "tmp-1"
named false zero = "slot-home-0"
named false (suc n) = "slot-home-1"

abbrev os : System
os = record {
  join = λ dir name. name;
  numbered = λ prefix slot. named (str_eq prefix "tmp-") slot;
  environ = "LANG=C" ∷ [];
  uid = "501";
  username = some "admin";
  sort_strings = λ keys. keys;
  assignment = λ key value. key;
}

abbrev agent : Executor
agent = record { base_home = "/Users/admin"; slot_count = 2 }

-- The caller wants the real HOME.
abbrev wanted : List (String × String)
wanted = ("HOME", "/Users/admin") ∷ ("CI", "true") ∷ []

own_home : lookup "HOME" (runner_env os agent 0 wanted) ≡ some "slot-home-0"
unfolding runner_env lookup
own_home = refl

wrapped :
    wrap_runner_for_aqua_session os "run.sh" ("--jitconfig" ∷ []) (("CI", "true") ∷ [])
    ≡ some (
      "/usr/bin/sudo",
      "-n" ∷ "/bin/launchctl" ∷ "asuser" ∷ "501" ∷ "/usr/bin/sudo" ∷ "-n" ∷ "-u" ∷ "admin"
          ∷ "/usr/bin/env" ∷ "LANG=C" ∷ "CI" ∷ "run.sh" ∷ "--jitconfig" ∷ [],
    )
unfolding wrap_runner_for_aqua_session env_with_overrides
wrapped = refl

differs : (kind : Bool) → named kind 0 ≢ named kind 1
differs true = λ q. absurd (ground (arith, q, eq_iff "tmp-0" "tmp-1"))
differs false = λ q. absurd (ground (arith, q, eq_iff "slot-home-0" "slot-home-1"))

names : NamesDiffer os agent
names prefix zero zero less more same = refl
names prefix zero (suc zero) less more same = absurd (differs (str_eq prefix "tmp-") same)
names prefix (suc zero) zero less more same = absurd (differs (str_eq prefix "tmp-") (sym same))
names prefix (suc zero) (suc zero) less more same = refl
names prefix (suc (suc i)) j less more same = absurd (omega arith)
names prefix zero (suc (suc j)) less more same = absurd (omega arith)
names prefix (suc zero) (suc (suc j)) less more same = absurd (omega arith)

runner_env-isolates_example :
    (lookup "HOME" (runner_env os agent 0 wanted) ≢ lookup "HOME" (runner_env os agent 1 wanted))
    × (lookup "TMPDIR" (runner_env os agent 0 wanted)
        ≢ lookup "TMPDIR" (runner_env os agent 1 wanted))
    × (lookup "CI" (runner_env os agent 0 wanted) ≡ lookup "CI" wanted)
runner_env-isolates_example =
    runner_env-isolates os agent 0 1 wanted wanted "CI" names (omega arith) (omega arith)
      (omega arith) (λ q. absurd (omega arith)) (refl, (refl, (refl, (refl, (refl, (refl, tt))))))
