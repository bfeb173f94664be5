-- ===== src/GuestAgent/RunnerEnv.antt =====
-- The directories, the environment and the command line of a runner in internal/guestagent/runner.go.
pub mod Isolation
mod Examples
use gha_mac_broker.Prelude.{
  ℕ, leb, String, Bool, true, false, not, ◌||◌, ◌&&◌, List, [], ◌∷◌, ◌++◌, map, Option, none, some,
  str_eq, if◌then◌else◌,
}
use gha_mac_broker.GuestExec.Maps.{insert, lookup}
use gha_mac_broker.GuestExec.Keys.{id_key}

-- What runner.go takes from path/filepath, fmt, os, os/user and sort.
pub record System : Type 0 where
  -- filepath.Join
  pub join : String → String → String
  -- fmt.Sprintf of a prefix and a slot
  pub numbered : String → ℕ → String
  pub environ : List String
  pub uid : String
  -- user.Current, its name or an error
  pub username : Option String
  pub sort_strings : List String → List String
  -- key + "=" + value
  pub assignment : String → String → String

pub record Executor : Type 0 where
  pub base_home : String
  pub slot_count : ℕ

abbrev pub single_slot : Executor → Bool
single_slot e = leb e.slot_count 1

abbrev pub runner_home : System → Executor → ℕ → String
runner_home os e slot = os.join e.base_home (os.numbered "actions-runner-" slot)

abbrev pub tmp_dir : System → Executor → ℕ → String
tmp_dir os e slot = os.join e.base_home (os.numbered "tmp-" slot)

abbrev pub slot_home : System → Executor → ℕ → String
slot_home os e slot = os.join e.base_home (os.numbered "slot-home-" slot)

unfoldable pub runner_env : System → Executor → ℕ → List (String × String) → List (String × String)
unfolding insert
runner_env os e slot caller_env =
    insert "HOME" (if single_slot e then e.base_home else slot_home os e slot) (
      insert "TMPDIR" (tmp_dir os e slot) (
        insert "GIT_TERMINAL_PROMPT" "0" (
          insert "GIT_CONFIG_VALUE_0" "" (
            insert "GIT_CONFIG_KEY_0" "credential.helper"
              (insert "GIT_CONFIG_COUNT" "1" caller_env)))))

-- The loop over the sorted keys.
abbrev pub assignments : System → List (String × String) → List String → List String
assignments os env [] = []
assignments os env (key ∷ keys) =
    os.assignment key (elim (lookup key env) [ none ↦ "" | some value ↦ value ])
    ∷ assignments os env keys

unfoldable pub env_with_overrides : System → List String → List (String × String) → List String
unfolding lookup
env_with_overrides os base overrides =
    base ++ assignments os overrides (os.sort_strings (map (λ entry. entry.0) overrides))

-- The command and its arguments, or the error of user.Current.
unfoldable pub wrap_runner_for_aqua_session :
    System → String → List String → List (String × String) → Option (String × List String)
unfolding env_with_overrides
wrap_runner_for_aqua_session os command args env = elim os.username [
  | none ↦ none
  | some user ↦ some (
    "/usr/bin/sudo",
    ("-n" ∷ "/bin/launchctl" ∷ "asuser" ∷ os.uid ∷ "/usr/bin/sudo" ∷ "-n" ∷ "-u" ∷ user
          ∷ "/usr/bin/env" ∷ [])
        ++ env_with_overrides os os.environ env
        ++ (command ∷ args),
  )
]
