-- ===== src/GuestAgent/RunnerEnv/Isolation.antt =====
-- Which variables two runners share by internal/guestagent/runner.go.
use gha_mac_broker.Prelude.{
  ℕ, ◌<◌, ◌≡◌, ◌≢◌, sym, ◌∙◌, String, false, List, [], ◌∷◌, some, str_eq, if◌then◌else◌, arith,
}
use mathlib.Core.Option.{some-injective}
use gha_mac_broker.GuestExec.Maps.{lookup, lookup-insert}
use gha_mac_broker.GuestExec.Keys.{id_key}
use gha_mac_broker.GuestAgent.RunnerEnv.{
  System, Executor, single_slot, tmp_dir, slot_home, runner_env,
}

-- The names of two slots' directories under one prefix differ.
abbrev pub NamesDiffer : System → Executor → Type 0
NamesDiffer os e =
    (prefix : String) (i j : ℕ)
    → i < e.slot_count
    → j < e.slot_count
    → os.join e.base_home (os.numbered prefix i) ≡ os.join e.base_home (os.numbered prefix j)
    → i ≡ j

-- The variables that the agent sets itself.
abbrev pub own_keys : List String
own_keys =
    "HOME" ∷ "TMPDIR" ∷ "GIT_TERMINAL_PROMPT" ∷ "GIT_CONFIG_VALUE_0" ∷ "GIT_CONFIG_KEY_0"
    ∷ "GIT_CONFIG_COUNT" ∷ []

abbrev pub IsOther : String → List String → Type 0
IsOther key [] = Unit
IsOther key (own ∷ keys) = (str_eq own key ≡ false) × IsOther key keys

runner_env-home :
    (os : System) (e : Executor) (slot : ℕ) (env : List (String × String))
    → lookup "HOME" (runner_env os e slot env)
      ≡ some (if single_slot e then e.base_home else slot_home os e slot)
unfolding runner_env
runner_env-home os e slot env = simp lookup-insert

runner_env-tmp_dir :
    (os : System) (e : Executor) (slot : ℕ) (env : List (String × String))
    → lookup "TMPDIR" (runner_env os e slot env) ≡ some (tmp_dir os e slot)
unfolding runner_env
runner_env-tmp_dir os e slot env = simp lookup-insert

runner_env-keeps :
    (os : System) (e : Executor) (slot : ℕ) (env : List (String × String)) (key : String)
    → IsOther key own_keys
    → lookup key (runner_env os e slot env) ≡ lookup key env
unfolding runner_env
runner_env-keeps os e slot env key (home, (tmp, (prompt, (value, (config_key, (count, _)))))) =
    simp (lookup-insert, home, tmp, prompt, value, config_key, count)

-- Two runners in different slots of an agent of several slots, whatever the callers ask for, get
-- different HOME and TMPDIR directories, if the names of the slots' directories differ; a variable that
-- the agent does not set itself is the caller's.
pub runner_env-isolates :
    (os : System) (e : Executor) (i j : ℕ) (env other_env : List (String × String)) (key : String)
    → NamesDiffer os e
    → 1 < e.slot_count
    → i < e.slot_count
    → j < e.slot_count
    → i ≢ j
    → IsOther key own_keys
    → (lookup "HOME" (runner_env os e i env) ≢ lookup "HOME" (runner_env os e j other_env))
      × (lookup "TMPDIR" (runner_env os e i env) ≢ lookup "TMPDIR" (runner_env os e j other_env))
      × (lookup key (runner_env os e i env) ≡ lookup key env)
runner_env-isolates os e i j env other_env key differ several ihas jhas apart free = (
  λ same. apart (
      differ "slot-home-" i j ihas jhas
        (some-injective _ _ (sym (home i env) ∙ same ∙ home j other_env))),
  λ same. apart (
      differ "tmp-" i j ihas jhas (
        some-injective _ _
          (sym (runner_env-tmp_dir os e i env) ∙ same ∙ runner_env-tmp_dir os e j other_env))),
  runner_env-keeps os e i env key free,
)
  where
    home :
        (slot : ℕ) (vars : List (String × String))
        → lookup "HOME" (runner_env os e slot vars) ≡ some (slot_home os e slot)
    home slot vars = let own = runner_env-home os e slot vars in ground (arith, own, several)
