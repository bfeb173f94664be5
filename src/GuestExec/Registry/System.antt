-- ===== src/GuestExec/Registry/System.antt =====
-- The goroutines of internal/guestexec/registry.go as steps on the registry.
use gha_mac_broker.Prelude.{ℕ, String, Bool, List, [], ◌∷◌, ℤ}
use gha_mac_broker.GuestExec.Types.{Stream, ExecSpec, Registry}
use gha_mac_broker.GuestExec.Registry.Admission.{register, drain}
use gha_mac_broker.GuestExec.Registry.Lifecycle.{
  ReadResult, at_execution, capture, append_heartbeat, report_exit, supervise, expire, cancel,
}

pub data Step : Type 0 where
  registers : ExecSpec → ℕ → ℕ → Step
  captures : ℕ → Stream → ReadResult → Step
  beats : ℕ → ℕ → Step
  reports : ℕ → ℤ → String → Step
  supervises : ℕ → ℕ → Step
  expires : ℕ → Step
  cancels : (ℕ → Bool) → String → Step
  drains : Step

module _ (is_abs : String → Bool) where
  unfoldable pub step : Step → Registry → Registry
  unfolding at_execution
  step (registers spec pid pgid) r = (register is_abs spec pid pgid r).0
  step (captures h stream result) r = at_execution h (capture stream result) r
  step (beats h now) r = at_execution h (append_heartbeat now) r
  step (reports pid code message) r = report_exit pid code message r
  step (supervises now h) r = supervise now h r
  step (expires h) r = expire h r
  step (cancels kill id) r = (cancel kill id r).0
  step drains r = (drain r).0

  unfoldable pub run : List Step → Registry → Registry
  unfolding step
  run [] r = r
  run (s ∷ ss) r = run ss (step s r)
