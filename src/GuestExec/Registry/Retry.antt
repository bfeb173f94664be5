-- ===== src/GuestExec/Registry/Retry.antt =====
-- A registration of an execution that runs already, in internal/guestexec/registry.go.
use gha_mac_broker.Prelude.{
  ℕ, ◌≡◌, ◌≢◌, ◌⊎◌, inl, inr, sym, ap, ◌∙◌, String, Bool, true, false, Bool-cases, ==_iff, ◌==◌,
  List, some, none, Option, get_elem?, arith,
}
use gha_mac_broker.GuestExec.Types.{
  Outcome, unspecified, already_running, conflict, ExecSpec, Execution, Registry,
}
use gha_mac_broker.GuestExec.Maps.{lookup}
use gha_mac_broker.GuestExec.Keys.{id_key, slot_key}
use gha_mac_broker.GuestExec.Registry.Admission.{
  StartError, draining_refused, check_admission_locked, invalid_spec, new_registry, register,
}
use gha_mac_broker.GuestExec.Registry.System.{Step, run}
use gha_mac_broker.GuestExec.Registry.Slots.Steps.{run-new_registry-IsPlaced}

-- A request for a running execution leaves the registry as it is. The answer is an error while the registry drains, else "already
-- running" for its slot and a conflict for another one.
abbrev pub IsRefused :
    Registry → Execution → ExecSpec → Registry × Outcome × Option StartError → Type 0
IsRefused r e spec done =
    ((r.draining ≡ true) × (done ≡ (r, unspecified, some draining_refused)))
    ⊎ ((r.draining ≡ false) × (spec.slot ≡ e.slot) × (done ≡ (r, already_running, none)))
    ⊎ ((r.draining ≡ false) × (spec.slot ≢ e.slot) × (done ≡ (r, conflict, none)))

listed-retry :
    (is_abs : String → Bool) (spec : ExecSpec) (pid pgid h : ℕ) (e : Execution) (r : Registry)
    → lookup spec.execution_id r.executions ≡ some h
    → get_elem? r.heap h ≡ some e
    → e.running ≡ true
    → invalid_spec is_abs spec ≡ none
    → IsRefused r e spec (register is_abs spec pid pgid r)
unfolding register check_admission_locked
listed-retry is_abs spec pid pgid h e r l at on valid = elim (Bool-cases r.draining) [
  | inl d ↦ inl (d, ground (arith, valid, d))
  | inr up ↦ elim (Bool-cases (e.slot == spec.slot)) [
    | inl same ↦ inr (
        inl
          (up, sym ((==_iff e.slot spec.slot).0 same), ground (arith, valid, up, l, at, same, on)))
    | inr other ↦ inr (
        inr (
          up,
          λ q. absurd (ground (arith, other, q, ==_iff e.slot spec.slot)),
          ground (arith, valid, up, l, at, other),
        ))
  ]
]

-- Over every interleaving from a new registry, while an execution runs, a valid request with its id and
-- another process changes nothing, so it does not start the job a second time; the answer is an error
-- while the registry drains, else "already running" if the request names the execution's slot, and a
-- conflict if it names another one.
pub register-retry :
    (is_abs : String → Bool) (ss : List Step) (spec : ExecSpec) (pid pgid h : ℕ) (e : Execution)
    → let r = run is_abs ss new_registry in
      get_elem? r.heap h ≡ some e
      → e.running ≡ true
      → spec.execution_id ≡ e.id
      → invalid_spec is_abs spec ≡ none
      → IsRefused r e spec (register is_abs spec pid pgid r)
register-retry is_abs ss spec pid pgid h e at on same valid =
    let r = run is_abs ss new_registry in
    let placed = run-new_registry-IsPlaced is_abs ss in
    listed-retry is_abs spec pid pgid h e r
      (ap (λ id. lookup id r.executions) same ∙ placed.listed h e at on) at on valid
