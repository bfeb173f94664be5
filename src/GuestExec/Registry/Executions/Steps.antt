-- ===== src/GuestExec/Registry/Executions/Steps.antt =====
-- All executions of internal/guestexec/registry.go, over every interleaving of its goroutines.
use gha_mac_broker.Prelude.{
  ℕ, ◌≡◌, refl, sym, subst, ◌⊎◌, inl, inr, ◌++◌, ◌∙◌, String, Bool, true, not, ◌||◌, List, [], ◌∷◌,
  ◌==◌, some, none, ℤ, get_elem?, All, All-get_elem?, All-set, All-append_one, if_cases,
  option_cases, arith,
}
use gha_mac_broker.GuestExec.Types.{
  ExecSpec, awaiting, waiting_readers, settled, Supervisor, Execution, Registry,
}
use gha_mac_broker.GuestExec.Registry.Admission.{
  new_registry, register, new_execution, drain, close_drained,
}
use gha_mac_broker.GuestExec.Registry.Lifecycle.{
  at_execution, report_exit, place_by_pid, supervise, complete_execution, completed, take_report,
  expire, cancel, CancelResult,
}
use gha_mac_broker.GuestExec.Maps.{lookup}
use gha_mac_broker.GuestExec.Keys.{id_key}
use gha_mac_broker.GuestExec.Registry.System.{
  Step, registers, captures, beats, reports, supervises, expires, cancels, drains, step, run,
}
use gha_mac_broker.GuestExec.Registry.Executions.Life.{
  ExecutionIsValid, capture-IsValid, append_heartbeat-IsValid,
}
use gha_mac_broker.GuestExec.Registry.Executions.Exit.{
  report_to-IsValid, cancelled-IsValid, take_report-IsValid, completed-IsValid,
  new_execution-IsValid,
}

abbrev pub HeapIsValid : Registry → Type 0
HeapIsValid r = All ExecutionIsValid r.heap

awaiting≢settled : ¬ (awaiting ≡ settled)
awaiting≢settled e = cc

pub waiting≢settled : ¬ (waiting_readers ≡ settled)
waiting≢settled e = cc

pub unsettled : (e : Execution) → ExecutionIsValid e → ¬ (e.supervisor ≡ settled) → e.running ≡ true
unsettled e v n = ground (arith, v.returned)

pub supervisor_cases :
    {A : Type 0} (P : A → Type 0) (s : Supervisor) {x y z : A}
    → (s ≡ awaiting → P x)
    → (s ≡ waiting_readers → P y)
    → (s ≡ settled → P z)
    → P (elim s [ awaiting ↦ x | waiting_readers ↦ y | settled ↦ z ])
supervisor_cases P awaiting a b c = a refl
supervisor_cases P waiting_readers a b c = b refl
supervisor_cases P settled a b c = c refl

at_execution-IsValid :
    (h : ℕ) (f : Execution → Execution) (r : Registry)
    → ((e : Execution) → ExecutionIsValid e → ExecutionIsValid (f e))
    → HeapIsValid r
    → HeapIsValid (at_execution h f r)
unfolding at_execution
at_execution-IsValid h f r k v =
    option_cases HeapIsValid (get_elem? r.heap h) (λ _. v)
      λ e at.
        All-set ExecutionIsValid r.heap h (f e) (k e (All-get_elem? ExecutionIsValid h r.heap v at))
          v

pub register-heap :
    (is_abs : String → Bool) (spec : ExecSpec) (pid pgid : ℕ) (r : Registry)
    → let heap = (register is_abs spec pid pgid r).0.heap in
      (heap ≡ r.heap) ⊎ (heap ≡ r.heap ++ new_execution spec pid pgid ∷ [])
unfolding register
register-heap is_abs spec pid pgid r = ground arith

pub register-IsValid :
    (is_abs : String → Bool) (spec : ExecSpec) (pid pgid : ℕ) (r : Registry)
    → HeapIsValid r
    → HeapIsValid (register is_abs spec pid pgid r).0
register-IsValid is_abs spec pid pgid r v = elim (register-heap is_abs spec pid pgid r) [
  | inl e ↦ subst (All ExecutionIsValid) (sym e) v
  | inr e ↦ subst (All ExecutionIsValid) (sym e) (
      All-append_one ExecutionIsValid r.heap (new_execution spec pid pgid) v
        (new_execution-IsValid spec pid pgid))
]

report_exit-IsValid :
    (pid : ℕ) (code : ℤ) (message : String) (r : Registry)
    → HeapIsValid r
    → HeapIsValid (report_exit pid code message r)
unfolding report_exit
report_exit-IsValid pid code message r v =
    option_cases HeapIsValid (place_by_pid pid r.heap r.executions none) (λ _. v)
      λ h _. at_execution-IsValid h _ r (report_to-IsValid _) v

complete_execution-IsValid :
    (now h : ℕ) (e : Execution) (r : Registry)
    → ExecutionIsValid (completed now e)
    → HeapIsValid r
    → HeapIsValid (complete_execution now h e r)
unfolding complete_execution close_drained
complete_execution-IsValid now h e r k v =
    let done = All-set ExecutionIsValid r.heap h (completed now e) k v in
    if_cases HeapIsValid _ (λ _. done) (λ _. done)

supervise-IsValid : (now h : ℕ) (r : Registry) → HeapIsValid r → HeapIsValid (supervise now h r)
unfolding supervise
supervise-IsValid now h r v =
    option_cases HeapIsValid (get_elem? r.heap h) (λ _. v)
      λ e at.
        supervisor_cases HeapIsValid e.supervisor
          (λ a.
            option_cases HeapIsValid e.exit_report (λ _. v)
              λ report _.
                let t = unsettled e (valid e at) (λ s. awaiting≢settled (sym a ∙ s)) in
                All-set ExecutionIsValid r.heap h (take_report report e)
                  (take_report-IsValid report e t (valid e at)) v)
          (λ a.
            if_cases HeapIsValid (e.stdout_open || e.stderr_open) (λ _. v)
              λ c.
                let t = unsettled e (valid e at) (λ s. waiting≢settled (sym a ∙ s)) in
                complete_execution-IsValid now h e r
                  (completed-IsValid now e t (ground arith) (ground arith) (valid e at)) v)
          (λ _. v)
  where
    valid : (e : Execution) → get_elem? r.heap h ≡ some e → ExecutionIsValid e
    valid e at = All-get_elem? ExecutionIsValid h r.heap v at

expire-IsValid : (h : ℕ) (r : Registry) → HeapIsValid r → HeapIsValid (expire h r)
unfolding expire
expire-IsValid h r v =
    option_cases HeapIsValid (get_elem? r.heap h) (λ _. v)
      λ e _.
        if_cases HeapIsValid (not e.timer_armed) (λ _. v)
          λ _.
            option_cases HeapIsValid (lookup e.id r.executions) (λ _. v)
              λ current _. if_cases HeapIsValid (current == h) (λ _. v) (λ _. v)

cancel-IsValid :
    (kill : ℕ → Bool) (id : String) (r : Registry)
    → HeapIsValid r
    → HeapIsValid (cancel kill id r).0
unfolding cancel
cancel-IsValid kill id r v =
    option_cases Good (lookup id r.executions) (λ _. v)
      λ h _.
        option_cases Good (get_elem? r.heap h) (λ _. v)
          λ e at.
            if_cases Good (not e.running || e.reaped || e.cancelled) (λ _. v)
              λ _.
                if_cases Good (kill e.pgid)
                  (λ _.
                    All-set ExecutionIsValid r.heap h (record e { cancelled = true })
                      (cancelled-IsValid e (All-get_elem? ExecutionIsValid h r.heap v at)) v)
                  (λ _. v)
  where
    Good : Registry × CancelResult → Type 0
    Good p = HeapIsValid p.0

drain-IsValid : (r : Registry) → HeapIsValid r → HeapIsValid (drain r).0
unfolding drain close_drained
drain-IsValid r v = if_cases HeapIsValid (r.active_count == 0) (λ _. v) (λ _. v)

pub step-IsValid :
    (is_abs : String → Bool) (s : Step) (r : Registry)
    → HeapIsValid r
    → HeapIsValid (step is_abs s r)
unfolding step
step-IsValid is_abs (registers spec pid pgid) r v = register-IsValid is_abs spec pid pgid r v
step-IsValid is_abs (captures h stream result) r v =
    at_execution-IsValid h _ r (capture-IsValid stream result) v
step-IsValid is_abs (beats h now) r v = at_execution-IsValid h _ r (append_heartbeat-IsValid now) v
step-IsValid is_abs (reports pid code message) r v = report_exit-IsValid pid code message r v
step-IsValid is_abs (supervises now h) r v = supervise-IsValid now h r v
step-IsValid is_abs (expires h) r v = expire-IsValid h r v
step-IsValid is_abs (cancels kill id) r v = cancel-IsValid kill id r v
step-IsValid is_abs drains r v = drain-IsValid r v

pub run-IsValid :
    (is_abs : String → Bool) (ss : List Step) (r : Registry)
    → HeapIsValid r
    → HeapIsValid (run is_abs ss r)
unfolding run
run-IsValid is_abs [] r v = v
run-IsValid is_abs (s ∷ ss) r v =
    run-IsValid is_abs ss (step is_abs s r) (step-IsValid is_abs s r v)

-- Over every interleaving from a new registry, each execution is well formed: its event log is
-- numbered from 1 without a gap and holds at most 4 MiB of output, a running execution has no
-- terminal result, and a completed one has exactly one, behind all its other events, with both its
-- readers closed and its supervisor returned; only a completed one has its retention timer armed.
pub run-new_registry-IsValid :
    (is_abs : String → Bool) (ss : List Step) → HeapIsValid (run is_abs ss new_registry)
run-new_registry-IsValid is_abs ss = run-IsValid is_abs ss new_registry tt
