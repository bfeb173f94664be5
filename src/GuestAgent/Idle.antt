-- ===== src/GuestAgent/Idle.antt =====
-- A slot in which no execution of internal/guestexec/registry.go runs, over the registry's steps.
use gha_mac_broker.Prelude.{
  ℕ, ◌≡◌, ◌≢◌, refl, sym, ap, ◌∙◌, inl, inr, not, ◌||◌, ◌==◌, String, Bool, true, List, some, none,
  ℤ, get_elem?, get_elem?-set_cases, get_elem?-append_cases, set, option_cases, if_cases,
}
use gha_mac_broker.GuestExec.Types.{ExecSpec, Execution, Registry}
use gha_mac_broker.GuestExec.Maps.{lookup}
use gha_mac_broker.GuestExec.Keys.{id_key, slot_key}
use gha_mac_broker.GuestExec.Registry.Admission.{register, drain, new_execution}
use gha_mac_broker.GuestExec.Registry.Lifecycle.{
  at_execution, report_exit, place_by_pid, supervise, complete_execution, completed, take_report,
  expire, cancel, CancelResult,
}
use gha_mac_broker.GuestExec.Registry.System.{
  Step, registers, captures, beats, reports, supervises, expires, cancels, drains, step,
}
use gha_mac_broker.GuestExec.Registry.Executions.Steps.{supervisor_cases, register-heap}
use gha_mac_broker.GuestExec.Registry.Slots.Touch.{
  IsSame, capture-IsSame, append_heartbeat-IsSame, report_to-IsSame,
}

-- Every running execution was there before, in the same slot.
abbrev pub Kept : List Execution → List Execution → Type 0
Kept xs ys =
    (h : ℕ) (f : Execution)
    → get_elem? ys h ≡ some f
    → f.running ≡ true
    → (e : Execution) × (get_elem? xs h ≡ some e) × (e.running ≡ true) × (e.slot ≡ f.slot)

same-Kept : (xs : List Execution) → Kept xs xs
same-Kept xs h f at on = (f, at, on, refl)

set-Kept :
    (xs : List Execution) (h : ℕ) (e f : Execution)
    → get_elem? xs h ≡ some e
    → (f.running ≡ true → (e.running ≡ true) × (e.slot ≡ f.slot))
    → Kept xs (set xs h f)
set-Kept xs h e f at keep k g here on = elim (get_elem?-set_cases xs h k f here) [
  | inl (p, q) ↦
      let t = keep (ap (λ x. x.running) (sym q) ∙ on) in
      (e, ap (get_elem? xs) p ∙ at, t.0, t.1 ∙ ap (λ x. x.slot) (sym q))
  | inr (_, old) ↦ (g, old, on, refl)
]

same_set-Kept :
    (xs : List Execution) (h : ℕ) (e f : Execution)
    → get_elem? xs h ≡ some e
    → IsSame e f
    → Kept xs (set xs h f)
same_set-Kept xs h e f at same = set-Kept xs h e f at (λ on. (sym same.2 ∙ on, sym same.1))

at_execution-Kept :
    (h : ℕ) (f : Execution → Execution) (r : Registry)
    → ((e : Execution) → IsSame e (f e))
    → Kept r.heap (at_execution h f r).heap
unfolding at_execution
at_execution-Kept h f r same =
    option_cases Good (get_elem? r.heap h) (λ _. same-Kept r.heap)
      λ e at. same_set-Kept r.heap h e (f e) at (same e)
  where
    Good : Registry → Type 0
    Good s = Kept r.heap s.heap

report_exit-Kept :
    (pid : ℕ) (code : ℤ) (message : String) (r : Registry)
    → Kept r.heap (report_exit pid code message r).heap
unfolding report_exit
report_exit-Kept pid code message r =
    option_cases Good (place_by_pid pid r.heap r.executions none) (λ _. same-Kept r.heap)
      λ h _. at_execution-Kept h _ r (report_to-IsSame _)
  where
    Good : Registry → Type 0
    Good s = Kept r.heap s.heap

supervise-Kept : (now h : ℕ) (r : Registry) → Kept r.heap (supervise now h r).heap
unfolding supervise complete_execution
supervise-Kept now h r =
    option_cases Good (get_elem? r.heap h) (λ _. same-Kept r.heap)
      λ e at.
        supervisor_cases Good e.supervisor
          (λ _.
            option_cases Good e.exit_report (λ _. same-Kept r.heap)
              λ report _. same_set-Kept r.heap h e (take_report report e) at (refl, refl, refl))
          (λ a.
            if_cases Good (e.stdout_open || e.stderr_open) (λ _. same-Kept r.heap)
              λ _. if_cases Good _ (λ _. over e at) (λ _. over e at))
          (λ _. same-Kept r.heap)
  where
    Good : Registry → Type 0
    Good s = Kept r.heap s.heap

    over :
        (e : Execution) → get_elem? r.heap h ≡ some e → Kept r.heap (set r.heap h (completed now e))
    over e at = set-Kept r.heap h e (completed now e) at (λ on. cc)

expire-Kept : (h : ℕ) (r : Registry) → Kept r.heap (expire h r).heap
unfolding expire
expire-Kept h r =
    option_cases Good (get_elem? r.heap h) (λ _. same-Kept r.heap)
      λ e at.
        if_cases Good (not e.timer_armed) (λ _. same-Kept r.heap)
          λ _.
            option_cases Good (lookup e.id r.executions) (λ _. same-Kept r.heap)
              λ current _.
                if_cases Good (current == h) (λ _. same-Kept r.heap) (λ _. same-Kept r.heap)
  where
    Good : Registry → Type 0
    Good s = Kept r.heap s.heap

cancel-Kept : (kill : ℕ → Bool) (id : String) (r : Registry) → Kept r.heap (cancel kill id r).0.heap
unfolding cancel
cancel-Kept kill id r =
    option_cases Good (lookup id r.executions) (λ _. same-Kept r.heap)
      λ h _.
        option_cases Good (get_elem? r.heap h) (λ _. same-Kept r.heap)
          λ e at.
            if_cases Good (not e.running || e.reaped || e.cancelled) (λ _. same-Kept r.heap)
              λ _.
                if_cases Good (kill e.pgid)
                  (λ _.
                    same_set-Kept r.heap h e (record e { cancelled = true }) at (refl, refl, refl))
                  (λ _. same-Kept r.heap)
  where
    Good : Registry × CancelResult → Type 0
    Good p = Kept r.heap p.0.heap

drain-Kept : (r : Registry) → Kept r.heap (drain r).0.heap
unfolding drain
drain-Kept r = if_cases Good (r.active_count == 0) (λ _. same-Kept r.heap) (λ _. same-Kept r.heap)
  where
    Good : Registry → Type 0
    Good s = Kept r.heap s.heap

abbrev pub IsRegistration : Step → Type 0
IsRegistration (registers spec pid pgid) = Unit
IsRegistration _ = ⊥

step-Kept :
    (is_abs : String → Bool) (s : Step) (r : Registry)
    → ¬ IsRegistration s
    → Kept r.heap (step is_abs s r).heap
unfolding step
step-Kept is_abs (registers spec pid pgid) r n = absurd (n tt)
step-Kept is_abs (captures h stream result) r n =
    at_execution-Kept h _ r (capture-IsSame stream result)
step-Kept is_abs (beats h now) r n = at_execution-Kept h _ r (append_heartbeat-IsSame now)
step-Kept is_abs (reports pid code message) r n = report_exit-Kept pid code message r
step-Kept is_abs (supervises now h) r n = supervise-Kept now h r
step-Kept is_abs (expires h) r n = expire-Kept h r
step-Kept is_abs (cancels kill id) r n = cancel-Kept kill id r
step-Kept is_abs drains r n = drain-Kept r

abbrev pub IsIdleSlot : ℕ → Registry → Type 0
IsIdleSlot s r =
    (h : ℕ) (e : Execution) → get_elem? r.heap h ≡ some e → e.running ≡ true → e.slot ≢ s

pub step-IsIdleSlot :
    (is_abs : String → Bool) (t : Step) (s : ℕ) (r : Registry)
    → ¬ IsRegistration t
    → IsIdleSlot s r
    → IsIdleSlot s (step is_abs t r)
step-IsIdleSlot is_abs t s r n idle h f at on q =
    let (e, here, runs, slot) = step-Kept is_abs t r n h f at on in idle h e here runs (slot ∙ q)

-- A registration in one slot leaves the others as they are.
pub register-IsIdleSlot :
    (is_abs : String → Bool) (spec : ExecSpec) (pid pgid s : ℕ) (r : Registry)
    → spec.slot ≢ s
    → IsIdleSlot s r
    → IsIdleSlot s (register is_abs spec pid pgid r).0
register-IsIdleSlot is_abs spec pid pgid s r other idle h f at on =
    elim (register-heap is_abs spec pid pgid r) [
      | inl e ↦ idle h f (ap (λ xs. get_elem? xs h) (sym e) ∙ at) on
      | inr e ↦
          elim (get_elem?-append_cases r.heap h (new_execution spec pid pgid)
            (ap (λ xs. get_elem? xs h) (sym e) ∙ at)) [
              | inl (_, q) ↦ λ p. other (ap (λ x. x.slot) (sym q) ∙ p)
              | inr old ↦ idle h f old on
            ]
    ]
