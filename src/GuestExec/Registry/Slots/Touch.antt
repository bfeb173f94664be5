-- ===== src/GuestExec/Registry/Slots/Touch.antt =====
-- Changes of internal/guestexec/registry.go that leave an execution's id, slot and running alone.
use gha_mac_broker.Prelude.{
  ℕ, ◌≡◌, refl, sym, ap, ◌∙◌, inl, inr, not, ◌||◌, ◌==◌, length, some, get_elem?,
  get_elem?-set_cases, set, count-set, to_nat, option_cases, if_cases, arith,
}
use gha_mac_broker.GuestExec.Types.{
  Stream, stdout, stderr, stream_unspecified, log_chunk, ExitReport, Execution, Registry,
}
use gha_mac_broker.GuestExec.Registry.Admission.{u32}
use gha_mac_broker.GuestExec.Registry.Lifecycle.{
  at_execution, emit, ReadResult, bytes, end_of_file, deadline, broken, is_open, close_reader,
  capture, append_heartbeat, report_to,
}
use gha_mac_broker.GuestExec.Registry.Slots.{IsPlaced, is_running}

abbrev pub IsSame : Execution → Execution → Type 0
IsSame e f = (f.id ≡ e.id) × (f.slot ≡ e.slot) × (f.running ≡ e.running)

pub touch-IsPlaced :
    (h : ℕ) (e f : Execution) (r : Registry)
    → get_elem? r.heap h ≡ some e
    → IsSame e f
    → IsPlaced r
    → IsPlaced (record r { heap = set r.heap h f })
touch-IsPlaced h e f r at same v = record {
  listed = λ k g here t. elim (get_elem?-set_cases r.heap h k f here) [
    | inl (p, q) ↦ rw (p, q, same.0) (v.listed h e at (sym same.2 ∙ sym (ap is_running q) ∙ t))
    | inr (_, old) ↦ v.listed k g old t
  ];
  slotted = λ k g here t. elim (get_elem?-set_cases r.heap h k f here) [
    | inl (p, q) ↦
        rw (q, same.0, same.1) (v.slotted h e at (sym same.2 ∙ sym (ap is_running q) ∙ t))
    | inr (_, old) ↦ v.slotted k g old t
  ];
  counted =
      v.counted ∙ ap u32 (omega (arith, count-set is_running r.heap h f at, ap to_nat same.2));
}

pub at_execution-IsPlaced :
    (h : ℕ) (f : Execution → Execution) (r : Registry)
    → ((e : Execution) → IsSame e (f e))
    → IsPlaced r
    → IsPlaced (at_execution h f r)
unfolding at_execution
at_execution-IsPlaced h f r same v =
    option_cases IsPlaced (get_elem? r.heap h) (λ _. v)
      λ e at. touch-IsPlaced h e (f e) r at (same e) v

close_reader-IsSame : (s : Stream) (e : Execution) → IsSame e (close_reader s e)
close_reader-IsSame stream_unspecified e = (refl, refl, refl)
close_reader-IsSame stdout e = (refl, refl, refl)
close_reader-IsSame stderr e = (refl, refl, refl)

pub capture-IsSame :
    (s : Stream) (result : ReadResult) (e : Execution) → IsSame e (capture s result e)
unfolding capture
capture-IsSame s (bytes data_read) e =
    if_cases (IsSame e) (is_open s e)
      (λ _.
        if_cases (IsSame e) (length data_read == 0) (λ _. (refl, refl, refl))
          (λ _. (refl, refl, refl)))
      (λ _. (refl, refl, refl))
capture-IsSame s end_of_file e =
    if_cases (IsSame e) (is_open s e) (λ _. close_reader-IsSame s e) (λ _. (refl, refl, refl))
capture-IsSame s deadline e =
    if_cases (IsSame e) (is_open s e) (λ _. close_reader-IsSame s e) (λ _. (refl, refl, refl))
capture-IsSame s (broken text) e =
    if_cases (IsSame e) (is_open s e) (λ _. close_reader-IsSame s (emit (log_chunk stderr text) e))
      (λ _. (refl, refl, refl))

pub append_heartbeat-IsSame : (now : ℕ) (e : Execution) → IsSame e (append_heartbeat now e)
unfolding append_heartbeat
append_heartbeat-IsSame now e =
    if_cases (IsSame e) e.running (λ _. (refl, refl, refl)) (λ _. (refl, refl, refl))

pub report_to-IsSame : (report : ExitReport) (e : Execution) → IsSame e (report_to report e)
unfolding report_to
report_to-IsSame report e =
    if_cases (IsSame e) (e.exit_reported || not e.running || e.reap_once) (λ _. (refl, refl, refl))
      (λ _. (refl, refl, refl))
