-- ===== src/Broker/Restart.antt =====
-- A running job over a restart of the broker: from the guest's registry by Reattach to the pool's slot.
use mathlib.Core.Option.{some-injective}
use gha_mac_broker.Prelude.{
  ℕ, zero, suc, ◌+◌, length, ◌<◌, ◌≡◌, ◌≢◌, ◌↔◌, refl, sym, ap, ◌∙◌, subst, true, List, [], ◌∷◌,
  none, some, pos, get_elem?, replicate, Has, arith,
}
use gha_mac_broker.RunnerPool.Types.{
  Vm, Slot, SlotBinding, empty_slot_state, adopted_slot_binding_busy,
}
use gha_mac_broker.RunnerPool.Adopt.{adopted_slot, bind_all, adopted_worker}
use gha_mac_broker.RunnerPool.AdoptedSlots.{Claims, bind_all-keeps, bind_all-fills}
use gha_mac_broker.GuestExec.Types.{Event, Log, Execution, Registry}
use gha_mac_broker.GuestExec.Log.{max_retained_log_bytes}
use gha_mac_broker.GuestExec.Log.Invariant.{Numbered, LogIsValid}
use gha_mac_broker.GuestExec.Keys.{id_key, slot_key}
use gha_mac_broker.GuestExec.Registry.Slots.{IsPlaced}
use gha_mac_broker.GuestExec.Registry.Slots.Change.{apart}
use gha_mac_broker.GuestExec.Registry.Listing.{
  ExecutionState, last_sequence, state_of, states_of, list_executions,
}
use gha_mac_broker.GuestAgent.Convert.{reattach}
use gha_mac_broker.Broker.Adopt.{reattach_slots}
use gha_mac_broker.Broker.Reattached.{binding_of, binding-Has, Has-binding, state-Has, Has-state}

get_elem?-replicate : {A : Type 0} (n i : ℕ) (a : A) → i < n → get_elem? (replicate n a) i ≡ some a
get_elem?-replicate zero i a small = absurd (omega arith)
get_elem?-replicate (suc n) zero a small = refl
get_elem?-replicate (suc n) (suc i) a small = get_elem?-replicate n i a (omega arith)

last-Numbered :
    (n : ℕ) (x : Event) (es : List Event)
    → Numbered n (x ∷ es)
    → last_sequence (x ∷ es) ≡ n + length es
last-Numbered n x [] v = omega (arith, v.0)
last-Numbered n x (y ∷ es) v = let rest = last-Numbered (suc n) y es v.1 in omega (arith, rest)

-- The last sequence number of a well-formed log is the number of its events.
last-IsValid : (cap : ℕ) (l : Log) → LogIsValid cap l → last_sequence l.events ≡ length l.events
last-IsValid cap l v = by_events l.events v.numbered
  where
    by_events : (es : List Event) → Numbered 1 es → last_sequence es ≡ length es
    by_events [] numbered = refl
    by_events (x ∷ es) numbered = let last = last-Numbered 1 x es numbered in omega (arith, last)

-- The slot of a job that runs on: bound now, busy, with the job of the execution, its cursor behind
-- the last event of the log, no cancel function and no warning, and marked as adopted.
abbrev pub resumed_slot : ℕ → Execution → Slot
resumed_slot now e = record {
  bound_at = now;
  busy = true;
  job_id = e.meta.job_id;
  run_id = e.meta.run_id;
  execution_id = e.id;
  resume_cursor = length e.log.events;
  job_cancel = none;
  reap_warned_at = 0;
  adopted = true;
  last_err = none;
}

module _ (sort_states : List ExecutionState → List ExecutionState)
    (sorted : (s : ExecutionState) (ss : List ExecutionState) → Has s (sort_states ss) ↔ Has s ss)
    (r : Registry) (v : IsPlaced r) (now count : ℕ) (vm : Vm) where
  abbrev pub bindings : List SlotBinding
  bindings = reattach_slots (reattach (list_executions sort_states r)) count

  -- A binding that claims a slot is the binding of a running execution of the registry in it.
  of_running :
      (b : SlotBinding) (j : ℕ)
      → Has b bindings
      → Claims b j
      → (h : ℕ) × (e : Execution) × (get_elem? r.heap h ≡ some e)
        × (e.running ≡ true)
        × (e.slot ≡ j)
        × (b ≡ binding_of (state_of e))
  unfolding list_executions
  of_running b j m claims =
      let (s, k, on, q) = binding-Has b (list_executions sort_states r) count m in
      let (h, e, at, same) =
        state-Has s r.heap r.executions ((sorted s (states_of r.heap r.executions)).0 k) in
      (
        h,
        e,
        at,
        ground (arith, on, same),
        ground (arith, q, same, claims.0),
        ground (arith, q, same),
      )

  -- When a restarted broker reads the executions of a guest and adopts its VM, then for a running
  -- execution with a well-formed log, in a slot of the pool, that slot of the worker is busy from now
  -- on with the job, the run and the id of the execution, is marked as adopted, has no cancel function
  -- yet, and has its cursor at the number of events in the execution's log. The registry is one whose
  -- maps and executions agree, and the sort of List keeps the members of a list.
  pub adopted-running :
      (h : ℕ) (e : Execution)
      → get_elem? r.heap h ≡ some e
      → e.running ≡ true
      → e.slot < count
      → LogIsValid max_retained_log_bytes e.log
      → get_elem? (bind_all now bindings (adopted_worker now (pos count) vm)).slots e.slot
        ≡ some (resumed_slot now e)
  unfolding list_executions adopted_slot_binding_busy
  adopted-running h e at on small log =
      subst
        (λ (n : ℕ).
          get_elem? (bind_all now bindings (adopted_worker now (pos count) vm)).slots e.slot
          ≡ some (record (resumed_slot now e) { resume_cursor = n }))
        (last-IsValid max_retained_log_bytes e.log log)
        (bind_all-fills now bindings e.slot (adopted_worker now (pos count) vm)
          (adopted_slot now (binding_of (state_of e))) (binding_of (state_of e)) empty_slot_state
          (λ b m claims.
            let (k, g, there, also, slot, q) = of_running b e.slot m claims in
            let place : k ≡ h = apart h k e g r v at on there also (sym slot) in
            let one : e ≡ g =
              some-injective _ _ (sym at ∙ ap (λ n. get_elem? r.heap n) (sym place) ∙ there) in
            ap (adopted_slot now) (q ∙ ap (λ x. binding_of (state_of x)) (sym one)))
          (Has-binding (state_of e) (list_executions sort_states r) count
            ((sorted (state_of e) (states_of r.heap r.executions)).1
              (Has-state h e e.id r.heap r.executions (v.listed h e at on) at))
            on small)
          (refl, refl) (get_elem?-replicate count e.slot empty_slot_state small))

  -- A slot of the pool in which no execution of the guest runs is empty after the adoption.
  pub adopted-empty :
      (j : ℕ)
      → j < count
      → ((h : ℕ) (e : Execution) → get_elem? r.heap h ≡ some e → e.running ≡ true → e.slot ≢ j)
      → get_elem? (bind_all now bindings (adopted_worker now (pos count) vm)).slots j
        ≡ some empty_slot_state
  adopted-empty j small idle =
      bind_all-keeps now bindings j (adopted_worker now (pos count) vm) empty_slot_state
        (λ b m claims.
          let (h, e, at, on, slot, _) = of_running b j m claims in absurd (idle h e at on slot))
        (get_elem?-replicate count j empty_slot_state small)
