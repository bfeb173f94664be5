-- ===== src/GuestExec/Registry/Slots/Change.antt =====
-- Registration, completion and expiry in internal/guestexec/registry.go, which change the maps.
use mathlib.Core.Option.{some-injective}
use mathlib.Core.Bool.{true≢false}
use gha_mac_broker.Prelude.{
  ℕ, ◌+◌, ◌≡◌, refl, sym, ap, subst, ◌∙◌, ◌⊎◌, inl, inr, String, Bool, true, false, Bool-cases, not,
  ◌==◌, ==_iff, str_eq, eq_iff, length, some, none, Option, get_elem?, get_elem?-set_cases,
  get_elem?-append_cases, set, count-set, count-append_one, to_nat, option_cases, if_cases,
  if◌then◌else◌, arith,
}
use gha_mac_broker.GuestExec.Types.{Outcome, unspecified, accepted, ExecSpec, Execution, Registry}
use gha_mac_broker.GuestExec.Maps.{
  lookup, remove, lookup-insert_same, lookup-insert_other, lookup-remove_other,
}
use gha_mac_broker.GuestExec.Keys.{id_key, slot_key}
use gha_mac_broker.GuestExec.Registry.Admission.{
  u32, StartError, find_execution, check_admission_locked, invalid_spec, new_execution, admit,
  register, close_drained,
}
use gha_mac_broker.GuestExec.Registry.Lifecycle.{completed, complete_execution, expire}
use gha_mac_broker.GuestExec.Registry.Executions.Life.{ExecutionIsValid}
use gha_mac_broker.GuestExec.Registry.Slots.{IsPlaced, is_running}

-- What admission has seen before it proceeds.
admitted :
    (spec : ExecSpec) (r : Registry)
    → (check_admission_locked spec r).proceed ≡ true
    → (find_execution spec.execution_id r ≡ none) × (lookup spec.slot r.slots ≡ none)
unfolding check_admission_locked
admitted spec r h = ground (arith, h)

other_id :
    (spec : ExecSpec) (r : Registry) (h : ℕ) (e : Execution)
    → (check_admission_locked spec r).proceed ≡ true
    → get_elem? r.heap h ≡ some e
    → lookup e.id r.executions ≡ some h
    → str_eq spec.execution_id e.id ≡ false
other_id spec r h e ok at l = elim (Bool-cases (str_eq spec.execution_id e.id)) [
  | inr n ↦ n
  | inl y ↦
      let q : spec.execution_id ≡ e.id = (eq_iff spec.execution_id e.id).0 y in
      let listed : lookup spec.execution_id r.executions ≡ some h =
        ap (λ i. lookup i r.executions) q ∙ l in
      absurd (ground (arith, listed, at, (admitted spec r ok).0))
]

other_slot :
    (spec : ExecSpec) (r : Registry) (e : Execution)
    → (check_admission_locked spec r).proceed ≡ true
    → lookup e.slot r.slots ≡ some e.id
    → (spec.slot == e.slot) ≡ false
other_slot spec r e ok l = ground (arith, (admitted spec r ok).1, l, ==_iff spec.slot e.slot)

admit-IsPlaced :
    (spec : ExecSpec) (pid pgid : ℕ) (r : Registry)
    → (check_admission_locked spec r).proceed ≡ true
    → IsPlaced r
    → IsPlaced (admit spec pid pgid r)
admit-IsPlaced spec pid pgid r ok v = record {
  listed = λ k g here t. elim (get_elem?-append_cases r.heap k (new_execution spec pid pgid) here) [
    | inl (p, q) ↦ rw (p, q) (lookup-insert_same spec.execution_id (length r.heap) r.executions)
    | inr old ↦
        lookup-insert_other spec.execution_id g.id (length r.heap) r.executions
          (other_id spec r k g ok old (v.listed k g old t))
        ∙ v.listed k g old t
  ];
  slotted = λ k g here t.
      elim (get_elem?-append_cases r.heap k (new_execution spec pid pgid) here) [
        | inl (p, q) ↦ rw q (lookup-insert_same spec.slot spec.execution_id r.slots)
        | inr old ↦
            lookup-insert_other spec.slot g.slot spec.execution_id r.slots
              (other_slot spec r g ok (v.slotted k g old t))
            ∙ v.slotted k g old t
      ];
  counted =
      omega (arith, v.counted, count-append_one is_running r.heap (new_execution spec pid pgid));
}

registered :
    (is_abs : String → Bool) (spec : ExecSpec) (pid pgid : ℕ) (r : Registry)
    → ((register is_abs spec pid pgid r).0 ≡ r)
      ⊎ (((check_admission_locked spec r).proceed ≡ true)
          × ((register is_abs spec pid pgid r).0 ≡ admit spec pid pgid r))
unfolding register
registered is_abs spec pid pgid r =
    option_cases Good (invalid_spec is_abs spec)
      {a = let a = check_admission_locked spec r in
        if a.proceed then (admit spec pid pgid r, accepted, none) else (r, a.outcome, a.error)}
      {f = λ e. (r, unspecified, some e)}
      (λ _.
        if_cases Good (check_admission_locked spec r).proceed (λ ok. inr (ok, refl))
          (λ _. inl refl))
      (λ _ _. inl refl)
  where
    Good : Registry × Outcome × Option StartError → Type 0
    Good p =
        (p.0 ≡ r)
        ⊎ (((check_admission_locked spec r).proceed ≡ true) × (p.0 ≡ admit spec pid pgid r))

pub register-IsPlaced :
    (is_abs : String → Bool) (spec : ExecSpec) (pid pgid : ℕ) (r : Registry)
    → IsPlaced r
    → IsPlaced (register is_abs spec pid pgid r).0
register-IsPlaced is_abs spec pid pgid r v = elim (registered is_abs spec pid pgid r) [
  | inl e ↦ subst IsPlaced (sym e) v
  | inr (ok, e) ↦ subst IsPlaced (sym e) (admit-IsPlaced spec pid pgid r ok v)
]

-- A running execution at another place has another slot.
pub apart :
    (h k : ℕ) (e g : Execution) (r : Registry)
    → IsPlaced r
    → get_elem? r.heap h ≡ some e
    → e.running ≡ true
    → get_elem? r.heap k ≡ some g
    → g.running ≡ true
    → e.slot ≡ g.slot
    → k ≡ h
apart h k e g r v at t at2 t2 q =
    let ids : g.id ≡ e.id =
      some-injective _ _
        (sym (v.slotted k g at2 t2) ∙ ap (λ s. lookup s r.slots) (sym q) ∙ v.slotted h e at t) in
    some-injective _ _
      (sym (v.listed k g at2 t2) ∙ ap (λ s. lookup s r.executions) ids ∙ v.listed h e at t)

pub closed-IsPlaced : (r : Registry) → IsPlaced r → IsPlaced (close_drained r)
unfolding close_drained
closed-IsPlaced r v = record { listed = v.listed; slotted = v.slotted; counted = v.counted }

-- The registry that completeExecution leaves, but for the channel.
abbrev settle : ℕ → ℕ → Execution → Registry → Registry
settle now h e r = record r {
  heap = set r.heap h (completed now e);
  slots = remove e.slot r.slots;
  active_count = u32 (r.active_count + 4294967295);
}

completed-stops : (now : ℕ) (e : Execution) → (completed now e).running ≡ false
unfolding completed
completed-stops now e = refl

settle-IsPlaced :
    (now h : ℕ) (e : Execution) (r : Registry)
    → get_elem? r.heap h ≡ some e
    → e.running ≡ true
    → IsPlaced r
    → IsPlaced (settle now h e r)
settle-IsPlaced now h e r at t v = record {
  listed = λ k g here t2. elim (get_elem?-set_cases r.heap h k (completed now e) here) [
    | inl (p, q) ↦ absurd (stopped g q t2)
    | inr (_, old) ↦ v.listed k g old t2
  ];
  slotted = λ k g here t2. elim (get_elem?-set_cases r.heap h k (completed now e) here) [
    | inl (p, q) ↦ absurd (stopped g q t2)
    | inr (n, old) ↦
        lookup-remove_other e.slot g.slot r.slots (elim (Bool-cases (e.slot == g.slot)) [
          | inl y ↦ absurd (n (apart h k e g r v at t old t2 ((==_iff e.slot g.slot).0 y)))
          | inr f ↦ f
        ])
        ∙ v.slotted k g old t2
  ];
  counted = omega (
    arith,
    v.counted,
    count-set is_running r.heap h (completed now e) at,
    ap to_nat t,
    ap to_nat (completed-stops now e),
  );
}
  where
    stopped : (g : Execution) → g ≡ completed now e → g.running ≡ true → ⊥
    stopped g q t2 = absurd (true≢false (sym t2 ∙ ap is_running q ∙ completed-stops now e))

pub complete_execution-IsPlaced :
    (now h : ℕ) (e : Execution) (r : Registry)
    → get_elem? r.heap h ≡ some e
    → e.running ≡ true
    → IsPlaced r
    → IsPlaced (complete_execution now h e r)
unfolding complete_execution
complete_execution-IsPlaced now h e r at t v =
    let done = settle-IsPlaced now h e r at t v in
    if_cases IsPlaced _ (λ _. closed-IsPlaced (settle now h e r) done) (λ _. done)

-- Only a completed execution leaves the map.
forget-IsPlaced :
    (h : ℕ) (e : Execution) (r : Registry)
    → get_elem? r.heap h ≡ some e
    → e.running ≡ false
    → lookup e.id r.executions ≡ some h
    → IsPlaced r
    → IsPlaced (record r { executions = remove e.id r.executions })
forget-IsPlaced h e r at stopped l v = record {
  listed = λ k g here t.
      lookup-remove_other e.id g.id r.executions (elim (Bool-cases (str_eq e.id g.id)) [
        | inl y ↦
            let q : e.id ≡ g.id = (eq_iff e.id g.id).0 y in
            let place : k ≡ h =
              some-injective _ _
                (sym (v.listed k g here t) ∙ ap (λ i. lookup i r.executions) (sym q) ∙ l) in
            absurd (ground (arith, at, here, place, stopped, t))
        | inr f ↦ f
      ])
      ∙ v.listed k g here t;
  slotted = v.slotted;
  counted = v.counted;
}

pub expire-IsPlaced :
    (h : ℕ) (r : Registry)
    → ((e : Execution) → get_elem? r.heap h ≡ some e → ExecutionIsValid e)
    → IsPlaced r
    → IsPlaced (expire h r)
unfolding expire
expire-IsPlaced h r valid v =
    option_cases IsPlaced (get_elem? r.heap h) (λ _. v)
      λ e at.
        if_cases IsPlaced (not e.timer_armed) (λ _. v)
          λ armed.
            option_cases IsPlaced (lookup e.id r.executions) (λ _. v)
              λ current l.
                if_cases IsPlaced (current == h)
                  (λ y.
                    forget-IsPlaced h e r at ((valid e at).armed (ground arith))
                      (l ∙ ap some ((==_iff current h).0 y)) v)
                  (λ _. v)
