-- ===== src/GuestAgent/Exclusion.antt =====
-- The slot locks of internal/guestagent/guestagent.go, and that the holder of one finds the slot free.
pub mod Steps
use mathlib.Core.Option.{some-injective}
use gha_mac_broker.Prelude.{
  ℕ, ◌≡◌, ◌≢◌, refl, sym, ap, ◌∙◌, subst, ◌⊎◌, inl, inr, ◌==◌, ==_iff, Bool-cases, Option-cases,
  is_some, String, Bool, true, List, [], ◌∷◌, Option, some, none, get_elem?, option_cases, if_cases,
  arith, not, false, if◌then◌else◌,
}
use gha_mac_broker.GuestExec.Types.{Outcome, accepted, unspecified, ExecSpec, Execution, Registry}
use gha_mac_broker.GuestExec.Maps.{
  lookup, remove, insert, lookup-insert, lookup-remove, lookup-insert_same, lookup-insert_other,
  lookup-remove_other,
}
use gha_mac_broker.GuestExec.Keys.{id_key, slot_key}
use gha_mac_broker.GuestExec.Registry.Admission.{
  StartError, new_registry, check_admission, check_admission_locked, invalid_spec, launch_failed,
  register, discard_unless, Launched, start,
}
use gha_mac_broker.GuestExec.Registry.System.{
  Step, registers, captures, beats, reports, supervises, expires, cancels, drains, step,
}
use gha_mac_broker.GuestExec.Registry.Executions.Steps.{HeapIsValid, register-IsValid, step-IsValid}
use gha_mac_broker.GuestExec.Registry.Slots.{IsPlaced}
use gha_mac_broker.GuestExec.Registry.Slots.Change.{register-IsPlaced}
use gha_mac_broker.GuestExec.Registry.Slots.Steps.{step-IsPlaced, new_registry-IsPlaced}
use gha_mac_broker.GuestAgent.Wire.{internal}
use gha_mac_broker.GuestAgent.RunJob.{
  Answer, failed, answer_of, is_accepted, JobRequest, Holder, building, starting, Handler,
  new_handler, peek_spec, built_spec, begin_job, end_build, end_start, background, HandlerStep,
  begins, builds, starts, others, handler_step, handler_run,
}
use gha_mac_broker.GuestAgent.Idle.{
  IsRegistration, IsIdleSlot, step-IsIdleSlot, register-IsIdleSlot,
}

-- The slot that the holder of a lock prepares.
abbrev pub slot_of : Holder → ℕ
slot_of (building q) = q.slot
slot_of (starting spec before) = spec.slot

-- The lock of a slot is held for that slot, and no execution runs in it.
pub record IsExclusive (a : Handler) : Type 0 where
  pub heap : HeapIsValid a.registry
  pub placed : IsPlaced a.registry
  pub held : (s : ℕ) (h : Holder) → lookup s a.holders ≡ some h → slot_of h ≡ s
  pub idle : (s : ℕ) (h : Holder) → lookup s a.holders ≡ some h → IsIdleSlot s a.registry

-- Admission accepts only if the slot is free.
pub accepted-IsIdleSlot :
    (spec : ExecSpec) (r : Registry)
    → IsPlaced r
    → (check_admission spec r).0 ≡ accepted
    → (check_admission spec r).1 ≡ none
    → IsIdleSlot spec.slot r
unfolding check_admission
accepted-IsIdleSlot spec r v ok fine h e at on q =
    let free : lookup spec.slot r.slots ≡ none = ground (arith, ok, fine) in
    let bad : none ≡ some e.id =
      sym free ∙ ap (λ s. lookup s r.slots) (sym q) ∙ v.slotted h e at on in
    cc

discarded : (p : Registry × Outcome × Option StartError) → (discard_unless p).0 ≡ p.0
discarded p = ground arith

start_cases :
    (is_abs : String → Bool) (spec : ExecSpec) (launch : Option Launched) (before now : Registry)
    → ((start is_abs spec launch before now).0 ≡ now)
      ⊎ ((l : Launched) × ((start is_abs spec launch before now).0
            ≡ (register is_abs spec l.0 l.1 now).0))
unfolding start
start_cases is_abs spec launch before now =
    option_cases Good (invalid_spec is_abs spec)
      {a = let a = check_admission_locked spec before in
        if not a.proceed then (now, a.outcome, a.error, false) else elim launch [
          | none ↦ (now, unspecified, some launch_failed, false)
          | some (pid, pgid) ↦ discard_unless (register is_abs spec pid pgid now)
        ]}
      {f = λ e. (now, unspecified, some e, false)}
      (λ _.
        if_cases Good (not (check_admission_locked spec before).proceed) (λ _. inl refl)
          λ _.
            option_cases Good launch (λ _. inl refl)
              λ l _. inr (l, discarded (register is_abs spec l.0 l.1 now)))
      (λ _ _. inl refl)
  where
    Good : Registry × Outcome × Option StartError × Bool → Type 0
    Good p = (p.0 ≡ now) ⊎ ((l : Launched) × (p.0 ≡ (register is_abs spec l.0 l.1 now).0))

pub start-IsPlaced :
    (is_abs : String → Bool) (spec : ExecSpec) (launch : Option Launched) (before now : Registry)
    → HeapIsValid now
    → IsPlaced now
    → HeapIsValid (start is_abs spec launch before now).0
      × IsPlaced (start is_abs spec launch before now).0
start-IsPlaced is_abs spec launch before now heap v =
    elim (start_cases is_abs spec launch before now) [
      | inl e ↦ (subst HeapIsValid (sym e) heap, subst IsPlaced (sym e) v)
      | inr (l, e) ↦ (
        subst HeapIsValid (sym e) (register-IsValid is_abs spec l.0 l.1 now heap),
        subst IsPlaced (sym e) (register-IsPlaced is_abs spec l.0 l.1 now v),
      )
    ]

pub start-IsIdleSlot :
    (is_abs : String → Bool) (spec : ExecSpec) (launch : Option Launched) (before now : Registry)
    (s : ℕ)
    → spec.slot ≢ s
    → IsIdleSlot s now
    → IsIdleSlot s (start is_abs spec launch before now).0
start-IsIdleSlot is_abs spec launch before now s other idle =
    elim (start_cases is_abs spec launch before now) [
      | inl e ↦ subst (IsIdleSlot s) (sym e) idle
      | inr (l, e) ↦
          subst (IsIdleSlot s) (sym e) (register-IsIdleSlot is_abs spec l.0 l.1 s now other idle)
    ]

-- The lock of a slot changes hands, or is given back.
pub insert-IsExclusive :
    (s : ℕ) (h : Holder) (a : Handler)
    → slot_of h ≡ s
    → IsIdleSlot s a.registry
    → IsExclusive a
    → IsExclusive (record a { holders = insert s h a.holders })
insert-IsExclusive s h a mine idle v = record {
  heap = v.heap;
  placed = v.placed;
  held = λ t k at. elim (taken t k at) [
    | inl (q, e) ↦ ap slot_of e ∙ mine ∙ q
    | inr old ↦ v.held t k old
  ];
  idle = λ t k at. elim (taken t k at) [
    | inl (q, e) ↦ subst (λ x. IsIdleSlot x a.registry) q idle
    | inr old ↦ v.idle t k old
  ];
}
  where
    taken :
        (t : ℕ) (k : Holder)
        → lookup t (insert s h a.holders) ≡ some k
        → ((s ≡ t) × (k ≡ h)) ⊎ (lookup t a.holders ≡ some k)
    taken t k at = elim (Bool-cases (s == t)) [
      | inl y ↦
          let q : s ≡ t = (==_iff s t).0 y in
          inl (
            q,
            some-injective _ _ (
                sym at
                ∙ ap (λ x. lookup x (insert s h a.holders)) (sym q)
                ∙ lookup-insert_same s h a.holders),
          )
      | inr n ↦ inr (sym (lookup-insert_other s t h a.holders n) ∙ at)
    ]

pub removed :
    (s t : ℕ) (k : Holder) (m : List (ℕ × Holder))
    → lookup t (remove s m) ≡ some k
    → (s ≢ t) × (lookup t m ≡ some k)
removed s t k m at = elim (Bool-cases (s == t)) [
  | inl y ↦ let gone = lookup-remove s t m in absurd (ground (arith, gone, y, at))
  | inr n ↦ (λ q. absurd (ground (arith, n, q, ==_iff s t)), sym (lookup-remove_other s t m n) ∙ at)
]
