-- ===== src/GuestAgent/Exclusion/Steps.antt =====
-- The steps of RunJob in internal/guestagent/guestagent.go, over every interleaving.
use gha_mac_broker.Prelude.{
  ℕ, ◌≡◌, ◌≢◌, refl, sym, ◌∙◌, is_some, String, Bool, true, List, [], ◌∷◌, Option, some, none,
  get_elem?, option_cases, if_cases, arith,
}
use gha_mac_broker.GuestExec.Types.{Outcome, accepted, Execution}
use gha_mac_broker.GuestExec.Maps.{lookup, remove, insert}
use gha_mac_broker.GuestExec.Keys.{id_key, slot_key}
use gha_mac_broker.GuestExec.Registry.Admission.{check_admission, Launched, start}
use gha_mac_broker.GuestExec.Registry.System.{
  Step, registers, captures, beats, reports, supervises, expires, cancels, drains, step,
}
use gha_mac_broker.GuestExec.Registry.Executions.Steps.{step-IsValid}
use gha_mac_broker.GuestExec.Registry.Slots.Steps.{step-IsPlaced, new_registry-IsPlaced}
use gha_mac_broker.GuestAgent.Wire.{internal}
use gha_mac_broker.GuestAgent.RunJob.{
  Answer, failed, answer_of, is_accepted, JobRequest, Holder, building, starting, Handler,
  new_handler, peek_spec, built_spec, begin_job, end_build, end_start, background, HandlerStep,
  begins, builds, starts, others, handler_step, handler_run,
}
use gha_mac_broker.GuestAgent.Idle.{IsRegistration, step-IsIdleSlot}
use gha_mac_broker.GuestAgent.Exclusion.{
  slot_of, IsExclusive, accepted-IsIdleSlot, start-IsPlaced, start-IsIdleSlot, insert-IsExclusive,
  removed,
}

is_accepted_lem : (o : Outcome) → is_accepted o ≡ true → o ≡ accepted
is_accepted_lem o h = ground (arith, h)

remove-IsExclusive :
    (s : ℕ) (a : Handler) → IsExclusive a → IsExclusive (record a { holders = remove s a.holders })
remove-IsExclusive s a v = record {
  heap = v.heap;
  placed = v.placed;
  held = λ t k at. v.held t k (removed s t k a.holders at).1;
  idle = λ t k at. v.idle t k (removed s t k a.holders at).1;
}

begin_job-IsExclusive :
    (q : JobRequest) (a : Handler) → IsExclusive a → IsExclusive (begin_job q a).0
unfolding begin_job
begin_job-IsExclusive q a v =
    if_cases Good (is_some (lookup q.slot a.holders)) (λ _. v)
      λ _.
        option_cases Good (check_admission (peek_spec q) a.registry).1
          (λ fine.
            if_cases Good (is_accepted (check_admission (peek_spec q) a.registry).0)
              (λ ok.
                insert-IsExclusive q.slot (building q) a refl
                  (accepted-IsIdleSlot (peek_spec q) a.registry v.placed
                    (is_accepted_lem (check_admission (peek_spec q) a.registry).0 ok) fine)
                  v)
              (λ _. v))
          (λ _ _. v)
  where
    Good : Handler × Option Answer → Type 0
    Good p = IsExclusive p.0

end_build-IsExclusive :
    (s : ℕ) (c : Option String) (a : Handler) → IsExclusive a → IsExclusive (end_build s c a).0
unfolding end_build
end_build-IsExclusive s c a v =
    option_cases Good (lookup s a.holders) (λ _. v) λ h at. by_holder h at c
  where
    Good : Handler × Option Answer → Type 0
    Good p = IsExclusive p.0

    by_holder :
        (h : Holder)
        → lookup s a.holders ≡ some h
        → (c : Option String)
        → Good (elim h [
          | starting spec before ↦ (a, none)
          | building q ↦ elim c [
            | none ↦ (record a { holders = remove s a.holders }, some (failed internal))
            | some d ↦ (
              record a { holders = insert s (starting (built_spec q d) a.registry) a.holders },
              none,
            )
          ]
        ])
    by_holder (starting spec before) at c = v
    by_holder (building q) at none = remove-IsExclusive s a v
    by_holder (building q) at (some d) =
        insert-IsExclusive s (starting (built_spec q d) a.registry) a (v.held s (building q) at)
          (v.idle s (building q) at) v

end_start-IsExclusive :
    (is_abs : String → Bool) (s : ℕ) (l : Option Launched) (a : Handler)
    → IsExclusive a
    → IsExclusive (end_start is_abs s l a).0
unfolding end_start
end_start-IsExclusive is_abs s l a v =
    option_cases Good (lookup s a.holders) (λ _. v) λ h at. by_holder h at
  where
    Good : Handler × Option Answer → Type 0
    Good p = IsExclusive p.0

    by_holder :
        (h : Holder)
        → lookup s a.holders ≡ some h
        → Good (elim h [
          | building q ↦ (a, none)
          | starting spec before ↦
              let result = start is_abs spec l before a.registry in
              (
                record { registry = result.0; holders = remove s a.holders },
                some (answer_of result.1 result.2),
              )
        ])
    by_holder (building q) at = v
    by_holder (starting spec before) at =
        let mine : spec.slot ≡ s = v.held s (starting spec before) at in
        let next = start-IsPlaced is_abs spec l before a.registry v.heap v.placed in
        record {
          heap = next.0;
          placed = next.1;
          held = λ t k there. v.held t k (removed s t k a.holders there).1;
          idle = λ t k there.
              let (other, old) = removed s t k a.holders there in
              start-IsIdleSlot is_abs spec l before a.registry t (λ q. other (sym mine ∙ q))
                (v.idle t k old);
        }

moved :
    (is_abs : String → Bool) (t : Step) (a : Handler)
    → ¬ IsRegistration t
    → IsExclusive a
    → IsExclusive (record a { registry = step is_abs t a.registry })
moved is_abs t a other v = record {
  heap = step-IsValid is_abs t a.registry v.heap;
  placed = step-IsPlaced is_abs t a.registry v.heap v.placed;
  held = v.held;
  idle = λ s h at. step-IsIdleSlot is_abs t s a.registry other (v.idle s h at);
}

background-IsExclusive :
    (is_abs : String → Bool) (t : Step) (a : Handler)
    → IsExclusive a
    → IsExclusive (background is_abs t a)
unfolding background
background-IsExclusive is_abs (registers spec pid pgid) a v = v
background-IsExclusive is_abs (captures h stream result) a v =
    moved is_abs (captures h stream result) a (λ n. n) v
background-IsExclusive is_abs (beats h now) a v = moved is_abs (beats h now) a (λ n. n) v
background-IsExclusive is_abs (reports pid code message) a v =
    moved is_abs (reports pid code message) a (λ n. n) v
background-IsExclusive is_abs (supervises now h) a v = moved is_abs (supervises now h) a (λ n. n) v
background-IsExclusive is_abs (expires h) a v = moved is_abs (expires h) a (λ n. n) v
background-IsExclusive is_abs (cancels kill id) a v = moved is_abs (cancels kill id) a (λ n. n) v
background-IsExclusive is_abs drains a v = moved is_abs drains a (λ n. n) v

handler_step-IsExclusive :
    (is_abs : String → Bool) (t : HandlerStep) (a : Handler)
    → IsExclusive a
    → IsExclusive (handler_step is_abs t a)
unfolding handler_step
handler_step-IsExclusive is_abs (begins q) a v = begin_job-IsExclusive q a v
handler_step-IsExclusive is_abs (builds s c) a v = end_build-IsExclusive s c a v
handler_step-IsExclusive is_abs (starts s l) a v = end_start-IsExclusive is_abs s l a v
handler_step-IsExclusive is_abs (others t) a v = background-IsExclusive is_abs t a v

handler_run-IsExclusive :
    (is_abs : String → Bool) (ts : List HandlerStep) (a : Handler)
    → IsExclusive a
    → IsExclusive (handler_run is_abs ts a)
unfolding handler_run
handler_run-IsExclusive is_abs [] a v = v
handler_run-IsExclusive is_abs (t ∷ ts) a v =
    handler_run-IsExclusive is_abs ts (handler_step is_abs t a)
      (handler_step-IsExclusive is_abs t a v)

new_handler-IsExclusive : IsExclusive new_handler
unfolding lookup
new_handler-IsExclusive = record {
  heap = tt;
  placed = new_registry-IsPlaced;
  held = λ s h at. cc;
  idle = λ s h at. cc;
}

-- From a new guest agent, over every interleaving of RunJob calls and of the registry's goroutines,
-- while a RunJob prepares a slot or starts its process there, no execution runs in that slot: the
-- preparation, which removes the slot's directories, never meets a running job.
pub handler_run-exclusive :
    (is_abs : String → Bool) (ts : List HandlerStep) (s : ℕ) (h : Holder) (k : ℕ) (e : Execution)
    → let a = handler_run is_abs ts new_handler in
      lookup s a.holders ≡ some h
      → get_elem? a.registry.heap k ≡ some e
      → e.running ≡ true
      → (slot_of h ≡ s) × (e.slot ≢ s)
handler_run-exclusive is_abs ts s h k e held at on =
    let v = handler_run-IsExclusive is_abs ts new_handler new_handler-IsExclusive in
    (v.held s h held, v.idle s h held k e at on)
