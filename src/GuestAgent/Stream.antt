-- ===== src/GuestAgent/Stream.antt =====
-- JobStatus of internal/guestagent/guestagent.go: the messages of a subscription.
use mathlib.Core.Option.{some-injective}
use gha_mac_broker.Prelude.{
  ℕ, zero, suc, ◌+◌, ◌<◌, ◌≡◌, refl, sym, ap, ◌∙◌, List, [], ◌∷◌, some, get_elem?, if◌then◌else◌,
  arith, Bool-cases, inl, inr,
}
use gha_mac_broker.GuestExec.Types.{Event, Execution}
use gha_mac_broker.GuestExec.Log.{max_retained_log_bytes}
use gha_mac_broker.GuestExec.Log.Invariant.{Numbered, LogIsValid}
use gha_mac_broker.GuestExec.Registry.Streaming.{subscribe}
use gha_mac_broker.GuestExec.Registry.Replay.{subscribe-suffix}
use gha_mac_broker.GuestAgent.Wire.{WireEvent}
use gha_mac_broker.GuestAgent.Convert.{event_to_proto}

-- The loop of JobStatus over the events of the subscription, up to the terminal result.
unfoldable pub job_status : List Event → List WireEvent
job_status [] = []
job_status (e ∷ es) =
    let rest = job_status es in
    let (message, terminal) = event_to_proto e in if terminal then message ∷ [] else message ∷ rest

-- Sequence numbers from `n` on, one apart.
abbrev pub Consecutive : ℕ → List WireEvent → Type 0
Consecutive n [] = Unit
Consecutive n (m ∷ ms) = (m.sequence ≡ n) × Consecutive (suc n) ms

Numbered-get_elem? :
    (n i : ℕ) (es : List Event) {x : Event}
    → Numbered n es
    → get_elem? es i ≡ some x
    → x.sequence ≡ n + i
Numbered-get_elem? n i [] v at = cc
Numbered-get_elem? n zero (e ∷ es) v at =
    ap (λ y. y.sequence) (sym (some-injective _ _ at)) ∙ v.0 ∙ omega arith
Numbered-get_elem? n (suc i) (e ∷ es) v at = Numbered-get_elem? (suc n) i es v.1 at ∙ omega arith

Numbered-intro :
    (n : ℕ) (es : List Event)
    → ((i : ℕ) (x : Event) → get_elem? es i ≡ some x → x.sequence ≡ n + i)
    → Numbered n es
Numbered-intro n [] k = tt
Numbered-intro n (e ∷ es) k =
    (k 0 e refl ∙ omega arith, Numbered-intro (suc n) es λ i x at. k (suc i) x at ∙ omega arith)

job_status-Consecutive : (n : ℕ) (es : List Event) → Numbered n es → Consecutive n (job_status es)
unfolding job_status
job_status-Consecutive n [] v = tt
job_status-Consecutive n (e ∷ es) v = elim (Bool-cases (event_to_proto e).1) [
  | inl b ↦ rw b (v.0, tt)
  | inr b ↦ rw b (v.0, job_status-Consecutive (suc n) es v.1)
]

-- The messages of a subscription carry the sequence numbers after the cursor, one apart.
pub subscribe-Consecutive :
    (from_sequence : ℕ) (e : Execution)
    → LogIsValid max_retained_log_bytes e.log
    → from_sequence < 18446744073709551615
    → Consecutive (suc from_sequence) (job_status (subscribe from_sequence e))
subscribe-Consecutive from_sequence e v small =
    job_status-Consecutive (suc from_sequence) (subscribe from_sequence e) (
      Numbered-intro (suc from_sequence) (subscribe from_sequence e) λ i x at.
        Numbered-get_elem? 1 (from_sequence + i) e.log.events v.numbered
          (sym (subscribe-suffix from_sequence i e small) ∙ at)
        ∙ omega arith)
