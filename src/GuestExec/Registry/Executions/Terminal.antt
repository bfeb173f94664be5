-- ===== src/GuestExec/Registry/Executions/Terminal.antt =====
-- The terminal results in the event log of internal/guestexec/registry.go.
use gha_mac_broker.Prelude.{
  ◌≡◌, refl, ap, ◌∙◌, Bool, true, false, List, [], ◌∷◌, ◌++◌, ◌⊎◌, inl, inr, All, All-append_one,
}
use gha_mac_broker.GuestExec.Types.{
  Payload, phase_change, log_chunk, heartbeat, terminal_result, Event, Log,
}
use gha_mac_broker.GuestExec.Log.{emptied, append_event, max_retained_log_bytes}
use gha_mac_broker.GuestExec.Log.Newest.{Trimmed, append_capped-Trimmed}

abbrev pub is_final : Payload → Bool
is_final (phase_change p) = false
is_final (log_chunk s bytes) = false
is_final (heartbeat n) = false
is_final (terminal_result c m) = true

abbrev pub IsOpen : Event → Type 0
IsOpen e = is_final e.payload ≡ false

-- No terminal result.
abbrev pub Unfinished : List Event → Type 0
Unfinished es = All IsOpen es

-- Exactly one terminal result, which is the last event.
abbrev pub Finished : List Event → Type 0
Finished es =
    (first : List Event) × (x : Event) × (es ≡ first ++ x ∷ [])
    × Unfinished first
    × (is_final x.payload ≡ true)

emptied-final : (p : Payload) → is_final (emptied p) ≡ is_final p
emptied-final (phase_change p) = refl
emptied-final (log_chunk s bytes) = refl
emptied-final (heartbeat n) = refl
emptied-final (terminal_result c m) = refl

same_final : (p q : Payload) → ((q ≡ p) ⊎ (q ≡ emptied p)) → is_final q ≡ is_final p
same_final p q (inl e) = ap is_final e
same_final p q (inr e) = ap is_final e ∙ emptied-final p

Trimmed-Unfinished : (xs ys : List Event) → Trimmed xs ys → Unfinished xs → Unfinished ys
Trimmed-Unfinished [] [] t u = tt
Trimmed-Unfinished [] (y ∷ ys) t u = absurd t
Trimmed-Unfinished (x ∷ xs) [] t u = absurd t
Trimmed-Unfinished (x ∷ xs) (y ∷ ys) t u =
    (same_final x.payload y.payload t.1 ∙ u.0, Trimmed-Unfinished xs ys t.2 u.1)

pub append_event-Unfinished :
    (p : Payload) (l : Log)
    → is_final p ≡ false
    → Unfinished l.events
    → Unfinished (append_event p l).events
unfolding append_event
append_event-Unfinished p l f u =
    Trimmed-Unfinished _ _ (append_capped-Trimmed max_retained_log_bytes p l)
      (All-append_one IsOpen l.events _ u f)
