-- ===== src/GuestExec/Log/Newest.antt =====
-- What enforceLogByteCapLocked of internal/guestexec/registry.go keeps: every event in its place, and
-- the data of the newest chunk if it fits the cap at all.
use mathlib.Core.Option.{some-injective}
use gha_mac_broker.Prelude.{
  ℕ, zero, suc, ◌≤◌, ◌≡◌, refl, sym, ap, ◌∙◌, subst, false, List, [], ◌∷◌, ◌++◌, some, leb, ◌==◌,
  length, length-append, get_elem?, get_elem?-set_ne, set, sum_of, arith, ◌⊎◌, inl, inr, ◌≢◌,
  if_cases, option_cases,
}
use gha_mac_broker.GuestExec.Types.{
  Payload, phase_change, log_chunk, heartbeat, terminal_result, Event, Log,
}
use gha_mac_broker.GuestExec.Log.{
  data_size, emptied, evict_one, evict, enforce_log_byte_cap, with_event, append_capped,
}
use gha_mac_broker.GuestExec.Log.Invariant.{
  event_size, Spent, LogIsValid, LogIsCounted, with_event-IsCounted, evict_one-IsCounted,
  cursor-evict_one, length-evict_one,
}

-- The same events in the same places, each with its payload or with the payload's data dropped.
abbrev pub Trimmed : List Event → List Event → Type 0
Trimmed [] [] = Unit
Trimmed [] (y ∷ ys) = ⊥
Trimmed (x ∷ xs) [] = ⊥
Trimmed (x ∷ xs) (y ∷ ys) =
    (y.sequence ≡ x.sequence)
    × ((y.payload ≡ x.payload) ⊎ (y.payload ≡ emptied x.payload))
    × Trimmed xs ys

Trimmed-refl : (xs : List Event) → Trimmed xs xs
Trimmed-refl [] = tt
Trimmed-refl (x ∷ xs) = (refl, inl refl, Trimmed-refl xs)

emptied_twice : (p : Payload) → emptied (emptied p) ≡ emptied p
emptied_twice (phase_change p) = refl
emptied_twice (log_chunk s bytes) = refl
emptied_twice (heartbeat n) = refl
emptied_twice (terminal_result c m) = refl

payload_trans :
    (p q r : Payload)
    → ((q ≡ p) ⊎ (q ≡ emptied p))
    → ((r ≡ q) ⊎ (r ≡ emptied q))
    → (r ≡ p) ⊎ (r ≡ emptied p)
payload_trans p q r (inl a) (inl b) = inl (b ∙ a)
payload_trans p q r (inl a) (inr b) = inr (b ∙ ap emptied a)
payload_trans p q r (inr a) (inl b) = inr (b ∙ a)
payload_trans p q r (inr a) (inr b) = inr (b ∙ ap emptied a ∙ emptied_twice p)

Trimmed-trans : (xs ys zs : List Event) → Trimmed xs ys → Trimmed ys zs → Trimmed xs zs
Trimmed-trans [] [] zs a b = b
Trimmed-trans [] (y ∷ ys) zs a b = absurd a
Trimmed-trans (x ∷ xs) [] zs a b = absurd a
Trimmed-trans (x ∷ xs) (y ∷ ys) [] a b = absurd b
Trimmed-trans (x ∷ xs) (y ∷ ys) (z ∷ zs) a b =
    (b.0 ∙ a.0, payload_trans x.payload y.payload z.payload a.1 b.1, Trimmed-trans xs ys zs a.2 b.2)

Trimmed-set :
    (xs : List Event) (i : ℕ) {e : Event}
    → get_elem? xs i ≡ some e
    → Trimmed xs (set xs i (record e { payload = emptied e.payload }))
Trimmed-set [] i at = cc
Trimmed-set (x ∷ xs) zero {e} at =
    let q : e ≡ x = sym (some-injective _ _ at) in
    (ap (λ y. y.sequence) q, inr (ap (λ y. emptied y.payload) q), Trimmed-refl xs)
Trimmed-set (x ∷ xs) (suc i) at = (refl, inl refl, Trimmed-set xs i at)

evict_one-Trimmed :
    (l : Log) (e : Event)
    → get_elem? l.events l.cursor ≡ some e
    → Trimmed l.events (evict_one e l).events
unfolding evict_one
evict_one-Trimmed l e at =
    if_cases (λ (r : Log). Trimmed l.events r.events) (data_size e.payload == 0)
      (λ _. Trimmed-refl l.events) (λ _. Trimmed-set l.events l.cursor at)

evict-Trimmed : (cap fuel : ℕ) (l : Log) → Trimmed l.events (evict cap fuel l).events
unfolding evict
evict-Trimmed cap zero l = Trimmed-refl l.events
evict-Trimmed cap (suc fuel) l =
    option_cases Good (get_elem? l.events l.cursor) (λ _. Trimmed-refl l.events)
      λ e at.
        let rest = evict-Trimmed cap fuel (evict_one e l) in
        if_cases Good (leb l.bytes cap) (λ _. Trimmed-refl l.events)
          (λ _. Trimmed-trans l.events (evict_one e l).events _ (evict_one-Trimmed l e at) rest)
  where
    Good : Log → Type 0
    Good r = Trimmed l.events r.events

-- Appending keeps all events in their places and adds the new one behind them; the data of a log
-- chunk is dropped or kept whole, and no other payload changes.
pub append_capped-Trimmed :
    (cap : ℕ) (p : Payload) (l : Log)
    → Trimmed (with_event p l).events (append_capped cap p l).events
unfolding append_capped enforce_log_byte_cap
append_capped-Trimmed cap (phase_change p) l = Trimmed-refl _
append_capped-Trimmed cap (log_chunk s bytes) l =
    evict-Trimmed cap _ (with_event (log_chunk s bytes) l)
append_capped-Trimmed cap (heartbeat n) l = Trimmed-refl _
append_capped-Trimmed cap (terminal_result c m) l = Trimmed-refl _

-- With the first `n` events spent, only the last one counts.
only_last_counts :
    (n : ℕ) (es : List Event) {e : Event}
    → get_elem? es n ≡ some e
    → length es ≡ suc n
    → Spent n es
    → sum_of event_size es ≡ event_size e
only_last_counts n [] at len h = cc
only_last_counts zero (x ∷ []) {e} at len h =
    let q : x ≡ e = some-injective _ _ at in rw q (omega arith)
only_last_counts zero (x ∷ y ∷ es) at len h = absurd (omega arith)
only_last_counts (suc n) (x ∷ es) at len h =
    omega (arith, h.0, only_last_counts n es at (omega arith) h.1)

evict_one-keeps :
    (n : ℕ) (l : Log) (e x : Event)
    → l.cursor ≢ n
    → get_elem? l.events n ≡ some x
    → get_elem? (evict_one e l).events n ≡ some x
unfolding evict_one
evict_one-keeps n l e x other at =
    if_cases (λ (r : Log). get_elem? r.events n ≡ some x) (data_size e.payload == 0) (λ _. at)
      (λ _. get_elem?-set_ne l.events l.cursor n _ other ∙ at)

evict-keeps_last :
    (cap fuel n : ℕ) (l : Log) (x : Event)
    → LogIsCounted l
    → length l.events ≡ suc n
    → get_elem? l.events n ≡ some x
    → event_size x ≤ cap
    → l.cursor ≤ n
    → get_elem? (evict cap fuel l).events n ≡ some x
unfolding evict
evict-keeps_last cap zero n l x v len at fits before = at
evict-keeps_last cap (suc fuel) n l x v len at fits before =
    option_cases Good (get_elem? l.events l.cursor) (λ _. at)
      λ e here.
        let rest = λ (m : l.cursor ≢ n).
          evict-keeps_last cap fuel n (evict_one e l) x (evict_one-IsCounted l e here v)
            (length-evict_one l e ∙ len) (evict_one-keeps n l e x m at) fits
            (omega (arith, cursor-evict_one l e)) in
        if_cases Good (leb l.bytes cap) (λ _. at) (λ over. rest (not_yet over))
  where
    Good : Log → Type 0
    Good r = get_elem? r.events n ≡ some x

    not_yet : leb l.bytes cap ≡ false → l.cursor ≢ n
    not_yet over same = ground (
      arith,
      v.counted,
      only_last_counts n l.events at len (subst (λ (k : ℕ). Spent k l.events) same v.spent),
    )

last_event : (es : List Event) (e : Event) → get_elem? (es ++ e ∷ []) (length es) ≡ some e
last_event [] e = refl
last_event (x ∷ es) e = last_event es e

abbrev newest : Payload → Log → Event
newest p l = record { sequence = suc (length l.events); payload = p }

-- In a well-formed log, a payload whose data fits the cap by itself is kept whole when it is
-- appended: it is the last event, under the next sequence number, with its data.
pub append_capped-keeps_newest :
    (cap : ℕ) (p : Payload) (l : Log)
    → LogIsValid cap l
    → data_size p ≤ cap
    → get_elem? (append_capped cap p l).events (length l.events)
      ≡ some (record { sequence = suc (length l.events); payload = p })
unfolding append_capped enforce_log_byte_cap
append_capped-keeps_newest cap (phase_change p) l v fits =
    last_event l.events (newest (phase_change p) l)
append_capped-keeps_newest cap (log_chunk s bytes) l v fits =
    let p = log_chunk s bytes in
    evict-keeps_last cap (length (with_event p l).events) (length l.events) (with_event p l)
      (newest p l) (with_event-IsCounted cap p l v)
      (omega (arith, length-append l.events (newest p l ∷ []))) (last_event l.events (newest p l))
      fits v.in_range
append_capped-keeps_newest cap (heartbeat n) l v fits = last_event l.events (newest (heartbeat n) l)
append_capped-keeps_newest cap (terminal_result c m) l v fits =
    last_event l.events (newest (terminal_result c m) l)
