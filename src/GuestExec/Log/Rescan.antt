-- ===== src/GuestExec/Log/Rescan.antt =====
-- The cursor of enforceLogByteCapLocked in internal/guestexec/registry.go saves work and changes
-- nothing: a scan of the whole log from its start evicts the same chunks.
use mathlib.Core.Option.{some-injective}
use gha_mac_broker.Prelude.{
  ℕ, zero, suc, ◌+◌, ◌≤◌, ◌<◌, ◌≡◌, refl, ◌∙◌, List, [], ◌∷◌, some, leb, length, get_elem?,
  get_elem?-lt, lt-get_elem?, arith, if_cases, option_cases, inl, inr, Bool-cases, Option-cases,
}
use gha_mac_broker.GuestExec.Types.{Payload, Event, Log}
use gha_mac_broker.GuestExec.Log.{evict_one, evict, enforce_log_byte_cap, with_event}
use gha_mac_broker.GuestExec.Log.Invariant.{
  event_size, Spent, LogIsValid, LogIsCounted, cursor-evict_one, length-evict_one,
  with_event-IsCounted,
}

evict-stops : (cap fuel : ℕ) (l : Log) → l.bytes ≤ cap → evict cap fuel l ≡ l
unfolding evict
evict-stops cap zero l fits = refl
evict-stops cap (suc fuel) l fits =
    option_cases (λ (r : Log). r ≡ l) (get_elem? l.events l.cursor) (λ _. refl)
      λ e _.
        if_cases (λ (r : Log). r ≡ l) (leb l.bytes cap) (λ _. refl) (λ over. absurd (ground arith))

-- Any two fuels that are enough give the same result.
evict-same :
    (cap f g : ℕ) (l : Log)
    → length l.events ≤ l.cursor + f
    → length l.events ≤ l.cursor + g
    → evict cap f l ≡ evict cap g l
unfolding evict
evict-same cap zero zero l a b = refl
evict-same cap zero (suc g) l a b = elim (Option-cases (get_elem? l.events l.cursor)) [
  | inl e ↦ ground arith
  | inr (x, at) ↦ absurd (omega (arith, get_elem?-lt l.cursor l.events at))
]
evict-same cap (suc f) zero l a b = elim (Option-cases (get_elem? l.events l.cursor)) [
  | inl e ↦ ground arith
  | inr (x, at) ↦ absurd (omega (arith, get_elem?-lt l.cursor l.events at))
]
evict-same cap (suc f) (suc g) l a b = elim (Option-cases (get_elem? l.events l.cursor)) [
  | inl e ↦ ground arith
  | inr (x, at) ↦ ground (
    arith,
    evict-same cap f g (evict_one x l) (omega (arith, length-evict_one l x, cursor-evict_one l x))
        (omega (arith, length-evict_one l x, cursor-evict_one l x)),
  )
]

Spent-get_elem? :
    (n k : ℕ) (es : List Event) {e : Event}
    → Spent n es
    → k < n
    → get_elem? es k ≡ some e
    → event_size e ≡ 0
Spent-get_elem? zero k es h lt at = elim lt [ ]
Spent-get_elem? (suc n) k [] h lt at = cc
Spent-get_elem? (suc n) zero (x ∷ es) {e} h lt at =
    let q : x ≡ e = some-injective _ _ at in rw (← q) h.0
Spent-get_elem? (suc n) (suc k) (x ∷ es) h lt at = Spent-get_elem? n k es h.1 (omega arith) at

abbrev from : ℕ → Log → Log
from k l = record l { cursor = k }

-- One round over a spent event only moves the cursor.
evict-passes :
    (cap f k : ℕ) (l : Log) {e : Event}
    → get_elem? l.events k ≡ some e
    → event_size e ≡ 0
    → cap < l.bytes
    → evict cap (suc f) (from k l) ≡ evict cap f (from (suc k) l)
unfolding evict evict_one
evict-passes cap f k l at z over = ground arith

rescan :
    (cap f g d k : ℕ) (l : Log)
    → k + d ≡ l.cursor
    → Spent l.cursor l.events
    → l.cursor ≤ length l.events
    → length l.events ≤ k + f
    → length l.events ≤ l.cursor + g
    → cap < l.bytes
    → let r = evict cap f (from k l) in r ≡ evict cap g l
rescan cap f g zero k l e s in_range enough enough' over =
    let same : k ≡ l.cursor = omega arith in rw same (evict-same cap f g l (omega arith) enough')
rescan cap zero g (suc d) k l e s in_range enough enough' over = absurd (omega arith)
rescan cap (suc f) g (suc d) k l e s in_range enough enough' over =
    let (x, at) = lt-get_elem? k l.events (omega arith) in
    evict-passes cap f k l at (Spent-get_elem? l.cursor k l.events s (omega arith) at) over
    ∙ rescan cap f g d (suc k) l (omega arith) s in_range (omega arith) enough' over

-- For a well-formed log with one more event, the loop that resumes at the cursor drops the same data
-- and leaves the same byte count as a loop that scans all events from the first one.
pub enforce_log_byte_cap-rescan :
    (cap : ℕ) (p : Payload) (l : Log)
    → LogIsValid cap l
    → let grown = with_event p l in
      let full = enforce_log_byte_cap cap (record grown { cursor = 0 }) in
      ((enforce_log_byte_cap cap grown).events ≡ full.events)
      × ((enforce_log_byte_cap cap grown).bytes ≡ full.bytes)
unfolding enforce_log_byte_cap
enforce_log_byte_cap-rescan cap p l v = both (with_event p l) (with_event-IsCounted cap p l v)
  where
    both :
        (g : Log)
        → LogIsCounted g
        → ((evict cap (length g.events) g).events ≡ (evict cap (length g.events) (from 0 g)).events)
          × ((evict cap (length g.events) g).bytes ≡ (evict cap (length g.events) (from 0 g)).bytes)
    both g c = elim (Bool-cases (leb g.bytes cap)) [
      | inl fits ↦
          let a = evict-stops cap (length g.events) g (ground arith) in
          let b = evict-stops cap (length g.events) (from 0 g) (ground arith) in
          (rw (a, b), rw (a, b))
      | inr over ↦
          let e =
            rescan cap (length g.events) (length g.events) g.cursor 0 g (omega arith) c.spent
              c.in_range (omega arith) (omega arith) (ground arith) in
          (rw e, rw e)
    ]
