-- ===== src/GuestExec/Log/Invariant.antt =====
-- The event log of internal/guestexec/registry.go: numbered without gaps, its bytes counted right and
-- under the cap, whatever is appended.
use mathlib.Core.Option.{some-injective}
use gha_mac_broker.Prelude.{
  ℕ, zero, suc, ◌+◌, ◌≤◌, ◌≡◌, refl, ◌∙◌, subst, List, [], ◌∷◌, ◌++◌, none, some, leb, ◌==◌, length,
  length-append, length-set, get_elem?, get_elem?-lt, set, sum_of, sum_of-set, arith, if_cases,
  option_cases,
}
use gha_mac_broker.GuestExec.Types.{
  Payload, phase_change, log_chunk, heartbeat, terminal_result, Event, Log,
}
use gha_mac_broker.GuestExec.Log.{
  data_size, emptied, evict_one, evict, enforce_log_byte_cap, with_event, append_capped,
}

abbrev pub event_size : Event → ℕ
event_size e = data_size e.payload

-- Sequence numbers from `n` on, one apart.
abbrev pub Numbered : ℕ → List Event → Type 0
Numbered n [] = Unit
Numbered n (e ∷ es) = (e.sequence ≡ n) × Numbered (suc n) es

-- The first `n` events retain no bytes.
abbrev pub Spent : ℕ → List Event → Type 0
Spent zero es = Unit
Spent (suc n) [] = Unit
Spent (suc n) (e ∷ es) = (event_size e ≡ 0) × Spent n es

pub record LogIsValid (cap : ℕ) (l : Log) : Type 0 where
  pub numbered : Numbered 1 l.events
  pub counted : l.bytes ≡ sum_of event_size l.events
  pub spent : Spent l.cursor l.events
  pub in_range : l.cursor ≤ length l.events
  pub capped : l.bytes ≤ cap

-- The same but for the cap, which holds again only after the loop.
pub record LogIsCounted (l : Log) : Type 0 where
  pub numbered : Numbered 1 l.events
  pub counted : l.bytes ≡ sum_of event_size l.events
  pub spent : Spent l.cursor l.events
  pub in_range : l.cursor ≤ length l.events

pub emptied-size : (p : Payload) → data_size (emptied p) ≡ 0
emptied-size (phase_change p) = refl
emptied-size (log_chunk s bytes) = refl
emptied-size (heartbeat n) = refl
emptied-size (terminal_result c m) = refl

Numbered-set :
    (n i : ℕ) (es : List Event) (p : Payload) {e : Event}
    → get_elem? es i ≡ some e
    → Numbered n es
    → Numbered n (set es i (record e { payload = p }))
Numbered-set n i [] p at h = cc
Numbered-set n zero (x ∷ es) p {e} at h =
    let q : x ≡ e = some-injective _ _ at in (rw (← q) h.0, h.1)
Numbered-set n (suc i) (x ∷ es) p at h = (h.0, Numbered-set (suc n) i es p at h.1)

pub Numbered-append :
    (n k : ℕ) (es : List Event) (p : Payload)
    → n + length es ≡ k
    → Numbered n es
    → Numbered n (es ++ record { sequence = k; payload = p } ∷ [])
Numbered-append n k [] p e h = (omega arith, tt)
Numbered-append n k (x ∷ es) p e h = (h.0, Numbered-append (suc n) k es p (omega arith) h.1)

-- The cursor passes an event that retains nothing.
Spent-suc :
    (n : ℕ) (es : List Event) {e : Event}
    → get_elem? es n ≡ some e
    → event_size e ≡ 0
    → Spent n es
    → Spent (suc n) es
Spent-suc n [] at z h = tt
Spent-suc zero (x ∷ es) {e} at z h = let q : x ≡ e = some-injective _ _ at in (rw q z, tt)
Spent-suc (suc n) (x ∷ es) at z h = (h.0, Spent-suc n es at z h.1)

Spent-set :
    (n : ℕ) (es : List Event) (v : Event)
    → event_size v ≡ 0
    → Spent n es
    → Spent (suc n) (set es n v)
Spent-set n [] v z h = tt
Spent-set zero (x ∷ es) v z h = (z, tt)
Spent-set (suc n) (x ∷ es) v z h = (h.0, Spent-set n es v z h.1)

pub Spent-append : (n : ℕ) (es ys : List Event) → n ≤ length es → Spent n es → Spent n (es ++ ys)
Spent-append zero es ys b h = tt
Spent-append (suc n) [] ys b h = elim b [ ]
Spent-append (suc n) (x ∷ es) ys b h = (h.0, Spent-append n es ys (omega arith) h.1)

Spent-all : (es : List Event) → Spent (length es) es → sum_of event_size es ≡ 0
Spent-all [] h = refl
Spent-all (x ∷ es) h = omega (arith, h.0, Spent-all es h.1)

sum_of-append :
    (es : List Event) (e : Event)
    → sum_of event_size (es ++ e ∷ []) ≡ sum_of event_size es + event_size e
sum_of-append [] e = omega arith
sum_of-append (x ∷ es) e = omega (arith, sum_of-append es e)

pub evict_one-IsCounted :
    (l : Log) (e : Event)
    → get_elem? l.events l.cursor ≡ some e
    → LogIsCounted l
    → LogIsCounted (evict_one e l)
unfolding evict_one
evict_one-IsCounted l e at v =
    if_cases LogIsCounted (data_size e.payload == 0)
      (λ z. record {
        numbered = v.numbered;
        counted = v.counted;
        spent = Spent-suc l.cursor l.events at (ground arith) v.spent;
        in_range = get_elem?-lt l.cursor l.events at;
      })
      (λ _. record {
        numbered = Numbered-set 1 l.cursor l.events (emptied e.payload) at v.numbered;
        counted = omega (
          arith,
          v.counted,
          sum_of-set event_size l.events l.cursor (record e { payload = emptied e.payload }) at,
          emptied-size e.payload,
        );
        spent = Spent-set l.cursor l.events _ (emptied-size e.payload) v.spent;
        in_range = omega (
          arith,
          get_elem?-lt l.cursor l.events at,
          length-set l.events l.cursor (record e { payload = emptied e.payload }),
        );
      })

pub length-evict_one : (l : Log) (e : Event) → length (evict_one e l).events ≡ length l.events
unfolding evict_one
length-evict_one l e =
    if_cases (λ (r : Log). length r.events ≡ length l.events) (data_size e.payload == 0) (λ _. refl)
      (λ _. length-set l.events l.cursor _)

pub cursor-evict_one : (l : Log) (e : Event) → (evict_one e l).cursor ≡ suc l.cursor
unfolding evict_one
cursor-evict_one l e = ground arith

-- Past the last event nothing is retained.
counted_end : (cap : ℕ) (l : Log) → length l.events ≤ l.cursor → LogIsCounted l → l.bytes ≤ cap
counted_end cap l over v =
    let e : l.cursor ≡ length l.events = omega (arith, v.in_range) in
    omega (arith, v.counted, Spent-all l.events (subst (λ n. Spent n l.events) e v.spent))

pub out_of_range : (es : List Event) (i : ℕ) → get_elem? es i ≡ none → length es ≤ i
out_of_range [] i h = omega arith
out_of_range (x ∷ es) zero h = cc
out_of_range (x ∷ es) (suc i) h = omega (arith, out_of_range es i h)

pub record Evicted (cap : ℕ) (l r : Log) : Type 0 where
  pub still_counted : LogIsCounted r
  pub under_cap : r.bytes ≤ cap
  pub same_length : length r.events ≡ length l.events

-- With fuel for the events left, the loop ends with the bytes under the cap.
pub evict-Evicted :
    (cap fuel : ℕ) (l : Log)
    → length l.events ≤ l.cursor + fuel
    → LogIsCounted l
    → Evicted cap l (evict cap fuel l)
unfolding evict
evict-Evicted cap zero l enough v = record {
  still_counted = v;
  under_cap = counted_end cap l (omega arith) v;
  same_length = refl;
}
evict-Evicted cap (suc fuel) l enough v =
    option_cases (Evicted cap l) (get_elem? l.events l.cursor)
      (λ out. record {
        still_counted = v;
        under_cap = counted_end cap l (out_of_range l.events l.cursor out) v;
        same_length = refl;
      })
      λ e at.
        let rest =
          evict-Evicted cap fuel (evict_one e l)
            (omega (arith, length-evict_one l e, cursor-evict_one l e))
            (evict_one-IsCounted l e at v) in
        if_cases (Evicted cap l) (leb l.bytes cap)
          (λ fits. record { still_counted = v; under_cap = ground arith; same_length = refl })
          (λ _. record {
            still_counted = rest.still_counted;
            under_cap = rest.under_cap;
            same_length = rest.same_length ∙ length-evict_one l e;
          })

pub with_event-IsCounted :
    (cap : ℕ) (p : Payload) (l : Log) → LogIsValid cap l → LogIsCounted (with_event p l)
with_event-IsCounted cap p l v = record {
  numbered = Numbered-append 1 (suc (length l.events)) l.events p (omega arith) v.numbered;
  counted = omega (
    arith,
    v.counted,
    sum_of-append l.events (record { sequence = suc (length l.events); payload = p }),
  );
  spent = Spent-append l.cursor l.events _ v.in_range v.spent;
  in_range = omega (
    arith,
    v.in_range,
    length-append l.events (record { sequence = suc (length l.events); payload = p } ∷ []),
  );
}

pub enforce_log_byte_cap-Evicted :
    (cap : ℕ) (l : Log) → LogIsCounted l → Evicted cap l (enforce_log_byte_cap cap l)
unfolding enforce_log_byte_cap
enforce_log_byte_cap-Evicted cap l v = evict-Evicted cap (length l.events) l (omega arith) v

plain-IsValid :
    (cap : ℕ) (p : Payload) (l : Log)
    → data_size p ≡ 0
    → LogIsValid cap l
    → LogIsValid cap (with_event p l)
plain-IsValid cap p l z v =
    let c = with_event-IsCounted cap p l v in
    record {
      numbered = c.numbered;
      counted = c.counted;
      spent = c.spent;
      in_range = c.in_range;
      capped = omega (arith, v.capped, z);
    }

-- Whatever is appended to a well-formed log, under any cap: the events stay numbered from 1 without a
-- gap, the byte count is the sum of the data still held and at most the cap, and every event before
-- the cursor holds no data.
pub append_capped-IsValid :
    (cap : ℕ) (p : Payload) (l : Log) → LogIsValid cap l → LogIsValid cap (append_capped cap p l)
unfolding append_capped
append_capped-IsValid cap (phase_change p) l v = plain-IsValid cap (phase_change p) l refl v
append_capped-IsValid cap (log_chunk s bytes) l v =
    let r =
      enforce_log_byte_cap-Evicted cap (with_event (log_chunk s bytes) l)
        (with_event-IsCounted cap (log_chunk s bytes) l v) in
    record {
      numbered = r.still_counted.numbered;
      counted = r.still_counted.counted;
      spent = r.still_counted.spent;
      in_range = r.still_counted.in_range;
      capped = r.under_cap;
    }
append_capped-IsValid cap (heartbeat n) l v = plain-IsValid cap (heartbeat n) l refl v
append_capped-IsValid cap (terminal_result c m) l v =
    plain-IsValid cap (terminal_result c m) l refl v
