-- ===== src/GuestExec/Log.antt =====
-- appendEventLocked and enforceLogByteCapLocked of internal/guestexec/registry.go.
pub mod Invariant
pub mod Newest
pub mod Rescan
use gha_mac_broker.Prelude.{
  ℕ, zero, suc, ◌+◌, ◌-◌, Bool, List, [], ◌∷◌, ◌++◌, Option, none, some, leb, ◌==◌, length,
  get_elem?, set, if◌then◌else◌,
}
use gha_mac_broker.GuestExec.Types.{
  Payload, phase_change, log_chunk, heartbeat, terminal_result, Event, Log,
}

-- 4 MiB.
abbrev pub max_retained_log_bytes : ℕ
max_retained_log_bytes = 4194304

abbrev pub empty_log : Log
empty_log = record { events = []; bytes = 0; cursor = 0 }

-- The bytes that an event retains.
abbrev pub data_size : Payload → ℕ
data_size (phase_change p) = 0
data_size (log_chunk s bytes) = length bytes
data_size (heartbeat n) = 0
data_size (terminal_result c m) = 0

-- The payload without its data; other payloads stay.
abbrev pub emptied : Payload → Payload
emptied (phase_change p) = phase_change p
emptied (log_chunk s bytes) = log_chunk s []
emptied (heartbeat n) = heartbeat n
emptied (terminal_result c m) = terminal_result c m

-- The body of the loop at the event under the cursor, and `logCapCursor++`. An event that is no log
-- chunk, or an empty one, is passed over.
unfoldable pub evict_one : Event → Log → Log
evict_one e l = if data_size e.payload == 0 then record l { cursor = suc l.cursor } else record l {
  bytes = l.bytes - data_size e.payload;
  events = set l.events l.cursor (record e { payload = emptied e.payload });
  cursor = suc l.cursor;
}

-- The loop, with the cap as an argument and fuel for the events left.
unfoldable pub evict : ℕ → ℕ → Log → Log
unfolding evict_one
evict cap zero l = l
evict cap (suc fuel) l = elim (get_elem? l.events l.cursor) [
  | none ↦ l
  | some e ↦ let rest = evict cap fuel (evict_one e l) in if leb l.bytes cap then l else rest
]

-- enforceLogByteCapLocked: a round for each event is enough.
unfoldable pub enforce_log_byte_cap : ℕ → Log → Log
unfolding evict
enforce_log_byte_cap cap l = evict cap (length l.events) l

abbrev pub with_event : Payload → Log → Log
with_event payload l = record l {
  events = l.events ++ record { sequence = suc (length l.events); payload = payload } ∷ [];
  bytes = l.bytes + data_size payload;
}

-- appendEventLocked, with the cap as an argument.
unfoldable pub append_capped : ℕ → Payload → Log → Log
unfolding enforce_log_byte_cap
append_capped cap (phase_change p) l = with_event (phase_change p) l
append_capped cap (log_chunk s bytes) l =
    enforce_log_byte_cap cap (with_event (log_chunk s bytes) l)
append_capped cap (heartbeat n) l = with_event (heartbeat n) l
append_capped cap (terminal_result c m) l = with_event (terminal_result c m) l

unfoldable pub append_event : Payload → Log → Log
unfolding append_capped
append_event = append_capped max_retained_log_bytes
