-- ===== src/GuestExec/Registry/Executions/Life.antt =====
-- One execution of internal/guestexec/registry.go, under each change that the code makes to it.
use gha_mac_broker.Prelude.{ℕ, ◌≡◌, refl, true, false, ◌==◌, length, if_cases, arith}
use gha_mac_broker.GuestExec.Types.{
  Stream, stdout, stderr, stream_unspecified, Payload, log_chunk, heartbeat, settled, Execution,
}
use gha_mac_broker.GuestExec.Log.{append_event, max_retained_log_bytes}
use gha_mac_broker.GuestExec.Log.Invariant.{LogIsValid, append_capped-IsValid}
use gha_mac_broker.GuestExec.Registry.Lifecycle.{
  emit, ReadResult, bytes, end_of_file, deadline, broken, is_open, close_reader, capture,
  append_heartbeat,
}
use gha_mac_broker.GuestExec.Registry.Executions.Terminal.{
  is_final, Unfinished, Finished, append_event-Unfinished,
}

-- An execution between two critical sections. Its log is well formed; a running one has no terminal
-- result and no armed timer; a completed one has closed readers, a returned supervisor, and one
-- terminal result behind all its other events.
pub record ExecutionIsValid (e : Execution) : Type 0 where
  pub log_valid : LogIsValid max_retained_log_bytes e.log
  pub unfinished : e.running ≡ true → Unfinished e.log.events
  pub finished : e.running ≡ false → Finished e.log.events
  pub stdout_closed : e.running ≡ false → e.stdout_open ≡ false
  pub stderr_closed : e.running ≡ false → e.stderr_open ≡ false
  pub returned : e.running ≡ false → e.supervisor ≡ settled
  pub supervised : e.supervisor ≡ settled → e.running ≡ false
  pub armed : e.timer_armed ≡ true → e.running ≡ false

append_event-IsValid :
    (p : Payload) (e : Execution)
    → LogIsValid max_retained_log_bytes e.log
    → LogIsValid max_retained_log_bytes (append_event p e.log)
unfolding append_event
append_event-IsValid p e v = append_capped-IsValid max_retained_log_bytes p e.log v

-- An event other than a terminal result, on a running execution.
emit-IsValid :
    (p : Payload) (e : Execution)
    → is_final p ≡ false
    → e.running ≡ true
    → ExecutionIsValid e
    → ExecutionIsValid (emit p e)
emit-IsValid p e f t v = record {
  log_valid = append_event-IsValid p e v.log_valid;
  unfinished = λ r. append_event-Unfinished p e.log f (v.unfinished r);
  finished = λ r. absurd (true≢false t r);
  stdout_closed = v.stdout_closed;
  stderr_closed = v.stderr_closed;
  returned = v.returned;
  supervised = v.supervised;
  armed = v.armed;
}
  where
    true≢false : e.running ≡ true → e.running ≡ false → ⊥
    true≢false a b = cc

is_open-running :
    (s : Stream) (e : Execution) → is_open s e ≡ true → ExecutionIsValid e → e.running ≡ true
is_open-running stream_unspecified e o v = grind (arith, v.stderr_closed)
is_open-running stdout e o v = grind (arith, v.stdout_closed)
is_open-running stderr e o v = grind (arith, v.stderr_closed)

close_reader-IsValid :
    (s : Stream) (e : Execution) → ExecutionIsValid e → ExecutionIsValid (close_reader s e)
close_reader-IsValid stdout e v = record {
  log_valid = v.log_valid;
  unfinished = v.unfinished;
  finished = v.finished;
  stdout_closed = λ _. refl;
  stderr_closed = v.stderr_closed;
  returned = v.returned;
  supervised = v.supervised;
  armed = v.armed;
}
close_reader-IsValid stderr e v = record {
  log_valid = v.log_valid;
  unfinished = v.unfinished;
  finished = v.finished;
  stdout_closed = v.stdout_closed;
  stderr_closed = λ _. refl;
  returned = v.returned;
  supervised = v.supervised;
  armed = v.armed;
}
close_reader-IsValid stream_unspecified e v = record {
  log_valid = v.log_valid;
  unfinished = v.unfinished;
  finished = v.finished;
  stdout_closed = v.stdout_closed;
  stderr_closed = λ _. refl;
  returned = v.returned;
  supervised = v.supervised;
  armed = v.armed;
}

pub capture-IsValid :
    (s : Stream) (result : ReadResult) (e : Execution)
    → ExecutionIsValid e
    → ExecutionIsValid (capture s result e)
unfolding capture
capture-IsValid s (bytes data_read) e v =
    if_cases ExecutionIsValid (is_open s e)
      (λ o.
        if_cases ExecutionIsValid (length data_read == 0) (λ _. v)
          (λ _. emit-IsValid (log_chunk s data_read) e refl (is_open-running s e o v) v))
      (λ _. v)
capture-IsValid s end_of_file e v =
    if_cases ExecutionIsValid (is_open s e) (λ _. close_reader-IsValid s e v) (λ _. v)
capture-IsValid s deadline e v =
    if_cases ExecutionIsValid (is_open s e) (λ _. close_reader-IsValid s e v) (λ _. v)
capture-IsValid s (broken text) e v =
    if_cases ExecutionIsValid (is_open s e)
      (λ o.
        close_reader-IsValid s (emit (log_chunk stderr text) e)
          (emit-IsValid (log_chunk stderr text) e refl (is_open-running s e o v) v))
      (λ _. v)

pub append_heartbeat-IsValid :
    (now : ℕ) (e : Execution) → ExecutionIsValid e → ExecutionIsValid (append_heartbeat now e)
unfolding append_heartbeat
append_heartbeat-IsValid now e v =
    if_cases ExecutionIsValid e.running (λ t. emit-IsValid (heartbeat now) e refl t v) (λ _. v)
