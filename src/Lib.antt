-- ===== src/Lib.antt =====
-- gha-mac-broker: the broker of a warm pool of macOS virtual machines for GitHub Actions jobs.
--
-- A webhook server puts queued jobs into a pool of workers. Each worker owns one warm VM with one
-- or more slots; the goroutine of a free slot takes the next job and runs it in the VM, where a
-- guest agent keeps a registry of executions. A reconcile loop recycles old, idle and hung VMs.
--
-- The parts, the files that model them, and the code:
--
--   RunnerPool (internal/runnerpool). Types holds the data of pool.go. A Go method that locks the
--   pool's mutex is a function from the old pool to the new one and its results: Options has New,
--   normalizeOptions and Reconfigure; Workers the worker's side (markWarming, activateWorker,
--   waitForWorkerRecycleOrShutdown, clearWorker); Jobs the slot's side (Enqueue, waitForSlotJob,
--   finishSlotJob, claimResumeSlot, recycleWorkerFreeingSlot, and what slotLoop does with results);
--   Recycle has requestRecycle, requestBusyRecycle, CancelRun (cancel_job) and
--   claimSlotReapWarning; Reap has reap.go, Reconcile the idle side of Reconcile, Adopt adopt.go,
--   Status snapshotLocked and the phases. System makes each critical section a step, so that a list
--   of steps is an interleaving of the goroutines. Invariant, Fifo, Dispatch, Capacity, Reaping,
--   CancelRun and IdleRecycle prove things; Examples holds tests.
--
--   GuestExec (internal/guestexec). Types holds the data of types.go and registry.go; executions are
--   shared by pointer, so they lie in a heap and the maps (Maps, Keys) lead to places of it. Log has
--   appendEventLocked and enforceLogByteCapLocked; Registry/Admission has CheckAdmission, Register,
--   Start and Drain; Registry/Lifecycle captureOutput, ReportExit, superviseExecution with
--   reapAndComplete and completeExecution, expire and Cancel; Registry/Streaming stream. System makes
--   each of them a step; Executions, Slots, Retry, Draining and Replay prove things.
--
--   GuestAgent (internal/guestagent). Wire has the messages of api/guest/v1/guest.proto, Convert
--   convert.go, and Stream the loop of JobStatus. RunJob has RunJob of guestagent.go, cut at Build and
--   at startExecution where other goroutines run, under the locks of the slots, and the slots of
--   Hello; Exclusion and Idle prove things about every interleaving of it with the registry.
--   Homebrew has the refresh of runner.go, where Machine holds what brew and the system answer;
--   Homebrew/Once proves things about the first refresh of a boot.
--   RunnerEnv has the directories, the environment and the command line of a runner, whose System is
--   what the Go library gives; RunnerEnv/Isolation is about runners in different slots.
--
--   Broker (internal/broker, bind.go). Drain has drainStream, drainToTerminal and drainJob over the
--   rounds that a drain meets: each round is a function of the cursor at which it opens the stream.
--   Run has RunJob, ResumeJob and RunningSlots, Adopt has reattachSlots and Adopt. Rounds says what a
--   drain takes and what a guest serves. Resume, Outcome, Finish, Reuse, Selection, Reattached and
--   Restart prove things; they compose the drain with the guest's log, the errors of drainJob with
--   the pool's slots, and the registry's List with the workers that the pool installs.
--
--   GhApp (internal/ghapp/ghapp.go): Paging has the loop over the pages of a list, Client the methods
--   that list, sweep and cancel; Pages serves a list in pages. Golden (internal/golden): Fingerprint
--   has fingerprint.go, Fields reads back what it writes. GuestFiles (internal/guestsupervisor): Files
--   has the system calls that replace a file, with the state of the file system after each; Slots and
--   Token have slots.go and token.go, Decimal the decimal numbers of strconv. Config
--   (internal/config/config.go): Load has Load, applyDefaults and validate.
--
--   HostedLoad (internal/hostedload): the tracker of GitHub-hosted jobs. Deploy (internal/deploy):
--   Decide. Server (internal/server): Guards has the checks of address, signature and token, Images
--   ResolveImage of internal/config/config.go, Handlers the handlers, which act on a pool of
--   RunnerPool and a tracker of HostedLoad. The functions of the standard library that they call
--   (strings, net, crypto, encoding) are the fields of Platform, an argument.
--
-- Conventions. An instant is a number of nanoseconds since Go's zero Time; durations and ids are
-- signed, by the ℤ of Prelude/Int. A method that loops on a condition variable is one pass of its
-- loop, whose result may be to wait. A context is a number; a call of a cancel function is a record
-- in the pool's `cancels`. Logging is left out. A worker's index comes from a loop over the workers,
-- so that an index out of range, at which Go would panic, leaves the pool alone.
--
-- Bounds. A uint32 and a uint64 wrap where the code adds to them. The eviction loop of a log has a
-- round for each event, and a replay one for each event and one more, which is as far as their cursors
-- can go; the byte cap of a log is an argument and 4 MiB in the registry. A loop over pages has fuel:
-- as much as the largest total that the API reports, and one turn more, is enough. A drain is run over
-- the list of its rounds, and a wait for the slot count over the list of its turns. The digits of a
-- number n take at most n + 1 steps.
--
-- Not modelled: process and VM control, RPC, file input and output and the writing of responses; the
-- answers of the guest, of tart and of GitHub are arguments. A write to the run log of a job succeeds.
-- Of the broker package, Warm and the sweeps, which are calls of tart; of the guest agent, the
-- provisioning of a slot by system tools; of ghapp, HTTP, JSON and the signing of tokens. The goroutine loops themselves
-- (workerLoop, slotLoop) are represented by the freedom of the step lists.
pub mod Broker
pub mod Config
pub mod Deploy
pub mod GhApp
pub mod Golden
pub mod GuestAgent
pub mod GuestExec
pub mod GuestFiles
pub mod HostedLoad
pub mod Prelude
pub mod RunnerPool
pub mod Server
