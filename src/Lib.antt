-- ===== src/Lib.antt =====
-- buildkit-service: batch and on-demand image builds on a pool of BuildKit workers.
--
-- The daemon (internal/builddaemon) takes one build per HTTP request. handleCreateBuild puts a task
-- into the task table and hands its id to the queue of its build mode or to a goroutine of its own;
-- a worker of that mode runs it on a BuildKit worker, which the consistent hash chooses for the
-- build context; requests read, list and cancel tasks; a reaper removes those that finished long
-- ago. The modules below follow these parts.
--
--   Prelude            Boolean tests, lists, strings as code points, maps as association lists,
--                      sorting, finite sets of numbers, results
--   Daemon.Task        tasks.go: buildTask, cloneTask, viewTask
--   Daemon.Store       tasks.go: taskStore; Store.Expiry on deleteExpired
--   Daemon.Lifecycle   tasks.go, server.go: cancel, markTaskQueued, the assignment of a worker in
--                      runBuildStepAttempt, finishTask, the deferred close of runBuildTask,
--                      handleCancelBuild, cleanupTask, cleanupExpiredTasks
--   Daemon.Steps       the same as steps in any order: Frame, Evolution, Growth, Soundness, Finality,
--                      Counters, Cancel, Channels
--   Daemon.Hash        scheduler.go: consistentHash, newConsistentHash, getSlotOrder, fnv1a
--   Daemon.Build       build.go: image types, steps, error classes, attributes
--   Daemon.Pool        scheduler.go: addrPool, acquireAddrSlot; Pool.Replace, Pool.Choice
--   Daemon.Addresses   scheduler.go: parseBuildkitAddrs
--   Daemon.Attempt     tasks.go: runBuildStepAttempt; Rounds, Slots, Failover, Ending, Steps
--   Daemon.Run         tasks.go: runBuildTask; Preserves, Reaching, Slots, Ending,
--                      Termination, Verdicts, Statuses
--   Daemon.Request     build_request.go: handleCreateBuild, its limits and its parsers; Admission
--   Daemon.Queue       mode_scheduler.go: buildTaskQueue
--   Daemon.Modes       mode_scheduler.go: parseBuildModes, resolve, names, routingRequired
--   Daemon.Scheduler   mode_scheduler.go: buildModeScheduler
--   Daemon.Router      builddaemon/target_router.go: parseRoutingTargets, Route; Rendezvous
--   Daemon.Workspace   builddaemon/workspace.go: copyWithLimit, limitedLogWriter, tailFile
--   Daemon.Archive     builddaemon/workspace.go: extractZip, validateBuildArchivePath; Paths, Unpacking
--   Daemon.HostRules   builddaemon/registry.go: parseRegistryHostRules
--   Daemon.Registry    builddaemon/registry.go: Check, RoundTrip, handleHeadImage; Guard
--   Batch.Counters     buildbatch/results.go: buildOutcomeCounters, UpsertResult; Counters.Tally
--   Batch.FailureLog   buildbatch/failure_log_store.go; Bisection, Size, Lines, Trimming,
--                      Appending
--   Batch.Capture      buildbatch/build_execution.go: buildOutputCapture, Write; Tail, Written, Full
--   Batch.Specs        buildbatch/build_specs.go: groupBuildSpecs, filterBuildJobs; Filter, Group
--   Batch.ResultDb     buildbatch/lmdb_store_linux.go: lmdbResultDB; Protocol, Storing
--   Batch.Queries      buildbatch/daemon_options.go: the values of a query
--   Batch.Options      buildbatch/daemon_options.go, config.go, build_variables.go:
--                      buildOptionsFromQuery, Run; Validity, Agreement
--   Batch.Preparation  buildbatch/build_command_streaming.go: streamPreparedBuildJobs; Accounts, Total,
--                      Doubled
--   Batch.Scheduler    buildbatch/scheduler.go, buildkit_addresses.go: addrPool with cooldowns,
--                      pickAvailableAddrSlot, waitForAvailableAddrSlot; Choice
--   Batch.Command      buildbatch/build_command_batch.go: runBuildCommandBatch; Sums, Conservation,
--                      Ending, Progress, Completion, Cancelled
--   Batch.Daemon       buildbatch/daemon.go, daemon_handlers.go: daemonServer, handleBuildPost,
--                      runBuildAsync, handleBuildCancel; Plans, Exclusion, Closing, Images
--   Dockerfile         pkg/dockerfilepreprocess: Lines, Legacy, Heredocs and Transform are
--                      TransformLegacyHeredocs; Splitting, Rewriting, Whole
--   Tests              runs at concrete inputs
--
-- A Go string is the list of its code points, a map an association list, a nil pointer `none`. A
-- mutex makes its method one step. sort.Slice is a stable insertion sort; the language leaves the
-- order of equal entries open. The loop of getSlotOrder takes fuel; the length of the ring is
-- enough where every worker owns a place. Counters of tasks do not wrap around; the sum of the
-- concurrencies wraps at 64 bits, as a Go int does.
--
-- A round of an attempt has what it meets as its input: the clock, the builds that hold each
-- semaphore, the critical sections of the other goroutines, the answer of the runner and what the
-- addresses resolve to. Its loop takes fuel; one more than the addresses that ever resolve is enough.
-- Others take steps in its waits and builds, in the wait for a retry, before finishTask and before
-- the deferred function of runBuildTask, and between the two critical sections of a cancellation.
-- A pass of the batch's scheduler over the slots reads the clock once.
--
-- A batch command is a state that its main goroutine and its builds share; an event is one action of
-- one of them, so that a list of events is an interleaving. A request to the daemon of the batch is
-- a plan of actions on the shared state; the plans interleave.
--
-- Not modelled: logs, traces and metrics output, the HTTP and BuildKit libraries, the file system.
pub mod Prelude
pub mod Daemon
pub mod Batch
pub mod Dockerfile
mod Tests
