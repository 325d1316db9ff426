-- ===== src/Lib.antt =====
-- A model of the core of tdl, a Telegram downloader with a web panel.
--
-- Scheduler (bsw/ecual/comif/scheduler.go, file_limiter.go): the limits on files and chunk lanes. A
-- section that runs under the mutex is a function on the shared state (Scheduler/State, Dispatch,
-- Leases: acquireTask is acquire_round, AcquireChunk is request_chunk, take_grant and abandon_wait,
-- releaseTask is release_task, releaseChunkLocked is release_chunk). Pointers are allocation numbers and
-- maps are functions. Scheduler/System puts the sections in any order, one step each. The dispatch loop
-- runs at most capacity - inFlight rounds, which is when its test fails. Capacity and Snapshots read the
-- state and are not modelled; nor is the wake-up of channels, which only delays a step.
--
-- Delivery (app/http/delivery_status.go): the union of the byte ranges that the HTTP server has sent of a
-- link, and the record that keeps it. mergeHTTPDeliveryRanges is merge_ranges, recordHTTPDelivery is
-- record_delivery, ParseDownloadTaskHTTPStatus is parse_status. A record is kept decoded; a time
-- is a number, 0 the zero time, and the clock is an argument. The text of the JSON and the other fields of
-- a link are left out.
--
-- Forward (application/forward.rules/rules.go): PrepareConfig is prepare_config on the decoded settings
-- (Forward/Rules), validRef is valid_ref (Forward/Refs), the inner function cycle is visit_source and the
-- loop over the sources has_cycle (Forward/Cycle). Destinations is destinations. The fuel of the search is
-- one more than the number of sources, since a visit below another has one source less to enter; the order of the sources, which
-- Go leaves open, is any list's. Registration and the storing of the pointer are left out.
--
-- Nvm (bsw/services/nvm/registry.go, internal/core/storage/memory.go and update.go): Register is register,
-- WriterSet is writer_set, the methods of a writer are scoped_get, scoped_write and writer_update, and
-- Memory.Update is memory_update. A callback is a tree of storage calls (Script). A context is the number
-- of its checks that still pass, so that it can be canceled at every point. The in-memory store is the
-- model's store; the databases of pkg/kv are not modelled, nor a nil store.
--
-- Filter (application/filter.rules/filter.go): PrepareConfig is prepare_filter, ShouldHandle is
-- should_handle, normalizeExtension is normalize_extension and mbToBytes is mb_to_bytes. The lower case of
-- a code point, a table of Go's library, is a parameter.
--
-- Queue (application/forwarder/queue.go and config.go, bsw/cdd/taskhub/forward_repository.go,
-- interfaces/types/forward.go): the stored jobs are a list (Queue/Repository: Save, Update, Remove, Get and
-- Records are save_job, update_job, remove_job, find_job and records). The requests are in Queue/Actions
-- and Queue/Enqueue (EnqueueLinks is enqueue_links, EnqueueMessage enqueue_message, EnqueueRouted enqueue_routed, update
-- update_jobs, Delete delete_jobs), the critical sections of the worker in Queue/Worker (recoverRunning,
-- pickNext, pruneTerminal and the three parts of runJob), and Queue/System has them in any order, one
-- step each. A call of the store may fail at every point: which ones do is an argument. One call reads
-- the clock once, in nanoseconds. The transport is a port: it reports progress and ends with an outcome.
-- SHA-256 is a parameter, and an id of nextID is taken to be new. Left out are the texts of notifications
-- and logs, the wake-up of the worker, and a queue without a store.
--
-- Rte (rte/rte.go, rte/reconciler.go, interfaces/manifest/manifest.go): Build is build (Rte/Assembly), its
-- function visit is visit_id (Rte/Order), startLocked is start_all, Start is start_runtime and Stop is
-- stop_all (Rte/Lifecycle); orderUnits is order_units (Rte/Units). The fuel of visit is one more than the
-- number of ids, since a visit below another has one id less to enter. What a component's factory, Init,
-- Start and Stop do in one call is an argument, a record of results; the reading of configurations
-- (config.New) is an argument too. Register, Resolve, Reconfigure, the rest of the reconciler, the texts of
-- statuses and the diagnostics are left out.
--
-- Downloads (interfaces/types/download_state.go; download_state.go, local_update.go, aria2_control.go and
-- aria2_observation.go of bsw/cdd/taskhub):
-- NormalizeDownloadState is normalize, DownloadTransition is can_follow, Report is report, mergeAria2State is
-- merge_state and the callback of the local Update is update_local; ReserveControl, FinishControl and
-- what Apply changes of a stored record are reserve_control, finish_control and apply_observed
-- (Downloads/Control). Each is a function on one decoded record; strings.ToLower is a parameter, and a revision
-- wraps at 64 bits. The collections of the task hub around them, the new record and the link of Apply are left out.
--
-- Prelude holds the names that the parts share: tests, lists, integers, texts and finite sums.
pub mod Delivery
pub mod Downloads
pub mod Filter
pub mod Forward
pub mod Nvm
pub mod Prelude
pub mod Queue
pub mod Rte
pub mod Scheduler
