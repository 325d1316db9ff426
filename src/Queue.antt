-- ===== src/Queue.antt =====
-- application/forwarder/queue.go, its policy in config.go, and the repository of its jobs in
-- bsw/cdd/taskhub/forward_repository.go. `Job` has the data and the policy, `Repository` the stored jobs,
-- `Actions` and `Enqueue` the requests of users and producers, `Worker` the single worker, and `System` all
-- of them in any order.
pub mod Job
pub mod Repository
pub mod Actions
pub mod Enqueue
pub mod Worker
pub mod System
pub mod Backoff
pub mod Pick
pub mod Retention
pub mod Retries
pub mod Requests
pub mod Replays
pub mod Examples
