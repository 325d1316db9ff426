-- ===== src/Scheduler.antt =====
-- bsw/ecual/comif: the scheduler that limits the files downloaded at once and shares the lanes of
-- each Telegram data centre. `State` has the shared state, `Dispatch` the loop that grants lanes,
-- `Leases` the locked sections of the exported methods.
pub mod State
pub mod Dispatch
pub mod Leases
pub mod Invariant
pub mod Kept
pub mod Fairness
pub mod System
pub mod Examples
