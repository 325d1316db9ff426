-- ===== src/Rte.antt =====
-- The runtime environment of rte: the assembly and the lifecycle of components (rte/rte.go).
pub mod Order
pub mod Assembly
pub mod Lifecycle
pub mod Units
pub mod Examples
