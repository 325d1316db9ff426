-- ===== src/Nvm.antt =====
-- bsw/services/nvm/registry.go and internal/core/storage (memory.go, update.go): datasets that own keys,
-- the handles that reach them, and transactions. `Registry` is the registration and the handles' scopes,
-- `Store` the storage, `Isolation` who can change which
-- key, `Atomic` when.
pub mod Registry
pub mod Store
pub mod Disjoint
pub mod Atomic
pub mod Isolation
pub mod Examples
