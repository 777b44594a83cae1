-- ===== src/Cache.antt =====
-- internal/cache/cache.go: the disk cache of object payloads.
pub mod State
pub mod Sections
pub mod Evict
pub mod Lru
pub mod Invariant
pub mod Keeps
pub mod Rounds
pub mod Limit
pub mod Program
pub mod Interleave
pub mod Exact
pub mod Alone
pub mod Waiters
mod Checks
