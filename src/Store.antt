-- ===== src/Store.antt =====
-- internal/store/storetest/memstore.go: the in-memory implementation of the store contract
-- (internal/store/store.go). It follows every rule that the contract suite pins for the drivers,
-- and it is the only implementation that is not SQL text.
--
-- A method holds the mutex for its whole body, so it is one step: a function of the store that
-- returns the result and the new store. The store never shares memory with its callers, so a copy
-- is the value. The errors are the sentinels of internal/store/errors.go; `invalid` stands for an
-- error that wraps no sentinel, `cancelled` for that of a context which has ended.
pub mod State
pub mod Users
pub mod Tokens
pub mod Codes
pub mod Changes
pub mod Aliases
pub mod Rows
pub mod Listing
pub mod Walkers
pub mod Scans
pub mod Invariant
pub mod Atomic
pub mod Calls
pub mod Evolution
pub mod Concurrency
pub mod Availability
mod Examples
