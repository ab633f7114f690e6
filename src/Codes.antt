-- ===== src/Codes.antt =====
-- internal/codes: the use cases of dynamic codes (service.go) over the store, the blob store and
-- the resolver cache (cache.go).
pub mod Keys
pub mod Destination
pub mod Prepare
pub mod World
pub mod Create
pub mod Change
pub mod Resolve
pub mod Answers
pub mod Coherence
pub mod Soundness
pub mod Scan
pub mod Creation
pub mod Sessions
pub mod Failure
pub mod Success
pub mod Samples
mod Examples
pub mod Batch
pub mod Urls
