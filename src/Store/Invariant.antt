-- ===== src/Store/Invariant.antt =====
-- What holds of the tables of codes between any two calls: the indexes and the reservations agree
-- with the rows. The children prove that each operation keeps it.
pub mod Change
pub mod Methods
pub mod Release
pub mod Create
pub mod Batch
pub mod Defs
pub use Defs.*
