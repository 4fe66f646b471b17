-- ===== src/Sources.antt =====
-- internal/sources: merging what several metadata databases say about one item. `Field` is the
-- table of fields and how they are read and written, `Compare` the comparison of two sources,
-- `Resolve` the merge; the other children prove things about them.
pub mod Field
pub mod Compare
pub mod Resolve
pub mod Symmetric
pub mod Clean
pub mod Values
pub mod Places
pub mod Decisions
pub mod Stored
pub mod Ratings
pub mod Unmoved
pub mod Settled
pub mod Idempotent
pub mod Pins
pub mod Edits
