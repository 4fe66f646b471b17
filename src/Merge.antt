-- ===== src/Merge.antt =====
-- internal/server/merge.go: the handlers and background work around the merge of metadata sources.
pub mod Reapply
pub mod Apply
