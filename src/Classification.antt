-- ===== src/Classification.antt =====
-- core/classification: from aligned regions to structural operations.
pub mod Context
pub mod Presence
pub mod Correspondence
pub mod Classifier
