-- ===== src/Alignment.antt =====
-- core/alignment: from the match graph to aligned regions.
pub mod Lcs
pub mod Aligner
