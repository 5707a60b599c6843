-- ===== src/Matching.antt =====
-- core/matching: from the evidence to the match graph.
pub mod Candidates
pub mod Scorer
pub mod Authoritative
pub mod Ambiguity
pub mod Similarity
pub mod Matcher
pub mod OneToOne
