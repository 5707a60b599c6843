-- ===== src/Contracts.antt =====
-- core/contracts: the records that the stages exchange, with the checks that their construction
-- makes.
pub mod Profiles
pub mod Scores
pub mod Matches
pub mod Alignments
pub mod Operations
