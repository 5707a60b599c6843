-- ===== src/Localization.antt =====
-- The localization layer of src/reconciliation/application: its contracts and its services.
pub mod Contracts
pub mod Policy
pub mod Recommendations
pub mod Interpretation
pub mod Drafts
pub mod Interpreter
pub mod Service
pub mod Numbering
pub mod NewIssues
pub mod Open
pub mod Links
pub mod Counts
pub mod Coverage
pub mod Totality
pub mod Completion
