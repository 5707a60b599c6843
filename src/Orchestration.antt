-- ===== src/Orchestration.antt =====
-- application/contracts/jobs.py and orchestration/registry.py, and the ports that a job uses.
pub mod Comparison
pub mod Outcomes
pub mod Escapes
pub mod Composed
pub mod Executor
pub mod Lifecycle
pub mod Draining
pub mod Refinement
pub mod Ccms
use structural_reconciliatio.Base.{
  ℕ, String, Bool, true, false, Option, none, some, List, [], ◌∷◌, ◌==◌, Dict, lookup, put, keys,
  sort_texts, not,
}
use structural_reconciliatio.Runtime.{Runtime}
use structural_reconciliatio.Errors.{
  Result, ok, raise, Error, too_short, policy_locale_mismatch, key_error, ◌>>◌,
}
use structural_reconciliatio.Tree.{CanonicalTree, require, non_empty}
use structural_reconciliatio.Contracts.Profiles.{
  NormalizationProfile, MatchingProfile, AlignmentProfile, OperationProfile, SuppressionProfile,
}
use structural_reconciliatio.Localization.Contracts.{
  AuthoritativeSide, LocalizationValidationResult,
}
use structural_reconciliatio.Localization.Policy.{LocaleVariationPolicy}
use structural_reconciliatio.Reporting.{ReportOptions, ReportTable}

pub data ComparisonState : Type 0 where
  created validating_inputs rejected running completed failed : ComparisonState

-- `record.is_terminal`
unfoldable pub is_terminal : ComparisonState → Bool
is_terminal completed = true
is_terminal rejected = true
is_terminal failed = true
is_terminal _ = false

pub data ReportFormat : Type 0 where
  html csv json : ReportFormat

pub record ArtifactSummary : Type 0 where
  pub format : ReportFormat
  pub name : String
  pub media_type : String
  pub location : Option String
  pub size_bytes : ℕ

-- The messages of errors are left out; the correlation id is made from the job id.
pub record JobRecord : Type 0 where
  pub job_id : String
  pub state : ComparisonState
  pub locale : Option String
  pub status_counts : Dict ℕ
  pub direct_issue_count : ℕ
  pub artifacts : List ArtifactSummary
  pub error_code : Option String
  pub correlation_id : Option String

-- What a port does: it returns a value, raises its own error with a code, which the caller catches,
-- or raises another exception.
pub data Answer {ℓ} (Out : Type ℓ) : Type ℓ where
  given : Out → Answer Out
  refused : (code : String) → Answer Out
  escapes : (reason : Error) → Answer Out

module _ ⦃R : Runtime⦄ where
  pub record ComparisonRequest : Type 0 where
    pub source_content : String
    pub locale_content : String
    pub locale : String
    pub document_profile_id : String
    pub authoritative_side : AuthoritativeSide
    pub report_formats : List ReportFormat
    pub report_options : ReportOptions
    pub policy : Option LocaleVariationPolicy
    pub job_id : Option String

  unfoldable pub policy_matches : Option LocaleVariationPolicy → String → Bool
  policy_matches none locale = true
  policy_matches (some policy) locale = policy.locale == locale

  unfoldable pub validate_request : ComparisonRequest → Result ComparisonRequest
  validate_request request = do
    require (non_empty request.locale) too_short
    require (non_empty request.document_profile_id) too_short
    require (policy_matches request.policy request.locale) policy_locale_mismatch
    ok request

  -- A registered profile: the adapter, a port that reads a document with its tree id and its uri,
  -- and the five profiles of the bundle.
  pub record DocumentProfile : Type 0 where
    pub adapt_document : (content tree_id document_uri : String) → Answer CanonicalTree
    pub normalization : NormalizationProfile
    pub matching : MatchingProfile
    pub alignment : AlignmentProfile
    pub operation : OperationProfile
    pub suppression : SuppressionProfile

  abbrev pub DocumentProfileRegistry : Type 0
  DocumentProfileRegistry = Dict DocumentProfile

  -- `registry.register(...)`: a profile id that is there is overwritten.
  unfoldable pub register_profile :
      DocumentProfileRegistry → String → DocumentProfile → DocumentProfileRegistry
  register_profile registry profile_id profile = put registry profile_id profile

  unfoldable pub resolve : DocumentProfileRegistry → String → Result DocumentProfile
  resolve registry profile_id = elim (lookup registry profile_id) [
    | none ↦ raise (key_error profile_id)
    | some profile ↦ ok profile
  ]

  unfoldable pub known_ids : DocumentProfileRegistry → List String
  known_ids registry = sort_texts (keys registry)

  pub record ArtifactReference : Type 0 where
    pub job_id : String
    pub name : String
    pub media_type : String
    pub location : String
    pub size_bytes : ℕ

  -- What the service is constructed with, and the renderers and the encoding that it calls.
  -- `save` and `write` are the ports of persistence: where they are absent nothing is kept. No port
  -- and no renderer is assumed to return, or to raise its own error only.
  pub record Environment : Type 0 where
    pub registry : DocumentProfileRegistry
    pub save : Option (LocalizationValidationResult → Answer (Unit {0}))
    pub write : Option ((job_id name content media_type : String) → Answer ArtifactReference)
    pub render_csv : ReportTable → Result String
    pub render_json : LocalizationValidationResult → ReportTable → Result String
    pub render_html : LocalizationValidationResult → CanonicalTree → CanonicalTree → Result String
    pub encoded_length : String → Result ℕ
    pub fresh_id : String
