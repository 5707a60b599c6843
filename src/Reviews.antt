-- ===== src/Reviews.antt =====
-- application/contracts/reviews.py and the service reviewer_decisions.py.
pub mod Recorded
use structural_reconciliatio.Base.{
  ℕ, String, Bool, true, false, Option, none, some, List, [], ◌∷◌, ◌==◌, ◌&&◌, not, same_count,
  option_eq, if◌then◌else◌,
}
use structural_reconciliatio.Runtime.{Runtime}
use structural_reconciliatio.Errors.{
  Result, ok, raise, too_short, override_without_replacement, override_unchanged,
  decision_for_other_job, decision_for_unknown_issue, ◌>>◌,
}
use structural_reconciliatio.Tree.{require, non_empty}
use structural_reconciliatio.Contracts.Profiles.{truthy}
use structural_reconciliatio.Localization.Contracts.{
  LocalizationIssue, LocalizationValidationResult, status_value,
}

pub data DecisionType : Type 0 where
  accept reject override defer unresolved : DecisionType

-- `.value`
abbrev pub decision_value : DecisionType → String
decision_value accept = "ACCEPT"
decision_value reject = "REJECT"
decision_value override = "OVERRIDE"
decision_value defer = "DEFER"
decision_value unresolved = "UNRESOLVED"

unfoldable pub is_override : DecisionType → Bool
is_override override = true
is_override _ = false

-- The identifier `issue-3` is the number 3.
pub record ReviewerDecisionCommand : Type 0 where
  pub job_id : String
  pub issue_id : ℕ
  pub decision : DecisionType
  pub reviewer_id : Option String
  pub reason : Option String
  pub comment : Option String
  pub overridden_status : Option String

unfoldable pub validate_command : ReviewerDecisionCommand → Result ReviewerDecisionCommand
validate_command command = do
  require (non_empty command.job_id) too_short
  require (not (is_override command.decision && not (truthy command.overridden_status)))
      override_without_replacement
  ok command

-- The time of a decision is a text.
pub record ReviewerDecision : Type 0 where
  pub decision_id : String
  pub job_id : String
  pub issue_id : ℕ
  pub decision : DecisionType
  pub original_status : String
  pub overridden_status : Option String
  pub reviewer_id : Option String
  pub reason : Option String
  pub comment : Option String
  pub decided_at : String

unfoldable pub validate_decision : ReviewerDecision → Result ReviewerDecision
validate_decision decision = do
  require (non_empty decision.decision_id) too_short
  require (non_empty decision.job_id) too_short
  require (not (is_override decision.decision && not (truthy decision.overridden_status)))
      override_without_replacement
  require
      (not (
        is_override decision.decision
        && option_eq decision.overridden_status (some decision.original_status)))
      override_unchanged
  ok decision

module _ ⦃R : Runtime⦄ where
  -- `next((i for i in issues if i.issue_id == issue_id), None)`
  unfoldable pub find_issue : List LocalizationIssue → ℕ → Option LocalizationIssue
  find_issue [] issue_id = none
  find_issue (issue ∷ issues) issue_id =
      if same_count issue.issue_id issue_id then some issue else find_issue issues issue_id

  unfoldable pub make_decision :
      (decision_id decided_at : String)
      → ReviewerDecisionCommand
      → LocalizationIssue
      → Result ReviewerDecision
  make_decision decision_id decided_at command issue = validate_decision (record {
    decision_id = decision_id;
    job_id = command.job_id;
    issue_id = command.issue_id;
    decision = command.decision;
    original_status = status_value issue.localization_status;
    overridden_status = if is_override command.decision then command.overridden_status else none;
    reviewer_id = command.reviewer_id;
    reason = command.reason;
    comment = command.comment;
    decided_at = decided_at;
  })

  -- `record(command, result)`, with the identifier and the time that the factories gave
  unfoldable pub record_decision :
      (decision_id decided_at : String)
      → ReviewerDecisionCommand
      → LocalizationValidationResult
      → Result ReviewerDecision
  record_decision decision_id decided_at command result =
      if command.job_id == result.job_id
      then elim (find_issue result.issues command.issue_id) [
        | none ↦ raise decision_for_unknown_issue
        | some issue ↦ make_decision decision_id decided_at command issue
      ]
      else raise decision_for_other_job
