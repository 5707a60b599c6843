-- ===== src/Reviews/Recorded.antt =====
-- What a recorded decision keeps of the engine's conclusion.
use mathlib.Core.List.{Memᴰ}
use mathlib.Core.List.Memᴰ.{head, tail}
use mathlib.Core.Path.{subst}
use structural_reconciliatio.Base.{
  ℕ, ◌≡◌, ◌≢◌, refl, sym, ap, ◌∙◌, String, Bool, true, false, Option, none, some, List, [], ◌∷◌,
  ◌==◌, ◌&&◌, not, if◌then◌else◌, same_count, option_eq, Bool-cases, Option-cases, inl, inr, arith,
  eq→path, eq_refl,
}
use structural_reconciliatio.Runtime.{Runtime}
use structural_reconciliatio.Errors.{Invariant, ok, returned_bind, ok_injective}
use structural_reconciliatio.Contracts.Profiles.{truthy}
use structural_reconciliatio.Tree.{require}
use structural_reconciliatio.Localization.Contracts.{
  LocalizationIssue, LocalizationValidationResult, status_value,
}
use structural_reconciliatio.Reviews.{
  is_override, ReviewerDecisionCommand, ReviewerDecision, validate_decision, find_issue,
  make_decision, record_decision,
}

module _ ⦃R : Runtime⦄ where
  same_count→path : (m n : ℕ) → same_count m n ≡ true → m ≡ n
  same_count→path m n h = ground arith

  find_issue-some :
      (issues : List LocalizationIssue) (id : ℕ) (issue : LocalizationIssue)
      → find_issue issues id ≡ some issue
      → Memᴰ issue issues × (issue.issue_id ≡ id)
  unfolding find_issue
  find_issue-some [] id issue h = cc
  find_issue-some (first ∷ issues) id issue h = elim (Bool-cases (same_count first.issue_id id)) [
    | inl same ↦
        let it : some first ≡ some issue = rw same at h in
        let e : first ≡ issue = cc (it) in
        (
          head (sym e),
          ap (λ (i : LocalizationIssue). i.issue_id) (sym e)
              ∙ same_count→path first.issue_id id same,
        )
    | inr other ↦ let (m, e) = find_issue-some issues id issue (rw other at h) in (tail m, e)
  ]

  -- The reviewer's replacement for the engine's status, where the decision is an override.
  pub data Replacement (decision : ReviewerDecision) : Type 0 where
    kept :
        is_override decision.decision ≡ false
        → decision.overridden_status ≡ none
        → Replacement decision
    replaced :
        (status : String)
        → is_override decision.decision ≡ true
        → decision.overridden_status ≡ some status
        → status ≢ decision.original_status
        → Replacement decision

  -- What is recorded about an issue.
  pub record About (command : ReviewerDecisionCommand) (issue : LocalizationIssue)
      (decision : ReviewerDecision) : Type 0 where
    pub same_job : decision.job_id ≡ command.job_id
    pub same_issue : decision.issue_id ≡ issue.issue_id
    pub same_decision : decision.decision ≡ command.decision
    pub original : decision.original_status ≡ status_value issue.localization_status
    pub replacement : Replacement decision

  require-true : (b : Bool) (rule : Invariant) (u : Unit {0}) → require b rule ≡ ok u → b ≡ true
  unfolding require
  require-true true rule u h = refl
  require-true false rule u h = cc

  option_eq_refl : (s : String) → option_eq (some s) (some s) ≡ true
  unfolding option_eq
  option_eq_refl s = eq_refl s

  Replacement-validated :
      (decision : ReviewerDecision)
      → not (is_override decision.decision && not (truthy decision.overridden_status)) ≡ true
      → not (
          is_override decision.decision
          && option_eq decision.overridden_status (some decision.original_status))
        ≡ true
      → (if is_override decision.decision then decision.overridden_status else none)
        ≡ decision.overridden_status
      → Replacement decision
  unfolding truthy
  Replacement-validated decision present differs shown =
      elim (Bool-cases (is_override decision.decision)) [
        | inr e ↦ Replacement.kept e (sym shown ∙ rw e)
        | inl e ↦ elim (Option-cases decision.overridden_status) [
          | inl gone ↦ absurd (ground (arith, present, gone, e))
          | inr (status, found) ↦ Replacement.replaced status e found (λ same.
              let both : option_eq decision.overridden_status (some decision.original_status)
                  ≡ true =
                ap (λ (o : Option String). option_eq o (some decision.original_status)) found
                ∙ ap (λ (s : String). option_eq (some s) (some decision.original_status)) same
                ∙ option_eq_refl decision.original_status in
              ground (arith, differs, e, both))
        ]
      ]

  validate_decision-ok :
      (made decision : ReviewerDecision)
      → validate_decision made ≡ ok decision
      → (made ≡ decision)
        × (not (is_override made.decision && not (truthy made.overridden_status)) ≡ true)
        × (not (
              is_override made.decision
              && option_eq made.overridden_status (some made.original_status))
            ≡ true)
  unfolding validate_decision
  validate_decision-ok made decision h =
      let (_, _, h₁) = returned_bind (require _ _) _ h in
      let (_, _, h₂) = returned_bind (require _ _) _ h₁ in
      let (u, present, h₃) = returned_bind (require _ _) _ h₂ in
      let (v, differs, h₄) = returned_bind (require _ _) _ h₃ in
      (ok_injective made decision h₄, require-true _ _ u present, require-true _ _ v differs)

  if_twice :
      (b : Bool) (o : Option String)
      → (if b then (if b then o else none) else none) ≡ (if b then o else none)
  if_twice true o = refl
  if_twice false o = refl

  make_decision-About :
      (decision_id decided_at : String) (command : ReviewerDecisionCommand)
      (issue : LocalizationIssue) (decision : ReviewerDecision)
      → issue.issue_id ≡ command.issue_id
      → make_decision decision_id decided_at command issue ≡ ok decision
      → About command issue decision
  unfolding make_decision
  make_decision-About decision_id decided_at command issue decision same h =
      let (e, present, differs) = validate_decision-ok _ decision h in
      subst (About command issue) e (record {
        same_job = refl;
        same_issue = sym same;
        same_decision = refl;
        original = refl;
        replacement =
            Replacement-validated _ present differs
              (if_twice (is_override command.decision) command.overridden_status);
      })

  -- A decision is recorded only for the job of the result and for one of its issues, whose status it
  -- keeps as the original one. An override names a replacement that differs from it; any other
  -- decision replaces nothing.
  pub record_decision-About :
      (decision_id decided_at : String) (command : ReviewerDecisionCommand)
      (result : LocalizationValidationResult) (decision : ReviewerDecision)
      → record_decision decision_id decided_at command result ≡ ok decision
      → (decision.job_id ≡ result.job_id)
        × ((issue : LocalizationIssue) × Memᴰ issue result.issues × About command issue decision)
  unfolding record_decision
  record_decision-About decision_id decided_at command result decision h =
      elim (Bool-cases (command.job_id == result.job_id)) [
        | inr other ↦ let clash = rw other at h in absurd (cc)
        | inl job ↦ elim (Option-cases (find_issue result.issues command.issue_id)) [
          | inl gone ↦ let clash = rw gone at (rw job at h) in absurd (cc)
          | inr (issue, found) ↦
              let made = rw found at (rw job at h) in
              let (m, same) = find_issue-some result.issues command.issue_id issue found in
              let about =
                make_decision-About decision_id decided_at command issue decision same made in
              (about.same_job ∙ eq→path command.job_id result.job_id job, (issue, m, about))
        ]
      ]
