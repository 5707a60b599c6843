-- ===== src/Localization/Counts.antt =====
-- The summary counts every issue once, under its status.
use structural_reconciliatio.Base.{
  ℕ, suc, ◌+◌, ◌≡◌, refl, ap, ◌∙◌, String, List, [], ◌∷◌, ◌==◌, if◌then◌else◌, length, Dict, lookup,
  put, lookup-put, map, filter, Bool-cases, inl, inr, arith, eq→path,
}
use structural_reconciliatio.Runtime.{Runtime}
use structural_reconciliatio.Contracts.Profiles.{OperationType, operation_value}
use structural_reconciliatio.Contracts.Operations.{StructuralOperation, has_type}
use structural_reconciliatio.Engine.{ReconciliationResult}
use structural_reconciliatio.Localization.Contracts.{
  LocalizationStatus, confirmed_match, probable_match, ambiguous_match, missing_in_locale,
  extra_in_locale, wrong_parent, wrong_order, moved, source_updated, locale_diverged,
  identifier_conflict, exempt_locale_variation, status_value, LocalizationIssue, has_status,
  RecommendedAction, action_value, LocalizationSummary,
}
use structural_reconciliatio.Localization.Service.{
  next_count, count_values, count_of, statuses, summarize,
}

unfoldable pub occurrences : String → List String → ℕ
occurrences key [] = 0
occurrences key (k ∷ ks) = if k == key then suc (occurrences key ks) else occurrences key ks

count_of-put :
    (counts : Dict ℕ) (k : String) (n : ℕ) (key : String)
    → count_of (put counts k n) key ≡ (if k == key then n else count_of counts key)
unfolding count_of
count_of-put counts k n key = rw (lookup-put counts k key n, count_of) (ground arith)

next_count-eq :
    (counts : Dict ℕ) (j l : String) → j ≡ l → next_count counts j ≡ suc (count_of counts l)
unfolding count_of
next_count-eq counts j l same = rw same (ground arith)

pub count_of-count_values :
    (counts : Dict ℕ) (keys : List String) (key : String)
    → count_of (count_values counts keys) key ≡ count_of counts key + occurrences key keys
unfolding count_values occurrences
count_of-count_values counts [] key = omega arith
count_of-count_values counts (k ∷ ks) key =
    count_of-count_values (put counts k (next_count counts k)) ks key
    ∙ elim (Bool-cases (k == key)) [
      | inl same ↦ ground (
        arith,
        count_of-put counts k (next_count counts k) key,
        same,
        next_count-eq counts k key (eq→path k key same),
      )
      | inr other ↦ ground (arith, count_of-put counts k (next_count counts k) key, other)
    ]

-- The statuses, and how often each occurs: together they are all.
partition :
    (xs : List LocalizationStatus)
    → (let n = λ (s : LocalizationStatus). occurrences (status_value s) (map status_value xs) in
        (((((((((((n confirmed_match + n probable_match) + n ambiguous_match) + n missing_in_locale)
                        + n extra_in_locale)
                      + n wrong_parent)
                    + n wrong_order)
                  + n moved)
                + n source_updated)
              + n locale_diverged)
            + n identifier_conflict)
          + n exempt_locale_variation)
        ≡ length xs)
unfolding occurrences
partition [] = refl
partition (confirmed_match ∷ xs) = omega (arith, partition xs)
partition (probable_match ∷ xs) = omega (arith, partition xs)
partition (ambiguous_match ∷ xs) = omega (arith, partition xs)
partition (missing_in_locale ∷ xs) = omega (arith, partition xs)
partition (extra_in_locale ∷ xs) = omega (arith, partition xs)
partition (wrong_parent ∷ xs) = omega (arith, partition xs)
partition (wrong_order ∷ xs) = omega (arith, partition xs)
partition (moved ∷ xs) = omega (arith, partition xs)
partition (source_updated ∷ xs) = omega (arith, partition xs)
partition (locale_diverged ∷ xs) = omega (arith, partition xs)
partition (identifier_conflict ∷ xs) = omega (arith, partition xs)
partition (exempt_locale_variation ∷ xs) = omega (arith, partition xs)

module _ ⦃R : Runtime⦄ where
  count_of-statuses :
      (issues : List LocalizationIssue) (key : String)
      → count_of (count_values [] (statuses issues)) key ≡ occurrences key (statuses issues)
  unfolding count_of lookup occurrences
  count_of-statuses issues key = count_of-count_values [] (statuses issues) key ∙ omega arith

  abbrev status_of : LocalizationIssue → LocalizationStatus
  status_of issue = issue.localization_status

  statuses-eq :
      (issues : List LocalizationIssue) → statuses issues ≡ map status_value (map status_of issues)
  statuses-eq [] = refl
  statuses-eq (issue ∷ issues) =
      ap (λ rest. status_value issue.localization_status ∷ rest) (statuses-eq issues)

  length-status_of :
      (issues : List LocalizationIssue) → length (map status_of issues) ≡ length issues
  length-status_of [] = refl
  length-status_of (issue ∷ issues) = ap suc (length-status_of issues)

  count-eq :
      (issues : List LocalizationIssue) (key : String)
      → count_of (count_values [] (statuses issues)) key
        ≡ occurrences key (map status_value (map status_of issues))
  count-eq issues key = count_of-statuses issues key ∙ ap (occurrences key) (statuses-eq issues)

  occurrences-map :
      {A : Type 0} (f : A → String) (key : String) (xs : List A)
      → occurrences key (map f xs) ≡ length (filter (λ x. f x == key) xs)
  unfolding occurrences filter
  occurrences-map f key [] = refl
  occurrences-map f key (x ∷ xs) = ground (arith, occurrences-map f key xs)

  -- What a dict of counts over `f x` holds for a key.
  counted :
      {A : Type 0} (f : A → String) (xs : List A) (key : String)
      → count_of (count_values [] (map f xs)) key ≡ length (filter (λ x. f x == key) xs)
  unfolding count_of lookup
  counted f xs key =
      count_of-count_values [] (map f xs) key ∙ omega (arith, occurrences-map f key xs)

  -- How many issues have a status.
  abbrev pub issues_with : LocalizationStatus → List LocalizationIssue → ℕ
  issues_with status issues = length (filter (has_status status) issues)

  pub record Counted (issues : List LocalizationIssue) (result : ReconciliationResult)
      (summary : LocalizationSummary) : Type 0 where
    pub by_status :
        (status : LocalizationStatus)
        → count_of summary.status_counts (status_value status) ≡ issues_with status issues
    pub by_action :
        (action : RecommendedAction)
        → count_of summary.action_counts (action_value action)
          ≡ length (
              filter
                (λ (i : LocalizationIssue).
                  action_value i.recommended_action == action_value action)
                issues)
    pub by_operation :
        (type : OperationType)
        → count_of summary.operation_counts (operation_value type)
          ≡ length (filter (has_type type) result.operations)
    pub confirmed : summary.node_counts.confirmed ≡ issues_with confirmed_match issues
    pub probable : summary.node_counts.probable ≡ issues_with probable_match issues
    pub ambiguous : summary.node_counts.ambiguous ≡ issues_with ambiguous_match issues
    pub missing : summary.node_counts.missing ≡ issues_with missing_in_locale issues
    pub extra : summary.node_counts.extra ≡ issues_with extra_in_locale issues
    pub divergent :
        summary.node_counts.structurally_divergent
        ≡ issues_with wrong_parent issues
          + issues_with wrong_order issues
          + issues_with locale_diverged issues
    pub exempt : summary.node_counts.exempt ≡ issues_with exempt_locale_variation issues
    pub all_counted :
        (summary.node_counts.confirmed
          + summary.node_counts.probable
          + summary.node_counts.ambiguous
          + summary.node_counts.missing
          + summary.node_counts.extra
          + summary.node_counts.structurally_divergent
          + summary.node_counts.exempt
          + issues_with moved issues
          + issues_with source_updated issues
          + issues_with identifier_conflict issues)
        ≡ summary.direct_issue_count

  status_counted :
      (issues : List LocalizationIssue) (status : LocalizationStatus)
      → count_of (count_values [] (statuses issues)) (status_value status)
        ≡ issues_with status issues
  status_counted issues status =
      counted (λ (i : LocalizationIssue). status_value i.localization_status) issues
        (status_value status)

  -- The summary holds, for each status and each action, how many issues have it, and for each type how
  -- many operations of the core result have it. Each node count is the number of the issues of its
  -- status, `structurally_divergent` of the three statuses it stands for; and with the issues of the
  -- three remaining statuses the node counts add up to the number of all issues.
  pub summarize-counts :
      (issues : List LocalizationIssue) (result : ReconciliationResult)
      → Counted issues result (summarize issues result)
  unfolding summarize
  summarize-counts issues result = record {
    by_status = status_counted issues;
    by_action = λ action.
        counted (λ (i : LocalizationIssue). action_value i.recommended_action) issues
          (action_value action);
    by_operation = λ type.
        counted (λ (op : StructuralOperation). operation_value op.type) result.operations
          (operation_value type);
    confirmed = status_counted issues confirmed_match;
    probable = status_counted issues probable_match;
    ambiguous = status_counted issues ambiguous_match;
    missing = status_counted issues missing_in_locale;
    extra = status_counted issues extra_in_locale;
    divergent = omega (
      arith,
      status_counted issues wrong_parent,
      status_counted issues wrong_order,
      status_counted issues locale_diverged,
    );
    exempt = status_counted issues exempt_locale_variation;
    all_counted = omega (
      arith,
      partition (map status_of issues),
      length-status_of issues,
      count-eq issues,
      status_counted issues moved,
      status_counted issues source_updated,
      status_counted issues identifier_conflict,
    );
  }
