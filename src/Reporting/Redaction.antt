-- ===== src/Reporting/Redaction.antt =====
-- A redacted report shows no label, and of a message only what names an operation.
use Prim.Native.String.{◌++◌ as ◌&◌}
use structural_reconciliatio.Base.{
  ℕ, suc, ◌≡◌, ◌⊎◌, refl, String, Bool, true, false, Option, none, some, List, [], ◌∷◌, All,
  All-each, All-join, inl, inr, if◌then◌else◌, Dict,
}
use structural_reconciliatio.Runtime.{Runtime}
use structural_reconciliatio.Contracts.Matches.{MatchCandidate}
use structural_reconciliatio.Contracts.Operations.{SuppressedEffect, counts_by_root}
use structural_reconciliatio.Localization.Contracts.{LocalizationIssue}
use structural_reconciliatio.Reporting.{ReportOptions, maybe_redact, ReportRow, matches_by_id}
use structural_reconciliatio.Reporting.Table.{
  Report, make_issue_row, make_effect_row, effect_rows, issue_rows, build_report_table,
}

-- Nothing, or the placeholder.
abbrev pub Masked : Option String → Type 0
Masked text = (text ≡ none) ⊎ (text ≡ some "[redacted]")

maybe_redact-Masked :
    (options : ReportOptions) (text : Option String)
    → options.redact_content ≡ true
    → Masked (maybe_redact text options)
unfolding maybe_redact
maybe_redact-Masked options none on = inl refl
maybe_redact-Masked options (some value) on = inr (rw (on, maybe_redact))

module _ ⦃R : Runtime⦄ where
  pub record Redacted (row : ReportRow) : Type 0 where
    pub no_source_label : Masked row.source_label
    pub no_locale_label : Masked row.locale_label
    pub no_message :
        Masked row.message
        ⊎ ((root : String) × (row.root_operation_id ≡ some root)
            × (row.message ≡ some ("derived effect suppressed by " & root)))

  All-shown :
      (shown : Bool) (rows : List ReportRow)
      → All Redacted rows
      → All Redacted (if shown then rows else [])
  All-shown true rows h = h
  All-shown false rows h = tt

  module _ (r : Report) (on : r.options.redact_content ≡ true) where
    make_issue_row-Redacted :
        (matches : Dict MatchCandidate) (counts : Dict ℕ) (issue : LocalizationIssue)
        → Redacted (make_issue_row r matches counts issue)
    unfolding make_issue_row
    make_issue_row-Redacted matches counts issue = record {
      no_source_label = maybe_redact-Masked r.options issue.source_label on;
      no_locale_label = maybe_redact-Masked r.options issue.locale_label on;
      no_message = inl (maybe_redact-Masked r.options issue.message on);
    }

    effect_rows-Redacted :
        (index : ℕ) (effects : List SuppressedEffect) → All Redacted (effect_rows r index effects)
    unfolding effect_rows make_effect_row
    effect_rows-Redacted index [] = tt
    effect_rows-Redacted index (effect ∷ effects) = (
      record {
        no_source_label = inl refl;
        no_locale_label = inl refl;
        no_message = inr (effect.root_operation_id, refl, refl);
      },
      effect_rows-Redacted (suc index) effects,
    )

    -- Where the options ask to redact content, no row of the report table shows a label, and a
    -- message is absent, the placeholder, or only names the root operation of the row.
    pub build_report_table-Redacted : All Redacted (build_report_table r).rows
    unfolding build_report_table issue_rows
    build_report_table-Redacted =
        let matches = matches_by_id [] r.result.reconciliation.match_graph.candidates in
        let counts = counts_by_root r.result.reconciliation.suppression_result in
        let effects = r.result.reconciliation.suppression_result.suppressed_effects in
        All-join Redacted (issue_rows r) _
          (All-each Redacted (make_issue_row r matches counts) r.result.issues
            (make_issue_row-Redacted matches counts))
          (All-shown r.options.include_suppressed (effect_rows r 0 effects)
            (effect_rows-Redacted 0 effects))
