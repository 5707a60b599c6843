-- ===== src/Tests/JobSamples.antt =====
-- A registry with one profile, whose adapter knows two documents, and a request to compare them.
use structural_reconciliatio.Base.{String, true, false, none, some, [], ◌∷◌, ◌==◌, if◌then◌else◌}
use structural_reconciliatio.Errors.{ok}
use structural_reconciliatio.Contracts.Profiles.{MatchingProfile, persistent_id, normalized_label}
use structural_reconciliatio.Localization.Contracts.{source_side}
use structural_reconciliatio.Orchestration.{
  html, csv, ComparisonRequest, DocumentProfile, Environment, given, refused,
}
use structural_reconciliatio.Tests.Samples.{
  millionths, source_tree, target_tree, matching_profile, operation_profile, suppression_profile,
  normalization_profile, alignment_profile,
}

abbrev pub profile_with : MatchingProfile ⦃R = millionths⦄ → DocumentProfile ⦃R = millionths⦄
profile_with matching = record {
  adapt_document = λ content tree_id uri.
      if content == "source"
      then given source_tree
      else if content == "locale"
      then given target_tree
      else refused "MALFORMED_XML";
  normalization = normalization_profile;
  matching = matching;
  alignment = alignment_profile;
  operation = operation_profile;
  suppression = suppression_profile;
}

abbrev pub environment_with : MatchingProfile ⦃R = millionths⦄ → Environment ⦃R = millionths⦄
environment_with matching = record {
  registry = ("dita", profile_with matching) ∷ [];
  save = some (λ result. given tt);
  write = some (λ job_id name content media_type.
      if name == "report.csv"
      then given (record {
        job_id = job_id;
        name = name;
        media_type = media_type;
        location = "store/report.csv";
        size_bytes = 12;
      })
      else refused "ARTIFACT_WRITE_FAILED");
  render_csv = λ table. ok "rows";
  render_json = λ result table. ok "{}";
  render_html = λ result source locale. ok "<html>";
  encoded_length = λ text. ok 4;
  fresh_id = "0";
}

abbrev pub environment : Environment ⦃R = millionths⦄
environment = environment_with matching_profile

-- A profile that gives no feature a weight: an authoritative match has no evidence then.
abbrev pub weightless : Environment ⦃R = millionths⦄
weightless = environment_with (record {
  version = "1";
  evidence_priority = persistent_id ∷ normalized_label ∷ [];
  feature_weights = [];
  authoritative_id_features = persistent_id ∷ [];
  hard_constraint_node_type = true;
  match_threshold = 800000;
  probable_threshold = 500000;
  ambiguity_margin = 50000;
  tie_break_keys = "source_node_ref" ∷ [];
  calibration = record { calibrated = false; model = none };
})

abbrev pub request_for : String → String → ComparisonRequest ⦃R = millionths⦄
request_for profile_id source_content = record {
  source_content = source_content;
  locale_content = "locale";
  locale = "de";
  document_profile_id = profile_id;
  authoritative_side = source_side;
  report_formats = csv ∷ html ∷ [];
  report_options = record { include_suppressed = true; redact_content = true };
  policy = none;
  job_id = some "job-7";
}

abbrev pub request : ComparisonRequest ⦃R = millionths⦄
request = request_for "dita" "source"
