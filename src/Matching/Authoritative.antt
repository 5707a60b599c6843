-- ===== src/Matching/Authoritative.antt =====
-- Phase 1 of core/matching/matcher.py: persistent ids that are unique in both trees.
use structural_reconciliatio.Base.{
  String, Option, none, some, List, [], ◌∷◌, contains, filter, if◌then◌else◌, is_empty, keys, put,
  sort_texts, sorted_items, Dict,
}
use structural_reconciliatio.Runtime.{Runtime, float_one}
use structural_reconciliatio.Errors.{Result, traverse, ◌>>=◌}
use structural_reconciliatio.Tree.{subscript}
use structural_reconciliatio.Contracts.Profiles.{MatchingProfile}
use structural_reconciliatio.Contracts.Scores.{validate_confidence}
use structural_reconciliatio.Contracts.Matches.{MatchCandidate, confirmed, rejected}
use structural_reconciliatio.Evidence.{NodeEvidence, EvidenceIndex}
use structural_reconciliatio.Matching.Candidates.{
  evaluate_constraints, derive_confidence, make_candidate,
}
use structural_reconciliatio.Matching.Scorer.{score_pair}

-- One round of the loop of `_unique_id_index`.
unfoldable pub index_id :
    List String → Dict NodeEvidence → NodeEvidence → Option String → Dict NodeEvidence
index_id duplicates index ev none = index
index_id duplicates index ev (some id) = if contains id duplicates then index else put index id ev

unfoldable pub index_ids :
    List String → Dict NodeEvidence → List (String × NodeEvidence) → Dict NodeEvidence
index_ids duplicates index [] = index
index_ids duplicates index ((node_ref, ev) ∷ evs) =
    index_ids duplicates (index_id duplicates index ev ev.persistent_id) evs

unfoldable pub unique_id_index : Dict NodeEvidence → List String → Dict NodeEvidence
unique_id_index evidence duplicates = index_ids duplicates [] (sorted_items evidence)

-- `sorted(a.keys() & b.keys())`
unfoldable pub common_keys {ℓ} : {V : Type ℓ} → Dict V → Dict V → List String
common_keys a b = sort_texts (filter (λ k. contains k (keys b)) (keys a))

module _ ⦃R : Runtime⦄ where
  -- The candidate for two nodes that share an id: rejected over a hard constraint, else confirmed.
  unfoldable pub authoritative_candidate :
      NodeEvidence → NodeEvidence → MatchingProfile → Result MatchCandidate
  authoritative_candidate source target profile = do
    score ← score_pair source target profile
    let (hard, soft) = evaluate_constraints source target profile
    if is_empty hard
        then (do
          confidence ← validate_confidence (record {
            value = float_one;
            calibrated = profile.calibration.calibrated;
            model = profile.calibration.model;
          })
          make_candidate source target confirmed score confidence profile [] soft [])
        else (do
          confidence ← derive_confidence score profile.calibration
          make_candidate source target rejected score confidence profile hard soft [])

  unfoldable pub authoritative_matches :
      EvidenceIndex → MatchingProfile → Result (List MatchCandidate)
  authoritative_matches evidence profile =
      let source_by_id = unique_id_index evidence.source evidence.duplicate_source_ids in
      let target_by_id = unique_id_index evidence.target evidence.duplicate_target_ids in
      traverse
        (λ id. do
          source ← subscript source_by_id id
          target ← subscript target_by_id id
          authoritative_candidate source target profile)
        (common_keys source_by_id target_by_id)
