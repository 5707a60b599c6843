-- ===== src/Matching/Matcher.antt =====
-- `NodeMatcherService.match` of core/matching/matcher.py.
use structural_reconciliatio.Base.{
  String, Bool, List, [], ◌++◌, ◌==◌, any, filter, if◌then◌else◌, sort, text_le, map,
}
use structural_reconciliatio.Runtime.{Runtime}
use structural_reconciliatio.Errors.{Result, ok, ◌>>=◌}
use structural_reconciliatio.Contracts.Profiles.{MatchingProfile, same_evidence, persistent_id}
use structural_reconciliatio.Contracts.Matches.{
  MatchCandidate, MatchGraph, is_confirmed, make_graph, state_value,
}
use structural_reconciliatio.Evidence.{EvidenceIndex}
use structural_reconciliatio.Matching.Authoritative.{authoritative_matches}
use structural_reconciliatio.Matching.Similarity.{similarity_matches}

module _ ⦃R : Runtime⦄ where
  -- The sort key `(source_node_ref, target_node_ref, state.value)`.
  unfoldable pub candidate_le : MatchCandidate → MatchCandidate → Bool
  candidate_le a b =
      if a.source_node_ref == b.source_node_ref
      then if a.target_node_ref == b.target_node_ref
        then text_le (state_value a.state) (state_value b.state)
        else text_le a.target_node_ref b.target_node_ref
      else text_le a.source_node_ref b.source_node_ref

  unfoldable pub confirmed_sources : List MatchCandidate → List String
  confirmed_sources cs = map (λ (c : MatchCandidate). c.source_node_ref) (filter is_confirmed cs)

  unfoldable pub confirmed_targets : List MatchCandidate → List String
  confirmed_targets cs = map (λ (c : MatchCandidate). c.target_node_ref) (filter is_confirmed cs)

  -- `PERSISTENT_ID in profile.authoritative_id_features`
  unfoldable pub ids_are_authoritative : MatchingProfile → Bool
  ids_are_authoritative profile =
      any (same_evidence persistent_id) profile.authoritative_id_features

  unfoldable pub phase_1 : EvidenceIndex → MatchingProfile → Result (List MatchCandidate)
  phase_1 evidence profile =
      if ids_are_authoritative profile then authoritative_matches evidence profile else ok []

  unfoldable pub match_nodes : EvidenceIndex → MatchingProfile → Result MatchGraph
  match_nodes evidence profile = do
    first ← phase_1 evidence profile
    second ← similarity_matches evidence profile (confirmed_sources first) (confirmed_targets first)
    make_graph (sort candidate_le (first ++ second))
