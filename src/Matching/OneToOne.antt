-- ===== src/Matching/OneToOne.antt =====
-- The matcher's confirmed correspondences are one to one, whatever the two trees hold.
mod Graphs
mod Indices
mod Phase1
mod Phase2
mod Settled
pub use Phase2.{confirmed_candidate_ends, ambiguous_candidate_ends, unsettled_ambiguous}
use structural_reconciliatio.Base.{
  String, ◌≡◌, refl, sym, ap, ◌∙◌, true, false, List, [], ◌∷◌, ◌++◌, contains, nodup, filter, map,
  sort, All, arith, picked-append, nodup-picked-sort,
}
use structural_reconciliatio.Runtime.{Runtime}
use structural_reconciliatio.Errors.{Result, ok, traverse, ◌>>=◌, returned_bind}
use structural_reconciliatio.Contracts.Profiles.{MatchingProfile}
use structural_reconciliatio.Contracts.Matches.{MatchCandidate, is_confirmed}
use structural_reconciliatio.Evidence.{KeyedByRef, EvidenceIndex}
use structural_reconciliatio.Matching.Similarity.{similarity_matches}
use structural_reconciliatio.Matching.Matcher.{
  confirmed_sources, confirmed_targets, phase_1, match_nodes, candidate_le,
}
use Graphs.{make_graph-ok, nodup-append-Apart}
use Phase1.{phase_1-distinct}
use Settled.{SettledApart, similarity_matches-SettledApart}

module _ ⦃R : Runtime⦄ where
  -- Where every evidence stands under its own reference and both phases return, no source and no
  -- target is confirmed twice, so the check of `MatchGraph` accepts and the match is the sorted
  -- list of all candidates.
  pub match_nodes-eq-sort :
      (evidence : EvidenceIndex) (profile : MatchingProfile) (first second : List MatchCandidate)
      → KeyedByRef evidence.source
      → KeyedByRef evidence.target
      → phase_1 evidence profile ≡ ok first
      → similarity_matches evidence profile (confirmed_sources first) (confirmed_targets first)
        ≡ ok second
      → match_nodes evidence profile
        ≡ ok (record { candidates = sort candidate_le (first ++ second) })
  unfolding match_nodes confirmed_sources confirmed_targets
  match_nodes-eq-sort evidence profile first second ks kt p q =
      let (u, v) = phase_1-distinct evidence profile first ks kt p in
      let later =
        similarity_matches-SettledApart evidence profile ks kt (confirmed_sources first)
          (confirmed_targets first) second q in
      let sources : nodup (confirmed_sources (sort candidate_le (first ++ second))) ≡ true =
        nodup-picked-sort (λ (c : MatchCandidate). c.source_node_ref) is_confirmed candidate_le
          (first ++ second)
        ∙ ap nodup
            (picked-append (λ (c : MatchCandidate). c.source_node_ref) is_confirmed first second)
        ∙ nodup-append-Apart _ _ u later.sources_distinct later.sources_apart in
      let targets : nodup (confirmed_targets (sort candidate_le (first ++ second))) ≡ true =
        nodup-picked-sort (λ (c : MatchCandidate). c.target_node_ref) is_confirmed candidate_le
          (first ++ second)
        ∙ ap nodup
            (picked-append (λ (c : MatchCandidate). c.target_node_ref) is_confirmed first second)
        ∙ nodup-append-Apart _ _ v later.targets_distinct later.targets_apart in
      rw p (rw q (make_graph-ok (sort candidate_le (first ++ second)) sources targets))
