-- ===== src/Matching/OneToOne/Settled.antt =====
-- The candidates of phase 2 as a whole.
use structural_reconciliatio.Base.{
  Bool, String, ◌≡◌, refl, ap, ◌∙◌, true, List, [], ◌∷◌, ◌++◌, nodup, filter, sort, All, arith,
  collect,
}
use mathlib.Core.Path.{subst}
use structural_reconciliatio.Runtime.{Runtime}
use structural_reconciliatio.Errors.{ok, traverse, returned_bind}
use structural_reconciliatio.Contracts.Profiles.{MatchingProfile}
use structural_reconciliatio.Contracts.Matches.{
  MatchCandidate, confirmed, ambiguous, is_confirmed, is_confirmed_state,
}
use structural_reconciliatio.Evidence.{KeyedByRef, EvidenceIndex}
use structural_reconciliatio.Matching.Ambiguity.{edge_le, ambiguous_edges}
use structural_reconciliatio.Matching.Similarity.{
  similarity_matches, free_refs, score_row, ambiguous_candidate, confirmable, surest_first,
  confirm_all,
}
use structural_reconciliatio.Matching.Matcher.{confirmed_sources, confirmed_targets}
use structural_reconciliatio.Matching.OneToOne.Graphs.{Apart}
use structural_reconciliatio.Matching.OneToOne.Phase2.{confirm_all-Fresh, unsettled_ambiguous}

module _ ⦃R : Runtime⦄ where
  filter_confirmed :
      (cs : List MatchCandidate)
      → All (λ (c : MatchCandidate). c.state ≡ confirmed) cs
      → filter is_confirmed cs ≡ cs
  unfolding filter is_confirmed_state
  filter_confirmed [] a = refl
  filter_confirmed (c ∷ cs) a = ground (arith, a.0, filter_confirmed cs a.1)

  filter_ambiguous :
      (cs : List MatchCandidate)
      → All (λ (c : MatchCandidate). c.state ≡ ambiguous) cs
      → filter is_confirmed cs ≡ []
  unfolding filter is_confirmed_state
  filter_ambiguous [] a = refl
  filter_ambiguous (c ∷ cs) a = ground (arith, a.0, filter_ambiguous cs a.1)

  filter-append :
      (p : MatchCandidate → Bool) (xs ys : List MatchCandidate)
      → filter p (xs ++ ys) ≡ filter p xs ++ filter p ys
  unfolding filter
  filter-append p [] ys = refl
  filter-append p (x ∷ xs) ys = ground (arith, filter-append p xs ys)

  -- No node is confirmed twice, and none of those that were matched before.
  pub record SettledApart (ms mt : List String) (cs : List MatchCandidate) : Type 0 where
    pub sources_distinct : nodup (confirmed_sources cs) ≡ true
    pub targets_distinct : nodup (confirmed_targets cs) ≡ true
    pub sources_apart : Apart (confirmed_sources cs) ms
    pub targets_apart : Apart (confirmed_targets cs) mt

  pub similarity_matches-SettledApart :
      (evidence : EvidenceIndex) (profile : MatchingProfile)
      → KeyedByRef evidence.source
      → KeyedByRef evidence.target
      → (ms mt : List String) (cs : List MatchCandidate)
      → similarity_matches evidence profile ms mt ≡ ok cs
      → SettledApart ms mt cs
  unfolding similarity_matches confirmed_sources confirmed_targets
  similarity_matches-SettledApart evidence profile ks kt ms mt cs h =
      let (scored, _, h₁) =
        returned_bind
          (traverse (score_row evidence profile (free_refs evidence.target mt))
            (free_refs evidence.source ms))
          _ h in
      let edges = sort edge_le (ambiguous_edges profile scored) in
      let (unsettled, made, h₂) =
        returned_bind (traverse (ambiguous_candidate evidence profile edges) edges) _ h₁ in
      let triples =
        sort surest_first
          (collect (confirmable evidence profile edges scored) (free_refs evidence.source ms)) in
      let (settled, greedy, h₃) =
        returned_bind (confirm_all evidence profile ms [] mt triples) _ h₂ in
      let fresh = confirm_all-Fresh evidence profile ks kt ms [] mt triples settled greedy in
      let whole : (unsettled ++ settled) ≡ cs = cc in
      let picked : filter is_confirmed (unsettled ++ settled) ≡ settled =
        filter-append is_confirmed unsettled settled
        ∙ ap (λ (l : List MatchCandidate). l ++ filter is_confirmed settled)
            (filter_ambiguous unsettled
              (unsettled_ambiguous evidence profile ks kt edges edges unsettled made))
        ∙ filter_confirmed settled fresh.all_confirmed in
      subst (SettledApart ms mt) whole (record {
        sources_distinct = rw picked fresh.sources_distinct;
        targets_distinct = rw picked fresh.targets_distinct;
        sources_apart = rw picked fresh.sources_apart;
        targets_apart = rw picked fresh.targets_apart_matched;
      })
