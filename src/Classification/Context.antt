-- ===== src/Classification/Context.antt =====
-- `ClassificationContext` of core/classification/registry.py.
use structural_reconciliatio.Base.{
  String, Bool, true, false, Option, none, some, List, [], ◌∷◌, ◌==◌, ◌&&◌, ◌||◌, not, filter,
  contains, map, sort, option_eq, if◌then◌else◌,
}
use structural_reconciliatio.Runtime.{Runtime, Float, ◌<=◌, float_zero}
use structural_reconciliatio.Errors.{Result, ok, ◌>>=◌}
use structural_reconciliatio.Tree.{CanonicalTree, subscript}
use structural_reconciliatio.Contracts.Profiles.{
  OperationProfile, UnresolvedPresencePolicy, suppress_unresolved_regions, emit_all,
}
use structural_reconciliatio.Contracts.Matches.{
  MatchCandidate, MatchGraph, is_confirmed, confirmed_candidates, ambiguous_candidates,
  confirmed_target_for,
}
use structural_reconciliatio.Contracts.Alignments.{
  AlignedPair, AlignedRegion, AlignmentResult, AlignmentEdgeKind, source_only, target_only,
  is_unresolved,
}
use structural_reconciliatio.Matching.Ambiguity.{Edge, edge_le}

module _ ⦃R : Runtime⦄ where
  pub record ClassificationContext : Type 0 where
    pub source : CanonicalTree
    pub target : CanonicalTree
    pub graph : MatchGraph
    pub alignment : AlignmentResult
    pub profile : OperationProfile

module _ ⦃R : Runtime⦄ (ctx : ClassificationContext) where
  unfoldable pub parents_correspond : String → String → Bool
  parents_correspond source_parent target_parent =
      (source_parent == ctx.source.root_node_ref && target_parent == ctx.target.root_node_ref)
      || option_eq (confirmed_target_for ctx.graph source_parent) (some target_parent)

  unfoldable pub first_confidence : String → String → List MatchCandidate → Float
  first_confidence source_ref target_ref [] = float_zero
  first_confidence source_ref target_ref (c ∷ cs) =
      if is_confirmed c && (c.source_node_ref == source_ref && c.target_node_ref == target_ref)
      then c.confidence.value
      else first_confidence source_ref target_ref cs

  unfoldable pub confirmed_confidence : String → String → Float
  confirmed_confidence source_ref target_ref =
      first_confidence source_ref target_ref ctx.graph.candidates

  unfoldable pub confirmed_pairs : List Edge
  confirmed_pairs = sort edge_le (
      map (λ (c : MatchCandidate). (c.source_node_ref, c.target_node_ref))
        (confirmed_candidates ctx.graph))

  unfoldable pub both_parents : Option String → Option String → Bool
  both_parents none t = false
  both_parents (some s) none = false
  both_parents (some s) (some t) = not (parents_correspond s t)

  unfoldable pub is_cross_parent : String → String → Result Bool
  is_cross_parent source_ref target_ref = do
    source_node ← subscript ctx.source.nodes source_ref
    target_node ← subscript ctx.target.nodes target_ref
    ok (both_parents source_node.parent_ref target_node.parent_ref)

  unfoldable pub move_test : Edge → Result Bool
  move_test (s, t) = do
    cross ← is_cross_parent s t
    ok (cross && ctx.profile.move_confidence_threshold <= confirmed_confidence s t)

  -- A comprehension whose test may raise.
  unfoldable pub filter_moves : List Edge → Result (List Edge)
  filter_moves [] = ok []
  filter_moves (e ∷ es) = do
    keep ← move_test e
    rest ← filter_moves es
    ok (if keep then e ∷ rest else rest)

  unfoldable pub move_pairs : Result (List Edge)
  move_pairs = filter_moves confirmed_pairs

  -- `ambiguous_source_refs`, `ambiguous_target_refs`
  unfoldable pub ambiguous_refs : (MatchCandidate → String) → List String
  ambiguous_refs side =
      filter (λ r. not (contains r (map side (confirmed_candidates ctx.graph))))
        (map side (ambiguous_candidates ctx.graph))

  unfoldable pub suppresses_regions : UnresolvedPresencePolicy → Bool
  suppresses_regions suppress_unresolved_regions = true
  suppresses_regions _ = false

  unfoldable pub emits_all : UnresolvedPresencePolicy → Bool
  emits_all emit_all = true
  emits_all _ = false

  unfoldable pub presence_suppressed_region : AlignedRegion → Bool
  presence_suppressed_region region =
      suppresses_regions ctx.profile.unresolved_presence_policy && region.unresolved

  unfoldable pub ref_in : Option String → List String → Bool
  ref_in none refs = false
  ref_in (some ref) refs = contains ref refs

  -- The barrier of the match graph at a one-sided position.
  unfoldable pub barred : AlignmentEdgeKind → AlignedPair → Bool
  barred source_only pair = ref_in pair.source_node_ref (ambiguous_refs (λ c. c.source_node_ref))
  barred target_only pair = ref_in pair.target_node_ref (ambiguous_refs (λ c. c.target_node_ref))
  barred _ pair = false

  unfoldable pub presence_suppressed_pair : AlignedPair → Bool
  presence_suppressed_pair pair =
      not (emits_all ctx.profile.unresolved_presence_policy)
      && (is_unresolved pair || barred pair.kind pair)
