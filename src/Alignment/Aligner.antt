-- ===== src/Alignment/Aligner.antt =====
-- core/alignment/aligner.py
pub mod Coverage
use Prim.Native.String.{◌++◌ as ◌&◌}
use structural_reconciliatio.Base.{
  String, Bool, true, false, none, some, List, [], ◌∷◌, ◌++◌, ◌==◌, ◌&&◌, not, any, filter, collect,
  contains, map, sort, sort_texts, leb, length, if◌then◌else◌, Dict, lookup, put,
}
use structural_reconciliatio.Runtime.{Runtime}
use structural_reconciliatio.Errors.{Result, traverse, ◌>>=◌}
use structural_reconciliatio.Tree.{CanonicalTree, subscript}
use structural_reconciliatio.Contracts.Profiles.{
  AlignmentProfile, OrderSemantics, ordered, unordered, order_semantics_for,
}
use structural_reconciliatio.Contracts.Matches.{
  MatchCandidate, MatchGraph, confirmed_candidates, ambiguous_candidates, confirmed_target_for,
}
use structural_reconciliatio.Contracts.Alignments.{
  AlignedPair, AlignedRegion, AlignmentResult, aligned, source_only, target_only, unresolved_source,
  unresolved_target, is_unresolved, validate_pair, validate_region, validate_alignment,
}
use structural_reconciliatio.Matching.Candidates.{match_id}
use structural_reconciliatio.Matching.Ambiguity.{Edge, same_edge, edge_le}

unfoldable pub region_id_for : String → String → String
region_id_for source_parent target_parent = "region:" & (source_parent & ("->" & target_parent))

-- A position with one side, that side and the candidates that leave it open.
unfoldable pub source_position : String → List String → AlignedPair
source_position sc [] = record {
  kind = source_only;
  source_node_ref = some sc;
  target_node_ref = none;
  match_id = none;
  ambiguous_match_ids = [];
}
source_position sc (id ∷ ids) = record {
  kind = unresolved_source;
  source_node_ref = some sc;
  target_node_ref = none;
  match_id = none;
  ambiguous_match_ids = id ∷ ids;
}

unfoldable pub target_position : String → List String → AlignedPair
target_position tc [] = record {
  kind = target_only;
  source_node_ref = none;
  target_node_ref = some tc;
  match_id = none;
  ambiguous_match_ids = [];
}
target_position tc (id ∷ ids) = record {
  kind = unresolved_target;
  source_node_ref = none;
  target_node_ref = some tc;
  match_id = none;
  ambiguous_match_ids = id ∷ ids;
}

unfoldable pub aligned_position : Edge → AlignedPair
aligned_position (sc, tc) = record {
  kind = aligned;
  source_node_ref = some sc;
  target_node_ref = some tc;
  match_id = some (match_id sc tc);
  ambiguous_match_ids = [];
}

-- `targets_by_source_order != targets_by_target_order`
unfoldable pub same_texts : List String → List String → Bool
same_texts [] [] = true
same_texts (x ∷ xs) (y ∷ ys) = x == y && same_texts xs ys
same_texts _ _ = false

-- `if pair not in parent_pairs: parent_pairs.append(pair)` along the confirmed pairs
unfoldable pub add_pairs : List Edge → List Edge → List Edge
add_pairs pairs [] = pairs
add_pairs pairs (e ∷ es) = add_pairs (if any (same_edge e) pairs then pairs else pairs ++ e ∷ []) es

-- `index.get(ref, ())`
unfoldable pub ids_at : Dict (List String) → String → List String
ids_at index ref = elim (lookup index ref) [ none ↦ [] | some ids ↦ sort_texts ids ]

module _ ⦃R : Runtime⦄ where
  -- `_ambiguous_index`: the match ids at each node of one side that holds no confirmed match.
  -- The ids of a node are sorted where they are read.
  unfoldable pub index_ambiguous :
      (MatchCandidate → String)
      → List String
      → Dict (List String)
      → List MatchCandidate
      → Dict (List String)
  index_ambiguous side settled index [] = index
  index_ambiguous side settled index (c ∷ cs) =
      index_ambiguous side settled
        (if contains (side c) settled
          then index
          else put index (side c) (elim (lookup index (side c)) [
            | none ↦ c.match_id ∷ []
            | some ids ↦ ids ++ c.match_id ∷ []
          ]))
        cs

  unfoldable pub ambiguous_index : MatchGraph → (MatchCandidate → String) → Dict (List String)
  ambiguous_index graph side =
      index_ambiguous side (map side (confirmed_candidates graph)) [] (ambiguous_candidates graph)

  -- A child with the target confirmed for it, where that target is among the given ones.
  unfoldable pub matched_pair : MatchGraph → List String → String → List Edge
  matched_pair graph target_children sc = elim (confirmed_target_for graph sc) [
    | none ↦ []
    | some tc ↦ if contains tc target_children then (sc, tc) ∷ [] else []
  ]

  unfoldable pub is_matched_source : MatchGraph → List String → String → Bool
  is_matched_source graph matched_targets sc = elim (confirmed_target_for graph sc) [
    | none ↦ false
    | some tc ↦ contains tc matched_targets
  ]

  -- The positions of a region: the matched pairs, then the other children of either side.
  unfoldable pub positions :
      MatchGraph
      → (ambiguous_sources ambiguous_targets : Dict (List String))
      → (source_children target_children : List String) → List AlignedPair
  positions graph ambiguous_sources ambiguous_targets source_children target_children =
      let matched_pairs = collect (matched_pair graph target_children) source_children in
      let matched_targets = map (λ (e : Edge). e.1) matched_pairs in
      map aligned_position matched_pairs
      ++ (map (λ sc. source_position sc (ids_at ambiguous_sources sc))
            (filter (λ sc. not (is_matched_source graph matched_targets sc)) source_children)
          ++ map (λ tc. target_position tc (ids_at ambiguous_targets tc))
              (filter (λ tc. not (contains tc matched_targets)) target_children))

  unfoldable pub order_change : MatchGraph → (source_children target_children : List String) → Bool
  order_change graph source_children target_children =
      let matched_pairs = collect (matched_pair graph target_children) source_children in
      let matched_targets = map (λ (e : Edge). e.1) matched_pairs in
      leb 2 (length matched_pairs)
      && not
          (same_texts matched_targets (filter (λ tc. contains tc matched_targets) target_children))

  unfoldable pub is_ordered : OrderSemantics → Bool
  is_ordered ordered = true
  is_ordered unordered = false

  unfoldable pub align_parent :
      CanonicalTree
      → CanonicalTree
      → MatchGraph
      → AlignmentProfile
      → (ambiguous_sources ambiguous_targets : Dict (List String)) → Edge
      → Result AlignedRegion
  align_parent source target graph profile ambiguous_sources ambiguous_targets
        (source_parent, target_parent) =
      do
        source_node ← subscript source.nodes source_parent
        target_node ← subscript target.nodes target_parent
        let in_order = is_ordered (order_semantics_for profile source_node.node_type)
        pairs ← traverse validate_pair (
            positions graph ambiguous_sources ambiguous_targets source_node.child_refs
              target_node.child_refs)
        validate_region (record {
          region_id = region_id_for source_parent target_parent;
          source_parent_ref = some source_parent;
          target_parent_ref = some target_parent;
          ordered = in_order;
          pairs = pairs;
          order_changed =
              in_order && order_change graph source_node.child_refs target_node.child_refs;
          unresolved = any is_unresolved pairs;
        })

  -- The corresponding parents: the roots and every confirmed pair, each once.
  unfoldable pub parent_pairs : CanonicalTree → CanonicalTree → MatchGraph → List Edge
  parent_pairs source target graph = add_pairs ((source.root_node_ref, target.root_node_ref) ∷ []) (
      map (λ (c : MatchCandidate). (c.source_node_ref, c.target_node_ref))
        (confirmed_candidates graph))

  unfoldable pub align :
      CanonicalTree → CanonicalTree → MatchGraph → AlignmentProfile → Result AlignmentResult
  align source target graph profile = do
    regions ←
        traverse
          (align_parent source target graph profile (ambiguous_index graph (λ c. c.source_node_ref))
            (ambiguous_index graph (λ c. c.target_node_ref)))
          (sort edge_le (parent_pairs source target graph))
    validate_alignment (record {
      regions = regions;
      unresolved_region_ids =
          map (λ (r : AlignedRegion). r.region_id)
            (filter (λ (r : AlignedRegion). r.unresolved) regions);
    })
