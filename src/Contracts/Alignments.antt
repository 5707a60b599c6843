-- ===== src/Contracts/Alignments.antt =====
-- core/contracts/alignment.py: aligned positions, regions and their result.
use structural_reconciliatio.Base.{
  String, Bool, true, false, Option, none, some, List, [], ◌∷◌, ◌==◌, ◌&&◌, ◌||◌, not, any,
  is_empty, is_some, filter, contains, nodup, map, option_eq, if◌then◌else◌,
}
use structural_reconciliatio.Errors.{
  Result, ok, aligned_pair_sides, unresolved_without_candidates, region_not_marked,
  region_ids_not_unique, unresolved_ids_not_unique, unresolved_ids_mismatch, ◌>>◌,
}
use structural_reconciliatio.Tree.{require}

pub data AlignmentEdgeKind : Type 0 where
  aligned source_only target_only unresolved_source unresolved_target : AlignmentEdgeKind

unfoldable pub is_aligned : AlignmentEdgeKind → Bool
is_aligned aligned = true
is_aligned _ = false

-- `kind in UNRESOLVED_EDGE_KINDS`
unfoldable pub is_unresolved_kind : AlignmentEdgeKind → Bool
is_unresolved_kind unresolved_source = true
is_unresolved_kind unresolved_target = true
is_unresolved_kind _ = false

pub record AlignedPair : Type 0 where
  pub kind : AlignmentEdgeKind
  pub source_node_ref : Option String
  pub target_node_ref : Option String
  pub match_id : Option String
  pub ambiguous_match_ids : List String

abbrev pub is_unresolved : AlignedPair → Bool
is_unresolved pair = is_unresolved_kind pair.kind

unfoldable pub validate_pair : AlignedPair → Result AlignedPair
validate_pair pair = do
  require
      (not (
        is_aligned pair.kind
        && (not (is_some pair.source_node_ref) || not (is_some pair.target_node_ref))))
      aligned_pair_sides
  require (not (is_unresolved pair && is_empty pair.ambiguous_match_ids))
      unresolved_without_candidates
  ok pair

pub record AlignedRegion : Type 0 where
  pub region_id : String
  pub source_parent_ref : Option String
  pub target_parent_ref : Option String
  pub ordered : Bool
  pub pairs : List AlignedPair
  pub order_changed : Bool
  pub unresolved : Bool

unfoldable pub validate_region : AlignedRegion → Result AlignedRegion
validate_region region = do
  require (not (any is_unresolved region.pairs && not region.unresolved)) region_not_marked
  ok region

pub record AlignmentResult : Type 0 where
  pub regions : List AlignedRegion
  pub unresolved_region_ids : List String

-- The references of the pairs of one unresolved kind.
unfoldable pub refs_of_kind :
    (AlignmentEdgeKind → Bool) → (AlignedPair → Option String) → List AlignedPair → List String
refs_of_kind kind side [] = []
refs_of_kind kind side (pair ∷ pairs) =
    let rest = refs_of_kind kind side pairs in
    if kind pair.kind then elim (side pair) [ none ↦ rest | some ref ↦ ref ∷ rest ] else rest

unfoldable pub is_unresolved_source : AlignmentEdgeKind → Bool
is_unresolved_source unresolved_source = true
is_unresolved_source _ = false

unfoldable pub is_unresolved_target : AlignmentEdgeKind → Bool
is_unresolved_target unresolved_target = true
is_unresolved_target _ = false

-- `region.unresolved_source_refs`, `region.unresolved_target_refs`
unfoldable pub unresolved_source_refs : AlignedRegion → List String
unresolved_source_refs region =
    refs_of_kind is_unresolved_source (λ p. p.source_node_ref) region.pairs

unfoldable pub unresolved_target_refs : AlignedRegion → List String
unresolved_target_refs region =
    refs_of_kind is_unresolved_target (λ p. p.target_node_ref) region.pairs

-- `result.unresolved_regions`
unfoldable pub unresolved_regions : AlignmentResult → List AlignedRegion
unresolved_regions result = filter (λ (r : AlignedRegion). r.unresolved) result.regions

-- Each text of the first list is in the second.
unfoldable pub all_in : List String → List String → Bool
all_in xs ys = not (any (λ x. not (contains x ys)) xs)

unfoldable pub validate_alignment : AlignmentResult → Result AlignmentResult
validate_alignment result =
    let marked = map (λ (r : AlignedRegion). r.region_id) (unresolved_regions result) in
    do
      require (nodup (map (λ (r : AlignedRegion). r.region_id) result.regions))
          region_ids_not_unique
      require (nodup result.unresolved_region_ids) unresolved_ids_not_unique
      require
          (all_in result.unresolved_region_ids marked && all_in marked result.unresolved_region_ids)
          unresolved_ids_mismatch
      ok result

unfoldable pub first_region : (AlignedRegion → Bool) → List AlignedRegion → Option AlignedRegion
first_region test [] = none
first_region test (region ∷ regions) =
    if test region then some region else first_region test regions

unfoldable pub region_for : AlignmentResult → Option String → Option String → Option AlignedRegion
region_for result source_parent target_parent =
    first_region
      (λ r.
        option_eq r.source_parent_ref source_parent && option_eq r.target_parent_ref target_parent)
      result.regions

unfoldable pub region_by_id : AlignmentResult → String → Option AlignedRegion
region_by_id result region_id = first_region (λ r. r.region_id == region_id) result.regions
