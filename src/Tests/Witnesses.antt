-- ===== src/Tests/Witnesses.antt =====
-- Each property at a concrete input.
use structural_reconciliatio.Alignment.Aligner.Coverage.{
  positions-sides, side_of, source_side, target_side,
}
use structural_reconciliatio.Alignment.Aligner.{positions}
use structural_reconciliatio.Limits.Traversal.{tree_depth-Returns}
use structural_reconciliatio.Limits.Deepest.{tree_depth-Attained, Attained}
use structural_reconciliatio.Tree.WellFormed.{Depth, top, below}
use structural_reconciliatio.Tree.Values.{end}
use structural_reconciliatio.Tree.{CanonicalNode}
use structural_reconciliatio.Limits.{tree_depth}
use structural_reconciliatio.Base.{keys, nodup, contains}
use structural_reconciliatio.Tests.Samples.{plain_node, id_field, title_field}
use structural_reconciliatio.Evidence.Totality.{extract-KeyedByRef}
use structural_reconciliatio.Matching.OneToOne.{match_nodes-eq-sort}
use structural_reconciliatio.Contracts.Matches.Inverse.{confirmed_target_for-inverse}
use structural_reconciliatio.Suppression.Justified.{suppress-Justified}
use structural_reconciliatio.Classification.Presence.Settled.{classify_presence-Clear, Clear}
use structural_reconciliatio.Contracts.Alignments.{AlignmentResult}
use structural_reconciliatio.Contracts.Operations.{passed, StructuralOperation, SuppressedEffect}
use structural_reconciliatio.Classification.Context.{ClassificationContext}
use structural_reconciliatio.Matching.Ambiguity.{Edge}
use structural_reconciliatio.Contracts.Profiles.{op_move, op_update, OperationType}
use structural_reconciliatio.Base.{◌++◌}
use structural_reconciliatio.Tests.Runs.{program}
use structural_reconciliatio.Engine.Guarantees.{
  reconcile-one_to_one, reconcile-Justified, reconcile-extract,
}
use structural_reconciliatio.Engine.Outcome.{reconcile-Admitted, reconcile-cases, Admitted, Stopped}
use structural_reconciliatio.Engine.Stages.{Stages, normal_source, normal_target}
use structural_reconciliatio.Tree.WellFormed.{WellFormed}
use structural_reconciliatio.Tree.Validation.Exactness.{validate_tree-ok_iff}
use structural_reconciliatio.Tree.Validation.{out_of_fuel, walk as parent_walk}
use structural_reconciliatio.Tree.Validation.Walks.{walk-ne-out_of_fuel}
use structural_reconciliatio.Suppression.Justified.{Justified, suppress-Justified}
use structural_reconciliatio.Alignment.Lcs.Longest.{
  align_sequences-items, align_sequences-longest, align_sequences-Subsequence, Subsequence, skip,
  keep, done, left_items, right_items, aligned_items,
}
use structural_reconciliatio.Normalization.Structure.{normalize-WellFormed}
use structural_reconciliatio.Normalization.Whitespace.{normalize_value-idempotent}
use structural_reconciliatio.Tree.Values.{text, list, cons, nil}
use structural_reconciliatio.Evidence.{KeyedByRef, EvidenceIndex}
use structural_reconciliatio.Alignment.Aligner.{source_position, target_position}
use structural_reconciliatio.Alignment.Lcs.{align_sequences}
use structural_reconciliatio.Base.{contains, sort}
use structural_reconciliatio.Classification.Context.{move_pairs, emits_all}
use structural_reconciliatio.Classification.Presence.{classify_presence}
use structural_reconciliatio.Contracts.Matches.{
  make_graph, confirmed_target_for, confirmed_source_for,
}
use structural_reconciliatio.Engine.{reconcile}
use structural_reconciliatio.Evidence.{extract}
use structural_reconciliatio.Matching.Matcher.{
  candidate_le, confirmed_sources, confirmed_targets, phase_1, match_nodes,
}
use structural_reconciliatio.Matching.Similarity.{similarity_matches}
use structural_reconciliatio.Normalization.{normalize_value, normalize}
use structural_reconciliatio.Suppression.{suppress}
use structural_reconciliatio.Tree.Validation.{validate_tree}
use structural_reconciliatio.Base.{
  ◌≡◌, refl, map, String, List, [], ◌∷◌, Bool, true, false, none, some, ◌↔◌, ◌⊎◌, length, All, ◌≤◌,
  ◌≢◌, eq→path, path→eq, ◌==◌,
}
use mathlib.Core.List.{Memᴰ}
use structural_reconciliatio.Errors.{ok, Returns}
use structural_reconciliatio.Contracts.Operations.{StructuralOperation}
use structural_reconciliatio.Tests.Samples.{
  command, limited_command, millionths, source_tree, target_tree, matching_profile,
  operation_profile, suppression_profile, normalization_profile,
}

run : Returns (reconcile ⦃R = millionths⦄ command)
unfolding program
run = (_, refl)

limited_run : Returns (reconcile ⦃R = millionths⦄ limited_command)
unfolding program
limited_run = (_, refl)

reconcile-one_to_one_example :
    (confirmed_target_for ⦃R = millionths⦄ run.0.match_graph "s1" ≡ some "t1")
    ↔ (confirmed_source_for ⦃R = millionths⦄ run.0.match_graph "t1" ≡ some "s1")
reconcile-one_to_one_example = reconcile-one_to_one ⦃R = millionths⦄ command run.0 run.1 "s1" "t1"

run_complete : run.0.complete ≡ true
unfolding program run
run_complete = refl

reconcile-Justified_example :
    All
      (Justified ⦃R = millionths⦄ run.0.operations suppression_profile)
      run.0.suppression_result.suppressed_effects
reconcile-Justified_example = reconcile-Justified ⦃R = millionths⦄ command run.0 run.1 run_complete

reconcile-cases_example :
    Stages ⦃R = millionths⦄ limited_command limited_run.0
    ⊎ Stopped ⦃R = millionths⦄ limited_command limited_run.0
reconcile-cases_example =
    reconcile-cases ⦃R = millionths⦄ limited_command limited_run.0 limited_run.1

reconcile-Admitted_example : Admitted ⦃R = millionths⦄ command
reconcile-Admitted_example = reconcile-Admitted ⦃R = millionths⦄ command run.0 run.1

admitted : Admitted ⦃R = millionths⦄ command
admitted = reconcile-Admitted ⦃R = millionths⦄ command run.0 run.1

reconcile-extract_example :
    (index : EvidenceIndex) × (extract ⦃R = millionths⦄
        (normal_source ⦃R = millionths⦄ command)
        (normal_target ⦃R = millionths⦄ command)
      ≡ ok index)
    × KeyedByRef index.source
    × KeyedByRef index.target
reconcile-extract_example = reconcile-extract ⦃R = millionths⦄ command admitted

validate_tree-ok_iff_example :
    (validate_tree ⦃R = millionths⦄ source_tree ≡ ok tt) ↔ WellFormed ⦃R = millionths⦄ source_tree
validate_tree-ok_iff_example = validate_tree-ok_iff ⦃R = millionths⦄ source_tree

walk-ne-out_of_fuel_example :
    parent_walk ⦃R = millionths⦄ source_tree.nodes 5 [] (some "s3") ≢ out_of_fuel
walk-ne-out_of_fuel_example = walk-ne-out_of_fuel ⦃R = millionths⦄ source_tree.nodes "s3"

source_WellFormed : WellFormed ⦃R = millionths⦄ source_tree
unfolding program
source_WellFormed = (validate_tree-ok_iff ⦃R = millionths⦄ source_tree).0 refl

normalize-WellFormed_example :
    WellFormed ⦃R = millionths⦄ (normalize ⦃R = millionths⦄ normalization_profile source_tree)
normalize-WellFormed_example =
    normalize-WellFormed ⦃R = millionths⦄ normalization_profile source_tree source_WellFormed

normalize_value-idempotent_example :
    normalize_value ⦃R = millionths⦄
      (normalize_value ⦃R = millionths⦄ (list (cons (text "  a  b ") nil)))
    ≡ normalize_value ⦃R = millionths⦄ (list (cons (text "  a  b ") nil))
normalize_value-idempotent_example =
    normalize_value-idempotent ⦃R = millionths⦄ (list (cons (text "  a  b ") nil))

abbrev left_keys : List String
left_keys = "a" ∷ "b" ∷ "c" ∷ []

abbrev right_keys : List String
right_keys = "b" ∷ "c" ∷ "a" ∷ []

abbrev key_eq : String → String → Bool
key_eq a b = a == b

key_eq_iff : (a b : String) → (key_eq a b ≡ true) ↔ (a ≡ b)
key_eq_iff a b = (eq→path a b, path→eq)

align_sequences-items_example :
    (left_items (align_sequences key_eq left_keys right_keys) ≡ left_keys)
    × (right_items (align_sequences key_eq left_keys right_keys) ≡ right_keys)
align_sequences-items_example = align_sequences-items key_eq left_keys right_keys

align_sequences-Subsequence_example :
    Subsequence (aligned_items (align_sequences key_eq left_keys right_keys)) left_keys
    × Subsequence (aligned_items (align_sequences key_eq left_keys right_keys)) right_keys
align_sequences-Subsequence_example =
    align_sequences-Subsequence key_eq key_eq_iff left_keys right_keys

one_key_left : Subsequence ("a" ∷ []) left_keys
one_key_left = keep "a" [] ("b" ∷ "c" ∷ []) (skip "b" [] ("c" ∷ []) (skip "c" [] [] done))

one_key_right : Subsequence ("a" ∷ []) right_keys
one_key_right =
    skip "b" ("a" ∷ []) ("c" ∷ "a" ∷ []) (skip "c" ("a" ∷ []) ("a" ∷ []) (keep "a" [] [] done))

align_sequences-longest_example :
    1 ≤ length (aligned_items (align_sequences key_eq left_keys right_keys))
align_sequences-longest_example =
    align_sequences-longest key_eq key_eq_iff left_keys right_keys ("a" ∷ []) one_key_left
      one_key_right

evidence_run : Returns (extract ⦃R = millionths⦄ source_tree target_tree)
unfolding program
evidence_run = (_, refl)

first_phase : Returns (phase_1 ⦃R = millionths⦄ evidence_run.0 matching_profile)
unfolding program evidence_run
first_phase = (_, refl)

second_phase : Returns (
    similarity_matches ⦃R = millionths⦄ evidence_run.0 matching_profile
      (confirmed_sources ⦃R = millionths⦄ first_phase.0)
      (confirmed_targets ⦃R = millionths⦄ first_phase.0))
unfolding program evidence_run first_phase
second_phase = (_, refl)

match_nodes-eq-sort_example :
    match_nodes ⦃R = millionths⦄ evidence_run.0 matching_profile
    ≡ ok (record {
      candidates = sort (candidate_le ⦃R = millionths⦄) (first_phase.0 ++ second_phase.0);
    })
match_nodes-eq-sort_example =
    match_nodes-eq-sort ⦃R = millionths⦄ evidence_run.0 matching_profile first_phase.0
      second_phase.0
      (extract-KeyedByRef ⦃R = millionths⦄ source_tree target_tree evidence_run.0 evidence_run.1).0
      (extract-KeyedByRef ⦃R = millionths⦄ source_tree target_tree evidence_run.0 evidence_run.1).1
      first_phase.1 second_phase.1

graph_run : Returns (make_graph ⦃R = millionths⦄ first_phase.0)
unfolding program evidence_run first_phase
graph_run = (_, refl)

confirmed_target_for-inverse_example :
    (confirmed_target_for ⦃R = millionths⦄ graph_run.0 "s1" ≡ some "t1")
    ↔ (confirmed_source_for ⦃R = millionths⦄ graph_run.0 "t1" ≡ some "s1")
confirmed_target_for-inverse_example =
    confirmed_target_for-inverse ⦃R = millionths⦄ first_phase.0 graph_run.0 graph_run.1 "s1" "t1"

abbrev operation_on :
    String → OperationType → List String → List String → StructuralOperation ⦃R = millionths⦄
operation_on id type sources targets = record {
  operation_id = id;
  type = type;
  source_node_refs = sources;
  target_node_refs = targets;
  from_parent_ref = some "t0";
  to_parent_ref = some "t2";
  confidence = record { value = 1000000; calibrated = false; model = none };
  match_ids = "match:s1->t1" ∷ [];
  evidence_codes = [];
  preconditions = [];
}

abbrev move_and_update : List (StructuralOperation ⦃R = millionths⦄)
move_and_update =
    operation_on "op:move" op_move ("s1" ∷ []) ("t1" ∷ [])
    ∷ operation_on "op:update" op_update ("s3" ∷ []) ("t3" ∷ [])
    ∷ []

abbrev no_regions : AlignmentResult
no_regions = record { regions = []; unresolved_region_ids = [] }

suppression_run :
    Returns (suppress ⦃R = millionths⦄ source_tree move_and_update no_regions suppression_profile)
unfolding program
suppression_run = (_, refl)

abbrev path_effect : SuppressedEffect ⦃R = millionths⦄
path_effect = record {
  effect_id = 1;
  root_operation_id = "op:move";
  suppression_rule_id = "move-paths";
  category = "DESCENDANT_PATH_CHANGED";
  affected_node_refs = "s3" ∷ [];
  confidence = record { value = 1000000; calibrated = false; model = none };
  independent_defect_check = passed;
}

suppress-Justified_example :
    All
      (Justified ⦃R = millionths⦄ move_and_update suppression_profile)
      suppression_run.0.suppressed_effects
suppress-Justified_example =
    suppress-Justified ⦃R = millionths⦄ source_tree move_and_update no_regions suppression_profile
      suppression_run.0 suppression_run.1

abbrev context : ClassificationContext ⦃R = millionths⦄
context = record {
  source = source_tree;
  target = target_tree;
  graph = graph_run.0;
  alignment = record {
    regions =
        (record {
          region_id = "region:s0->t0";
          source_parent_ref = some "s0";
          target_parent_ref = some "t0";
          ordered = true;
          pairs = source_position "s1" [] ∷ source_position "s9" [] ∷ target_position "t2" [] ∷ [];
          order_changed = false;
          unresolved = false;
        })
        ∷ [];
    unresolved_region_ids = [];
  };
  profile = operation_profile;
}

moves_run : Returns (move_pairs ⦃R = millionths⦄ context)
unfolding program evidence_run first_phase graph_run
moves_run = (_, refl)

presence_run : Returns (classify_presence ⦃R = millionths⦄ context)
unfolding program evidence_run first_phase graph_run
presence_run = (_, refl)

policy_withholds :
    emits_all ⦃R = millionths⦄ context operation_profile.unresolved_presence_policy ≡ false
unfolding program
policy_withholds = refl

classify_presence-Clear_example :
    All
      (Clear ⦃R = millionths⦄ context
        (map (λ (e : Edge). e.0) moves_run.0)
        (map (λ (e : Edge). e.1) moves_run.0))
      presence_run.0
classify_presence-Clear_example =
    classify_presence-Clear ⦃R = millionths⦄ context moves_run.0 presence_run.0 policy_withholds
      moves_run.1 presence_run.1

root_known : contains "s0" (keys source_tree.nodes) ≡ true
unfolding program
root_known = refl

children_distinct :
    All
      (λ (e : String × CanonicalNode ⦃R = millionths⦄). nodup e.1.child_refs ≡ true)
      source_tree.nodes
unfolding program
children_distinct = (refl, (refl, (refl, (refl, tt))))

tree_depth-Returns_example : Returns (tree_depth ⦃R = millionths⦄ source_tree)
tree_depth-Returns_example =
    tree_depth-Returns ⦃R = millionths⦄ source_tree source_WellFormed children_distinct root_known

depth_run : tree_depth ⦃R = millionths⦄ source_tree ≡ ok 3
unfolding program
depth_run = refl

topic_level : Depth ⦃R = millionths⦄ source_tree.nodes "s3" 2
unfolding program
topic_level =
    below "s3" "s1" (plain_node "s3" "topic" (some "s1") [] (id_field "t1") (title_field "Topic")) 1
      refl refl
      (below "s1" "s0"
        (plain_node "s1" "chapter" (some "s0") ("s3" ∷ []) (id_field "ch1") (title_field "First")) 0
        refl refl
        (top "s0" (plain_node "s0" "map" none ("s1" ∷ "s2" ∷ []) (id_field "root") end) refl refl))

tree_depth-Attained_example : (3 ≤ 3) × Attained ⦃R = millionths⦄ source_tree source_WellFormed 3
tree_depth-Attained_example =
    tree_depth-Attained ⦃R = millionths⦄ source_tree source_WellFormed 3 "s3" 2 depth_run
      topic_level

positions-sides_example :
    (contains "s9" (
        side_of source_side
          (positions ⦃R = millionths⦄ graph_run.0 [] [] ("s1" ∷ "s9" ∷ []) ("t1" ∷ "t9" ∷ [])))
      ≡ contains "s9" ("s1" ∷ "s9" ∷ []))
    × (contains "s9" (
          side_of target_side
            (positions ⦃R = millionths⦄ graph_run.0 [] [] ("s1" ∷ "s9" ∷ []) ("t1" ∷ "t9" ∷ [])))
        ≡ contains "s9" ("t1" ∷ "t9" ∷ []))
positions-sides_example =
    positions-sides ⦃R = millionths⦄ graph_run.0 [] [] ("s1" ∷ "s9" ∷ []) ("t1" ∷ "t9" ∷ []) "s9"
