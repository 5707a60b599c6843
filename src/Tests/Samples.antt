-- ===== src/Tests/Samples.antt =====
-- A runtime that counts in millionths, and two small trees with their profiles.
use Prim.Native.Nat.{◌*◌, ◌/◌, ◌^◌, ◌-◌}
use Prim.Native.String.{◌++◌ as ◌&◌}
use structural_reconciliatio.Base.{
  ℕ, ◌+◌, String, Bool, true, false, Option, none, some, List, [], ◌∷◌, leb,
}
use structural_reconciliatio.Runtime.{Runtime, ℤ}
use structural_reconciliatio.Runtime.Int.{pos, negsuc}
use structural_reconciliatio.Tree.{CanonicalNode, CanonicalTree}
use structural_reconciliatio.Tree.Values.{Fields, end, field, text}
use structural_reconciliatio.Contracts.Profiles.{
  persistent_id, semantic_signature, node_type, normalized_label, NormalizationProfile,
  MatchingProfile, AlignmentProfile, OperationProfile, SuppressionProfile, ordered, lcs,
  suppress_ambiguous_nodes, initial_operations, op_move,
}
use structural_reconciliatio.Limits.{ResourceLimits}
use structural_reconciliatio.Engine.{ReconcileTreesCommand}

abbrev sum_of : List ℕ → ℕ
sum_of [] = 0
sum_of (n ∷ ns) = n + sum_of ns

abbrev is_millions : ℕ → ℤ → Bool
is_millions x (pos n) = leb x (n * 1000000)
is_millions x (negsuc n) = false

-- Numbers from 0 up, in millionths; a difference below 0 is 0.
abbrev pub millionths : Runtime
millionths = record {
  Float = ℕ;
  le = leb;
  add = λ a b. a + b;
  sub = λ a b. a - b;
  div = λ a b. (a * 1000000) / b;
  mul = λ a b. (a * b) / 1000000;
  decimal = λ m k. (m * 1000000) / (10 ^ k);
  of_count = λ n. n * 1000000;
  round6 = λ x. x;
  sum = sum_of;
  eq_int = is_millions;
  repr_text = λ s. "'" & (s & "'");
  repr_int = λ n. "0";
  repr_float = λ x. "0.0";
}

abbrev pub plain_node :
    String
    → String
    → Option String
    → List String
    → Fields ⦃R = millionths⦄
    → Fields ⦃R = millionths⦄
    → CanonicalNode ⦃R = millionths⦄
plain_node ref type parent children identity content = record {
  node_ref = ref;
  node_type = type;
  parent_ref = parent;
  child_refs = children;
  identity_properties = identity;
  content_properties = content;
  structural_properties = end;
  extension_properties = end;
  source_location = none;
}

abbrev pub id_field : String → Fields ⦃R = millionths⦄
id_field id = field "id" (text id) end

abbrev pub title_field : String → Fields ⦃R = millionths⦄
title_field title = field "title" (text title) end

-- A map with a chapter that holds one topic.
abbrev pub source_tree : CanonicalTree ⦃R = millionths⦄
source_tree = record {
  contract_version = "1.0";
  tree_id = "source";
  root_node_ref = "s0";
  nodes =
      ("s0", plain_node "s0" "map" none ("s1" ∷ "s2" ∷ []) (id_field "root") end)
      ∷ (
        "s1",
        plain_node "s1" "chapter" (some "s0") ("s3" ∷ []) (id_field "ch1") (title_field "First"),
      )
      ∷ ("s2", plain_node "s2" "chapter" (some "s0") [] (id_field "ch2") (title_field "Second"))
      ∷ ("s3", plain_node "s3" "topic" (some "s1") [] (id_field "t1") (title_field "Topic"))
      ∷ [];
  metadata = end;
}

-- The first chapter, moved below the second, with the topic changed.
abbrev pub target_tree : CanonicalTree ⦃R = millionths⦄
target_tree = record {
  contract_version = "1.0";
  tree_id = "target";
  root_node_ref = "t0";
  nodes =
      ("t0", plain_node "t0" "map" none ("t2" ∷ []) (id_field "root") end)
      ∷ (
        "t2",
        plain_node "t2" "chapter" (some "t0") ("t1" ∷ []) (id_field "ch2") (title_field "Second"),
      )
      ∷ (
        "t1",
        plain_node "t1" "chapter" (some "t2") ("t3" ∷ []) (id_field "ch1") (title_field "First"),
      )
      ∷ ("t3", plain_node "t3" "topic" (some "t1") [] (id_field "t1") (title_field "Changed"))
      ∷ [];
  metadata = end;
}

abbrev pub matching_profile : MatchingProfile ⦃R = millionths⦄
matching_profile = record {
  version = "1";
  evidence_priority = persistent_id ∷ semantic_signature ∷ normalized_label ∷ node_type ∷ [];
  feature_weights =
      (record { feature = persistent_id; weight = 1000000 })
      ∷ (record { feature = normalized_label; weight = 500000 })
      ∷ (record { feature = node_type; weight = 200000 })
      ∷ [];
  authoritative_id_features = persistent_id ∷ [];
  hard_constraint_node_type = true;
  match_threshold = 800000;
  probable_threshold = 500000;
  ambiguity_margin = 50000;
  tie_break_keys = "source_node_ref" ∷ "target_node_ref" ∷ [];
  calibration = record { calibrated = false; model = none };
}

abbrev pub operation_profile : OperationProfile ⦃R = millionths⦄
operation_profile = record {
  version = "1";
  enabled_operations = initial_operations;
  move_confidence_threshold = 500000;
  unresolved_presence_policy = suppress_ambiguous_nodes;
}

abbrev pub suppression_profile : SuppressionProfile ⦃R = millionths⦄
suppression_profile = record {
  version = "1";
  rules =
      (record {
        rule_id = "move-paths";
        root_operation = op_move;
        effect_category = "DESCENDANT_PATH_CHANGED";
        threshold = 600000;
      })
      ∷ [];
  independent_defect_check = true;
}

abbrev pub alignment_profile : AlignmentProfile
alignment_profile = record {
  version = "1";
  strategy = lcs;
  default_order_semantics = ordered;
  order_semantics_by_type = [];
  use_anchor_partitioning = true;
}

abbrev pub normalization_profile : NormalizationProfile
normalization_profile = record {
  version = "1";
  collapse_whitespace = true;
  ignore_attribute_order = true;
  nonsemantic_metadata_keys = [];
  preserve_property_keys = [];
}

abbrev pub command_with : ResourceLimits → Bool → ReconcileTreesCommand ⦃R = millionths⦄
command_with limits incomplete = record {
  source_tree = source_tree;
  target_tree = target_tree;
  normalization_profile = normalization_profile;
  matching_profile = matching_profile;
  alignment_profile = alignment_profile;
  operation_profile = operation_profile;
  suppression_profile = suppression_profile;
  job_id = "job";
  resource_limits = limits;
  incomplete_on_limit = incomplete;
}

abbrev pub command : ReconcileTreesCommand ⦃R = millionths⦄
command = command_with (record { max_node_count = none; max_tree_depth = some 10 }) false

abbrev pub limited_command : ReconcileTreesCommand ⦃R = millionths⦄
limited_command = command_with (record { max_node_count = some 5; max_tree_depth = none }) true
