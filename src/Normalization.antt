-- ===== src/Normalization.antt =====
-- core/normalization/service.py
pub mod Structure
pub mod Whitespace
use Prim.Native.Char.{Char, code}
use Prim.Native.String.{String}
use structural_reconciliatio.Base.{
  ℕ, Bool, true, false, Option, none, some, List, [], ◌∷◌, ◌++◌, ◌==◌, ◌&&◌, ◌||◌, not, contains,
  leb, if◌then◌else◌, Dict, sort_texts, sorted_items, map, collect,
}
use structural_reconciliatio.Runtime.{Runtime}
use structural_reconciliatio.Tree.{CanonicalNode, CanonicalTree}
use structural_reconciliatio.Tree.Values.{
  Value, Values, Fields, null, text, int, float, bool, list, dict, nil, cons, end, field, get_field,
  field_keys, value_eq,
}
use structural_reconciliatio.Contracts.Profiles.{NormalizationProfile}

abbrev between : ℕ → ℕ → ℕ → Bool
between low high n = leb low n && leb n high

-- `c.isspace()`, which is also what `\s` matches
unfoldable pub is_space : Char → Bool
is_space c =
    let n = code c in
    between 9 13 n
    || (between 28 32 n
        || (between 133 133 n
            || (between 160 160 n
                || (between 5760 5760 n
                    || (between 8192 8202 n
                        || (between 8232 8233 n
                            || (between 8239 8239 n
                                || (between 8287 8287 n || between 12288 12288 n))))))))

-- `re.sub(r"\s+", " ", s)`; `inside` says that the character before was a space.
unfoldable pub collapse : Bool → String → String
collapse inside String.[] = ""
collapse inside (String.◌∷◌ c s) = elim (is_space c) [
  | true ↦ elim inside [ true ↦ collapse true s | false ↦ String.◌∷◌ " " (collapse true s) ]
  | false ↦ String.◌∷◌ c (collapse false s)
]

-- `s.strip()`
unfoldable pub strip_left : String → String
strip_left String.[] = ""
strip_left (String.◌∷◌ c s) = elim (is_space c) [ true ↦ strip_left s | false ↦ String.◌∷◌ c s ]

-- `c` in front of a text whose trailing spaces are gone
unfoldable pub stripped_cons : Char → String → String
stripped_cons c String.[] = elim (is_space c) [ true ↦ "" | false ↦ String.◌∷◌ c "" ]
stripped_cons c (String.◌∷◌ d s) = String.◌∷◌ c (String.◌∷◌ d s)

unfoldable pub strip_right : String → String
strip_right String.[] = ""
strip_right (String.◌∷◌ c s) = stripped_cons c (strip_right s)

-- `_WHITESPACE.sub(" ", value).strip()`
unfoldable pub normalize_text : String → String
normalize_text s = strip_right (strip_left (collapse false s))

-- One action of the trace: the node, the property and the rule.
pub record TraceEntry : Type 0 where
  pub node_ref : String
  pub property_key : String
  pub rule : String

module _ ⦃R : Runtime⦄ where
  unfoldable mutual
    pub normalize_value : Value → Value
    normalize_value null = null
    normalize_value (text s) = text (normalize_text s)
    normalize_value (int n) = int n
    normalize_value (float x) = float x
    normalize_value (bool b) = bool b
    normalize_value (list vs) = list (normalize_values vs)
    normalize_value (dict fs) = dict (normalize_fields fs)

    pub normalize_values : Values → Values
    normalize_values nil = nil
    normalize_values (cons v vs) = cons (normalize_value v) (normalize_values vs)

    pub normalize_fields : Fields → Fields
    normalize_fields end = end
    normalize_fields (field k v fs) = field k (normalize_value v) (normalize_fields fs)

module _ ⦃R : Runtime⦄ (profile : NormalizationProfile) where
  unfoldable pub is_excluded : String → Bool
  is_excluded key = contains key profile.nonsemantic_metadata_keys

  unfoldable pub is_collapsed : String → Bool
  is_collapsed key =
      profile.collapse_whitespace && not (contains key profile.preserve_property_keys)

  -- What a property that is kept becomes.
  unfoldable pub kept_value : String → Value → Value
  kept_value key value = if is_collapsed key then normalize_value value else value

  -- The content properties at the given keys, normalized, without the excluded ones.
  unfoldable pub normalize_content : Fields → List String → Fields
  normalize_content content [] = end
  normalize_content content (key ∷ keys) =
      let rest = normalize_content content keys in
      elim (get_field content key) [
        | none ↦ rest
        | some value ↦ if is_excluded key then rest else field key (kept_value key value) rest
      ]

  -- The actions recorded for one property.
  unfoldable pub property_trace : String → String → Value → List TraceEntry
  property_trace node_ref key value =
      if is_excluded key
      then (record { node_ref = node_ref; property_key = key; rule = "exclude-nonsemantic" } ∷ [])
      else if is_collapsed key && not (value_eq (normalize_value value) value)
      then (record { node_ref = node_ref; property_key = key; rule = "collapse-whitespace" } ∷ [])
      else []

  unfoldable pub content_trace : String → Fields → List String → List TraceEntry
  content_trace node_ref content [] = []
  content_trace node_ref content (key ∷ keys) =
      let rest = content_trace node_ref content keys in
      elim (get_field content key) [
        | none ↦ rest
        | some value ↦ property_trace node_ref key value ++ rest
      ]

  unfoldable pub normalize_node : CanonicalNode → CanonicalNode
  normalize_node node = record {
    node_ref = node.node_ref;
    node_type = node.node_type;
    parent_ref = node.parent_ref;
    child_refs = node.child_refs;
    identity_properties = node.identity_properties;
    content_properties =
        normalize_content node.content_properties (sort_texts (field_keys node.content_properties));
    structural_properties = node.structural_properties;
    extension_properties = node.extension_properties;
    source_location = node.source_location;
  }

  unfoldable pub normalize_nodes : List (String × CanonicalNode) → Dict CanonicalNode
  normalize_nodes [] = []
  normalize_nodes ((ref, node) ∷ items) = (ref, normalize_node node) ∷ normalize_nodes items

  -- The normalized tree; its version is that of the profile.
  unfoldable pub normalize : CanonicalTree → CanonicalTree
  normalize tree = record {
    contract_version = tree.contract_version;
    tree_id = tree.tree_id;
    root_node_ref = tree.root_node_ref;
    nodes = normalize_nodes (sorted_items tree.nodes);
    metadata = tree.metadata;
  }

  unfoldable pub normalization_trace : CanonicalTree → List TraceEntry
  normalization_trace tree =
      collect
        (λ (e : String × CanonicalNode).
          content_trace e.0 e.1.content_properties (sort_texts (field_keys e.1.content_properties)))
        (sorted_items tree.nodes)
