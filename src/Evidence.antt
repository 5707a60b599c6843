-- ===== src/Evidence.antt =====
-- core/evidence/extractor.py: the identity signals of each node.
pub mod Totality
use Prim.Native.String.{◌++◌ as ◌&◌}
use structural_reconciliatio.Base.{
  ◌≡◌, ℕ, suc, String, Bool, true, false, Option, none, some, List, [], ◌∷◌, ◌++◌, ◌==◌, not,
  if◌then◌else◌, contains, sort_texts, sorted_items, Dict, lookup, put, ltb, map, filter,
}
use structural_reconciliatio.Runtime.{Runtime}
use structural_reconciliatio.Errors.{Result, ok, raise, traverse, ◌>>=◌, ◌>>◌}
use structural_reconciliatio.Tree.{CanonicalNode, CanonicalTree, non_empty, subscript}
use structural_reconciliatio.Tree.Values.{
  Value, Values, Fields, null, text, int, float, bool, list, dict, nil, cons, end, field, get_field,
  field_keys,
}

pub record NodeEvidence : Type 0 where
  pub node_ref : String
  pub node_type : String
  pub persistent_id : Option String
  pub label : Option String
  pub signature : String
  pub child_signature : String

pub record EvidenceIndex : Type 0 where
  pub source : Dict NodeEvidence
  pub target : Dict NodeEvidence
  pub duplicate_source_ids : List String
  pub duplicate_target_ids : List String

abbrev pub default_id_keys : List String
default_id_keys = "id" ∷ "xml:id" ∷ "guid" ∷ "key" ∷ []

abbrev pub default_label_keys : List String
default_label_keys = "label" ∷ "title" ∷ "navtitle" ∷ []

-- `separator.join(parts)`
unfoldable pub join : String → List String → String
join separator [] = ""
join separator (part ∷ []) = part
join separator (part ∷ next ∷ parts) = (part & separator) & join separator (next ∷ parts)

module _ ⦃R : Runtime⦄ where
  -- `repr(v)`: the punctuation of lists and dicts, over the runtime's `repr` of the leaves.
  unfoldable mutual
    pub repr : Value → String
    repr null = "None"
    repr (text s) = R.repr_text s
    repr (int n) = R.repr_int n
    repr (float x) = R.repr_float x
    repr (bool b) = elim b [ true ↦ "True" | false ↦ "False" ]
    repr (list vs) = "[" & (join ", " (repr_values vs) & "]")
    repr (dict fs) = "{" & (join ", " (repr_fields fs) & "}")

    pub repr_values : Values → List String
    repr_values nil = []
    repr_values (cons v vs) = repr v ∷ repr_values vs

    pub repr_fields : Fields → List String
    repr_fields end = []
    repr_fields (field k v fs) = (R.repr_text k & (": " & repr v)) ∷ repr_fields fs

  -- `identity.get(key)`, and the content property where that is `None`
  unfoldable pub property : CanonicalNode → String → Option Value
  property node key = elim (get_field node.identity_properties key) [
    | none ↦ get_field node.content_properties key
    | some v ↦ elim v [ null ↦ get_field node.content_properties key | other ↦ some other ]
  ]

  -- `isinstance(value, str) and value`
  unfoldable pub present_text : Option Value → Option String
  present_text none = none
  present_text (some v) = elim v [ text s ↦ (if non_empty s then some s else none) | _ ↦ none ]

  unfoldable pub first_present : CanonicalNode → List String → Option String
  first_present node [] = none
  first_present node (key ∷ keys) = elim (present_text (property node key)) [
    | some s ↦ some s
    | none ↦ first_present node keys
  ]

  -- `properties[key]!r` of a key that is there
  unfoldable pub repr_at : Fields → String → String
  repr_at fs key = elim (get_field fs key) [ none ↦ "" | some v ↦ repr v ]

  unfoldable pub signature : CanonicalNode → String
  signature node = join "|" (
      ("type=" & node.node_type)
      ∷ (map (λ key. ("id:" & key) & ("=" & repr_at node.identity_properties key))
            (filter (λ key. not (contains key default_id_keys))
              (sort_texts (field_keys node.identity_properties)))
          ++ map (λ key. ("content:" & key) & ("=" & repr_at node.content_properties key))
              (sort_texts (field_keys node.content_properties))))

  unfoldable pub child_signature : CanonicalTree → CanonicalNode → Result String
  child_signature tree node = do
    types ← traverse (λ c. do child ← subscript tree.nodes c; ok child.node_type) node.child_refs
    ok (join "," types)

  unfoldable pub node_evidence : CanonicalTree → String × CanonicalNode → Result NodeEvidence
  node_evidence tree (node_ref, node) = do
    children ← child_signature tree node
    ok (record {
      node_ref = node_ref;
      node_type = node.node_type;
      persistent_id = first_present node default_id_keys;
      label = first_present node default_label_keys;
      signature = signature node;
      child_signature = children;
    })

-- `id_counts[persistent_id] = id_counts.get(persistent_id, 0) + 1`, where there is an id
unfoldable pub count_id : Dict ℕ → Option String → Dict ℕ
count_id counts none = counts
count_id counts (some id) = put counts id (elim (lookup counts id) [ none ↦ 1 | some n ↦ suc n ])

unfoldable pub count_ids : Dict ℕ → List NodeEvidence → Dict ℕ
count_ids counts [] = counts
count_ids counts (ev ∷ evs) = count_ids (count_id counts ev.persistent_id) evs

-- `{k for k, v in id_counts.items() if v > 1}`
unfoldable pub counted_twice : Dict ℕ → List String
counted_twice [] = []
counted_twice ((id, n) ∷ counts) =
    let rest = counted_twice counts in if ltb 1 n then id ∷ rest else rest

-- `evidence[node_ref] = ...` along the nodes, whose references are different
unfoldable pub by_ref : List NodeEvidence → Dict NodeEvidence
by_ref [] = []
by_ref (ev ∷ evs) = (ev.node_ref, ev) ∷ by_ref evs

module _ ⦃R : Runtime⦄ where
  unfoldable pub extract_tree : CanonicalTree → Result (Dict NodeEvidence × List String)
  extract_tree tree = do
    evs ← traverse (node_evidence tree) (sorted_items tree.nodes)
    ok (by_ref evs, counted_twice (count_ids [] evs))

  -- `extract(source, target, profile)`; the profile is not read.
  unfoldable pub extract : CanonicalTree → CanonicalTree → Result EvidenceIndex
  extract source target = do
    s ← extract_tree source
    t ← extract_tree target
    ok (record {
      source = s.0;
      target = t.0;
      duplicate_source_ids = s.1;
      duplicate_target_ids = t.1;
    })

-- Each evidence stands under its own reference.
abbrev pub KeyedByRef : Dict NodeEvidence → Type 0
KeyedByRef evidence =
    (r : String) (ev : NodeEvidence) → lookup evidence r ≡ some ev → ev.node_ref ≡ r
