-- ===== src/Alignment/Aligner/Coverage.antt =====
-- The positions of a region name the children of both parents, no more and no less.
use structural_reconciliatio.Base.{
  ◌≡◌, refl, sym, ap, ◌∙◌, Bool, true, false, String, Option, none, some, List, [], ◌∷◌, ◌++◌, ◌==◌,
  ◌&&◌, not, map, filter, collect, contains, Dict, contains-filter, contains-append, Bool-cases,
  Option-cases, inl, inr, arith, eq→path, eq_refl,
}
use structural_reconciliatio.Runtime.{Runtime}
use structural_reconciliatio.Contracts.Matches.{MatchGraph, confirmed_target_for}
use structural_reconciliatio.Contracts.Alignments.{AlignedPair}
use structural_reconciliatio.Matching.Ambiguity.{Edge}
use structural_reconciliatio.Alignment.Aligner.{
  aligned_position, source_position, target_position, ids_at, matched_pair, is_matched_source,
  positions,
}

-- The references that stand on one side of the positions.
unfoldable pub side_of : (AlignedPair → Option String) → List AlignedPair → List String
side_of side [] = []
side_of side (p ∷ ps) =
    let rest = side_of side ps in elim (side p) [ none ↦ rest | some ref ↦ ref ∷ rest ]

abbrev pub source_side : AlignedPair → Option String
source_side p = p.source_node_ref

abbrev pub target_side : AlignedPair → Option String
target_side p = p.target_node_ref

side_of-append :
    (side : AlignedPair → Option String) (ps qs : List AlignedPair)
    → side_of side (ps ++ qs) ≡ side_of side ps ++ side_of side qs
unfolding side_of
side_of-append side [] qs = refl
side_of-append side (p ∷ ps) qs = elim (Option-cases (side p)) [
  | inl e ↦ rw (e, side_of) (side_of-append side ps qs)
  | inr (r, e) ↦ rw (e, side_of) (ap (λ l. r ∷ l) (side_of-append side ps qs))
]

-- A map whose results all have that reference, or all have none, on the side.
side_of-map-some :
    {A : Type 0} (side : AlignedPair → Option String) (f : A → AlignedPair) (ref : A → String)
    (xs : List A)
    → ((x : A) → side (f x) ≡ some (ref x))
    → side_of side (map f xs) ≡ map ref xs
unfolding side_of
side_of-map-some side f ref [] h = refl
side_of-map-some side f ref (x ∷ xs) h =
    rw (h x, side_of) (ap (λ l. ref x ∷ l) (side_of-map-some side f ref xs h))

side_of-map-none :
    {A : Type 0} (side : AlignedPair → Option String) (f : A → AlignedPair) (xs : List A)
    → ((x : A) → side (f x) ≡ none)
    → side_of side (map f xs) ≡ []
unfolding side_of
side_of-map-none side f [] h = refl
side_of-map-none side f (x ∷ xs) h = rw (h x, side_of) (side_of-map-none side f xs h)

source_position-source :
    (sc : String) (ids : List String) → (source_position sc ids).source_node_ref ≡ some sc
unfolding source_position
source_position-source sc [] = refl
source_position-source sc (id ∷ ids) = refl

source_position-target :
    (sc : String) (ids : List String) → (source_position sc ids).target_node_ref ≡ none
unfolding source_position
source_position-target sc [] = refl
source_position-target sc (id ∷ ids) = refl

target_position-source :
    (tc : String) (ids : List String) → (target_position tc ids).source_node_ref ≡ none
unfolding target_position
target_position-source tc [] = refl
target_position-source tc (id ∷ ids) = refl

target_position-target :
    (tc : String) (ids : List String) → (target_position tc ids).target_node_ref ≡ some tc
unfolding target_position
target_position-target tc [] = refl
target_position-target tc (id ∷ ids) = refl

map_id : (xs : List String) → map (λ x. x) xs ≡ xs
map_id [] = refl
map_id (x ∷ xs) = ap (λ l. x ∷ l) (map_id xs)

module _ ⦃R : Runtime⦄ (graph : MatchGraph)
    (ambiguous_sources ambiguous_targets : Dict (List String))
    (source_children target_children : List String) where
  abbrev matched : List Edge
  matched = collect (matched_pair graph target_children) source_children

  abbrev matched_targets : List String
  matched_targets = map (λ (e : Edge). e.1) matched

  abbrev open_sources : List String
  open_sources = filter (λ sc. not (is_matched_source graph matched_targets sc)) source_children

  abbrev open_targets : List String
  open_targets = filter (λ tc. not (contains tc matched_targets)) target_children

  abbrev all_positions : List AlignedPair
  all_positions =
      positions graph ambiguous_sources ambiguous_targets source_children target_children

  positions-sources :
      side_of source_side all_positions ≡ map (λ (e : Edge). e.0) matched ++ (open_sources ++ [])
  unfolding positions aligned_position
  positions-sources =
      side_of-append source_side (map aligned_position matched) _
      ∙ rw (side_of-map-some source_side aligned_position (λ (e : Edge). e.0) matched (λ e. refl)) (
          ap (λ l. map (λ (e : Edge). e.0) matched ++ l)
            (side_of-append source_side
                (map (λ sc. source_position sc (ids_at ambiguous_sources sc)) open_sources) _
              ∙ rw
                  (side_of-map-some source_side
                    (λ sc. source_position sc (ids_at ambiguous_sources sc)) (λ x. x) open_sources
                    (λ sc. source_position-source sc (ids_at ambiguous_sources sc)))
                  (rw
                    (side_of-map-none source_side
                      (λ tc. target_position tc (ids_at ambiguous_targets tc)) open_targets
                      (λ tc. target_position-source tc (ids_at ambiguous_targets tc)))
                    (ap (λ l. l ++ []) (map_id open_sources)))))

  positions-targets : side_of target_side all_positions ≡ matched_targets ++ open_targets
  unfolding positions aligned_position
  positions-targets =
      side_of-append target_side (map aligned_position matched) _
      ∙ rw (side_of-map-some target_side aligned_position (λ (e : Edge). e.1) matched (λ e. refl)) (
          ap (λ l. matched_targets ++ l)
            (side_of-append target_side
                (map (λ sc. source_position sc (ids_at ambiguous_sources sc)) open_sources) _
              ∙ rw
                  (side_of-map-none target_side
                    (λ sc. source_position sc (ids_at ambiguous_sources sc)) open_sources
                    (λ sc. source_position-target sc (ids_at ambiguous_sources sc)))
                  (side_of-map-some target_side
                      (λ tc. target_position tc (ids_at ambiguous_targets tc)) (λ x. x) open_targets
                      (λ tc. target_position-target tc (ids_at ambiguous_targets tc))
                    ∙ map_id open_targets)))

  -- Whether the confirmed target of a child is a child of the other parent.
  abbrev in_region : Option String → Bool
  in_region none = false
  in_region (some tc) = contains tc target_children

  contains-matched_sources :
      (cs : List String) (x : String)
      → contains x (map (λ (e : Edge). e.0) (collect (matched_pair graph target_children) cs))
        ≡ (contains x cs && in_region (confirmed_target_for graph x))
  unfolding contains collect matched_pair
  contains-matched_sources [] x = refl
  contains-matched_sources (c ∷ cs) x =
      let ih = contains-matched_sources cs x in
      elim (Option-cases (confirmed_target_for graph c)) [
        | inl e ↦
            rw (e, matched_pair)
              (elim (Bool-cases (x == c)) [
                | inl same ↦
                    let e' : confirmed_target_for graph x ≡ none =
                      ap (confirmed_target_for graph) (eq→path x c same) ∙ e in
                    ground (arith, ih, e')
                | inr other ↦ ground (arith, ih, other)
              ])
        | inr (tc, e) ↦
            rw (e, matched_pair)
              (elim (Bool-cases (x == c)) [
                | inl same ↦
                    let e' : confirmed_target_for graph x ≡ some tc =
                      ap (confirmed_target_for graph) (eq→path x c same) ∙ e in
                    ground (arith, ih, e', same)
                | inr other ↦ ground (arith, ih, other)
              ])
      ]

  matched_targets-children :
      (cs : List String) (x : String)
      → contains x (map (λ (e : Edge). e.1) (collect (matched_pair graph target_children) cs))
        ≡ true
      → contains x target_children ≡ true
  unfolding contains collect matched_pair
  matched_targets-children [] x m = cc
  matched_targets-children (c ∷ cs) x m = elim (Option-cases (confirmed_target_for graph c)) [
    | inl e ↦ matched_targets-children cs x (rw (e, matched_pair) at m)
    | inr (tc, e) ↦
        let m' = rw (e, matched_pair) at m in
        elim (Bool-cases (contains tc target_children)) [
          | inl k ↦ elim (Bool-cases (x == tc)) [
            | inl same ↦ ap (λ z. contains z target_children) (eq→path x tc same) ∙ k
            | inr other ↦ matched_targets-children cs x (ground (arith, m', k, other))
          ]
          | inr k ↦ matched_targets-children cs x (ground (arith, m', k))
        ]
  ]

  matched_targets-confirmed :
      (cs : List String) (x tc : String)
      → contains x cs ≡ true
      → confirmed_target_for graph x ≡ some tc
      → contains tc target_children ≡ true
      → contains tc (map (λ (e : Edge). e.1) (collect (matched_pair graph target_children) cs))
        ≡ true
  unfolding contains collect matched_pair
  matched_targets-confirmed [] x tc m e k = cc
  matched_targets-confirmed (c ∷ cs) x tc m e k = elim (Bool-cases (x == c)) [
    | inl same ↦
        let e' : confirmed_target_for graph c ≡ some tc =
          ap (confirmed_target_for graph) (sym (eq→path x c same)) ∙ e in
        rw (e', matched_pair) (rw k (ground (arith, eq_refl tc)))
    | inr other ↦
        let ih = matched_targets-confirmed cs x tc (ground (arith, m, other)) e k in
        elim (Option-cases (confirmed_target_for graph c)) [
          | inl f ↦ rw (f, matched_pair) ih
          | inr (tc', f) ↦ rw (f, matched_pair) (ground (arith, ih))
        ]
  ]

  is_matched_source-in_region :
      (x : String)
      → contains x source_children ≡ true
      → is_matched_source graph matched_targets x ≡ in_region (confirmed_target_for graph x)
  unfolding is_matched_source
  is_matched_source-in_region x m = elim (Option-cases (confirmed_target_for graph x)) [
    | inl e ↦ rw (e, is_matched_source) refl
    | inr (tc, e) ↦
        rw (e, is_matched_source)
          (elim (Bool-cases (contains tc target_children)) [
            | inl k ↦ matched_targets-confirmed source_children x tc m e k ∙ sym k
            | inr k ↦ elim (Bool-cases (contains tc matched_targets)) [
              | inl f ↦ let clash = matched_targets-children source_children tc f in cc
              | inr f ↦ f ∙ sym k
            ]
          ])
  ]

  -- The positions of a region name, on the source side, exactly the children of the source parent
  -- and, on the target side, exactly those of the target parent.
  pub positions-sides :
      (x : String)
      → (contains x (side_of source_side all_positions) ≡ contains x source_children)
        × (contains x (side_of target_side all_positions) ≡ contains x target_children)
  unfolding contains
  positions-sides x =
      let sources : contains x (side_of source_side all_positions) ≡ contains x source_children =
        ap (contains x) positions-sources
        ∙ contains-append x (map (λ (e : Edge). e.0) matched) (open_sources ++ [])
        ∙ ground (
          arith,
          contains-append x open_sources [],
          contains-matched_sources source_children x,
          contains-filter (λ sc. not (is_matched_source graph matched_targets sc)) x
              source_children,
          is_matched_source-in_region x,
        ) in
      let targets : contains x (side_of target_side all_positions) ≡ contains x target_children =
        ap (contains x) positions-targets
        ∙ contains-append x matched_targets open_targets
        ∙ ground (
          arith,
          contains-filter (λ tc. not (contains tc matched_targets)) x target_children,
          matched_targets-children source_children x,
        ) in
      (sources, targets)
