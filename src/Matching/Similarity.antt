-- ===== src/Matching/Similarity.antt =====
-- Phase 2 of core/matching/matcher.py: similarity over the nodes that phase 1 left free.
use structural_reconciliatio.Base.{
  String, Bool, none, some, List, [], ◌∷◌, ◌++◌, ◌&&◌, ◌||◌, ◌==◌, not, contains, filter,
  if◌then◌else◌, collect, sort, sort_texts, Dict, lookup, keys, map, is_empty,
}
use structural_reconciliatio.Runtime.{Runtime, Float, ◌<=◌, lt, float_eq}
use structural_reconciliatio.Errors.{Result, ok, traverse, ◌>>=◌}
use structural_reconciliatio.Tree.{subscript}
use structural_reconciliatio.Contracts.Profiles.{MatchingProfile}
use structural_reconciliatio.Contracts.Matches.{MatchCandidate, confirmed, ambiguous}
use structural_reconciliatio.Evidence.{NodeEvidence, EvidenceIndex}
use structural_reconciliatio.Matching.Candidates.{
  match_id, evaluate_constraints, derive_confidence, make_candidate,
}
use structural_reconciliatio.Matching.Scorer.{score_pair}
use structural_reconciliatio.Matching.Ambiguity.{
  Edge, Scored, same_edge, edge_le, best_first, ambiguous_edges,
}

-- `sorted(s for s in evidence if s not in matched)`
unfoldable pub free_refs : Dict NodeEvidence → List String → List String
free_refs evidence matched = sort_texts (filter (λ s. not (contains s matched)) (keys evidence))

module _ ⦃R : Runtime⦄ where
  abbrev pub Confirmable : Type 0
  Confirmable = Float × String × String

  -- By `(-score, source, target)`.
  unfoldable pub surest_first : Confirmable → Confirmable → Bool
  surest_first (v, s, t) (w, s', t') = if float_eq v w then edge_le (s, t) (s', t') else lt w v

module _ ⦃R : Runtime⦄ (evidence : EvidenceIndex) (profile : MatchingProfile) where
  -- The row entry of one target: none over a hard constraint or below the probable threshold.
  unfoldable pub row_entry : NodeEvidence → String → Result (List Scored)
  row_entry source t = do
    target ← subscript evidence.target t
    if is_empty (evaluate_constraints source target profile).0
        then (do
          score ← score_pair source target profile
          ok (if profile.probable_threshold <= score.value then (score.value, t) ∷ [] else []))
        else ok []

  unfoldable pub score_row : List String → String → Result (String × List Scored)
  score_row free_targets s = do
    source ← subscript evidence.source s
    entries ← traverse (row_entry source) free_targets
    ok (s, sort best_first (collect (λ row. row) entries))

  -- The competing edges that share an end.
  unfoldable pub alternatives : List Edge → Edge → List String
  alternatives edges (s, t) =
      map (λ (e : Edge). match_id e.0 e.1)
        (filter (λ (e : Edge). not (same_edge e (s, t)) && (e.0 == s || e.1 == t)) edges)

  unfoldable pub ambiguous_candidate : List Edge → Edge → Result MatchCandidate
  ambiguous_candidate edges (s, t) = do
    source ← subscript evidence.source s
    target ← subscript evidence.target t
    score ← score_pair source target profile
    confidence ← derive_confidence score profile.calibration
    make_candidate source target ambiguous score confidence profile [] []
        (alternatives edges (s, t))

  -- The best target of a source, if it is good enough and no end is ambiguous.
  unfoldable pub confirmable : List Edge → Dict (List Scored) → String → List Confirmable
  confirmable edges scored s =
      if contains s (map (λ (e : Edge). e.0) edges) then [] else elim (lookup scored s) [
        | none ↦ []
        | some [] ↦ []
        | some ((v, t) ∷ row) ↦
            if profile.match_threshold <= v && not (contains t (map (λ (e : Edge). e.1) edges))
            then (v, s, t) ∷ []
            else []
      ]

  unfoldable pub confirmed_candidate : Confirmable → Result MatchCandidate
  confirmed_candidate (v, s, t) = do
    source ← subscript evidence.source s
    target ← subscript evidence.target t
    score ← score_pair source target profile
    confidence ← derive_confidence score profile.calibration
    make_candidate source target confirmed score confidence profile [] [] []

  -- The greedy loop over the confirmable triples, with the sets that it extends.
  unfoldable pub confirm_all :
      (matched_sources taken_targets matched_targets : List String)
      → List Confirmable
      → Result (List MatchCandidate)
  confirm_all matched_sources taken_targets matched_targets [] = ok []
  confirm_all matched_sources taken_targets matched_targets ((v, s, t) ∷ rest) =
      let skipped = confirm_all matched_sources taken_targets matched_targets rest in
      let taken = confirm_all (s ∷ matched_sources) (t ∷ taken_targets) matched_targets rest in
      if contains s matched_sources || (contains t taken_targets || contains t matched_targets)
      then skipped
      else (do c ← confirmed_candidate (v, s, t); cs ← taken; ok (c ∷ cs))

  unfoldable pub similarity_matches :
      (matched_sources matched_targets : List String) → Result (List MatchCandidate)
  similarity_matches matched_sources matched_targets =
      let free_sources = free_refs evidence.source matched_sources in
      let free_targets = free_refs evidence.target matched_targets in
      do
        scored ← traverse (score_row free_targets) free_sources
        let edges = sort edge_le (ambiguous_edges profile scored)
        unsettled ← traverse (ambiguous_candidate edges) edges
        settled ←
            confirm_all matched_sources [] matched_targets
              (sort surest_first (collect (confirmable edges scored) free_sources))
        ok (unsettled ++ settled)
