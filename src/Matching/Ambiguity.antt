-- ===== src/Matching/Ambiguity.antt =====
-- `_ambiguous_edges` of core/matching/matcher.py: the candidate pairs that stay ambiguous.
use structural_reconciliatio.Base.{
  String, Bool, none, some, List, [], ◌∷◌, ◌++◌, ◌&&◌, ◌==◌, filter, if◌then◌else◌, collect, any,
  sort, text_le, Dict, lookup, put, map, leb, length,
}
use structural_reconciliatio.Runtime.{Runtime, Float, ◌<=◌, lt, float_eq}
use structural_reconciliatio.Contracts.Profiles.{MatchingProfile}

abbrev pub Edge : Type 0
Edge = String × String

abbrev pub same_edge : Edge → Edge → Bool
same_edge (s, t) (s', t') = s == s' && t == t'

-- `<=` of two pairs of texts
abbrev pub edge_le : Edge → Edge → Bool
edge_le (s, t) (s', t') = if s == s' then text_le t t' else text_le s s'

-- A set holds an edge once.
unfoldable pub edge_set : List Edge → List Edge
edge_set [] = []
edge_set (e ∷ es) = let rest = edge_set es in if any (same_edge e) rest then rest else e ∷ rest

module _ ⦃R : Runtime⦄ where
  -- A score with the other end of the pair.
  abbrev pub Scored : Type 0
  Scored = Float × String

  -- By `(-score, reference)`.
  unfoldable pub best_first : Scored → Scored → Bool
  best_first (v, t) (w, u) = if float_eq v w then text_le t u else lt w v

  -- `top - v <= margin`
  abbrev pub near : MatchingProfile → Float → Scored → Bool
  near profile top (v, _) = R.sub top v <= profile.ambiguity_margin

  -- A source with two near-tied targets: all targets near its best one.
  unfoldable pub source_side : MatchingProfile → String × List Scored → List Edge
  source_side profile (s, (v0, t0) ∷ (v1, t1) ∷ row) =
      if profile.match_threshold <= v0 && near profile v0 (v1, t1)
      then map (λ (p : Scored). (s, p.1)) (filter (near profile v0) ((v0, t0) ∷ (v1, t1) ∷ row))
      else []
  source_side profile (s, _) = []

  unfoldable pub contend :
      MatchingProfile → Dict (List Scored) → String × List Scored → Dict (List Scored)
  contend profile best (s, []) = best
  contend profile best (s, (v, t) ∷ row) =
      if profile.match_threshold <= v
      then put best t
          (elim (lookup best t) [ none ↦ (v, s) ∷ [] | some others ↦ others ++ (v, s) ∷ [] ])
      else best

  -- `best_by_target`: for each target the sources whose best target it is.
  unfoldable pub contenders :
      MatchingProfile → Dict (List Scored) → Dict (List Scored) → Dict (List Scored)
  contenders profile best [] = best
  contenders profile best (entry ∷ scored) = contenders profile (contend profile best entry) scored

  unfoldable pub close_contenders : MatchingProfile → List Scored → List Scored
  close_contenders profile [] = []
  close_contenders profile ((v, s) ∷ rest) = filter (near profile v) ((v, s) ∷ rest)

  -- A target with two near-tied contenders: all contenders near the best one.
  unfoldable pub target_side : MatchingProfile → String × List Scored → List Edge
  target_side profile (t, sources) =
      let close = close_contenders profile (sort best_first sources) in
      if leb 2 (length sources) && leb 2 (length close)
      then map (λ (p : Scored). (p.1, t)) close
      else []

  unfoldable pub ambiguous_edges : MatchingProfile → Dict (List Scored) → List Edge
  ambiguous_edges profile scored = edge_set (
      collect (source_side profile) scored
      ++ collect (target_side profile) (contenders profile [] scored))
