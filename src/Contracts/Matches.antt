-- ===== src/Contracts/Matches.antt =====
-- core/contracts/matches.py: candidates and the match graph.
pub mod Inverse
use structural_reconciliatio.Base.{
  String, Bool, true, false, Option, none, some, List, [], ◌∷◌, ◌&&◌, ◌||◌, ◌==◌, not, any,
  is_empty, filter, contains, if◌then◌else◌,
}
use structural_reconciliatio.Runtime.{Runtime}
use structural_reconciliatio.Errors.{
  Result, ok, raise, value_error, evidence_required, alternative_required,
  hard_constraint_confirmed, source_confirmed_twice, target_confirmed_twice, ◌>>=◌, ◌>>◌,
}
use structural_reconciliatio.Tree.{require}
use structural_reconciliatio.Contracts.Scores.{Evidence, Confidence, FeatureScore}

pub data MatchState : Type 0 where
  confirmed candidate ambiguous rejected unmatched : MatchState

-- `.value`
abbrev pub state_value : MatchState → String
state_value confirmed = "CONFIRMED"
state_value candidate = "CANDIDATE"
state_value ambiguous = "AMBIGUOUS"
state_value rejected = "REJECTED"
state_value unmatched = "UNMATCHED"

-- A constraint, and whether it is a hard one.
pub record ConstraintViolation : Type 0 where
  pub constraint : String
  pub hard : Bool

unfoldable pub is_confirmed_state : MatchState → Bool
is_confirmed_state confirmed = true
is_confirmed_state _ = false

unfoldable pub is_ambiguous_state : MatchState → Bool
is_ambiguous_state ambiguous = true
is_ambiguous_state _ = false

module _ ⦃R : Runtime⦄ where
  pub record MatchCandidate : Type 0 where
    pub match_id : String
    pub source_node_ref : String
    pub target_node_ref : String
    pub state : MatchState
    pub score : FeatureScore
    pub confidence : Confidence
    pub evidence : List Evidence
    pub violated_soft_constraints : List ConstraintViolation
    pub hard_constraints : List ConstraintViolation
    pub alternative_match_ids : List String
    pub profile_version : String

  abbrev pub is_confirmed : MatchCandidate → Bool
  is_confirmed c = is_confirmed_state c.state

  abbrev pub is_ambiguous : MatchCandidate → Bool
  is_ambiguous c = is_ambiguous_state c.state

  unfoldable pub validate_candidate : MatchCandidate → Result MatchCandidate
  validate_candidate c = do
    require (not ((is_confirmed c || is_ambiguous c) && is_empty c.evidence)) evidence_required
    require (not (is_ambiguous c && is_empty c.alternative_match_ids)) alternative_required
    require (not (is_confirmed c && any (λ (v : ConstraintViolation). v.hard) c.hard_constraints))
        hard_constraint_confirmed
    ok c

  pub record MatchGraph : Type 0 where
    pub candidates : List MatchCandidate

  -- The loop of `_one_to_one_confirmed`, with its two sets.
  unfoldable pub one_to_one : List String → List String → List MatchCandidate → Result (Unit {0})
  one_to_one sources targets [] = ok tt
  one_to_one sources targets (c ∷ cs) = elim (is_confirmed c) [
    | false ↦ one_to_one sources targets cs
    | true ↦ elim (contains c.source_node_ref sources) [
      | true ↦ raise (value_error source_confirmed_twice)
      | false ↦ elim (contains c.target_node_ref targets) [
        | true ↦ raise (value_error target_confirmed_twice)
        | false ↦ one_to_one (c.source_node_ref ∷ sources) (c.target_node_ref ∷ targets) cs
      ]
    ]
  ]

  -- `MatchGraph(candidates=...)`
  unfoldable pub make_graph : List MatchCandidate → Result MatchGraph
  make_graph candidates = do one_to_one [] [] candidates; ok (record { candidates = candidates })

  -- `graph.confirmed`, `graph.ambiguous`
  unfoldable pub confirmed_candidates : MatchGraph → List MatchCandidate
  confirmed_candidates graph = filter is_confirmed graph.candidates

  unfoldable pub ambiguous_candidates : MatchGraph → List MatchCandidate
  ambiguous_candidates graph = filter is_ambiguous graph.candidates

  unfoldable pub first_target : String → List MatchCandidate → Option String
  first_target source_ref [] = none
  first_target source_ref (c ∷ cs) =
      if is_confirmed c && c.source_node_ref == source_ref
      then some c.target_node_ref
      else first_target source_ref cs

  unfoldable pub confirmed_target_for : MatchGraph → String → Option String
  confirmed_target_for graph source_ref = first_target source_ref graph.candidates

  unfoldable pub first_source : String → List MatchCandidate → Option String
  first_source target_ref [] = none
  first_source target_ref (c ∷ cs) =
      if is_confirmed c && c.target_node_ref == target_ref
      then some c.source_node_ref
      else first_source target_ref cs

  unfoldable pub confirmed_source_for : MatchGraph → String → Option String
  confirmed_source_for graph target_ref = first_source target_ref graph.candidates
