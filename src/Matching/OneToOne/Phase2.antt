-- ===== src/Matching/OneToOne/Phase2.antt =====
-- Phase 2 confirms no node twice, and none that phase 1 confirmed.
use mathlib.Core.Path.{subst}
use structural_reconciliatio.Base.{
  String, ◌≡◌, refl, sym, ◌∙◌, true, false, List, [], ◌∷◌, ◌||◌, contains, nodup, map, arith,
  Bool-cases, inl, inr, All, nodup-cons,
}
use structural_reconciliatio.Runtime.{Runtime, Float}
use structural_reconciliatio.Errors.{ok, traverse, returned_bind}
use structural_reconciliatio.Tree.{subscript, subscript-eq}
use structural_reconciliatio.Contracts.Profiles.{MatchingProfile}
use structural_reconciliatio.Contracts.Matches.{MatchCandidate, confirmed, ambiguous}
use structural_reconciliatio.Evidence.{KeyedByRef, EvidenceIndex}
use structural_reconciliatio.Matching.Candidates.{derive_confidence}
use structural_reconciliatio.Matching.Scorer.{score_pair}
use structural_reconciliatio.Matching.Ambiguity.{Edge}
use structural_reconciliatio.Matching.Similarity.{
  Confirmable, alternatives, ambiguous_candidate, confirmed_candidate, confirm_all,
}
use structural_reconciliatio.Matching.OneToOne.Graphs.{Apart, Apart-uncons}
use structural_reconciliatio.Matching.OneToOne.Phase1.{make_candidate_fields}

module _ ⦃R : Runtime⦄ (evidence : EvidenceIndex) (profile : MatchingProfile)
    (source_keyed : KeyedByRef evidence.source) (target_keyed : KeyedByRef evidence.target) where
  pub confirmed_candidate_ends :
      (v : Float) (s t : String) (c : MatchCandidate)
      → confirmed_candidate evidence profile (v, s, t) ≡ ok c
      → (c.source_node_ref ≡ s) × (c.target_node_ref ≡ t) × (c.state ≡ confirmed)
  unfolding confirmed_candidate
  confirmed_candidate_ends v s t c h =
      let (source, found, h₁) = returned_bind (subscript evidence.source s) _ h in
      let (target, found', h₂) = returned_bind (subscript evidence.target t) _ h₁ in
      let (score, _, h₃) = returned_bind (score_pair source target profile) _ h₂ in
      let (confidence, _, h₄) = returned_bind (derive_confidence score profile.calibration) _ h₃ in
      let (e, f, g) =
        make_candidate_fields source target confirmed score confidence profile [] [] [] c h₄ in
      (
        e ∙ source_keyed s source (subscript-eq evidence.source s source found),
        f ∙ target_keyed t target (subscript-eq evidence.target t target found'),
        g,
      )

  pub ambiguous_candidate_ends :
      (edges : List Edge) (s t : String) (c : MatchCandidate)
      → ambiguous_candidate evidence profile edges (s, t) ≡ ok c
      → (c.source_node_ref ≡ s) × (c.target_node_ref ≡ t) × (c.state ≡ ambiguous)
  unfolding ambiguous_candidate
  ambiguous_candidate_ends edges s t c h =
      let (source, found, h₁) = returned_bind (subscript evidence.source s) _ h in
      let (target, found', h₂) = returned_bind (subscript evidence.target t) _ h₁ in
      let (score, _, h₃) = returned_bind (score_pair source target profile) _ h₂ in
      let (confidence, _, h₄) = returned_bind (derive_confidence score profile.calibration) _ h₃ in
      let (e, f, g) =
        make_candidate_fields source target ambiguous score confidence profile [] []
          (alternatives evidence profile edges (s, t)) c h₄ in
      (
        e ∙ source_keyed s source (subscript-eq evidence.source s source found),
        f ∙ target_keyed t target (subscript-eq evidence.target t target found'),
        g,
      )

  -- What the greedy loop confirms: different sources and targets, and none of the given sets.
  pub record Fresh (matched_sources taken_targets matched_targets : List String)
      (cs : List MatchCandidate) : Type 0 where
    pub sources_distinct : nodup (map (λ (c : MatchCandidate). c.source_node_ref) cs) ≡ true
    pub targets_distinct : nodup (map (λ (c : MatchCandidate). c.target_node_ref) cs) ≡ true
    pub sources_apart : Apart (map (λ (c : MatchCandidate). c.source_node_ref) cs) matched_sources
    pub targets_apart_taken :
        Apart (map (λ (c : MatchCandidate). c.target_node_ref) cs) taken_targets
    pub targets_apart_matched :
        Apart (map (λ (c : MatchCandidate). c.target_node_ref) cs) matched_targets
    pub all_confirmed : All (λ (c : MatchCandidate). c.state ≡ confirmed) cs

  Fresh-cons :
      (ms tk mt : List String) (s t : String) (c : MatchCandidate) (cs : List MatchCandidate)
      → contains s ms ≡ false
      → contains t tk ≡ false
      → contains t mt ≡ false
      → (c.source_node_ref ≡ s) × (c.target_node_ref ≡ t) × (c.state ≡ confirmed)
      → Fresh (s ∷ ms) (t ∷ tk) mt cs
      → Fresh ms tk mt (c ∷ cs)
  unfolding nodup
  Fresh-cons ms tk mt s t c cs x y z (e, f, g) more =
      let (new_source, apart) = Apart-uncons _ s ms more.sources_apart in
      let (new_target, apart') = Apart-uncons _ t tk more.targets_apart_taken in
      record {
        sources_distinct =
            nodup-cons c.source_node_ref _ (subst Missing_s (sym e) new_source)
              more.sources_distinct;
        targets_distinct =
            nodup-cons c.target_node_ref _ (subst Missing_t (sym f) new_target)
              more.targets_distinct;
        sources_apart = (cc (x, e), apart);
        targets_apart_taken = (cc (y, f), apart');
        targets_apart_matched = (cc (z, f), more.targets_apart_matched);
        all_confirmed = (g, more.all_confirmed);
      }
    where
      Missing_s : String → Type 0
      Missing_s z = contains z (map (λ (d : MatchCandidate). d.source_node_ref) cs) ≡ false

      Missing_t : String → Type 0
      Missing_t z = contains z (map (λ (d : MatchCandidate). d.target_node_ref) cs) ≡ false

  pub confirm_all-Fresh :
      (ms tk mt : List String) (triples : List Confirmable) (cs : List MatchCandidate)
      → confirm_all evidence profile ms tk mt triples ≡ ok cs
      → Fresh ms tk mt cs
  unfolding confirm_all nodup
  confirm_all-Fresh ms tk mt [] cs h =
      let empty : [] ≡ cs = cc in
      subst (Fresh ms tk mt) empty (record {
        sources_distinct = refl;
        targets_distinct = refl;
        sources_apart = tt;
        targets_apart_taken = tt;
        targets_apart_matched = tt;
        all_confirmed = tt;
      })
  confirm_all-Fresh ms tk mt ((v, s, t) ∷ rest) cs h =
      elim (Bool-cases (contains s ms || (contains t tk || contains t mt))) [
        | inl taken ↦ confirm_all-Fresh ms tk mt rest cs (rw taken at h)
        | inr free ↦
            let (c, made, h₁) =
              returned_bind (confirmed_candidate evidence profile (v, s, t)) _ (rw free at h) in
            let (ds, later, done) =
              returned_bind (confirm_all evidence profile (s ∷ ms) (t ∷ tk) mt rest) _ h₁ in
            let all : (c ∷ ds) ≡ cs = cc in
            subst (Fresh ms tk mt) all (
              Fresh-cons ms tk mt s t c ds (ground (arith, free)) (ground (arith, free))
                (ground (arith, free)) (confirmed_candidate_ends v s t c made)
                (confirm_all-Fresh (s ∷ ms) (t ∷ tk) mt rest ds later))
      ]

  pub unsettled_ambiguous :
      (all edges : List Edge) (cs : List MatchCandidate)
      → traverse (ambiguous_candidate evidence profile all) edges ≡ ok cs
      → All (λ (c : MatchCandidate). c.state ≡ ambiguous) cs
  unfolding traverse
  unsettled_ambiguous all [] cs h = let empty : [] ≡ cs = cc in rw (← empty) tt
  unsettled_ambiguous all ((s, t) ∷ edges) cs h =
      let (c, made, h₁) = returned_bind (ambiguous_candidate evidence profile all (s, t)) _ h in
      let (ds, later, done) =
        returned_bind (traverse (ambiguous_candidate evidence profile all) edges) _ h₁ in
      let whole : (c ∷ ds) ≡ cs = cc in
      let (_, _, g) = ambiguous_candidate_ends all s t c made in
      rw (← whole) (g, unsettled_ambiguous all edges ds later)
