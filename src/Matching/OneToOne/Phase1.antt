-- ===== src/Matching/OneToOne/Phase1.antt =====
-- Phase 1 confirms no node twice.
use structural_reconciliatio.Base.{
  String, ◌≡◌, refl, sym, ap, ◌∙◌, true, List, [], ◌∷◌, nodup, nodup-filter, nodup-sort_texts,
  filter, arith, Bool-cases, inl, inr, Dict, lookup, keys,
}
use mathlib.Core.Path.{subst}
use structural_reconciliatio.Runtime.{Runtime}
use structural_reconciliatio.Errors.{Result, ok, traverse, ◌>>=◌, returned_bind}
use structural_reconciliatio.Tree.{subscript, subscript-eq}
use structural_reconciliatio.Contracts.Profiles.{MatchingProfile}
use structural_reconciliatio.Contracts.Scores.{Confidence, FeatureScore}
use structural_reconciliatio.Contracts.Matches.{
  MatchCandidate, MatchState, ConstraintViolation, validate_candidate,
}
use structural_reconciliatio.Evidence.{KeyedByRef, NodeEvidence, EvidenceIndex}
use structural_reconciliatio.Matching.Candidates.{make_candidate}
use structural_reconciliatio.Matching.Authoritative.{
  unique_id_index, authoritative_candidate, authoritative_matches, common_keys,
}
use structural_reconciliatio.Matching.Matcher.{
  confirmed_sources, confirmed_targets, phase_1, ids_are_authoritative,
}
use structural_reconciliatio.Matching.OneToOne.Indices.{
  IndexOk, unique_id_index-IndexOk, Holder, Traced, Traced-nodup,
}

module _ ⦃R : Runtime⦄ where
  pub validate_candidate-eq : (c d : MatchCandidate) → validate_candidate c ≡ ok d → c ≡ d
  unfolding validate_candidate
  validate_candidate-eq c d h = ground arith

  -- What a made candidate shows of its arguments.
  pub make_candidate_fields :
      (source target : NodeEvidence) (state : MatchState) (score : FeatureScore)
      (confidence : Confidence) (profile : MatchingProfile) (hard soft : List ConstraintViolation)
      (alternatives : List String) (c : MatchCandidate)
      → make_candidate source target state score confidence profile hard soft alternatives ≡ ok c
      → (c.source_node_ref ≡ source.node_ref)
        × (c.target_node_ref ≡ target.node_ref)
        × (c.state ≡ state)
  unfolding make_candidate
  make_candidate_fields source target state score confidence profile hard soft alternatives c h =
      let e = validate_candidate-eq _ c h in
      (
        ap (λ (d : MatchCandidate). d.source_node_ref) (sym e),
        ap (λ (d : MatchCandidate). d.target_node_ref) (sym e),
        ap (λ (d : MatchCandidate). d.state) (sym e),
      )

  authoritative_ends :
      (source target : NodeEvidence) (profile : MatchingProfile) (c : MatchCandidate)
      → authoritative_candidate source target profile ≡ ok c
      → (c.source_node_ref ≡ source.node_ref) × (c.target_node_ref ≡ target.node_ref)
  unfolding authoritative_candidate
  authoritative_ends source target profile c h = grind (arith, make_candidate_fields)

  module _ (evidence : EvidenceIndex) (profile : MatchingProfile)
      (source_ids target_ids : Dict NodeEvidence) (source_ok : IndexOk evidence.source source_ids)
      (target_ok : IndexOk evidence.target target_ids) where
    abbrev pair_of : String → Result MatchCandidate
    pair_of id = do
      source ← subscript source_ids id
      target ← subscript target_ids id
      authoritative_candidate source target profile

    abbrev Carried : String → MatchCandidate → Type 0
    Carried id c =
        Holder evidence.source c.source_node_ref id × Holder evidence.target c.target_node_ref id

    pair_of-Carried : (id : String) (c : MatchCandidate) → pair_of id ≡ ok c → Carried id c
    pair_of-Carried id c h =
        let (source, found, h') = returned_bind (subscript source_ids id) _ h in
        let (target, found', h'') = returned_bind (subscript target_ids id) _ h' in
        let (s, t) = authoritative_ends source target profile c h'' in
        let (here, carries) = source_ok.entry id source (subscript-eq source_ids id source found) in
        let (here', carries') =
          target_ok.entry id target (subscript-eq target_ids id target found') in
        (
          (source, ap (lookup evidence.source) s ∙ here, carries),
          (target, ap (lookup evidence.target) t ∙ here', carries'),
        )

    traced :
        (ids : List String) (cs : List MatchCandidate)
        → traverse pair_of ids ≡ ok cs
        → Traced evidence.source (λ c. c.source_node_ref) ids cs
          × Traced evidence.target (λ c. c.target_node_ref) ids cs
    unfolding traverse
    traced [] [] h = (tt, tt)
    traced [] (c ∷ cs) h = cc
    traced (id ∷ ids) cs h =
        let (d, made, h') = returned_bind (pair_of id) _ h in
        let (ds, rest, done) = returned_bind (traverse pair_of ids) _ h' in
        let all : (d ∷ ds) ≡ cs = cc in
        let (s, t) = pair_of-Carried id d made in
        let (ss, ts) = traced ids ds rest in
        subst
          (λ (l : List MatchCandidate).
            Traced evidence.source (λ c. c.source_node_ref) (id ∷ ids) l
            × Traced evidence.target (λ c. c.target_node_ref) (id ∷ ids) l)
          all ((s, ss), (t, ts))

  pub nodup-common_keys :
      {V : Type 0} (a b : Dict V) → nodup (keys a) ≡ true → nodup (common_keys a b) ≡ true
  unfolding common_keys
  nodup-common_keys a b h = nodup-sort_texts _ ∙ nodup-filter _ (keys a) h

  -- Phase 1 confirms no source and no target twice.
  pub phase_1-distinct :
      (evidence : EvidenceIndex) (profile : MatchingProfile) (cs : List MatchCandidate)
      → KeyedByRef evidence.source
      → KeyedByRef evidence.target
      → phase_1 evidence profile ≡ ok cs
      → (nodup (confirmed_sources cs) ≡ true) × (nodup (confirmed_targets cs) ≡ true)
  unfolding phase_1 authoritative_matches confirmed_sources confirmed_targets nodup filter
  phase_1-distinct evidence profile cs ks kt h = elim (Bool-cases (ids_are_authoritative profile)) [
    | inl on ↦
        let source_ok = unique_id_index-IndexOk evidence.source ks evidence.duplicate_source_ids in
        let target_ok = unique_id_index-IndexOk evidence.target kt evidence.duplicate_target_ids in
        let source_ids = unique_id_index evidence.source evidence.duplicate_source_ids in
        let target_ids = unique_id_index evidence.target evidence.duplicate_target_ids in
        let ids = common_keys source_ids target_ids in
        let distinct = nodup-common_keys source_ids target_ids source_ok.distinct in
        let (s, t) =
          traced evidence profile source_ids target_ids source_ok target_ok ids cs (rw on at h) in
        (
          Traced-nodup evidence.source (λ c. c.source_node_ref) ids cs distinct s,
          Traced-nodup evidence.target (λ c. c.target_node_ref) ids cs distinct t,
        )
    | inr off ↦
        let h' : ◌≡◌ {A = Result (List MatchCandidate)} (ok []) (ok cs) = rw off at h in
        let empty : cs ≡ [] = cc in rw empty (refl, refl)
  ]
