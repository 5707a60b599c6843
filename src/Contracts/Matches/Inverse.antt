-- ===== src/Contracts/Matches/Inverse.antt =====
-- In a match graph that its validator accepted, the two directions of looking up a confirmed match
-- are inverse to each other.
use structural_reconciliatio.Base.{
  String, ◌≡◌, true, false, some, List, [], ◌∷◌, contains, eq→path, eq_refl, Bool-cases, inl, inr,
  arith, ◌↔◌,
}
use structural_reconciliatio.Runtime.{Runtime}
use structural_reconciliatio.Errors.{ok, returned_bind}
use structural_reconciliatio.Contracts.Matches.{
  MatchCandidate, MatchGraph, is_confirmed, one_to_one, make_graph, first_target, first_source,
  confirmed_target_for, confirmed_source_for,
}

module _ ⦃R : Runtime⦄ where
  -- The check of a confirmed candidate in front of the others.
  record Confirmed (sources targets : List String) (c : MatchCandidate) (cs : List MatchCandidate)
      : Type 0 where
    source_new : contains c.source_node_ref sources ≡ false
    target_new : contains c.target_node_ref targets ≡ false
    others : one_to_one (c.source_node_ref ∷ sources) (c.target_node_ref ∷ targets) cs ≡ ok tt

  one_to_one-Confirmed :
      (sources targets : List String) (c : MatchCandidate) (cs : List MatchCandidate)
      → is_confirmed c ≡ true
      → one_to_one sources targets (c ∷ cs) ≡ ok tt
      → Confirmed sources targets c cs
  unfolding one_to_one
  one_to_one-Confirmed sources targets c cs e h =
      let h₁ = rw (e, one_to_one) at h in
      elim (Bool-cases (contains c.source_node_ref sources)) [
        | inl u ↦ let clash = rw u at h₁ in cc
        | inr u ↦ elim (Bool-cases (contains c.target_node_ref targets)) [
          | inl v ↦ let clash = rw v at (rw u at h₁) in cc
          | inr v ↦ record { source_new = u; target_new = v; others = rw v at (rw u at h₁) }
        ]
      ]

  one_to_one-other :
      (sources targets : List String) (c : MatchCandidate) (cs : List MatchCandidate)
      → is_confirmed c ≡ false
      → one_to_one sources targets (c ∷ cs) ≡ ok tt
      → one_to_one sources targets cs ≡ ok tt
  unfolding one_to_one
  one_to_one-other sources targets c cs e h = rw (e, one_to_one) at h

  -- A target found is one that the sets do not hold yet.
  first_target-new :
      (sources targets : List String) (cs : List MatchCandidate) (s t : String)
      → one_to_one sources targets cs ≡ ok tt
      → first_target s cs ≡ some t
      → contains t targets ≡ false
  unfolding first_target contains
  first_target-new sources targets [] s t h e = cc
  first_target-new sources targets (c ∷ cs) s t h e = elim (Bool-cases (is_confirmed c)) [
    | inr u ↦
        let ih =
          first_target-new sources targets cs s t (one_to_one-other sources targets c cs u h) in
        ground arith
    | inl u ↦
        let k = one_to_one-Confirmed sources targets c cs u h in
        let new = k.target_new in
        let ih =
          first_target-new (c.source_node_ref ∷ sources) (c.target_node_ref ∷ targets) cs s t
            k.others in
        ground arith
  ]

  first_source-new :
      (sources targets : List String) (cs : List MatchCandidate) (s t : String)
      → one_to_one sources targets cs ≡ ok tt
      → first_source t cs ≡ some s
      → contains s sources ≡ false
  unfolding first_source contains
  first_source-new sources targets [] s t h e = cc
  first_source-new sources targets (c ∷ cs) s t h e = elim (Bool-cases (is_confirmed c)) [
    | inr u ↦
        let ih =
          first_source-new sources targets cs s t (one_to_one-other sources targets c cs u h) in
        ground arith
    | inl u ↦
        let k = one_to_one-Confirmed sources targets c cs u h in
        let new = k.source_new in
        let ih =
          first_source-new (c.source_node_ref ∷ sources) (c.target_node_ref ∷ targets) cs s t
            k.others in
        ground arith
  ]

  first_target-first_source :
      (sources targets : List String) (cs : List MatchCandidate) (s t : String)
      → one_to_one sources targets cs ≡ ok tt
      → first_target s cs ≡ some t
      → first_source t cs ≡ some s
  unfolding first_target first_source contains
  first_target-first_source sources targets [] s t h e = cc
  first_target-first_source sources targets (c ∷ cs) s t h e = elim (Bool-cases (is_confirmed c)) [
    | inr u ↦
        let ih =
          first_target-first_source sources targets cs s t
            (one_to_one-other sources targets c cs u h) in
        ground arith
    | inl u ↦
        let k = one_to_one-Confirmed sources targets c cs u h in
        let ih =
          first_target-first_source (c.source_node_ref ∷ sources) (c.target_node_ref ∷ targets) cs s
            t k.others in
        let new =
          first_target-new (c.source_node_ref ∷ sources) (c.target_node_ref ∷ targets) cs s t
            k.others in
        ground (
          arith,
          eq→path c.source_node_ref s,
          eq→path c.target_node_ref t,
          eq→path t c.target_node_ref,
          eq_refl t,
          eq_refl c.target_node_ref,
        )
  ]

  first_source-first_target :
      (sources targets : List String) (cs : List MatchCandidate) (s t : String)
      → one_to_one sources targets cs ≡ ok tt
      → first_source t cs ≡ some s
      → first_target s cs ≡ some t
  unfolding first_target first_source contains
  first_source-first_target sources targets [] s t h e = cc
  first_source-first_target sources targets (c ∷ cs) s t h e = elim (Bool-cases (is_confirmed c)) [
    | inr u ↦
        let ih =
          first_source-first_target sources targets cs s t
            (one_to_one-other sources targets c cs u h) in
        ground arith
    | inl u ↦
        let k = one_to_one-Confirmed sources targets c cs u h in
        let ih =
          first_source-first_target (c.source_node_ref ∷ sources) (c.target_node_ref ∷ targets) cs s
            t k.others in
        let new =
          first_source-new (c.source_node_ref ∷ sources) (c.target_node_ref ∷ targets) cs s t
            k.others in
        ground (
          arith,
          eq→path c.source_node_ref s,
          eq→path c.target_node_ref t,
          eq→path s c.source_node_ref,
          eq_refl s,
          eq_refl c.source_node_ref,
        )
  ]

  -- In a graph that construction accepts, `t` is the confirmed target of `s` exactly where `s` is
  -- the confirmed source of `t`.
  pub confirmed_target_for-inverse :
      (candidates : List MatchCandidate) (graph : MatchGraph)
      → make_graph candidates ≡ ok graph
      → (s t : String)
      → (confirmed_target_for graph s ≡ some t) ↔ (confirmed_source_for graph t ≡ some s)
  unfolding make_graph confirmed_target_for confirmed_source_for
  confirmed_target_for-inverse candidates graph h s t =
      let (u, accepted, same) =
        returned_bind (one_to_one [] [] candidates) (λ _. ok (record { candidates = candidates }))
          h in
      let whole : (record { candidates = candidates }) ≡ graph = cc in
      rw (← whole) (
        first_target-first_source [] [] candidates s t accepted,
        first_source-first_target [] [] candidates s t accepted,
      )
