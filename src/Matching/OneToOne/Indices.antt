-- ===== src/Matching/OneToOne/Indices.antt =====
-- The indices of phase 1: different ids stand for different nodes.
use structural_reconciliatio.Base.{
  String, ◌≡◌, refl, sym, ap, ◌∙◌, true, false, Option, none, some, List, [], ◌∷◌, ◌==◌, contains,
  nodup, filter, map, All, arith, Bool-cases, inl, inr, eq→path, eq_refl, Dict, lookup, lookup-put,
  keys, nodup-keys-put, sorted_items, All-sorted_items, if◌then◌else◌,
}
use structural_reconciliatio.Runtime.{Runtime}
use structural_reconciliatio.Contracts.Matches.{MatchCandidate, is_confirmed}
use structural_reconciliatio.Evidence.{KeyedByRef, NodeEvidence}
use structural_reconciliatio.Matching.Authoritative.{index_id, index_ids, unique_id_index}

-- What an id index holds: nodes of the evidence, each under its own id.
pub record IndexOk (evidence index : Dict NodeEvidence) : Type 0 where
  pub distinct : nodup (keys index) ≡ true
  pub entry :
      (id : String) (ev : NodeEvidence)
      → lookup index id ≡ some ev
      → (lookup evidence ev.node_ref ≡ some ev) × (ev.persistent_id ≡ some id)

module _ (evidence : Dict NodeEvidence) (keyed : KeyedByRef evidence)
    (duplicates : List String) where
  index_id-IndexOk :
      (index : Dict NodeEvidence) (r : String) (ev : NodeEvidence)
      → lookup evidence r ≡ some ev
      → IndexOk evidence index
      → (o : Option String) → ev.persistent_id ≡ o
      → IndexOk evidence (index_id duplicates index ev o)
  unfolding index_id
  index_id-IndexOk index r ev here good none e = good
  index_id-IndexOk index r ev here good (some id) e = elim (Bool-cases (contains id duplicates)) [
    | inl twice ↦ rw twice good
    | inr once ↦ rw once (record {
      distinct = nodup-keys-put index id ev good.distinct;
      entry = λ j w found. entry_of j w (sym (lookup-put index id j ev) ∙ found);
    })
  ]
    where
      entry_of :
          (j : String) (w : NodeEvidence)
          → (if id == j then some ev else lookup index j) ≡ some w
          → (lookup evidence w.node_ref ≡ some w) × (w.persistent_id ≡ some j)
      entry_of j w found = elim (Bool-cases (id == j)) [
        | inl same ↦
            let f : ev ≡ w = cc (rw same at found) in
            let k : id ≡ j = eq→path id j same in
            rw (← f) (ap (lookup evidence) (keyed r ev here) ∙ here, cc (e, k))
        | inr other ↦ good.entry j w (rw other at found)
      ]

  index_ids-IndexOk :
      (index : Dict NodeEvidence) (evs : List (String × NodeEvidence))
      → IndexOk evidence index
      → All (λ (e : String × NodeEvidence). lookup evidence e.0 ≡ some e.1) evs
      → IndexOk evidence (index_ids duplicates index evs)
  unfolding index_ids
  index_ids-IndexOk index [] good all = good
  index_ids-IndexOk index ((r, ev) ∷ evs) good all =
      index_ids-IndexOk (index_id duplicates index ev ev.persistent_id) evs
        (index_id-IndexOk index r ev all.0 good ev.persistent_id refl) all.1

  pub unique_id_index-IndexOk : IndexOk evidence (unique_id_index evidence duplicates)
  unfolding unique_id_index keys lookup nodup
  unique_id_index-IndexOk =
      index_ids-IndexOk [] (sorted_items evidence)
        (record { distinct = refl; entry = λ id ev e. cc })
        (All-sorted_items (λ r ev. lookup evidence r ≡ some ev) evidence (λ r ev e. e))

-- The node `r` carries the id.
abbrev pub Holder : Dict NodeEvidence → String → String → Type 0
Holder evidence r id =
    (ev : NodeEvidence) × (lookup evidence r ≡ some ev) × (ev.persistent_id ≡ some id)

Holder-unique :
    (evidence : Dict NodeEvidence) (r id id' : String)
    → Holder evidence r id
    → Holder evidence r id'
    → id ≡ id'
Holder-unique evidence r id id' (ev, here, e) (ev', here', e') =
    let same : ev ≡ ev' = cc (here, here') in
    let ids : ◌≡◌ {A = Option String} (some id) (some id') =
      sym e ∙ ap (λ (w : NodeEvidence). w.persistent_id) same ∙ e' in
    cc

module _ ⦃R : Runtime⦄ (evidence : Dict NodeEvidence) (side : MatchCandidate → String) where
  -- One candidate for each id, on a node that carries it.
  abbrev pub Traced : List String → List MatchCandidate → Type 0
  Traced [] [] = Unit
  Traced (id ∷ ids) (c ∷ cs) = Holder evidence (side c) id × Traced ids cs
  Traced _ _ = ⊥

  Holder-of :
      (ids : List String) (cs : List MatchCandidate) (r : String)
      → Traced ids cs
      → contains r (map side (filter is_confirmed cs)) ≡ true
      → (id : String) × (contains id ids ≡ true) × Holder evidence r id
  unfolding contains filter
  Holder-of [] [] r t m = cc
  Holder-of [] (c ∷ cs) r t m = elim t [ ]
  Holder-of (id ∷ ids) [] r t m = elim t [ ]
  Holder-of (id ∷ ids) (c ∷ cs) r t m = elim (Bool-cases (r == side c)) [
    | inl same ↦ (id, ground (arith, eq_refl id), rw (eq→path r (side c) same) t.0)
    | inr other ↦
        let (found, in_ids, holds) = Holder-of ids cs r t.1 (ground (arith, m)) in
        (found, ground (arith, in_ids), holds)
  ]

  pub Traced-nodup :
      (ids : List String) (cs : List MatchCandidate)
      → nodup ids ≡ true
      → Traced ids cs
      → nodup (map side (filter is_confirmed cs)) ≡ true
  unfolding nodup filter
  Traced-nodup [] [] u t = refl
  Traced-nodup [] (c ∷ cs) u t = elim t [ ]
  Traced-nodup (id ∷ ids) [] u t = elim t [ ]
  Traced-nodup (id ∷ ids) (c ∷ cs) u t =
      ground (arith, Traced-nodup ids cs (ground (arith, u)) t.1, fresh)
    where
      fresh : contains (side c) (map side (filter is_confirmed cs)) ≡ false
      fresh = elim (Bool-cases (contains (side c) (map side (filter is_confirmed cs)))) [
        | inr absent ↦ absent
        | inl present ↦
            let (id', in_ids, holds) = Holder-of ids cs (side c) t.1 present in
            let same : id ≡ id' = Holder-unique evidence (side c) id id' t.0 holds in
            let clash : contains id ids ≡ true = rw same in_ids in ground (arith, u, clash)
      ]
