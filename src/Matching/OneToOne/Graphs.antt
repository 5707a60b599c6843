-- ===== src/Matching/OneToOne/Graphs.antt =====
-- What `MatchGraph`'s own check accepts.
use structural_reconciliatio.Base.{
  String, ◌≡◌, refl, true, false, List, [], ◌∷◌, contains, nodup, filter, All, arith, Bool-cases,
  inl, inr, eq_sym, ◌++◌, contains-append,
}
use structural_reconciliatio.Runtime.{Runtime}
use structural_reconciliatio.Errors.{ok}
use structural_reconciliatio.Contracts.Matches.{
  MatchCandidate, is_confirmed, one_to_one, make_graph,
}
use structural_reconciliatio.Matching.Matcher.{confirmed_sources, confirmed_targets}

-- No member of the first list is in the second.
abbrev pub Apart : List String → List String → Type 0
Apart xs ys = All (λ x. contains x ys ≡ false) xs

Apart-cons :
    (x : String) (xs ys : List String) → contains x xs ≡ false → Apart xs ys → Apart xs (x ∷ ys)
unfolding contains
Apart-cons x [] ys n a = tt
Apart-cons x (z ∷ zs) ys n a =
    (ground (arith, n, a.0, eq_sym x z), Apart-cons x zs ys (ground (arith, n)) a.1)

pub Apart-uncons :
    (xs : List String) (y : String) (ys : List String)
    → Apart xs (y ∷ ys)
    → (contains y xs ≡ false) × Apart xs ys
unfolding contains
Apart-uncons [] y ys a = (refl, tt)
Apart-uncons (x ∷ xs) y ys a =
    let (absent, apart) = Apart-uncons xs y ys a.1 in
    (ground (arith, absent, a.0, eq_sym x y), (ground (arith, a.0), apart))

pub nodup-append-Apart :
    (xs ys : List String)
    → nodup xs ≡ true
    → nodup ys ≡ true
    → Apart ys xs
    → nodup (xs ++ ys) ≡ true
unfolding nodup
nodup-append-Apart [] ys u v a = v
nodup-append-Apart (x ∷ xs) ys u v a =
    let (absent, apart) = Apart-uncons ys x xs a in
    ground
      (arith, contains-append x xs ys, absent, nodup-append-Apart xs ys (ground (arith, u)) v apart)

module _ ⦃R : Runtime⦄ where
  one_to_one-ok :
      (sources targets : List String) (cs : List MatchCandidate)
      → nodup (confirmed_sources cs) ≡ true
      → nodup (confirmed_targets cs) ≡ true
      → Apart (confirmed_sources cs) sources
      → Apart (confirmed_targets cs) targets
      → one_to_one sources targets cs ≡ ok tt
  unfolding one_to_one confirmed_sources confirmed_targets nodup filter
  one_to_one-ok sources targets [] u v a b = refl
  one_to_one-ok sources targets (c ∷ cs) u v a b = elim (Bool-cases (is_confirmed c)) [
    | inl settled ↦
        let u' : nodup (c.source_node_ref ∷ confirmed_sources cs) ≡ true = rw settled at u in
        let v' : nodup (c.target_node_ref ∷ confirmed_targets cs) ≡ true = rw settled at v in
        let a' : Apart (c.source_node_ref ∷ confirmed_sources cs) sources = rw settled at a in
        let b' : Apart (c.target_node_ref ∷ confirmed_targets cs) targets = rw settled at b in
        rw (settled, one_to_one)
          (rw (a'.0, one_to_one)
            (rw (b'.0, one_to_one)
              (one_to_one-ok (c.source_node_ref ∷ sources) (c.target_node_ref ∷ targets) cs
                (ground (arith, u')) (ground (arith, v'))
                (Apart-cons c.source_node_ref _ sources (ground (arith, u')) a'.1)
                (Apart-cons c.target_node_ref _ targets (ground (arith, v')) b'.1))))
    | inr unsettled ↦
        rw (unsettled, one_to_one)
          (one_to_one-ok sources targets cs (rw unsettled at u) (rw unsettled at v)
            (rw unsettled at a) (rw unsettled at b))
  ]

Apart-nil : (xs : List String) → Apart xs []
unfolding contains
Apart-nil [] = tt
Apart-nil (x ∷ xs) = (refl, Apart-nil xs)

module _ ⦃R : Runtime⦄ where
  -- The check of `MatchGraph` passes where no source and no target is confirmed twice.
  pub make_graph-ok :
      (cs : List MatchCandidate)
      → nodup (confirmed_sources cs) ≡ true
      → nodup (confirmed_targets cs) ≡ true
      → make_graph cs ≡ ok (record { candidates = cs })
  unfolding make_graph one_to_one
  make_graph-ok cs u v = rw (
      one_to_one-ok [] [] cs u v (Apart-nil (confirmed_sources cs))
        (Apart-nil (confirmed_targets cs)))
