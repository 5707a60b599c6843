-- ===== src/Tree/Validation/Walks.antt =====
-- The walk of `_detect_cycles`: its fuel is enough, and it finds a cycle exactly where the parent
-- links do not lead to a parentless node.
use structural_reconciliatio.Base.{
  ℕ, zero, suc, ◌+◌, ◌<◌, String, ◌≡◌, ◌≢◌, refl, ap, ◌∙◌, true, false, Option, none, some, List,
  [], ◌∷◌, is_some, contains, nodup, Dict, lookup, keys, length, All, All-map, contains-keys,
  contains_of_All, length-le_of_nodup, Bool-cases, Option-cases, inl, inr, arith,
}
use structural_reconciliatio.Runtime.{Runtime}
use structural_reconciliatio.Tree.{CanonicalNode}
use structural_reconciliatio.Tree.WellFormed.{Depth, top, below, Depth-unique}
use structural_reconciliatio.Tree.Validation.{ended, cycle, out_of_fuel, walk}

pub length-keys : {V : Type 0} (d : Dict V) → length (keys d) ≡ length d
unfolding keys
length-keys [] = refl
length-keys ((k, v) ∷ d) = ap suc (length-keys d)

module _ ⦃R : Runtime⦄ (nodes : Dict CanonicalNode) where
  abbrev IsKey : String → Type 0
  IsKey r = contains r (keys nodes) ≡ true

  walk_fuelled :
      (fuel : ℕ) (seen : List String) (o : Option String)
      → nodup seen ≡ true
      → All IsKey seen
      → length nodes < length seen + fuel
      → walk nodes fuel seen o ≢ out_of_fuel
  unfolding walk nodup is_some
  walk_fuelled zero seen none u k h = λ e. cc
  walk_fuelled (suc fuel) seen none u k h = λ e. cc
  walk_fuelled zero seen (some r) u k h =
      absurd (omega (arith, length-le_of_nodup seen (keys nodes) u k, length-keys nodes))
  walk_fuelled (suc fuel) seen (some r) u k h = elim (Bool-cases (contains r seen)) [
    | inl found ↦ rw (found, walk) (λ e. cc)
    | inr fresh ↦ elim (Option-cases (lookup nodes r)) [
      | inl gone ↦ rw (fresh, walk) (rw (gone, walk) (λ e. cc))
      | inr (n, here) ↦
          rw (fresh, walk)
            (rw (here, walk)
              (walk_fuelled fuel (r ∷ seen) n.parent_ref (rw fresh u)
                (contains-keys nodes r ∙ ap is_some here, k) (omega arith)))
    ]
  ]

  -- The fuel of `cycle_violations` is enough for every start.
  pub walk-ne-out_of_fuel : (r : String) → walk nodes (suc (length nodes)) [] (some r) ≢ out_of_fuel
  unfolding nodup
  walk-ne-out_of_fuel r = walk_fuelled (suc (length nodes)) [] (some r) refl tt (omega arith)

  module _
      (parents : (r p : String) (n : CanonicalNode)
        → lookup nodes r ≡ some n
        → n.parent_ref ≡ some p
        → (m : CanonicalNode) × (lookup nodes p ≡ some m)) where
    pub Depth-of_ended :
        (fuel : ℕ) (seen : List String) (r : String) (n : CanonicalNode)
        → lookup nodes r ≡ some n
        → walk nodes fuel seen (some r) ≡ ended
        → (d : ℕ) × Depth nodes r d
    unfolding walk
    Depth-of_ended zero seen r n here e = cc
    Depth-of_ended (suc fuel) seen r n here e = elim (Bool-cases (contains r seen)) [
      | inl found ↦ let clash : cycle ≡ ended = rw (found, walk) at e in cc
      | inr fresh ↦
          let e' : walk nodes fuel (r ∷ seen) n.parent_ref ≡ ended =
            rw (here, walk) at (rw (fresh, walk) at e) in
          elim (Option-cases n.parent_ref) [
            | inl root ↦ (0, top r n here root)
            | inr (p, up) ↦
                let (m, there) = parents r p n here up in
                let (d, above) = Depth-of_ended fuel (r ∷ seen) p m there (rw up at e') in
                (suc d, below r p n d here up above)
          ]
    ]

  -- Every node passed lies deeper than the current one.
  abbrev Deeper : ℕ → String → Type 0
  Deeper d s = (e : ℕ) × Depth nodes s e × (d < e)

  fresh_of_Deeper :
      (seen : List String) (r : String) (d : ℕ)
      → Depth nodes r d
      → All (Deeper d) seen
      → contains r seen ≡ false
  fresh_of_Deeper seen r d above deeper = elim (Bool-cases (contains r seen)) [
    | inl found ↦
        let (e, again, lt) = contains_of_All (Deeper d) seen r deeper found in
        let same : d ≡ e = Depth-unique nodes r d e above again in absurd (omega arith)
    | inr fresh ↦ fresh
  ]

  pub Depth-ne-cycle :
      (fuel : ℕ) (seen : List String) (r : String) (d : ℕ)
      → Depth nodes r d
      → All (Deeper d) seen
      → walk nodes fuel seen (some r) ≢ cycle
  unfolding walk
  Depth-ne-cycle zero seen r d above deeper = λ e. cc
  Depth-ne-cycle (suc zero) seen r d (top _ n here root) deeper =
      rw (fresh_of_Deeper seen r 0 (top r n here root) deeper, walk)
        (rw (here, walk) (rw (root, walk) (λ e. cc)))
  Depth-ne-cycle (suc (suc fuel)) seen r d (top _ n here root) deeper =
      rw (fresh_of_Deeper seen r 0 (top r n here root) deeper, walk)
        (rw (here, walk) (rw (root, walk) (λ e. cc)))
  Depth-ne-cycle (suc fuel) seen r d (below _ p n k here up above) deeper =
      let whole : Depth nodes r (suc k) = below r p n k here up above in
      rw (fresh_of_Deeper seen r (suc k) whole deeper, walk)
        (rw (here, walk)
          (rw up (
            Depth-ne-cycle fuel (r ∷ seen) p k above (
              (suc k, whole, omega arith),
              All-map seen (λ s (e, b, lt). (e, b, omega arith)) deeper,
            ))))
