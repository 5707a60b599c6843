-- ===== src/Suppression/Rounds.antt =====
-- The loops of `suppress` round by round: what a predicate needs to hold at their end.
use structural_reconciliatio.Base.{
  ℕ, suc, ◌≡◌, refl, sym, ap, ◌∙◌, Bool, true, false, String, List, [], ◌∷◌, ◌++◌, is_empty, filter,
  contains, length, sort_texts, contains-sort_texts, All, Bool-cases, ◌⊎◌, inl, inr, arith, eq_refl,
}
use mathlib.Core.List.{Memᴰ}
use mathlib.Core.List.Memᴰ.{head, tail}
use mathlib.Core.Path.{subst}
use structural_reconciliatio.Runtime.{Runtime, lt}
use structural_reconciliatio.Errors.{ok, returned_bind, ok_injective}
use structural_reconciliatio.Tree.{CanonicalTree, require}
use structural_reconciliatio.Contracts.Profiles.{SuppressionProfile, SuppressionRule, rules_for}
use structural_reconciliatio.Contracts.Scores.{plain_confidence}
use structural_reconciliatio.Contracts.Alignments.{AlignmentResult}
use structural_reconciliatio.Contracts.Operations.{
  StructuralOperation, SuppressedEffect, SuppressionResult, IndependentDefectCheck, validate_effect,
}
use structural_reconciliatio.Suppression.{
  Suppressing, make_effect, affected_by, apply_rule, apply_rules, suppress_all, suppress,
  add_members,
}

pub is_empty-sort_texts :
    (xs : List String) → is_empty xs ≡ false → is_empty (sort_texts xs) ≡ false
unfolding is_empty contains
is_empty-sort_texts [] h = cc
is_empty-sort_texts (x ∷ xs) h =
    let found : contains x (sort_texts (x ∷ xs)) ≡ true =
      contains-sort_texts x (x ∷ xs) ∙ ground (arith, eq_refl x) in
    not_empty (sort_texts (x ∷ xs)) found
  where
    not_empty : (ys : List String) → contains x ys ≡ true → is_empty ys ≡ false
    not_empty [] e = cc
    not_empty (y ∷ ys) e = refl

pub Memᴰ-filter :
    {A : Type 0} (p : A → Bool) (x : A) (xs : List A)
    → Memᴰ x (filter p xs)
    → Memᴰ x xs × (p x ≡ true)
unfolding filter
Memᴰ-filter p x [] m = elim m [ ]
Memᴰ-filter p x (y ∷ ys) m = elim (Bool-cases (p y)) [
  | inl e ↦ elim (rw e at m) [
    | head same ↦ (head same, ap p same ∙ e)
    | tail rest ↦ let (u, v) = Memᴰ-filter p x ys rest in (tail u, v)
  ]
  | inr e ↦ let (u, v) = Memᴰ-filter p x ys (rw e at m) in (tail u, v)
]

pub All-append_one {κ} :
    {A : Type 0} (P : A → Type κ) (xs : List A) (y : A) → All P xs → P y → All P (xs ++ y ∷ [])
All-append_one P [] y h p = (p, tt)
All-append_one P (x ∷ xs) y h p = (h.0, All-append_one P xs y h.1 p)

module _ ⦃R : Runtime⦄ where
  validate_effect-eq :
      (effect made : SuppressedEffect) → validate_effect effect ≡ ok made → effect ≡ made
  unfolding validate_effect
  validate_effect-eq effect made h =
      let (_, _, h₁) = returned_bind (require _ _) _ h in
      let (_, _, h₂) = returned_bind (require _ _) _ h₁ in
      let (_, _, h₃) = returned_bind (require _ _) _ h₂ in
      let (_, _, h₄) = returned_bind (require _ _) _ h₃ in ok_injective effect made h₄

  -- The fields that the construction of an effect sets.
  pub make_effect-fields :
      (counter : ℕ) (op : StructuralOperation) (rule : SuppressionRule) (affected : List String)
      (check : IndependentDefectCheck) (effect : SuppressedEffect)
      → make_effect counter op rule affected check ≡ ok effect
      → (effect.root_operation_id ≡ op.operation_id)
        × (effect.suppression_rule_id ≡ rule.rule_id)
        × (effect.affected_node_refs ≡ sort_texts affected)
        × (effect.independent_defect_check ≡ check)
  unfolding make_effect
  make_effect-fields counter op rule affected check effect h =
      let (confidence, _, h₁) = returned_bind (plain_confidence op.confidence.value) _ h in
      let e = validate_effect-eq _ effect h₁ in
      (
        ap (λ (d : SuppressedEffect). d.root_operation_id) (sym e),
        ap (λ (d : SuppressedEffect). d.suppression_rule_id) (sym e),
        ap (λ (d : SuppressedEffect). d.affected_node_refs) (sym e),
        ap (λ (d : SuppressedEffect). d.independent_defect_check) (sym e),
      )

module _ ⦃R : Runtime⦄ (source : CanonicalTree) (operations : List StructuralOperation)
    (alignment : AlignmentResult) where
  -- A round of the inner loop that added an effect.
  pub record Applied (op : StructuralOperation) (rule : SuppressionRule) (state next : Suppressing)
      : Type 0 where
    pub found : List String × List String × IndependentDefectCheck
    pub effect : SuppressedEffect
    pub affected : affected_by source operations alignment op ≡ ok found
    pub some_affected : is_empty found.0 ≡ false
    pub above_threshold : lt op.confidence.value rule.threshold ≡ false
    pub made : make_effect (suc (length state.effects)) op rule found.0 found.2 ≡ ok effect
    pub effects_then : next.effects ≡ state.effects ++ effect ∷ []
    pub retained_then : next.retained ≡ add_members state.retained found.1

  apply_rule-cases :
      (op : StructuralOperation) (rule : SuppressionRule) (state next : Suppressing)
      → apply_rule source operations alignment op rule state ≡ ok next
      → (state ≡ next) ⊎ Applied op rule state next
  unfolding apply_rule
  apply_rule-cases op rule state next h =
      elim (Bool-cases (lt op.confidence.value rule.threshold)) [
        | inl low ↦ inl (ok_injective state next (rw low at h))
        | inr high ↦
            let (found, p, h₁) =
              returned_bind (affected_by source operations alignment op) _ (rw high at h) in
            elim (Bool-cases (is_empty found.0)) [
              | inl none_affected ↦ inl (ok_injective state next (rw none_affected at h₁))
              | inr some_affected ↦
                  let (effect, q, h₂) =
                    returned_bind (make_effect (suc (length state.effects)) op rule found.0 found.2)
                      _ (rw some_affected at h₁) in
                  let same = ok_injective _ next h₂ in
                  inr (record {
                    found = found;
                    effect = effect;
                    affected = p;
                    some_affected = some_affected;
                    above_threshold = high;
                    made = q;
                    effects_then = ap (λ (z : Suppressing). z.effects) (sym same);
                    retained_then = ap (λ (z : Suppressing). z.retained) (sym same);
                  })
            ]
      ]

  -- A predicate of the loops' state that each added effect keeps holds at the end.
  module _ {κ} (profile : SuppressionProfile) (P : Suppressing → Type κ)
      (keeps : (op : StructuralOperation) (rule : SuppressionRule) (state next : Suppressing)
        → Memᴰ op operations
        → Memᴰ rule (rules_for profile op.type)
        → Applied op rule state next
        → P state
        → P next) where
    apply_rules-keeps :
        (op : StructuralOperation) (rules : List SuppressionRule) (state next : Suppressing)
        → Memᴰ op operations
        → ((rule : SuppressionRule) → Memᴰ rule rules → Memᴰ rule (rules_for profile op.type))
        → apply_rules source operations alignment op rules state ≡ ok next
        → P state
        → P next
    unfolding apply_rules
    apply_rules-keeps op [] state next m all h p = subst P (ok_injective state next h) p
    apply_rules-keeps op (rule ∷ rules) state next m all h p =
        let (middle, q, h₁) =
          returned_bind (apply_rule source operations alignment op rule state) _ h in
        let after : P middle = elim (apply_rule-cases op rule state middle q) [
          | inl same ↦ subst P same p
          | inr applied ↦ keeps op rule state middle m (all rule (head refl)) applied p
        ] in
        apply_rules-keeps op rules middle next m (λ r n. all r (tail n)) h₁ after

    suppress_all-keeps :
        (ops : List StructuralOperation) (state final : Suppressing)
        → ((op : StructuralOperation) → Memᴰ op ops → Memᴰ op operations)
        → suppress_all source operations alignment profile ops state ≡ ok final
        → P state
        → P final
    unfolding suppress_all
    suppress_all-keeps [] state final all h p = subst P (ok_injective state final h) p
    suppress_all-keeps (op ∷ ops) state final all h p =
        let (middle, q, h₁) =
          returned_bind
            (apply_rules source operations alignment op (rules_for profile op.type) state) _ h in
        suppress_all-keeps ops middle final (λ o n. all o (tail n)) h₁
          (apply_rules-keeps op (rules_for profile op.type) state middle (all op (head refl))
            (λ r n. n) q p)

    pub suppress-keeps :
        (result : SuppressionResult)
        → suppress source operations alignment profile ≡ ok result
        → P (record { effects = []; retained = [] })
        → (final : Suppressing) × P final
          × (result.suppressed_effects ≡ final.effects)
          × (result.retained_defect_node_refs ≡ sort_texts final.retained)
    unfolding suppress
    suppress-keeps result h p =
        let (final, q, h₁) =
          returned_bind
            (suppress_all source operations alignment profile operations
              (record { effects = []; retained = [] }))
            _ h in
        let same = ok_injective _ result h₁ in
        (
          final,
          suppress_all-keeps operations _ final (λ o n. n) q p,
          ap (λ (r : SuppressionResult). r.suppressed_effects) (sym same),
          ap (λ (r : SuppressionResult). r.retained_defect_node_refs) (sym same),
        )
