-- ===== src/Suppression/Justified.antt =====
-- Each suppressed effect is due to a classified operation and a rule of the profile, and no
-- independent defect inside a suppressed move is lost.
use structural_reconciliatio.Base.{◌≡◌, sym, ap, ◌∙◌, true, false, List, is_empty, All}
use mathlib.Core.List.{Memᴰ}
use mathlib.Core.Path.{subst}
use structural_reconciliatio.Runtime.{Runtime, lt}
use structural_reconciliatio.Errors.{ok}
use structural_reconciliatio.Tree.{CanonicalTree}
use structural_reconciliatio.Contracts.Profiles.{
  SuppressionProfile, SuppressionRule, rules_for, same_operation,
}
use structural_reconciliatio.Contracts.Alignments.{AlignmentResult}
use structural_reconciliatio.Contracts.Operations.{
  StructuralOperation, SuppressedEffect, SuppressionResult,
}
use structural_reconciliatio.Suppression.{Suppressing, suppress}
use structural_reconciliatio.Suppression.Rounds.{
  is_empty-sort_texts, Memᴰ-filter, All-append_one, make_effect-fields, Applied, suppress-keeps,
}

module _ ⦃R : Runtime⦄ (operations : List StructuralOperation) (profile : SuppressionProfile) where
  -- The operation and the rule that a suppressed effect is due to.
  pub record Justified (effect : SuppressedEffect) : Type 0 where
    pub root : StructuralOperation
    pub rule : SuppressionRule
    pub classified : Memᴰ root operations
    pub configured : Memᴰ rule profile.rules
    pub same_type : same_operation rule.root_operation root.type ≡ true
    pub confident : lt root.confidence.value rule.threshold ≡ false
    pub names_root : effect.root_operation_id ≡ root.operation_id
    pub names_rule : effect.suppression_rule_id ≡ rule.rule_id
    pub some_affected : is_empty effect.affected_node_refs ≡ false

module _ ⦃R : Runtime⦄ (source : CanonicalTree) (operations : List StructuralOperation)
    (alignment : AlignmentResult) (profile : SuppressionProfile) where
  abbrev Due : SuppressedEffect → Type 0
  Due = Justified operations profile

  Applied-Justified :
      (op : StructuralOperation) (rule : SuppressionRule) (state next : Suppressing)
      → Memᴰ op operations
      → Memᴰ rule (rules_for profile op.type)
      → Applied source operations alignment op rule state next
      → All Due state.effects
      → All Due next.effects
  unfolding rules_for
  Applied-Justified op rule state next m n applied p =
      let (names_root, names_rule, refs, _) =
        make_effect-fields _ op rule _ _ applied.effect applied.made in
      let (configured, same_type) =
        Memᴰ-filter (λ (r : SuppressionRule). same_operation r.root_operation op.type) rule
          profile.rules n in
      subst (All Due) (sym applied.effects_then) (
        All-append_one Due state.effects applied.effect p (record {
          root = op;
          rule = rule;
          classified = m;
          configured = configured;
          same_type = same_type;
          confident = applied.above_threshold;
          names_root = names_root;
          names_rule = names_rule;
          some_affected =
              ap is_empty refs ∙ is_empty-sort_texts applied.found.0 applied.some_affected;
        }))

  -- Where suppression returns, each suppressed effect names a classified operation and a rule of the
  -- profile for that operation's type whose threshold the operation's confidence reaches, and it
  -- affects some node.
  pub suppress-Justified :
      (result : SuppressionResult)
      → suppress source operations alignment profile ≡ ok result
      → All (Justified operations profile) result.suppressed_effects
  suppress-Justified result h =
      let (final, all, same, _) =
        suppress-keeps source operations alignment profile (λ (z : Suppressing). All Due z.effects)
          Applied-Justified result h tt in
      subst (All Due) (sym same) all
