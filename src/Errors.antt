-- ===== src/Errors.antt =====
-- core/errors.py and the violations that the validators collect: what a run of the core raises.
-- Of a message only what a caller can tell apart is kept: the code and the nodes it is about.
use structural_reconciliatio.Base.{
  ◌≡◌, refl, ap, ℕ, String, List, [], ◌∷◌, All, ◌∙◌, ◌⊎◌, inl, inr, Bool, true, false,
}

-- `code` of a `TreeViolation`
pub data TreeCode : Type 0 where
  dangling_child_ref parent_child_disagreement dangling_parent_ref : TreeCode
  missing_from_parent_children multiple_roots containment_cycle : TreeCode

pub record TreeViolation : Type 0 where
  pub code : TreeCode
  pub node_ref : String

-- `code` of a `ProfileViolation`, with what it names: the rule, or the position of the weight
pub data ProfileViolation : Type 0 where
  suppression_rule_disabled_operation : (rule_id : String) → ProfileViolation
  weight_without_priority : (position : ℕ) → ProfileViolation

pub data LimitKind : Type 0 where
  total_nodes depth : LimitKind

-- The `ValueError` of a model validator, named for the check.
pub data Invariant : Type 0 where
  too_short range evidence_required alternative_required hard_constraint_confirmed : Invariant
  source_confirmed_twice target_confirmed_twice : Invariant
  aligned_pair_sides unresolved_without_candidates region_not_marked : Invariant
  region_ids_not_unique unresolved_ids_not_unique unresolved_ids_mismatch : Invariant
  reorder_too_few move_same_parent move_without_match operation_without_match : Invariant
  duplicate_children own_parent own_child : Invariant
  empty_tree root_missing root_has_parent key_mismatch : Invariant
  conflicting_rules calibration_model_missing empty_priority duplicate_priority : Invariant
  thresholds_crossed no_tie_break extended_operation duplicate_rule_ids : Invariant
  repair_not_recommended exempt_without_rule auto_fix executable_repair : Invariant
  preconditions_required changes_required : Invariant
  override_without_replacement override_unchanged policy_locale_mismatch : Invariant
  no_maximum already_registered self_link causal_cycle retained_defect_suppressed : Invariant

pub data Error : Type 0 where
  invalid_tree : List TreeViolation → Error
  invalid_profile : List ProfileViolation → Error
  resource_limit_exceeded : (kind : LimitKind) (value limit : ℕ) → Error
  key_error : String → Error
  index_error assertion_error : Error
  value_error : Invariant → Error
  -- `ComparisonRejectedError` of a reviewer's decision
  decision_for_other_job decision_for_unknown_issue : Error
  -- An exception of code that is a parameter of the model, with the name of its class
  foreign_error : String → Error
  -- The model's own: the fuel of a loop is spent. No run on a well-formed tree gets here.
  fuel_spent : Error

pub data Result {ℓ} (Out : Type ℓ) : Type ℓ where
  ok : Out → Result Out
  raise : Error → Result Out

-- A call, and the calls after it, which an exception skips.
infixl 5 ◌>>=◌
abbrev pub ◌>>=◌ {ℓ κ} :
    {Mid : Type ℓ} {Out : Type κ} → Result Mid → (Mid → Result Out) → Result Out
raise reason >>= next = raise reason
ok mid >>= next = next mid

infixl 5 ◌>>◌
abbrev pub ◌>>◌ {ℓ κ} : {Mid : Type ℓ} {Out : Type κ} → Result Mid → Result Out → Result Out
call >> after = call >>= λ _. after

-- `[f(x) for x in xs]` where `f` may raise.
unfoldable pub traverse {ℓ κ} :
    {A : Type ℓ} {B : Type κ} → (A → Result B) → List A → Result (List B)
traverse f [] = ok []
traverse f (x ∷ xs) = do y ← f x; ys ← traverse f xs; ok (y ∷ ys)

-- A statement about the outcome of a call that may raise: `Ensures` where it returns.
abbrev pub Ensures {ℓ κ} : {A : Type ℓ} → (A → Type κ) → Result A → Type κ
Ensures P (ok a) = P a
Ensures P (raise e) = Unit

abbrev result_or {ℓ} : {A : Type ℓ} → A → Result A → A
result_or d (ok a) = a
result_or d (raise e) = d

-- Where a sequence of two calls returned, the first one returned, and so did the second on its value.
pub returned_bind {ℓ κ} :
    {Mid : Type ℓ} {Out : Type κ} (call : Result Mid) (next : Mid → Result Out) {out : Out}
    → call >>= next ≡ ok out
    → (mid : Mid) × (call ≡ ok mid) × (next mid ≡ ok out)
returned_bind (raise reason) next returned = cc
returned_bind (ok mid) next returned = (mid, refl, returned)

pub ok_injective {ℓ} : {A : Type ℓ} (a b : A) → ok a ≡ ok b → a ≡ b
ok_injective a b h = ap (result_or a) h

-- A call that returns.
abbrev pub Returns {ℓ} : {A : Type ℓ} → Result A → Type ℓ
Returns {A = A} m = (a : A) × (m ≡ ok a)

pub Returns-bind {ℓ κ} :
    {A : Type ℓ} {B : Type κ} (m : Result A) (f : A → Result B)
    → Returns m
    → ((a : A) → m ≡ ok a → Returns (f a))
    → Returns (m >>= f)
Returns-bind m f (a, p) k = let (b, q) = k a p in (b, ap (λ z. z >>= f) p ∙ q)

-- What a comprehension returns, element by element.
pub traverse-Returns {ℓ κ} :
    {A : Type ℓ} {B : Type κ} (f : A → Result B) (xs : List A)
    → All (λ x. Returns (f x)) xs
    → Returns (traverse f xs)
unfolding traverse
traverse-Returns f [] h = ([], refl)
traverse-Returns f (x ∷ xs) h =
    Returns-bind (f x) _ h.0
      (λ y p. Returns-bind (traverse f xs) _ (traverse-Returns f xs h.1) (λ ys q. (y ∷ ys, refl)))

pub Result-cases {ℓ} :
    {A : Type ℓ} (r : Result A) → ((a : A) × (r ≡ ok a)) ⊎ ((e : Error) × (r ≡ raise e))
Result-cases (ok a) = inl (a, refl)
Result-cases (raise e) = inr (e, refl)

abbrev error_or {ℓ} : {A : Type ℓ} → Error → Result A → Error
error_or d (ok a) = d
error_or d (raise e) = e

pub raise_injective {ℓ} :
    {A : Type ℓ} (d e : Error) → ◌≡◌ {A = Result A} (raise d) (raise e) → d ≡ e
raise_injective d e h = ap (error_or d) h

-- Where a sequence of two calls raised, one of them did.
pub raised_bind {ℓ κ} :
    {Mid : Type ℓ} {Out : Type κ} (call : Result Mid) (next : Mid → Result Out) (reason : Error)
    → call >>= next ≡ raise reason
    → (call ≡ raise reason) ⊎ ((mid : Mid) × (call ≡ ok mid) × (next mid ≡ raise reason))
raised_bind (ok mid) next reason h = inr (mid, refl, h)
raised_bind (raise e) next reason h = inl (ap raise (raise_injective e reason h))

unfoldable pub is_ok {ℓ} : {A : Type ℓ} → Result A → Bool
is_ok (ok a) = true
is_ok (raise e) = false

-- A test of the outcome is enough: the value need not be written.
pub Returns-is_ok {ℓ} : {A : Type ℓ} (m : Result A) → is_ok m ≡ true → Returns m
unfolding is_ok
Returns-is_ok (ok a) h = (a, refl)
Returns-is_ok (raise e) h = cc
