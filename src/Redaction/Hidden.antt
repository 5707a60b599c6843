-- ===== src/Redaction/Hidden.antt =====
-- What a redacted event does not show.
use structural_reconciliatio.Base.{
  ◌≡◌, refl, ap, String, Bool, true, false, Bool-cases, inl, inr, if◌then◌else◌, arith,
}
use structural_reconciliatio.Runtime.{Runtime}
use structural_reconciliatio.Tree.Values.{
  Value, Fields, null, text, int, float, bool, list, dict, end, field,
}
use structural_reconciliatio.Redaction.{mask, is_masked, redact_mapping, redact_value}

module _ (lower : String → String) (redact_content : Bool) ⦃R : Runtime⦄ where
  -- Every field whose key is to be masked holds the mask, in the mapping and in those nested in it as
  -- values. Nothing is said of the mappings inside a list: the code keeps a list as it is.
  unfoldable mutual
    pub Hidden : Fields → Type 0
    Hidden end = Unit {0}
    Hidden (field key value event) =
        (is_masked lower redact_content key ≡ true → value ≡ text mask)
        × HiddenValue value
        × Hidden event

    pub HiddenValue : Value → Type 0
    HiddenValue (dict event) = Hidden event
    HiddenValue null = Unit {0}
    HiddenValue (text s) = Unit {0}
    HiddenValue (int n) = Unit {0}
    HiddenValue (float x) = Unit {0}
    HiddenValue (bool b) = Unit {0}
    HiddenValue (list values) = Unit {0}

  -- Every field whose key is not to be masked shows what it showed, but for the masks in the mappings
  -- nested in it as values: a list stays as it is.
  unfoldable mutual
    pub Kept : Fields → Fields → Type 0
    Kept end redacted = redacted ≡ end
    Kept (field key value event) redacted =
        (shown : Value) × (rest : Fields) × (redacted ≡ field key shown rest)
        × (is_masked lower redact_content key ≡ false → KeptValue value shown)
        × Kept event rest

    pub KeptValue : Value → Value → Type 0
    KeptValue (dict event) shown = (inner : Fields) × (shown ≡ dict inner) × Kept event inner
    KeptValue null shown = shown ≡ null
    KeptValue (text s) shown = shown ≡ text s
    KeptValue (int n) shown = shown ≡ int n
    KeptValue (float x) shown = shown ≡ float x
    KeptValue (bool b) shown = shown ≡ bool b
    KeptValue (list values) shown = shown ≡ list values

  KeptValue-field :
      (masked : Bool) (value redacted : Value)
      → KeptValue value redacted
      → masked ≡ false
      → KeptValue value (if masked then text mask else redacted)
  KeptValue-field true value redacted h plain = ground (arith, plain)
  KeptValue-field false value redacted h plain = h

  mutual
    unfolding redact_mapping Kept

    Kept-mapping : (event : Fields) → Kept event (redact_mapping lower redact_content event)
    Kept-mapping end = refl
    Kept-mapping (field key value event) = (
      _,
      _,
      refl,
      KeptValue-field (is_masked lower redact_content key) value
          (redact_value lower redact_content value) (Kept-value value),
      Kept-mapping event,
    )

    Kept-value : (value : Value) → KeptValue value (redact_value lower redact_content value)
    Kept-value (dict event) = (_, refl, Kept-mapping event)
    Kept-value null = refl
    Kept-value (text s) = refl
    Kept-value (int n) = refl
    Kept-value (float x) = refl
    Kept-value (bool b) = refl
    Kept-value (list values) = refl

  -- The value of one field, masked or redacted.
  Hidden-field :
      (masked : Bool) (value : Value)
      → HiddenValue value
      → (masked ≡ true → (if masked then text mask else value) ≡ text mask)
        × HiddenValue (if masked then text mask else value)
  unfolding Hidden
  Hidden-field true value h = ((λ _. refl), tt)
  Hidden-field false value h = ((λ e. ground (arith, e)), h)

  mutual
    unfolding redact_mapping Hidden

    Hidden-mapping : (event : Fields) → Hidden (redact_mapping lower redact_content event)
    Hidden-mapping end = tt
    Hidden-mapping (field key value event) =
        let shown =
          Hidden-field (is_masked lower redact_content key)
            (redact_value lower redact_content value) (Hidden-value value) in
        (shown.0, shown.1, Hidden-mapping event)

    Hidden-value : (value : Value) → HiddenValue (redact_value lower redact_content value)
    Hidden-value (dict event) = Hidden-mapping event
    Hidden-value null = tt
    Hidden-value (text s) = tt
    Hidden-value (int n) = tt
    Hidden-value (float x) = tt
    Hidden-value (bool b) = tt
    Hidden-value (list values) = tt

  mutual
    unfolding redact_mapping

    mapping_idempotent :
        (event : Fields)
        → redact_mapping lower redact_content (redact_mapping lower redact_content event)
          ≡ redact_mapping lower redact_content event
    mapping_idempotent end = refl
    mapping_idempotent (field key value event) =
        elim (Bool-cases (is_masked lower redact_content key)) [
          | inl masked ↦ rw masked (rw (mapping_idempotent event) refl)
          | inr plain ↦ rw plain (rw (value_idempotent value) (rw (mapping_idempotent event) refl))
        ]

    value_idempotent :
        (value : Value)
        → redact_value lower redact_content (redact_value lower redact_content value)
          ≡ redact_value lower redact_content value
    value_idempotent (dict event) = ap dict (mapping_idempotent event)
    value_idempotent null = refl
    value_idempotent (text s) = refl
    value_idempotent (int n) = refl
    value_idempotent (float x) = refl
    value_idempotent (bool b) = refl
    value_idempotent (list values) = refl
