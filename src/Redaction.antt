-- ===== src/Redaction.antt =====
-- infrastructure/logging.py: the masking of credentials and content in a log event.
pub mod Hidden
use structural_reconciliatio.Base.{String, Bool, List, [], ◌∷◌, ◌&&◌, ◌||◌, contains, if◌then◌else◌}
use structural_reconciliatio.Runtime.{Runtime}
use structural_reconciliatio.Tree.Values.{
  Value, Fields, null, text, int, float, bool, list, dict, end, field,
}

-- `SENSITIVE_KEYS`
abbrev pub sensitive_keys : List String
sensitive_keys =
    "password" ∷ "passwd" ∷ "secret" ∷ "token" ∷ "api_key" ∷ "apikey" ∷ "authorization"
    ∷ "credential" ∷ "credentials" ∷ "access_key" ∷ "private_key" ∷ []

-- `CONTENT_KEYS`
abbrev pub content_keys : List String
content_keys =
    "content" ∷ "source_content" ∷ "locale_content" ∷ "text" ∷ "navtitle" ∷ "title" ∷ "label"
    ∷ "source_label" ∷ "locale_label" ∷ "message" ∷ []

-- `_MASK`
abbrev pub mask : String
mask = "[REDACTED]"

-- `lower` is `str.lower`.
module _ (lower : String → String) (redact_content : Bool) where
  unfoldable pub is_masked : String → Bool
  is_masked key =
      let lowered = lower key in
      contains lowered sensitive_keys || (redact_content && contains lowered content_keys)

  module _ ⦃R : Runtime⦄ where
    -- A nested mapping is redacted too; any other value, also a list of mappings, is kept.
    unfoldable mutual
      pub redact_mapping : Fields → Fields
      redact_mapping end = end
      redact_mapping (field key value event) =
          field key (if is_masked key then text mask else redact_value value) (redact_mapping event)

      pub redact_value : Value → Value
      redact_value (dict event) = dict (redact_mapping event)
      redact_value null = null
      redact_value (text s) = text s
      redact_value (int n) = int n
      redact_value (float x) = float x
      redact_value (bool b) = bool b
      redact_value (list values) = list values
