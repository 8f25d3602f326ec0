-- ===== src/Core/Sanitizer.antt =====
-- core/sanitizer.rs: redaction of sensitive keys before a JSON payload is logged. `to_lowercase`
-- needs the Unicode tables, and is a parameter.
pub mod Redaction
use Prim.Native.String
use text.Mathlib.Text.{starts_with}
use topdesk_mcp_rs.Json.{
  Value, null, bool, number, string, array, object, Items, nil, cons, Fields, end, field,
}
use topdesk_mcp_rs.Shared.{String, Bool, true, false, ◌||◌, List, [], ◌∷◌, if◌then◌else◌, any}

-- `haystack.contains(needle)`
abbrev pub contains : String → String → Bool
contains String.[] needle = starts_with "" needle
contains (String.◌∷◌ c s) needle = starts_with (String.◌∷◌ c s) needle || contains s needle

abbrev pub sensitive_key_substrings : List String
sensitive_key_substrings =
    "password" ∷ "token" ∷ "secret" ∷ "authorization" ∷ "apikey" ∷ "api_key" ∷ "api-key"
    ∷ "credential" ∷ []

abbrev pub redacted : Value
redacted = string "[REDACTED]"

module _ (to_lowercase : String → String) where
  unfoldable pub is_sensitive_key : String → Bool
  is_sensitive_key key =
      let lower = to_lowercase key in any (contains lower) sensitive_key_substrings

  unfoldable mutual
    pub sanitize : Value → Value
    sanitize null = null
    sanitize (bool b) = bool b
    sanitize (number n) = number n
    sanitize (string s) = string s
    sanitize (array vs) = array (sanitize_items vs)
    sanitize (object fs) = object (sanitize_fields fs)

    pub sanitize_items : Items → Items
    sanitize_items nil = nil
    sanitize_items (cons v vs) = cons (sanitize v) (sanitize_items vs)

    pub sanitize_fields : Fields → Fields
    sanitize_fields end = end
    sanitize_fields (field k v fs) =
        field k (if is_sensitive_key k then redacted else sanitize v) (sanitize_fields fs)
