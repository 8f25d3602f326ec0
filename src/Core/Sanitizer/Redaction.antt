-- ===== src/Core/Sanitizer/Redaction.antt =====
-- core/sanitizer.rs: what redaction leaves.
use topdesk_mcp_rs.Core.Sanitizer.{
  redacted, is_sensitive_key, sanitize, sanitize_items, sanitize_fields,
}
use topdesk_mcp_rs.Json.{
  Value, null, bool, number, string, array, object, Items, nil, cons, Fields, end, field,
}
use topdesk_mcp_rs.Shared.{String, Bool, true, false, ◌≡◌, refl, ◌↔◌, if◌then◌else◌, ap, subst, sym}

module _ (to_lowercase : String → String) where
  abbrev mutual
    -- At every depth, the value under a sensitive key is the mark of redaction.
    pub IsClean : Value → Type 0
    IsClean null = Unit
    IsClean (bool b) = Unit
    IsClean (number n) = Unit
    IsClean (string s) = Unit
    IsClean (array vs) = AreCleanItems vs
    IsClean (object fs) = AreCleanFields fs

    pub AreCleanItems : Items → Type 0
    AreCleanItems nil = Unit
    AreCleanItems (cons v vs) = IsClean v × AreCleanItems vs

    pub AreCleanFields : Fields → Type 0
    AreCleanFields end = Unit
    AreCleanFields (field k v fs) =
        (if is_sensitive_key to_lowercase k then (v ≡ redacted) else IsClean v) × AreCleanFields fs

  -- The two lemmas on one field, for either answer of the test.
  IsClean-field :
      (b : Bool) (v : Value)
      → IsClean v
      → if b then ((if b then redacted else v) ≡ redacted) else IsClean (if b then redacted else v)
  IsClean-field true v c = refl
  IsClean-field false v c = c

  kept_field :
      (b : Bool) (v w : Value)
      → (if b then (v ≡ redacted) else IsClean v)
      → (IsClean v → w ≡ v)
      → (if b then redacted else w) ≡ v
  kept_field true v w c same = sym c
  kept_field false v w c same = same c

  mutual
    unfolding sanitize

    sanitize-IsClean_of : (v : Value) → IsClean (sanitize to_lowercase v)
    sanitize-IsClean_of null = tt
    sanitize-IsClean_of (bool b) = tt
    sanitize-IsClean_of (number n) = tt
    sanitize-IsClean_of (string s) = tt
    sanitize-IsClean_of (array vs) = sanitize_items-AreCleanItems vs
    sanitize-IsClean_of (object fs) = sanitize_fields-AreCleanFields fs

    sanitize_items-AreCleanItems : (vs : Items) → AreCleanItems (sanitize_items to_lowercase vs)
    sanitize_items-AreCleanItems nil = tt
    sanitize_items-AreCleanItems (cons v vs) =
        (sanitize-IsClean_of v, sanitize_items-AreCleanItems vs)

    sanitize_fields-AreCleanFields :
        (fs : Fields) → AreCleanFields (sanitize_fields to_lowercase fs)
    sanitize_fields-AreCleanFields end = tt
    sanitize_fields-AreCleanFields (field k v fs) = (
      IsClean-field (is_sensitive_key to_lowercase k) _ (sanitize-IsClean_of v),
      sanitize_fields-AreCleanFields fs,
    )

  mutual
    unfolding sanitize

    sanitize_of_IsClean : (v : Value) → IsClean v → sanitize to_lowercase v ≡ v
    sanitize_of_IsClean null c = refl
    sanitize_of_IsClean (bool b) c = refl
    sanitize_of_IsClean (number n) c = refl
    sanitize_of_IsClean (string s) c = refl
    sanitize_of_IsClean (array vs) c = ap array (sanitize_items_of_AreCleanItems vs c)
    sanitize_of_IsClean (object fs) c = ap object (sanitize_fields_of_AreCleanFields fs c)

    sanitize_items_of_AreCleanItems :
        (vs : Items) → AreCleanItems vs → sanitize_items to_lowercase vs ≡ vs
    sanitize_items_of_AreCleanItems nil c = refl
    sanitize_items_of_AreCleanItems (cons v vs) (c, cs) =
        cc (sanitize_of_IsClean v c, sanitize_items_of_AreCleanItems vs cs)

    sanitize_fields_of_AreCleanFields :
        (fs : Fields) → AreCleanFields fs → sanitize_fields to_lowercase fs ≡ fs
    sanitize_fields_of_AreCleanFields end c = refl
    sanitize_fields_of_AreCleanFields (field k v fs) (c, cs) = cc (
      kept_field (is_sensitive_key to_lowercase k) v (sanitize to_lowercase v) c
          (sanitize_of_IsClean v),
      sanitize_fields_of_AreCleanFields fs cs,
    )

  -- A sanitised payload shows no value under a sensitive key, at any depth of objects and arrays.
  pub sanitize-IsClean : (v : Value) → IsClean (sanitize to_lowercase v)
  sanitize-IsClean v = sanitize-IsClean_of v

  -- Sanitising changes a payload exactly when it shows a value under a sensitive key.
  pub sanitize-eq_iff : (v : Value) → (sanitize to_lowercase v ≡ v) ↔ IsClean v
  sanitize-eq_iff v = (λ e. subst IsClean e (sanitize-IsClean v), sanitize_of_IsClean v)
