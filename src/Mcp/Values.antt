-- ===== src/Mcp/Values.antt =====
-- The values of a request to internal/mcp/server.go, and redactSensitiveMap. Of a number only the
-- integer part is kept, since the tools read no more of it.
use scopepilot.Prelude.{Bool, List, [], ◌∷◌, Option, none, some, any, if◌then◌else◌}
use scopepilot.Number.{ℤ}
use scopepilot.Text.{Text, codes, text_eq, to_lower}

mutual
  pub data Json : Type 0 where
    json_null : Json
    json_bool : Bool → Json
    json_number : ℤ → Json
    json_string : Text → Json
    json_array : Elements → Json
    json_object : Members → Json

  pub data Elements : Type 0 where
    no_elements : Elements
    element : Json → Elements → Elements

  pub data Members : Type 0 where
    no_members : Members
    member : Text → Json → Members → Members

-- m[key] of a map that holds each key once
unfoldable pub member_of : Text → Members → Option Json
member_of k no_members = none
member_of k (member j v m) = if text_eq j k then some v else member_of k m

abbrev pub redacted : Json
redacted = json_string (codes "[REDACTED]")

abbrev sensitive_keys : List Text
sensitive_keys =
    codes "token"
    ∷ codes "approval_token"
    ∷ codes "api_key"
    ∷ codes "password"
    ∷ codes "secret"
    ∷ codes "authorization"
    ∷ []

-- isSensitiveKey
unfoldable pub is_sensitive_key : Text → Bool
unfolding to_lower
is_sensitive_key key = any (λ k. text_eq (to_lower key) k) sensitive_keys

-- redactSensitiveMap of a map that is not nil, with the cases of its type switch
unfoldable mutual
  unfolding is_sensitive_key

  pub redact_sensitive_map : Members → Members
  redact_sensitive_map no_members = no_members
  redact_sensitive_map (member key v m) =
      member key (if is_sensitive_key key then redacted else redact_value v)
        (redact_sensitive_map m)

  pub redact_value : Json → Json
  redact_value (json_object m) = json_object (redact_sensitive_map m)
  redact_value (json_array vs) = json_array (redact_items vs)
  redact_value json_null = json_null
  redact_value (json_bool b) = json_bool b
  redact_value (json_number n) = json_number n
  redact_value (json_string s) = json_string s

  pub redact_items : Elements → Elements
  redact_items no_elements = no_elements
  redact_items (element v vs) = element (redact_item v) (redact_items vs)

  pub redact_item : Json → Json
  redact_item (json_object m) = json_object (redact_sensitive_map m)
  redact_item (json_array vs) = json_array vs
  redact_item json_null = json_null
  redact_item (json_bool b) = json_bool b
  redact_item (json_number n) = json_number n
  redact_item (json_string s) = json_string s
