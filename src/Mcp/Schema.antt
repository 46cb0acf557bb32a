-- ===== src/Mcp/Schema.antt =====
-- The names and input schemas of the tools of internal/mcp/tools.go, and validateParams. Of a schema
-- only the names that validateParams reads are kept: every schema is one of an object with the key
-- `required` and with `additionalProperties` false.
use scopepilot.Prelude.{
  Bool, true, false, List, [], ◌∷◌, map, String, Option, none, some, any, if◌then◌else◌,
}
use scopepilot.Text.{Text, codes, text_eq}
use scopepilot.Mcp.Values.{Members, no_members, member}

pub record ToolDef : Type 0 where
  pub tool_name : Text  -- `Name`
  pub properties : List Text  -- of `InputSchema`
  pub required : List Text

abbrev tool : String → List String → List String → ToolDef
tool n properties required = record {
  tool_name = codes n;
  properties = map codes properties;
  required = map codes required;
}

-- The tools of ListTools that are always there.
abbrev pub common_tools : List ToolDef
common_tools =
    tool "get_scope_status" [] []
    ∷ tool "check_url" ("url" ∷ []) ("url" ∷ [])
    ∷ tool "get_audit_log" ("event_type" ∷ "limit" ∷ []) []
    ∷ tool "get_recent_decisions" [] []
    ∷ tool "get_ratelimit_status" [] []
    ∷ tool "activate_kill_switch" ("reason" ∷ []) ("reason" ∷ [])
    ∷ tool "deactivate_kill_switch" ("token" ∷ []) ("token" ∷ [])
    ∷ tool "is_kill_switch_active" [] []
    ∷ tool "run_safe_check" ("urls" ∷ []) ("urls" ∷ [])
    ∷ tool "validate_hosts" ("hosts" ∷ []) ("hosts" ∷ [])
    ∷ tool "health" [] []
    ∷ tool "scope_shape" [] []
    ∷ tool "recall_engagement" ("program" ∷ []) ("program" ∷ [])
    ∷ tool "record_assets" ("program" ∷ "hosts" ∷ "source" ∷ []) ("program" ∷ "hosts" ∷ [])
    ∷ tool "record_finding" ("program" ∷ "host" ∷ "title" ∷ "severity" ∷ "poc_ref" ∷ [])
        ("program" ∷ "host" ∷ "title" ∷ "severity" ∷ [])
    ∷ tool "mark_tested" ("program" ∷ "host" ∷ "endpoint" ∷ "check" ∷ "result" ∷ [])
        ("program" ∷ "host" ∷ "endpoint" ∷ "check" ∷ "result" ∷ [])
    ∷ []

-- specialistToolDefinitions
abbrev pub specialist_tools : List ToolDef
specialist_tools =
    tool "run_recon_specialist" ("targets" ∷ []) ("targets" ∷ [])
    ∷ tool "run_vuln_specialist" ("targets" ∷ []) ("targets" ∷ [])
    ∷ tool "run_gate_specialist" ("targets" ∷ "approval_token" ∷ [])
        ("targets" ∷ "approval_token" ∷ [])
    ∷ []

pub data ParamError : Type 0 where
  missing_required unknown_parameter : Text → ParamError

abbrev pub has_member : Text → Members → Bool
has_member k no_members = false
has_member k (member j v m) = if text_eq j k then true else has_member k m

-- The loop over the parameters, in some order of the map.
unfoldable pub check_known : List Text → Members → Option ParamError
check_known known no_members = none
check_known known (member k v m) =
    let rest = check_known known m in
    if any (λ p. text_eq p k) known then rest else some (unknown_parameter k)

-- The loop over the required names, then the one over the parameters.
unfoldable pub check_required : List Text → List Text → Members → Option ParamError
unfolding check_known
check_required [] known m = check_known known m
check_required (k ∷ ks) known m =
    let rest = check_required ks known m in
    if has_member k m then rest else some (missing_required k)

-- validateParams
unfoldable pub validate_params : ToolDef → Members → Option ParamError
unfolding check_required
validate_params t m = check_required t.required t.properties m
