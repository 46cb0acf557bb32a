-- ===== src/Mcp/Dispatch.antt =====
-- callTool of internal/mcp/tools.go, with logToolInvocation of internal/mcp/server.go.
use scopepilot.Prelude.{
  String, Bool, true, false, ◌||◌, List, [], ◌∷◌, Option, none, some, inl, inr, ◌⊎◌, if◌then◌else◌,
  find_first, string_eq,
}
use scopepilot.Number.{pos}
use scopepilot.Text.{Text, codes, text_eq}
use scopepilot.KillSwitch.{is_active}
use scopepilot.Store.{log_entry, recent_entries}
use scopepilot.Proxy.Check.{scope_summary, rate_limit_status}
use scopepilot.Mcp.Values.{Members, redact_sensitive_map}
use scopepilot.Mcp.Schema.{ToolDef, ParamError, validate_params}
use scopepilot.Mcp.State.{
  ToolError, Datum, ToolResult, Server, Calls, Outside, approval_denied, approval_unset,
  assets_recorded, checked, deactivation_unset, element_empty, element_no_string, engagement,
  entries, error, finding_recorded, health, hosts_checked, invalid_parameters, list_empty,
  list_too_long, name, parameter_empty, parameter_missing, parameter_no_array, parameter_unknown,
  params, rates, recon_skipped, run_failed, safe_checks, scope_status, shape, specialist_result,
  switch_active, switch_on, switch_status, targets_empty, targets_no_array, targets_no_strings,
  targets_too_many, tested_recorded, text, token_invalid, unknown_tool, unregistered, url_invalid,
  list_tools,
}
use scopepilot.Mcp.Handlers.{
  scope_shape, handle_check_url, handle_get_audit_log, handle_activate_kill_switch,
  handle_deactivate_kill_switch, handle_run_safe_check, handle_run_specialist,
  handle_validate_hosts, handle_recall_engagement, handle_record_assets, handle_record_finding,
  handle_mark_tested,
}

-- resultTypeName of the result of a tool
abbrev pub result_type_name : ToolResult → String
result_type_name (checked r) = "check_result"
result_type_name (rates r) = "ratelimit_state"
result_type_name (switch_status r) = "killswitch_status"
result_type_name (entries r) = "audit_entries"
result_type_name (hosts_checked r) = "unknown"
result_type_name (specialist_result r) = "specialist_result"
result_type_name (scope_status r) = "generic_map"
result_type_name (switch_active r) = "generic_map"
result_type_name (safe_checks r) = "generic_map"
result_type_name (health uptime id active) = "generic_map"
result_type_name (shape wild cidr exact wildcard advice) = "generic_map"
result_type_name (engagement program assets findings tested) = "generic_map"
result_type_name (assets_recorded program n) = "generic_map"
result_type_name (finding_recorded id) = "generic_map"
result_type_name tested_recorded = "generic_map"
result_type_name (recon_skipped hosts) = "generic_map"

abbrev pub is_specialist : Text → Bool
is_specialist tool =
    text_eq tool (codes "run_recon_specialist")
    || text_eq tool (codes "run_vuln_specialist")
    || text_eq tool (codes "run_gate_specialist")

abbrev is_run : ToolError → Bool
is_run (run_failed e) = true
is_run (unknown_tool t) = false
is_run (invalid_parameters t e) = false
is_run (parameter_empty k) = false
is_run (parameter_missing k) = false
is_run (parameter_no_array k) = false
is_run (list_empty k) = false
is_run (parameter_unknown k t) = false
is_run (list_too_long k n) = false
is_run (element_no_string k i) = false
is_run (element_empty k i) = false
is_run (url_invalid i u) = false
is_run deactivation_unset = false
is_run token_invalid = false
is_run switch_on = false
is_run targets_no_array = false
is_run targets_no_strings = false
is_run targets_empty = false
is_run targets_too_many = false
is_run (unregistered t) = false
is_run approval_unset = false
is_run approval_denied = false

-- resultTypeName beside an error: a nil pointer, map or slice in an interface is not nil.
abbrev error_type_name : Text → ToolError → Option String
error_type_name tool e =
    if is_specialist tool
    then if is_run e then some "specialist_result" else none
    else if text_eq tool (codes "check_url")
    then some "check_result"
    else if text_eq tool (codes "deactivate_kill_switch")
    then some "killswitch_status"
    else if text_eq tool (codes "validate_hosts")
    then some "unknown"
    else some "generic_map"

abbrev type_field : Option String → List (String × Datum)
type_field none = []
type_field (some t) = ("result_type", name t) ∷ []

-- The data of logToolInvocation.
abbrev pub invocation : Text → Members → ToolError ⊎ ToolResult → List (String × Datum)
invocation tool m (inl e) =
    ("tool", text tool)
    ∷ ("params", params (redact_sensitive_map m))
    ∷ ("error", error e)
    ∷ type_field (error_type_name tool e)
invocation tool m (inr r) =
    ("tool", text tool)
    ∷ ("params", params (redact_sensitive_map m))
    ∷ ("result_type", name (result_type_name r))
    ∷ []

-- logToolInvocation
unfoldable pub log_tool_invocation :
    Outside → Server → Text → Members → ToolError ⊎ ToolResult → Server
log_tool_invocation o s tool m r = record s {
  store =
      log_entry s.store o.last_entry o.last_time "mcp" "tool_invocation"
        (some (invocation tool m r));
}

-- The switch of callTool; `none` is its default.
unfoldable pub dispatch :
    Calls → Outside → Server → Text → Members → Option (Server × (ToolError ⊎ ToolResult))
dispatch c o s tool m =
    if text_eq tool (codes "get_scope_status")
    then some (s, inr (scope_status (scope_summary s.prx)))
    else if text_eq tool (codes "check_url")
    then some (s, handle_check_url c o s m)
    else if text_eq tool (codes "get_audit_log")
    then some (s, inr (handle_get_audit_log c o s m))
    else if text_eq tool (codes "get_recent_decisions")
    then some (s, inr (entries (recent_entries s.store (pos 50))))
    else if text_eq tool (codes "get_ratelimit_status")
    then some (s, inr (rates (rate_limit_status s.prx)))
    else if text_eq tool (codes "activate_kill_switch")
    then some (handle_activate_kill_switch c o s m)
    else if text_eq tool (codes "deactivate_kill_switch")
    then some (handle_deactivate_kill_switch c o s m)
    else if text_eq tool (codes "is_kill_switch_active")
    then some (s, inr (switch_active (is_active s.prx.switch)))
    else if text_eq tool (codes "run_safe_check")
    then some (s, handle_run_safe_check c o s m)
    else if is_specialist tool
    then some (s, (handle_run_specialist c o s m tool).result)
    else if text_eq tool (codes "validate_hosts")
    then some (s, handle_validate_hosts c o s m)
    else if text_eq tool (codes "health")
    then some (s, inr (health o.uptime s.prx.config.program_id (is_active s.prx.switch)))
    else if text_eq tool (codes "scope_shape")
    then some (s, inr (scope_shape s))
    else if text_eq tool (codes "recall_engagement")
    then some (s, handle_recall_engagement c o s m)
    else if text_eq tool (codes "record_assets")
    then some (handle_record_assets c o s m)
    else if text_eq tool (codes "record_finding")
    then some (handle_record_finding c o s m)
    else if text_eq tool (codes "mark_tested")
    then some (handle_mark_tested c o s m)
    else none

abbrev pub logged :
    Outside
    → Server
    → Text
    → Members
    → Option (Server × (ToolError ⊎ ToolResult))
    → Server × (ToolError ⊎ ToolResult)
logged o s tool m none = (s, inl (unknown_tool tool))
logged o s tool m (some (s', r)) = (log_tool_invocation o s' tool m r, r)

abbrev pub validated :
    Calls
    → Outside
    → Server
    → Text
    → Members
    → Option ParamError
    → Server × (ToolError ⊎ ToolResult)
validated c o s tool m (some e) = (s, inl (invalid_parameters tool e))
validated c o s tool m none = logged o s tool m (dispatch c o s tool m)

abbrev pub with_tool :
    Calls → Outside → Server → Text → Members → Option ToolDef → Server × (ToolError ⊎ ToolResult)
with_tool c o s tool m none = (s, inl (unknown_tool tool))
with_tool c o s tool m (some t) = validated c o s tool m (validate_params t m)

-- callTool
unfoldable pub call_tool :
    Calls → Outside → Server → Text → Members → Server × (ToolError ⊎ ToolResult)
call_tool c o s tool m =
    with_tool c o s tool m (find_first (λ t. text_eq t.tool_name tool) (list_tools s))
