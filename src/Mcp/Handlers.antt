-- ===== src/Mcp/Handlers.antt =====
-- The handlers of the tools in internal/mcp/tools.go.
use scopepilot.Prelude.{
  ℕ, suc, String, Bool, true, false, ◌&&◌, not, List, [], ◌∷◌, ◌++◌, map, Option, none, some, inl,
  inr, ◌⊎◌, ltb, ◌==◌, if◌then◌else◌, length, any, find_first, keep, same, string_eq,
}
use scopepilot.Number.{ℤ, pos}
use scopepilot.Text.{Text, codes, text_eq, contains}
use scopepilot.Normalize.{Url}
use scopepilot.Scope.{ScopeRule, is_host_in_scope}
use scopepilot.Scope.Addresses.{include_rules}
use scopepilot.KillSwitch.{activate, deactivate, is_active, status}
use scopepilot.Store.{
  Asset, log_entry, recent_entries, search_entries, get_assets, get_findings, get_tested,
  record_assets, record_finding, mark_tested,
}
use scopepilot.Proxy.{Io}
use scopepilot.Proxy.Check.{check_url, run_safe_check}
use scopepilot.Mcp.Values.{
  Json, json_null, json_bool, json_number, json_string, json_array, json_object, Elements,
  no_elements, element, Members, member_of,
}
use scopepilot.Mcp.State.{
  ToolError, Datum, ToolResult, SpecialistConfig, Server, Calls, Outside, approval_denied,
  approval_unset, assets_recorded, checked, deactivation_unset, element_no_string, engagement,
  entries, finding_recorded, hosts_checked, name, parameter_empty, parameter_unknown, recon_skipped,
  run_failed, safe_checks, shape, specialist_result, switch_on, switch_status, tested_recorded,
  text, token_invalid, unregistered, url_invalid, string_param, as_array, bind_error, cons_found,
  list_param, specialist_targets, exact_host_only_scope, secure_equal,
}

-- The rules of IncludeRules with one type.
abbrev count_type : String → List ScopeRule → ℕ
count_type t rules = length (keep (λ r. same r.type t) rules)

abbrev recommendation : ℕ → ℕ → Bool → String
recommendation exact wildcard has_cidr =
    if ltb 0 exact && (wildcard == 0) && not has_cidr
    then "Exact-host only scope: subdomain enumeration adds no value. Focus on endpoint discovery and nuclei against known hosts."
    else if ltb 0 wildcard
    then "Wildcard scope detected: subdomain enumeration is valuable. Run passive recon (BBOT) first, then nuclei against subdomains."
    else if has_cidr
    then "CIDR scope detected: port scanning and service discovery recommended."
    else ""

-- handleScopeShape
unfoldable pub scope_shape : Server → ToolResult
scope_shape s =
    let rules = include_rules s.prx.engine in
    let exact = count_type "exact_host" rules in
    let wildcard = count_type "wildcard_host" rules in
    let has_cidr = any (λ r. same r.type "cidr") rules in
    shape (ltb 0 wildcard) has_cidr exact wildcard (recommendation exact wildcard has_cidr)

abbrev limit_of : Option Json → ℤ
limit_of none = pos 50
limit_of (some (json_number n)) = n
limit_of (some json_null) = pos 50
limit_of (some (json_bool b)) = pos 50
limit_of (some (json_string t)) = pos 50
limit_of (some (json_array vs)) = pos 50
limit_of (some (json_object m)) = pos 50

-- The elements of `urls`, with the scheme that is added, each checked by url.Parse.
abbrev with_scheme : Text → Text
with_scheme raw = if contains raw (codes "://") then raw else codes "https://" ++ raw

abbrev parses : Option Url → Bool
parses none = false
parses (some u) = true

abbrev urls_of : Calls → ℕ → Elements → ToolError ⊎ List Text
urls_of c i no_elements = inr []
urls_of c i (element (json_string raw) vs) =
    let rest = urls_of c (suc i) vs in
    let u = with_scheme raw in
    if parses (c.libraries.parse u) then cons_found u rest else inl (url_invalid i u)
urls_of c i (element json_null vs) = inl (element_no_string "urls" i)
urls_of c i (element (json_bool b) vs) = inl (element_no_string "urls" i)
urls_of c i (element (json_number n) vs) = inl (element_no_string "urls" i)
urls_of c i (element (json_array ws) vs) = inl (element_no_string "urls" i)
urls_of c i (element (json_object m) vs) = inl (element_no_string "urls" i)

abbrev numbered : (ℕ → Io) → ℕ → List Text → List (Io × Text)
numbered ios i [] = []
numbered ios i (u ∷ us) = (ios i, u) ∷ numbered ios (suc i) us

-- A call of a specialist's Run, with its arguments.
pub record SpecialistCall : Type 0 where
  pub specialist : Text
  pub targets : List Text
  pub config : SpecialistConfig

-- What handleRunSpecialist returns, and the calls of Run that it makes.
pub record SpecialistRun : Type 0 where
  pub result : ToolError ⊎ ToolResult
  pub runs : List SpecialistCall

module _ (c : Calls) (o : Outside) (s : Server) (m : Members) where
  abbrev pub Answer : Type 0
  Answer = Server × (ToolError ⊎ ToolResult)

  -- handleCheckURL
  unfoldable pub handle_check_url : ToolError ⊎ ToolResult
  handle_check_url =
      let raw = string_param "url" m in
      if text_eq raw []
      then inl (parameter_empty "url")
      else inr (checked (check_url c.libraries s.prx (o.checks 0) raw))

  -- handleGetAuditLog
  unfoldable pub handle_get_audit_log : ToolResult
  handle_get_audit_log =
      let event_type = string_param "event_type" m in
      if not (text_eq event_type [])
      then entries (search_entries s.store (c.spelled event_type) "")
      else entries (recent_entries s.store (limit_of (member_of (codes "limit") m)))

  abbrev log_tool : Server → List (String × Datum) → Server
  log_tool s fields = record s {
    store = log_entry s.store o.tool_entry o.tool_time "mcp" "kill_switch" (some fields);
  }

  -- handleActivateKillSwitch
  unfoldable pub handle_activate_kill_switch : Answer
  handle_activate_kill_switch =
      let reason = string_param "reason" m in
      let by = if text_eq reason [] then "mcp:unknown" else c.spelled (codes "mcp:" ++ reason) in
      let s' =
        log_tool (record s { prx = record s.prx { switch = activate s.prx.switch by o.now } })
          (("action", name "activate") ∷ ("reason", text reason) ∷ ("by", name by) ∷ []) in
      (s', inr (switch_status (status c.format s'.prx.switch)))

  -- handleDeactivateKillSwitch
  unfoldable pub handle_deactivate_kill_switch : Answer
  handle_deactivate_kill_switch =
      let off =
        log_tool (record s { prx = record s.prx { switch = deactivate s.prx.switch } })
          (("action", name "deactivate") ∷ []) in
      if text_eq s.deactivation_token []
      then (
        log_tool s (
            ("action", name "deactivate_denied")
            ∷ (
              "reason",
              name
                  "kill switch deactivation not configured — operator must set SCOPEPILOT_DEACTIVATION_TOKEN",
            )
            ∷ []),
        inl deactivation_unset,
      )
      else if not (secure_equal (string_param "token" m) s.deactivation_token)
      then (
        log_tool s (
            ("action", name "deactivate_denied")
            ∷ ("reason", name "invalid deactivation token")
            ∷ []),
        inl token_invalid,
      )
      else (off, inr (switch_status (status c.format off.prx.switch)))

  -- handleRunSafeCheck
  unfoldable pub handle_run_safe_check : ToolError ⊎ ToolResult
  handle_run_safe_check = bind_error (as_array "urls" (member_of (codes "urls") m)) (λ vs.
      bind_error (urls_of c 0 vs)
        (λ us. inr (safe_checks (run_safe_check c.libraries s.prx (numbered o.checks 0 us)))))

  abbrev pub run_result : Text ⊎ Json → ToolError ⊎ ToolResult
  run_result (inl e) = inl (run_failed e)
  run_result (inr r) = inr (specialist_result r)

  abbrev refuse_run : ToolError → SpecialistRun
  refuse_run e = record { result = inl e; runs = [] }

  -- The end of handleRunSpecialist.
  unfoldable pub run_specialist : Text → List Text → SpecialistConfig → SpecialistRun
  run_specialist tool targets cfg =
      if text_eq tool (codes "run_recon_specialist")
        && exact_host_only_scope (include_rules s.prx.engine)
      then record { result = inr (recon_skipped targets); runs = [] }
      else record {
        result = run_result (c.run tool targets cfg);
        runs = record { specialist = tool; targets = targets; config = cfg } ∷ [];
      }

  abbrev pub run_targets : Text → ToolError ⊎ List Text → SpecialistRun
  run_targets tool (inl e) = refuse_run e
  run_targets tool (inr targets) =
      if not (any (λ n. text_eq n tool) s.specialists)
      then refuse_run (unregistered tool)
      else if not (text_eq tool (codes "run_gate_specialist"))
      then run_specialist tool targets s.specialist_config
      else if text_eq s.gate_approval_token []
      then refuse_run approval_unset
      else if not (secure_equal (string_param "approval_token" m) s.gate_approval_token)
      then refuse_run approval_denied
      else run_specialist tool targets (record s.specialist_config { allow_exploitation = true })

  -- handleRunSpecialist
  unfoldable pub handle_run_specialist : Text → SpecialistRun
  handle_run_specialist tool =
      if is_active s.prx.switch
      then refuse_run switch_on
      else run_targets tool (specialist_targets (member_of (codes "targets") m))

  -- handleValidateHosts
  unfoldable pub handle_validate_hosts : ToolError ⊎ ToolResult
  handle_validate_hosts = bind_error (list_param "hosts" 100 m) (λ hosts. inr (
      hosts_checked (
        map
          (λ h.
            let d = is_host_in_scope c.libraries.to_ascii s.prx.engine h in
            record { host_name = h; in_scope = d.in_scope; reason = d.reason })
          hosts)))

  -- handleRecallEngagement
  unfoldable pub handle_recall_engagement : ToolError ⊎ ToolResult
  handle_recall_engagement =
      let program = string_param "program" m in
      if text_eq program []
      then inl (parameter_empty "program")
      else inr (
          engagement program (get_assets s.store program) (get_findings s.store program)
            (get_tested s.store program))

  abbrev found_asset : Text → Text → Asset
  found_asset source h = record {
    host_name = h;
    source = source;
    first_seen = 0;
    last_seen = 0;
    in_scope = false;
    tech = [];
  }

  abbrev pub keep_assets : Text → ToolError ⊎ List Text → Answer
  keep_assets program (inl e) = (s, inl e)
  keep_assets program (inr hosts) = (
    record s {
      store =
          record_assets s.store o.now program (map (found_asset (string_param "source" m)) hosts);
    },
    inr (assets_recorded program (length hosts)),
  )

  -- handleRecordAssets
  unfoldable pub handle_record_assets : Answer
  handle_record_assets =
      let program = string_param "program" m in
      if text_eq program []
      then (s, inl (parameter_empty "program"))
      else keep_assets program (list_param "hosts" 1000 m)

  -- The first of the parameters that is empty.
  abbrev pub first_empty : List String → Option String
  first_empty keys = find_first (λ k. text_eq (string_param k m) []) keys

  abbrev pub text_in : Text → List String → Bool
  text_in t names = any (λ n. text_eq t (codes n)) names

  abbrev pub keep_finding : Option String → Answer
  keep_finding (some key) = (s, inl (parameter_empty key))
  keep_finding none =
      let severity = string_param "severity" m in
      let (store', stored) =
        record_finding s.store o.new_id o.now (string_param "program" m) record {
          id = [];
          title = string_param "title" m;
          severity = severity;
          host_name = string_param "host" m;
          status = codes "open";
          poc_ref = string_param "poc_ref" m;
          created = 0;
        } in
      if text_in severity ("critical" ∷ "high" ∷ "medium" ∷ "low" ∷ "info" ∷ [])
      then (record s { store = store' }, inr (finding_recorded stored.id))
      else (s, inl (parameter_unknown "severity" severity))

  -- handleRecordFinding
  unfoldable pub handle_record_finding : Answer
  handle_record_finding = keep_finding (first_empty ("program" ∷ "host" ∷ "title" ∷ []))

  abbrev pub keep_tested : Option String → Answer
  keep_tested (some key) = (s, inl (parameter_empty key))
  keep_tested none =
      let result = string_param "result" m in
      let store' = mark_tested s.store o.now (string_param "program" m) record {
        host_name = string_param "host" m;
        endpoint = string_param "endpoint" m;
        check = string_param "check" m;
        result = result;
        tested_at = 0;
      } in
      if text_in result ("not_vulnerable" ∷ "vulnerable" ∷ "error" ∷ "timeout" ∷ "skipped" ∷ [])
      then (record s { store = store' }, inr tested_recorded)
      else (s, inl (parameter_unknown "result" result))

  -- handleMarkTested
  unfoldable pub handle_mark_tested : Answer
  handle_mark_tested = keep_tested (first_empty ("program" ∷ "host" ∷ "endpoint" ∷ "check" ∷ []))
