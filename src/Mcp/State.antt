-- ===== src/Mcp/State.antt =====
-- The state of the server of internal/mcp/server.go, its errors and results, and the reading of
-- parameters in internal/mcp/tools.go. The kill switch is that of the proxy, as cmd/pentest/main.go
-- makes it; the store is the one in memory.
use scopepilot.Prelude.{
  ℕ, suc, String, Bool, false, ◌||◌, not, List, [], ◌∷◌, ◌++◌, Option, none, some, inl, inr, ◌⊎◌,
  ltb, ◌==◌, if◌then◌else◌, length, any, same, string_eq,
}
use scopepilot.Text.{Text, codes, text_eq}
use scopepilot.Scope.{ScopeRule, Reason}
use scopepilot.RateLimit.{HostSnapshot}
use scopepilot.KillSwitch.{KillSwitchStatus}
use scopepilot.Audit.{Entry}
use scopepilot.Store.{MemoryStore, Asset, Finding, TestedEndpoint}
use scopepilot.Proxy.{Proxy, Libraries, Io}
use scopepilot.Proxy.Check.{CheckResult, ScopeSummary}
use scopepilot.Mcp.Values.{
  Json, json_null, json_bool, json_number, json_string, json_array, json_object, Elements,
  no_elements, element, Members, member_of,
}
use scopepilot.Mcp.Schema.{ToolDef, ParamError, common_tools, specialist_tools}

-- The errors of the tools, with the arguments of their formats.
pub data ToolError : Type 0 where
  unknown_tool : Text → ToolError
  invalid_parameters : Text → ParamError → ToolError
  parameter_empty : String → ToolError  -- `must be a non-empty string`
  parameter_missing parameter_no_array list_empty : String → ToolError
  parameter_unknown : String → Text → ToolError  -- `must be one of`
  list_too_long : String → ℕ → ToolError
  element_no_string element_empty : String → ℕ → ToolError
  url_invalid : ℕ → Text → ToolError
  deactivation_unset token_invalid switch_on : ToolError
  targets_no_array targets_no_strings targets_empty targets_too_many : ToolError
  unregistered : Text → ToolError
  approval_unset approval_denied : ToolError
  run_failed : Text → ToolError

-- The values that the server puts into an audit entry.
pub data Datum : Type 0 where
  text : Text → Datum
  name : String → Datum
  params : Members → Datum
  error : ToolError → Datum

pub record HostScopeResult : Type 0 where
  pub host_name : Text  -- `Host`
  pub in_scope : Bool
  pub reason : Reason

-- The results of the tools.
pub data ToolResult : Type 0 where
  scope_status : ScopeSummary → ToolResult
  checked : CheckResult → ToolResult
  entries : List (Entry Datum) → ToolResult
  rates : List HostSnapshot → ToolResult
  switch_status : KillSwitchStatus → ToolResult
  switch_active : Bool → ToolResult
  safe_checks : List CheckResult → ToolResult
  hosts_checked : List HostScopeResult → ToolResult
  health : String → String → Bool → ToolResult
  shape : Bool → Bool → ℕ → ℕ → String → ToolResult
  engagement : Text → List Asset → List Finding → List TestedEndpoint → ToolResult
  assets_recorded : Text → ℕ → ToolResult
  finding_recorded : Text → ToolResult
  tested_recorded : ToolResult
  recon_skipped : List Text → ToolResult
  specialist_result : Json → ToolResult

-- specialist.Config, less the paths and addresses that the server passes on.
pub record SpecialistConfig : Type 0 where
  pub dry_run : Bool
  pub allow_exploitation : Bool

pub record Server : Type 0 where
  pub prx : Proxy
  pub store : MemoryStore Datum
  pub program_id : String
  pub api_key : Text
  pub deactivation_token : Text
  pub specialist_config : SpecialistConfig
  pub specialists : List Text  -- the names that are registered
  pub gate_approval_token : Text

-- What the server calls: the libraries of the proxy, Time.Format, a text as a text of the audit log,
-- and Run of a specialist, with the text of its error or its result.
pub record Calls : Type 0 where
  pub libraries : Libraries
  pub format : ℕ → String
  pub spelled : Text → String
  pub run : Text → List Text → SpecialistConfig → Text ⊎ Json

-- What the surroundings do during one call: at each URL that is checked, the clock, a new identifier,
-- the time since the start, and the identifiers and times of the audit entries of the tool and of the
-- invocation.
pub record Outside : Type 0 where
  pub checks : ℕ → Io
  pub now : ℕ
  pub new_id : Text
  pub uptime : String
  pub tool_entry : String
  pub tool_time : String
  pub last_entry : String
  pub last_time : String

-- params[key].(string), or ""
abbrev pub as_string : Option Json → Text
as_string none = []
as_string (some (json_string s)) = s
as_string (some json_null) = []
as_string (some (json_bool b)) = []
as_string (some (json_number n)) = []
as_string (some (json_array vs)) = []
as_string (some (json_object m)) = []

unfoldable pub string_param : String → Members → Text
string_param key m = as_string (member_of (codes key) m)

-- params[key] as an array
abbrev pub as_array : String → Option Json → ToolError ⊎ Elements
as_array key none = inl (parameter_missing key)
as_array key (some (json_array vs)) = inr vs
as_array key (some json_null) = inl (parameter_no_array key)
as_array key (some (json_bool b)) = inl (parameter_no_array key)
as_array key (some (json_number n)) = inl (parameter_no_array key)
as_array key (some (json_string s)) = inl (parameter_no_array key)
as_array key (some (json_object m)) = inl (parameter_no_array key)

abbrev pub bind_error {ℓ κ} :
    {A : Type ℓ} {B : Type κ} → ToolError ⊎ A → (A → ToolError ⊎ B) → ToolError ⊎ B
bind_error (inl e) f = inl e
bind_error (inr a) f = f a

abbrev pub cons_found : Text → ToolError ⊎ List Text → ToolError ⊎ List Text
cons_found t (inl e) = inl e
cons_found t (inr ts) = inr (t ∷ ts)

abbrev count : Elements → ℕ
count no_elements = 0
count (element v vs) = suc (count vs)

-- The loops over an array of non-empty texts.
unfoldable pub texts_of : String → ℕ → Elements → ToolError ⊎ List Text
texts_of key i no_elements = inr []
texts_of key i (element (json_string t) vs) =
    let rest = texts_of key (suc i) vs in
    if text_eq t [] then inl (element_empty key i) else cons_found t rest
texts_of key i (element json_null vs) = inl (element_no_string key i)
texts_of key i (element (json_bool b) vs) = inl (element_no_string key i)
texts_of key i (element (json_number n) vs) = inl (element_no_string key i)
texts_of key i (element (json_array ws) vs) = inl (element_no_string key i)
texts_of key i (element (json_object m) vs) = inl (element_no_string key i)

-- An array of 1 to `most` non-empty texts.
unfoldable pub list_param : String → ℕ → Members → ToolError ⊎ List Text
list_param key most m = bind_error (as_array key (member_of (codes key) m)) (λ vs.
    if count vs == 0
    then inl (list_empty key)
    else if ltb most (count vs)
    then inl (list_too_long key most)
    else texts_of key 0 vs)

-- specialistTargets; its argument comes from JSON, so that it is no []string.
abbrev target_list : Elements → ToolError ⊎ List Text
target_list no_elements = inr []
target_list (element (json_string t) vs) =
    let rest = target_list vs in if text_eq t [] then inl targets_no_strings else cons_found t rest
target_list (element json_null vs) = inl targets_no_strings
target_list (element (json_bool b) vs) = inl targets_no_strings
target_list (element (json_number n) vs) = inl targets_no_strings
target_list (element (json_array ws) vs) = inl targets_no_strings
target_list (element (json_object m) vs) = inl targets_no_strings

abbrev pub target_array : Option Json → ToolError ⊎ List Text
target_array (some (json_array vs)) = target_list vs
target_array none = inl targets_no_array
target_array (some json_null) = inl targets_no_array
target_array (some (json_bool b)) = inl targets_no_array
target_array (some (json_number n)) = inl targets_no_array
target_array (some (json_string s)) = inl targets_no_array
target_array (some (json_object m)) = inl targets_no_array

unfoldable pub specialist_targets : Option Json → ToolError ⊎ List Text
specialist_targets raw = bind_error (target_array raw) (λ targets.
    if length targets == 0
    then inl targets_empty
    else if ltb 100 (length targets)
    then inl targets_too_many
    else inr targets)

-- exactHostOnlyScope
unfoldable pub exact_host_only_scope : List ScopeRule → Bool
exact_host_only_scope [] = false
exact_host_only_scope (r ∷ rules) = not (any (λ x. not (same x.type "exact_host")) (r ∷ rules))

-- secureEqual
unfoldable pub secure_equal : Text → Text → Bool
secure_equal actual expected =
    if text_eq actual [] || text_eq expected [] then false else text_eq actual expected

-- ListTools
unfoldable pub list_tools : Server → List ToolDef
list_tools s =
    if ltb 0 (length s.specialists) then common_tools ++ specialist_tools else common_tools

-- isKnownTool
unfoldable pub is_known_tool : Server → Text → Bool
is_known_tool s tool = any (λ t. text_eq t.tool_name tool) (list_tools s)
