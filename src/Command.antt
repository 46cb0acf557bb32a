-- ===== src/Command.antt =====
-- cmd/pentest/main.go: the parts of the commands that decide what is scanned and with which
-- configuration the proxy starts. `log.Fatalf` is `none`; flags, printing, processes and listeners
-- have no counterpart.
pub mod Targets
pub mod Scans
pub mod Start
use scopepilot.Prelude.{
  ℕ, zero, suc, String, Bool, true, false, ◌&&◌, not, List, [], ◌∷◌, ◌++◌, map, Option, none, some,
  inl, inr, ◌⊎◌, ◌==◌, if◌then◌else◌, length, find_first, same, string_eq,
}
use scopepilot.Number.{ℤ, pos, negsuc}
use scopepilot.Text.{Text, codes, text_eq}
use scopepilot.Scope.{ScopeRule, Decision, Engine, new_engine, is_host_in_scope, is_url_in_scope}
use scopepilot.KillSwitch.{Switch, activate}
use scopepilot.Config.{Config, ProgramConfig, KillSwitchConfig, Parsers, validate}
use scopepilot.Proxy.{Proxy, new_proxy}
use scopepilot.Proxy

-- findProgram
unfoldable pub find_program : Config → String → Option ProgramConfig
find_program c id = find_first (λ p. same p.id id) c.programs

-- extractTargets
abbrev targets_of : List ScopeRule → List Text
targets_of [] = []
targets_of (r ∷ rules) =
    if same r.type "exact_host" then r.value ∷ targets_of rules else targets_of rules

unfoldable pub extract_targets : ProgramConfig → List Text
extract_targets p = targets_of p.scope.include

-- targetsToURLs
abbrev pub target_url : Text → Text
target_url t = codes "https://" ++ t ++ codes "/"

unfoldable pub targets_to_urls : List Text → List Text
targets_to_urls targets = map target_url targets

-- The errors of filterAllowedTargets, with the arguments of their formats.
pub data FilterError : Type 0 where
  empty_response : FilterError
  count_mismatch : ℕ → ℕ → FilterError
  url_mismatch : ℕ → Text → Text → FilterError

abbrev pub allow_target : Bool → Text → FilterError ⊎ List Text → FilterError ⊎ List Text
allow_target allowed t (inl e) = inl e
allow_target allowed t (inr ts) = inr (if allowed then t ∷ ts else ts)

-- The loop over the results, each its URL and whether it is allowed, from index `i` on.
unfoldable pub filter_from : ℕ → List Text → List (Text × Bool) → FilterError ⊎ List Text
filter_from i [] results = inr []
filter_from i (t ∷ ts) [] = inr []
filter_from i (t ∷ ts) ((url, allowed) ∷ results) =
    let rest = filter_from (suc i) ts results in
    if not (text_eq url (target_url t))
    then inl (url_mismatch i url (target_url t))
    else allow_target allowed t rest

-- filterAllowedTargets; a nil response is `none`.
unfoldable pub filter_allowed_targets :
    List Text → Option (List (Text × Bool)) → FilterError ⊎ List Text
unfolding filter_from targets_to_urls
filter_allowed_targets targets none = inl empty_response
filter_allowed_targets targets (some results) =
    if not (length results == length (targets_to_urls targets))
    then inl (count_mismatch (length results) (length (targets_to_urls targets)))
    else filter_from 0 targets results

pub data PolicyError : Type 0 where
  program_needs_vpn : String → PolicyError
  vpn_is_enabled : PolicyError

-- validateScannerNetworkPolicy
unfoldable pub validate_scanner_network_policy : Config → ProgramConfig → Option PolicyError
validate_scanner_network_policy c p =
    if same p.network_policy.vpn "required"
    then some (program_needs_vpn p.id)
    else if c.global.vpn.enabled
    then some vpn_is_enabled
    else none

-- How runDiscover and runScan end. `listed` is the dry run; `scans` has the targets that RunBBOT or
-- RunNuclei is called with.
pub data ScanEnd : Type 0 where
  no_program no_targets check_failed all_blocked tool_missing : ScanEnd
  response_invalid : FilterError → ScanEnd
  policy_refused : PolicyError → ScanEnd
  listed scans : List Text → ScanEnd

-- From the allowed targets on: `installed` is whether exec.LookPath finds the tool.
abbrev pub scan_allowed : Bool → Bool → Option PolicyError → List Text → ScanEnd
scan_allowed dry installed policy [] = all_blocked
scan_allowed true installed policy (t ∷ ts) = listed (t ∷ ts)
scan_allowed false installed (some e) (t ∷ ts) = policy_refused e
scan_allowed false true none (t ∷ ts) = scans (t ∷ ts)
scan_allowed false false none (t ∷ ts) = tool_missing

abbrev pub scan_filtered : Bool → Bool → Option PolicyError → FilterError ⊎ List Text → ScanEnd
scan_filtered dry installed policy (inl e) = response_invalid e
scan_filtered dry installed policy (inr allowed) = scan_allowed dry installed policy allowed

-- What RunSafeCheck of the client makes of the URLs: `none` is its error, `some none` a nil response.
abbrev pub SafeCheck : Type 0
SafeCheck = List Text → Option (Option (List (Text × Bool)))

abbrev pub scan_checked :
    Bool → Bool → Option PolicyError → List Text → Option (Option (List (Text × Bool))) → ScanEnd
scan_checked dry installed policy targets none = check_failed
scan_checked dry installed policy targets (some response) =
    scan_filtered dry installed policy (filter_allowed_targets targets response)

abbrev pub scan_program : Config → Bool → Bool → SafeCheck → Option ProgramConfig → ScanEnd
scan_program c dry installed safe none = no_program
scan_program c dry installed safe (some p) =
    let targets = extract_targets p in
    if length targets == 0
    then no_targets
    else scan_checked dry installed (validate_scanner_network_policy c p) targets
        (safe (targets_to_urls targets))

-- runDiscover, up to RunBBOT
unfoldable pub run_discover : Config → String → Bool → Bool → SafeCheck → ScanEnd
run_discover c id dry installed safe = scan_program c dry installed safe (find_program c id)

-- runScan, up to RunNuclei
unfoldable pub run_scan : Config → String → Bool → Bool → SafeCheck → ScanEnd
run_scan c id dry installed safe = scan_program c dry installed safe (find_program c id)

-- The zero value of a program, which runServer takes where the configuration has none.
abbrev pub zero_program : ProgramConfig
zero_program = record {
  id = "";
  name = "";
  authorization_ref = "";
  active_testing_enabled = false;
  kill_switch = record { enabled = false; activated_by = ""; activated_at = "" };
  network_policy = record { vpn = ""; stable_source_ip_required = false };
  limits = record {
    requests_per_second_per_host = pos 0;
    max_concurrency = pos 0;
    max_response_bytes = pos 0;
    allowed_schemes = [];
    allowed_ports = [];
    max_requests_per_job = pos 0;
    max_crawl_depth = pos 0;
  };
  scope = record { include = []; exclude = [] };
  status = "";
}

abbrev pub first_program : List ProgramConfig → ProgramConfig
first_program [] = zero_program
first_program (p ∷ ps) = p

-- The list of a program, or the default where it is empty.
abbrev pub or_global {ℓ} : {A : Type ℓ} → List A → List A → List A
or_global [] d = d
or_global (x ∷ xs) d = x ∷ xs

-- Rates and ports are natural numbers in the model of the proxy: `none` where one is negative.
abbrev pub natural : ℤ → Option ℕ
natural (pos n) = some n
natural (negsuc n) = none

abbrev pub add_natural : Option ℕ → Option (List ℕ) → Option (List ℕ)
add_natural none o = none
add_natural (some n) none = none
add_natural (some n) (some ns) = some (n ∷ ns)

abbrev pub naturals : List ℤ → Option (List ℕ)
naturals [] = some []
naturals (x ∷ xs) = add_natural (natural x) (naturals xs)

abbrev pub config_with : Config → ProgramConfig → Option ℕ → Option (List ℕ) → Option Proxy.Config
config_with c p (some rate) (some ports) = some record {
  program_id = p.id;
  scope_cfg = p.scope;
  requests_per_second_per_host = rate;
  allowed_schemes = or_global p.limits.allowed_schemes c.global.defaults.allowed_schemes;
  allowed_ports = ports;
  dry_run = c.global.defaults.dry_run;
  active_testing_enabled = p.active_testing_enabled;
}
config_with c p (some rate) none = none
config_with c p none ports = none

-- The configuration of the proxy that runServer makes, where the ports can be bound. With a VPN it
-- stops before.
unfoldable pub proxy_config : Config → Option Proxy.Config
proxy_config c =
    let p = first_program c.programs in
    if c.global.vpn.enabled
    then none
    else config_with c p (natural p.limits.requests_per_second_per_host)
        (naturals (or_global p.limits.allowed_ports c.global.defaults.allowed_ports))

-- The activation from one section of the configuration.
abbrev pub activate_from : KillSwitchConfig → String → ℕ → Switch → Switch
activate_from k default now s =
    if k.enabled
    then activate s (if same k.activated_by "" then default else k.activated_by) now
    else s

-- The proxy of runServer before it listens, at the times of the two activations.
unfoldable pub start_proxy : Config → Proxy.Config → ℕ → ℕ → Proxy
start_proxy c cfg now later =
    let prx = new_proxy cfg in
    let global = activate_from c.global.kill_switch "global-config" now prx.switch in
    let p = first_program c.programs in
    record prx { switch = activate_from p.kill_switch "program-config" later global }
