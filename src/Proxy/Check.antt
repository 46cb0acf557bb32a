-- ===== src/Proxy/Check.antt =====
-- CheckURL, RunSafeCheck, ScopeSummary and RateLimitStatus of internal/proxy/proxy.go: the checks
-- without a request.
pub mod Verdict
use scopepilot.Prelude.{
  ℕ, String, Bool, true, false, not, List, [], Option, none, some, map, length, ◌==◌, if◌then◌else◌,
}
use scopepilot.Text.{Text, text_eq}
use scopepilot.Normalize.{host, Url, hostname, port_of}
use scopepilot.Scope.{Reason, Decision, is_url_in_scope}
use scopepilot.Scope.Ip.{is_blocked_ip}
use scopepilot.RateLimit.{HostSnapshot, snapshot}
use scopepilot.Proxy.{
  Proxy, Libraries, Io, check_kill_switch, validate_scheme, validate_port, check_path_exclusion,
  validate_ips,
}

-- The reasons of CheckURL, with the arguments of their formats.
pub data CheckReason : Type 0 where
  invalid_url host_absent switch_active testing_off passed_all : CheckReason
  scheme_refused port_refused path_refused lookup_failed blocked_literal : Text → CheckReason
  resolves_to_blocked : Text → Text → CheckReason
  scope_refused : Reason → CheckReason

pub record CheckResult : Type 0 where
  pub url : Text
  pub allowed : Bool
  pub scope_result : Option Decision
  pub blocked_ip : Bool
  pub denied_scheme : Bool
  pub rate_limited : Bool
  pub reason : CheckReason

-- A denial without any of the flags.
abbrev refuse : Text → CheckReason → CheckResult
refuse raw why = record {
  url = raw;
  allowed = false;
  scope_result = none;
  blocked_ip = false;
  denied_scheme = false;
  rate_limited = false;
  reason = why;
}

abbrev refuse_ip : Text → CheckReason → CheckResult
refuse_ip raw why = record (refuse raw why) { blocked_ip = true }

abbrev refuse_scope : Text → Decision → CheckReason → CheckResult
refuse_scope raw d why = record (refuse raw why) { scope_result = some d }

-- `net.ParseIP(host) != nil`
abbrev pub is_literal : Libraries → Text → Bool
is_literal w h = not (length (w.parse_ip h) == 0)

-- Steps 7 to 10 of CheckURL.
unfoldable pub check_scope : Libraries → Proxy → Text → Url → Text → CheckResult
check_scope w p raw u h =
    let dec =
      is_url_in_scope w.to_ascii w.parse p.engine raw p.config.allowed_schemes
        p.config.allowed_ports in
    if not dec.in_scope
    then refuse_scope raw dec (scope_refused dec.reason)
    else if check_path_exclusion w p h u.path
    then refuse_scope raw dec (path_refused u.path)
    else record (refuse_scope raw dec passed_all) { allowed = true }

abbrev pub check_ips : Libraries → Proxy → Text → Url → Text → Option Text → CheckResult
check_ips w p raw u h (some bad) = refuse_ip raw (resolves_to_blocked h bad)
check_ips w p raw u h none = check_scope w p raw u h

-- Step 6 of CheckURL and the rest, for a host that is no address.
abbrev pub check_dns : Libraries → Proxy → Text → Url → Text → Option (List Text) → CheckResult
check_dns w p raw u h none = refuse raw (lookup_failed h)
check_dns w p raw u h (some ips) = check_ips w p raw u h (validate_ips w ips)

-- Steps 5 and 6 of CheckURL, and the rest.
unfoldable pub check_address : Libraries → Proxy → Io → Text → Url → Text → CheckResult
check_address w p io raw u h =
    if is_literal w h
    then if is_blocked_ip (w.parse_ip h)
      then refuse_ip raw (blocked_literal h)
      else check_scope w p raw u h
    else check_dns w p raw u h (io.dns h)

-- CheckURL from the parsed URL on.
unfoldable pub check_parsed : Libraries → Proxy → Io → Text → Url → CheckResult
check_parsed w p io raw u =
    if text_eq (hostname u) []
    then refuse raw host_absent
    else if check_kill_switch p
    then refuse raw switch_active
    else if not p.config.active_testing_enabled
    then refuse raw testing_off
    else if not (validate_scheme p u.scheme)
    then record (refuse raw (scheme_refused u.scheme)) { denied_scheme = true }
    else if not (validate_port p (port_of u) u.scheme).1
    then refuse raw (port_refused (port_of u))
    else check_address w p io raw u (host w.to_ascii (hostname u))

abbrev pub check_or_refuse : Libraries → Proxy → Io → Text → Option Url → CheckResult
check_or_refuse w p io raw none = refuse raw invalid_url
check_or_refuse w p io raw (some u) = check_parsed w p io raw u

-- CheckURL. Its error is always nil.
unfoldable pub check_url : Libraries → Proxy → Io → Text → CheckResult
check_url w p io raw = check_or_refuse w p io raw (w.parse raw)

-- RunSafeCheck, with the surroundings of each check.
unfoldable pub run_safe_check : Libraries → Proxy → List (Io × Text) → List CheckResult
run_safe_check w p urls = map (λ (e : Io × Text). check_url w p e.0 e.1) urls

pub record ScopeSummary : Type 0 where
  pub program_id : String
  pub include_count : ℕ
  pub exclude_count : ℕ
  pub allowed_schemes : List Text
  pub allowed_ports : List ℕ

-- ScopeSummary
unfoldable pub scope_summary : Proxy → ScopeSummary
scope_summary p = record {
  program_id = p.config.program_id;
  include_count = length p.config.scope_cfg.include;
  exclude_count = length p.config.scope_cfg.exclude;
  allowed_schemes = p.config.allowed_schemes;
  allowed_ports = p.config.allowed_ports;
}

-- RateLimitStatus. Its HostState has the fields of a HostSnapshot.
unfoldable pub rate_limit_status : Proxy → List HostSnapshot
rate_limit_status p = snapshot p.limiter
