-- ===== src/Examples/Checks.antt =====
-- URLs that are checked, redirects and connections, for internal/proxy/proxy.go.
use scopepilot.Prelude.{
  ◌-◌, ◌≤◌, ◌≡◌, refl, ◌≢◌, ◌↔◌, inl, inr, true, false, List, [], ◌∷◌, none, some, length, All,
  lookup, insert, Bool-cases, if◌then◌else◌,
}
use scopepilot.Text.{Text, codes, text_eq, text_eq_iff, text_keys}
use scopepilot.Normalize.{Url, hostname, port_of, host}
use scopepilot.Scope.Ip.{is_blocked_ip}
use scopepilot.RateLimit.{host_allow}
use scopepilot.Proxy.{Libraries, Io, Proxy, new_proxy, forwarded}
use scopepilot.Proxy.Serve.{Request, parsed, parse_request, serve_http}
use scopepilot.Proxy.Check.{check_url, is_literal}
use scopepilot.Proxy.Check.Verdict.{check_url-forwards}
use scopepilot.Proxy.Redirect.{
  check_redirect, validate_redirect_target, dial_context, dial_system, dial_address,
}
use scopepilot.Proxy.Redirect.Follow.{
  SafeTarget, followed, validate_redirect_target_iff, followed-SafeTarget,
}
use scopepilot.Proxy.Pins.Stored.{IsSound}
use scopepilot.Proxy.Pins.Runs.{
  Event, events, request, redirect, new_proxy-IsSound, events-IsSound, events-dial,
  events-dial_system,
}
use scopepilot.Proxy.Headers.{
  Header, strip_hop_by_hop, strip_hop_by_hop-lookup, listed, among, hop_by_hop, or_nil,
}
use scopepilot.Examples.Proxy.{config, url, libraries, io, request as served}

abbrev address : Text
address = codes "93.184.216.34"

-- One address is known, and every name resolves to it.
abbrev named : Libraries
named = record libraries {
  parse_ip = λ t. if text_eq t address then 93 ∷ 184 ∷ 216 ∷ 34 ∷ [] else [];
}

abbrev resolving : Io
resolving = record io { dns = λ t. some (address ∷ []) }

abbrev raw : Text
raw = codes "https://b.c/x"

allowed : (check_url named (new_proxy config) resolving raw).allowed ≡ true
unfolding lookup insert serve_http new_proxy parse_request scopepilot.Proxy.store_resolved_ips
    scopepilot.Proxy.check_kill_switch scopepilot.KillSwitch.is_active
    scopepilot.KillSwitch.new_switch hostname scopepilot.Text.has_prefix
    scopepilot.Proxy.Serve.serve_url scopepilot.Proxy.validate_scheme scopepilot.Proxy.validate_port
    port_of scopepilot.Proxy.check_host_scope scopepilot.Scope.is_host_in_scope host
    scopepilot.Text.trim_suffix scopepilot.Text.to_lower scopepilot.Audit.append_entry
    scopepilot.Audit.log scopepilot.Audit.new_entry scopepilot.Audit.new_logger
    scopepilot.Number.atoi scopepilot.Number.scan_int scopepilot.Number.digits_of
    scopepilot.Number.decimal_from scopepilot.Proxy.Serve.admit
    scopepilot.Proxy.Serve.forward_request scopepilot.Proxy.check_path_exclusion
    scopepilot.Proxy.check_rate_limit scopepilot.Proxy.log_decision scopepilot.Proxy.port_number
    scopepilot.Proxy.validate_ips scopepilot.RateLimit.allow_n
    scopepilot.RateLimit.get_or_create_bucket host_allow scopepilot.RateLimit.host_allow_n
    scopepilot.RateLimit.new_per_host_limiter scopepilot.RateLimit.new_token_bucket is_blocked_ip
    scopepilot.Scope.match_host_rule scopepilot.Scope.match_wildcard scopepilot.Scope.new_engine
    scopepilot.Text.equal_fold scopepilot.Text.has_suffix scopepilot.Text.trim_space check_url
    scopepilot.Proxy.Check.check_parsed scopepilot.Proxy.Check.check_address
    scopepilot.Proxy.Check.check_scope scopepilot.Scope.is_url_in_scope
    scopepilot.Scope.check_url_parts scopepilot.Scope.url_port check_redirect
    validate_redirect_target dial_context events
allowed = refl

granted :
    (host_allow (new_proxy config).limiter (host named.to_ascii (hostname url)) 1 2 2).1 ≡ true
unfolding lookup insert serve_http new_proxy parse_request scopepilot.Proxy.store_resolved_ips
    scopepilot.Proxy.check_kill_switch scopepilot.KillSwitch.is_active
    scopepilot.KillSwitch.new_switch hostname scopepilot.Text.has_prefix
    scopepilot.Proxy.Serve.serve_url scopepilot.Proxy.validate_scheme scopepilot.Proxy.validate_port
    port_of scopepilot.Proxy.check_host_scope scopepilot.Scope.is_host_in_scope host
    scopepilot.Text.trim_suffix scopepilot.Text.to_lower scopepilot.Audit.append_entry
    scopepilot.Audit.log scopepilot.Audit.new_entry scopepilot.Audit.new_logger
    scopepilot.Number.atoi scopepilot.Number.scan_int scopepilot.Number.digits_of
    scopepilot.Number.decimal_from scopepilot.Proxy.Serve.admit
    scopepilot.Proxy.Serve.forward_request scopepilot.Proxy.check_path_exclusion
    scopepilot.Proxy.check_rate_limit scopepilot.Proxy.log_decision scopepilot.Proxy.port_number
    scopepilot.Proxy.validate_ips scopepilot.RateLimit.allow_n
    scopepilot.RateLimit.get_or_create_bucket host_allow scopepilot.RateLimit.host_allow_n
    scopepilot.RateLimit.new_per_host_limiter scopepilot.RateLimit.new_token_bucket is_blocked_ip
    scopepilot.Scope.match_host_rule scopepilot.Scope.match_wildcard scopepilot.Scope.new_engine
    scopepilot.Text.equal_fold scopepilot.Text.has_suffix scopepilot.Text.trim_space check_url
    scopepilot.Proxy.Check.check_parsed scopepilot.Proxy.Check.check_address
    scopepilot.Proxy.Check.check_scope scopepilot.Scope.is_url_in_scope
    scopepilot.Scope.check_url_parts scopepilot.Scope.url_port check_redirect
    validate_redirect_target dial_context events
granted = refl

stable :
    host named.to_ascii (host named.to_ascii (hostname url)) ≡ host named.to_ascii (hostname url)
unfolding lookup insert serve_http new_proxy parse_request scopepilot.Proxy.store_resolved_ips
    scopepilot.Proxy.check_kill_switch scopepilot.KillSwitch.is_active
    scopepilot.KillSwitch.new_switch hostname scopepilot.Text.has_prefix
    scopepilot.Proxy.Serve.serve_url scopepilot.Proxy.validate_scheme scopepilot.Proxy.validate_port
    port_of scopepilot.Proxy.check_host_scope scopepilot.Scope.is_host_in_scope host
    scopepilot.Text.trim_suffix scopepilot.Text.to_lower scopepilot.Audit.append_entry
    scopepilot.Audit.log scopepilot.Audit.new_entry scopepilot.Audit.new_logger
    scopepilot.Number.atoi scopepilot.Number.scan_int scopepilot.Number.digits_of
    scopepilot.Number.decimal_from scopepilot.Proxy.Serve.admit
    scopepilot.Proxy.Serve.forward_request scopepilot.Proxy.check_path_exclusion
    scopepilot.Proxy.check_rate_limit scopepilot.Proxy.log_decision scopepilot.Proxy.port_number
    scopepilot.Proxy.validate_ips scopepilot.RateLimit.allow_n
    scopepilot.RateLimit.get_or_create_bucket host_allow scopepilot.RateLimit.host_allow_n
    scopepilot.RateLimit.new_per_host_limiter scopepilot.RateLimit.new_token_bucket is_blocked_ip
    scopepilot.Scope.match_host_rule scopepilot.Scope.match_wildcard scopepilot.Scope.new_engine
    scopepilot.Text.equal_fold scopepilot.Text.has_suffix scopepilot.Text.trim_space check_url
    scopepilot.Proxy.Check.check_parsed scopepilot.Proxy.Check.check_address
    scopepilot.Proxy.Check.check_scope scopepilot.Scope.is_url_in_scope
    scopepilot.Scope.check_url_parts scopepilot.Scope.url_port check_redirect
    validate_redirect_target dial_context events
stable = refl

parses : parse_request named (served (codes "GET")) ≡ parsed url
unfolding lookup insert serve_http new_proxy parse_request scopepilot.Proxy.store_resolved_ips
    scopepilot.Proxy.check_kill_switch scopepilot.KillSwitch.is_active
    scopepilot.KillSwitch.new_switch hostname scopepilot.Text.has_prefix
    scopepilot.Proxy.Serve.serve_url scopepilot.Proxy.validate_scheme scopepilot.Proxy.validate_port
    port_of scopepilot.Proxy.check_host_scope scopepilot.Scope.is_host_in_scope host
    scopepilot.Text.trim_suffix scopepilot.Text.to_lower scopepilot.Audit.append_entry
    scopepilot.Audit.log scopepilot.Audit.new_entry scopepilot.Audit.new_logger
    scopepilot.Number.atoi scopepilot.Number.scan_int scopepilot.Number.digits_of
    scopepilot.Number.decimal_from scopepilot.Proxy.Serve.admit
    scopepilot.Proxy.Serve.forward_request scopepilot.Proxy.check_path_exclusion
    scopepilot.Proxy.check_rate_limit scopepilot.Proxy.log_decision scopepilot.Proxy.port_number
    scopepilot.Proxy.validate_ips scopepilot.RateLimit.allow_n
    scopepilot.RateLimit.get_or_create_bucket host_allow scopepilot.RateLimit.host_allow_n
    scopepilot.RateLimit.new_per_host_limiter scopepilot.RateLimit.new_token_bucket is_blocked_ip
    scopepilot.Scope.match_host_rule scopepilot.Scope.match_wildcard scopepilot.Scope.new_engine
    scopepilot.Text.equal_fold scopepilot.Text.has_suffix scopepilot.Text.trim_space check_url
    scopepilot.Proxy.Check.check_parsed scopepilot.Proxy.Check.check_address
    scopepilot.Proxy.Check.check_scope scopepilot.Scope.is_url_in_scope
    scopepilot.Scope.check_url_parts scopepilot.Scope.url_port check_redirect
    validate_redirect_target dial_context events
parses = refl

only_address : (h : Text) → is_literal named h ≡ true → resolving.dns h ≡ some (h ∷ [])
only_address h lit = elim (Bool-cases (text_eq h address)) [
  | inl b ↦ rw ((text_eq_iff h address).0 b) refl
  | inr b ↦ cc (rw b at lit)
]

check_url-forwards_example :
    (serve_http named (new_proxy config) (served (codes "GET")) resolving).1 ≡ forwarded url
unfolding new_proxy
check_url-forwards_example =
    check_url-forwards named (new_proxy config) resolving raw (served (codes "GET")) url allowed
      refl (λ e. cc) (λ e. cc) parses refl granted stable only_address

validate_redirect_target_iff_example :
    ((validate_redirect_target named (new_proxy config) resolving url).1 ≡ none)
    ↔ SafeTarget named (new_proxy config) resolving url
validate_redirect_target_iff_example =
    validate_redirect_target_iff named (new_proxy config) resolving url

abbrev redirects : List (Io × Url)
redirects = (resolving, url) ∷ (resolving, url) ∷ []

followed-SafeTarget_example :
    (length (followed named (new_proxy config) 1 redirects) ≤ 9 - 0)
    × All
        (λ e. SafeTarget named (new_proxy config) e.0 e.1)
        (followed named (new_proxy config) 1 redirects)
followed-SafeTarget_example = followed-SafeTarget named (new_proxy config) 0 redirects

abbrev happened : List Event
happened = request resolving (served (codes "GET")) ∷ redirect resolving url 1 ∷ []

events-IsSound_example : IsSound named (events named (new_proxy config) happened)
events-IsSound_example =
    events-IsSound named (new_proxy config) happened (new_proxy-IsSound named config)

dials :
    dial_context named (events named (new_proxy config) happened) (codes "b.c:443")
    ≡ dial_address address (codes "443")
unfolding lookup insert serve_http new_proxy parse_request scopepilot.Proxy.store_resolved_ips
    scopepilot.Proxy.check_kill_switch scopepilot.KillSwitch.is_active
    scopepilot.KillSwitch.new_switch hostname scopepilot.Text.has_prefix
    scopepilot.Proxy.Serve.serve_url scopepilot.Proxy.validate_scheme scopepilot.Proxy.validate_port
    port_of scopepilot.Proxy.check_host_scope scopepilot.Scope.is_host_in_scope host
    scopepilot.Text.trim_suffix scopepilot.Text.to_lower scopepilot.Audit.append_entry
    scopepilot.Audit.log scopepilot.Audit.new_entry scopepilot.Audit.new_logger
    scopepilot.Number.atoi scopepilot.Number.scan_int scopepilot.Number.digits_of
    scopepilot.Number.decimal_from scopepilot.Proxy.Serve.admit
    scopepilot.Proxy.Serve.forward_request scopepilot.Proxy.check_path_exclusion
    scopepilot.Proxy.check_rate_limit scopepilot.Proxy.log_decision scopepilot.Proxy.port_number
    scopepilot.Proxy.validate_ips scopepilot.RateLimit.allow_n
    scopepilot.RateLimit.get_or_create_bucket host_allow scopepilot.RateLimit.host_allow_n
    scopepilot.RateLimit.new_per_host_limiter scopepilot.RateLimit.new_token_bucket is_blocked_ip
    scopepilot.Scope.match_host_rule scopepilot.Scope.match_wildcard scopepilot.Scope.new_engine
    scopepilot.Text.equal_fold scopepilot.Text.has_suffix scopepilot.Text.trim_space check_url
    scopepilot.Proxy.Check.check_parsed scopepilot.Proxy.Check.check_address
    scopepilot.Proxy.Check.check_scope scopepilot.Scope.is_url_in_scope
    scopepilot.Scope.check_url_parts scopepilot.Scope.url_port check_redirect
    validate_redirect_target dial_context events
dials = refl

events-dial_example : is_blocked_ip (named.parse_ip address) ≡ false
events-dial_example =
    events-dial named (new_proxy config) happened (codes "b.c:443") address (codes "443")
      (new_proxy-IsSound named config) dials

-- Every name is "b.c" to the IDNA library, and every address is spelled "B.c".
abbrev capitals : Libraries
capitals = record named {
  to_ascii = λ t. some (codes "b.c");
  split_host_port = λ t. some (codes "B.c", codes "443");
}

no_normal_form : (x : Text) → codes "B.c" ≢ host capitals.to_ascii x
unfolding host
no_normal_form x h = cc

events-dial_system_example :
    dial_context capitals (events capitals (new_proxy config) happened) (codes "B.c:443")
    ≡ dial_system (codes "B.c:443")
events-dial_system_example =
    events-dial_system capitals (new_proxy config) happened (codes "B.c:443") (codes "B.c")
      (codes "443") (new_proxy-IsSound capitals config) refl no_normal_form

abbrev header : Header
header =
    (codes "Connection", codes "close, X-Trace" ∷ [])
    ∷ (codes "X-Trace", codes "1" ∷ [])
    ∷ (codes "Upgrade", codes "h2c" ∷ [])
    ∷ (codes "Accept", codes "*/*" ∷ [])
    ∷ []

strip_hop_by_hop-lookup_example : lookup (codes "X-Trace") (strip_hop_by_hop (λ n. n) header) ≡ (
    if (if listed (λ n. n) (codes "X-Trace") (or_nil (lookup (codes "Connection") header))
      then true
      else among (λ n. n) (codes "X-Trace") (hop_by_hop (λ n. n)))
    then none
    else lookup (codes "X-Trace") header)
strip_hop_by_hop-lookup_example = strip_hop_by_hop-lookup (λ n. n) (codes "X-Trace") header
