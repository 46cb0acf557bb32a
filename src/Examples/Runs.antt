-- ===== src/Examples/Runs.antt =====
-- Two requests that pass every layer of internal/proxy/proxy.go, run.
use scopepilot.Prelude.{◌≡◌, refl, lookup, insert}
use scopepilot.Examples.Proxy.{libraries, config, io, url, request}
use scopepilot.Text.{codes}
use scopepilot.Proxy.{new_proxy, store_resolved_ips, forwarded, tunnel}
use scopepilot.Proxy.Serve.{serve_http, parse_request}
use scopepilot.Proxy.{
  check_kill_switch, validate_scheme, validate_port, check_host_scope, check_path_exclusion,
  check_rate_limit, log_decision, port_number, validate_ips,
}
use scopepilot.KillSwitch.{is_active, new_switch}
use scopepilot.Normalize.{hostname, port_of, host}
use scopepilot.Text.{has_prefix, trim_suffix, to_lower, equal_fold, has_suffix, trim_space}
use scopepilot.Proxy.Serve.{serve_url, admit, forward_request}
use scopepilot.Scope.{is_host_in_scope, match_host_rule, match_wildcard, new_engine}
use scopepilot.Audit.{append_entry, log, new_entry, new_logger}
use scopepilot.Number.{atoi}
use scopepilot.Proxy.Connect.{connect_admit, connect_host, handle_connect}
use scopepilot.RateLimit.{
  allow_n, get_or_create_bucket, host_allow, host_allow_n, new_per_host_limiter, new_token_bucket,
}
use scopepilot.Scope.Ip.{is_blocked_ip}

forwards : (serve_http libraries (new_proxy config) (request (codes "GET")) io).1 ≡ forwarded url
unfolding lookup insert serve_http new_proxy parse_request store_resolved_ips check_kill_switch
    is_active new_switch hostname has_prefix serve_url validate_scheme validate_port port_of
    check_host_scope is_host_in_scope host trim_suffix to_lower append_entry log new_entry
    new_logger atoi connect_admit connect_host handle_connect admit forward_request
    check_path_exclusion check_rate_limit log_decision port_number validate_ips allow_n
    get_or_create_bucket host_allow host_allow_n new_per_host_limiter new_token_bucket is_blocked_ip
    match_host_rule match_wildcard new_engine equal_fold has_suffix trim_space
forwards = refl

tunnels :
    (serve_http libraries (new_proxy config) (request (codes "CONNECT")) io).1
    ≡ tunnel (codes "93.184.216.34") 443
unfolding lookup insert serve_http new_proxy parse_request store_resolved_ips check_kill_switch
    is_active new_switch hostname has_prefix serve_url validate_scheme validate_port port_of
    check_host_scope is_host_in_scope host trim_suffix to_lower append_entry log new_entry
    new_logger atoi connect_admit connect_host handle_connect admit forward_request
    check_path_exclusion check_rate_limit log_decision port_number validate_ips allow_n
    get_or_create_bucket host_allow host_allow_n new_per_host_limiter new_token_bucket is_blocked_ip
    match_host_rule match_wildcard new_engine equal_fold has_suffix trim_space
tunnels = refl
