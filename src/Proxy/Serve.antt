-- ===== src/Proxy/Serve.antt =====
-- ServeHTTP and ForwardRequest of internal/proxy/proxy.go.
use scopepilot.Prelude.{
  Bool, ◌&&◌, not, List, [], ◌∷◌, ◌++◌, Option, none, some, if◌then◌else◌, ◌==◌, length,
}
use scopepilot.Text.{Text, codes, text_eq, text_keys}
use scopepilot.Normalize.{host, Url, hostname, port_of}
use scopepilot.Proxy.{
  Proxy, Libraries, Io, Response, DenyReason, text, texts, name, kill_switch_active,
  testing_disabled, host_mismatch, url_unparsed, host_missing, scheme_denied, port_denied,
  path_excluded, dns_failed, rate_limited, out_of_scope, ip_blocked, health, would_allow, forwarded,
  deny, check_kill_switch, validate_scheme, validate_port, check_host_scope, check_path_exclusion,
  validate_ips, store_resolved_ips, check_rate_limit, log_decision,
}
use scopepilot.Proxy.Connect.{handle_connect}

-- What the handler reads of an `http.Request`; `url` is its parsed request line, and `request_uri`
-- is `r.URL.RequestURI()`.
pub record Request : Type 0 where
  pub method : Text
  pub host : Text
  pub url : Url
  pub tls : Bool
  pub request_uri : Text

pub data Parsed : Type 0 where
  parsed : Url → Parsed
  unusable : DenyReason → Parsed

abbrev scheme_of : Request → Text
scheme_of r =
    if not (text_eq r.url.scheme [])
    then r.url.scheme
    else if r.tls
    then codes "https"
    else codes "http"

abbrev with_host : Option Url → Parsed
with_host none = unusable url_unparsed
with_host (some u) = if text_eq (hostname u) [] then unusable host_missing else parsed u

-- ParseAndNormalizeURL. `r.URL.IsAbs()` is a scheme that is not empty. Its last check, of an error of
-- normalize.URL, cannot fire: that function fails only where `url.Parse` of the same text does.
unfoldable pub parse_request : Libraries → Request → Parsed
parse_request w r =
    if not (text_eq r.url.scheme [])
      && not (text_eq r.url.host_port [])
      && not (text_eq r.host [])
      && not (text_eq r.url.host_port r.host)
    then unusable host_mismatch
    else with_host (w.parse (scheme_of r ++ (codes "://" ++ (r.host ++ r.request_uri))))

abbrev pub keep_checked : Proxy → Io → Text → List Text → Option Text → Proxy
keep_checked p io h ips none = store_resolved_ips p io.victim h ips
keep_checked p io h ips (some bad) = p

abbrev pub keep_if_safe : Libraries → Proxy → Io → Text → Option (List Text) → Proxy
keep_if_safe w p io h none = p
keep_if_safe w p io h (some ips) = keep_checked p io h ips (validate_ips w ips)

-- ForwardRequest up to the client's call: a host that is no IP address is looked up once more, and
-- its addresses are kept where all are good.
unfoldable pub forward_request : Libraries → Proxy → Io → Url → Proxy × Response
forward_request w p io u =
    let h = host w.to_ascii (hostname u) in
    (
      (if not (text_eq h []) && (length (w.parse_ip h) == 0)
          then keep_if_safe w p io h (io.dns_again h)
          else p),
      forwarded u,
    )

-- From step 9 of ServeHTTP on, with the addresses stored.
unfoldable pub admit : Libraries → Proxy → Request → Io → Url → Text → List Text → Proxy × Response
unfolding forward_request
admit w p r io u h ips =
    if p.config.dry_run
    then (
      log_decision p io "dry_run" (
          ("host", text h)
          ∷ ("method", text r.method)
          ∷ ("program_id", name p.config.program_id)
          ∷ []),
      would_allow h,
    )
    else let (p', allowed) = check_rate_limit p io h in
      if allowed
      then forward_request w
          (log_decision p' io "allow" (
            ("host", text h)
            ∷ ("method", text r.method)
            ∷ ("program_id", name p.config.program_id)
            ∷ ("ips", texts ips)
            ∷ []))
          io u
      else deny p' io "deny" (rate_limited h)
          (("host", text h) ∷ ("program_id", name p.config.program_id) ∷ [])

-- The check of the addresses in step 8, and the rest.
abbrev pub after_ips :
    Libraries → Proxy → Request → Io → Url → Text → List Text → Option Text → Proxy × Response
after_ips w p r io u h ips (some bad) =
    deny p io "block" (ip_blocked h bad)
      (("host", text h) ∷ ("ips", texts ips) ∷ ("program_id", name p.config.program_id) ∷ [])
after_ips w p r io u h ips none = admit w (store_resolved_ips p io.victim h ips) r io u h ips

-- The lookup of step 8, and the rest.
abbrev pub after_dns :
    Libraries → Proxy → Request → Io → Url → Text → Option (List Text) → Proxy × Response
after_dns w p r io u h none =
    deny p io "deny" (dns_failed h)
      (("host", text h) ∷ ("program_id", name p.config.program_id) ∷ [])
after_dns w p r io u h (some ips) = after_ips w p r io u h ips (validate_ips w ips)

-- Steps 3 to 8 of ServeHTTP, on the URL that step 2 has parsed.
unfoldable pub serve_url : Libraries → Proxy → Request → Io → Url → Proxy × Response
serve_url w p r io u =
    let h = host w.to_ascii (hostname u) in
    let common = ("host", text h) ∷ ("program_id", name p.config.program_id) ∷ [] in
    let (in_scope, why) = check_host_scope w p h in
    if not p.config.active_testing_enabled
    then deny p io "deny" testing_disabled common
    else if not (validate_scheme p u.scheme)
    then deny p io "deny" (scheme_denied u.scheme) (("scheme", text u.scheme) ∷ common)
    else if not (validate_port p (port_of u) u.scheme).1
    then deny p io "deny" (port_denied (port_of u)) (("port", text (port_of u)) ∷ common)
    else if not in_scope
    then deny p io "deny" (out_of_scope why) common
    else if check_path_exclusion w p h u.path
    then deny p io "deny" (path_excluded u.path) (("path", text u.path) ∷ common)
    else after_dns w p r io u h (io.dns h)

abbrev pub after_parse : Libraries → Proxy → Request → Io → Parsed → Proxy × Response
after_parse w p r io (unusable reason) = deny p io "deny" reason (
    ("host", text r.host)
    ∷ ("method", text r.method)
    ∷ ("program_id", name p.config.program_id)
    ∷ [])
after_parse w p r io (parsed u) = serve_url w p r io u

-- ServeHTTP. The URL and its printed form in the log entries are left out.
unfoldable pub serve_http : Libraries → Proxy → Request → Io → Proxy × Response
serve_http w p r io =
    if text_eq r.url.path (codes "/health")
    then (p, health)
    else if text_eq r.method (codes "CONNECT")
    then handle_connect w p r.method r.host r.url.host_port io
    else if check_kill_switch p
    then deny p io "block" kill_switch_active (
        ("host", text r.host)
        ∷ ("method", text r.method)
        ∷ ("program_id", name p.config.program_id)
        ∷ [])
    else after_parse w p r io (parse_request w r)
