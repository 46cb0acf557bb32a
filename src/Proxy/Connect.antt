-- ===== src/Proxy/Connect.antt =====
-- handleConnect of internal/proxy/proxy.go.
use scopepilot.Prelude.{ℕ, String, not, List, [], ◌∷◌, Option, none, some, if◌then◌else◌, lookup}
use scopepilot.Text.{Text, codes, text_eq, text_keys}
use scopepilot.Normalize.{host}
use scopepilot.Proxy.{
  Proxy, Libraries, Io, Response, Field, text, texts, name, kill_switch_active, testing_disabled,
  authority_unparsed, scheme_denied, port_denied, dns_failed, rate_limited, out_of_scope,
  ip_blocked, tunnel, denied_unlogged, closed, dial_failed, not_a_hijacker, hijack_failed, Takeover,
  no_hijacker, hijack_error, write_error, dial_error, relays, deny, check_kill_switch,
  validate_scheme, validate_port, check_host_scope, validate_ips, store_resolved_ips,
  check_rate_limit,
}

-- The address that is dialled: the first pinned one, or the host where there is none.
abbrev pub dial_ip : Text → Option (List Text) → Text
dial_ip h none = h
dial_ip h (some []) = h
dial_ip h (some (ip ∷ ips)) = ip

-- Step 8, with the address and the port to dial.
abbrev pub relay : Takeover → Text → ℕ → Response
relay no_hijacker ip port = denied_unlogged not_a_hijacker
relay hijack_error ip port = denied_unlogged hijack_failed
relay write_error ip port = closed
relay dial_error ip port = dial_failed ip port
relay relays ip port = tunnel ip port

-- Steps 7 and 8. The dial goes to the pinned address.
unfoldable pub connect_admit : Proxy → Io → Text → ℕ → List (String × Field) → Proxy × Response
connect_admit p io h port fields =
    let (p', allowed) = check_rate_limit p io h in
    if allowed
    then (p', relay io.takeover (dial_ip h (lookup h p'.resolved_ips)) port)
    else deny p' io "deny" (rate_limited h) (("host", text h) ∷ fields)

abbrev pub connect_ips :
    Proxy → Io → Text → ℕ → List (String × Field) → List Text → Option Text → Proxy × Response
connect_ips p io h port fields ips (some bad) =
    deny p io "block" (ip_blocked h bad)
      (("host", text h) ∷ ("ips", texts ips) ∷ ("program_id", name p.config.program_id) ∷ [])
connect_ips p io h port fields ips none =
    connect_admit (store_resolved_ips p io.victim h ips) io h port fields

abbrev pub connect_dns :
    Libraries
    → Proxy
    → Io
    → Text
    → ℕ
    → List (String × Field)
    → Option (List Text)
    → Proxy × Response
connect_dns w p io h port fields none = deny p io "deny" (dns_failed h) (("host", text h) ∷ fields)
connect_dns w p io h port fields (some ips) =
    connect_ips p io h port fields ips (validate_ips w ips)

-- Steps 4 to 6 of handleConnect, on the parts of the authority.
unfoldable pub connect_host :
    Libraries → Proxy → Io → List (String × Field) → Text → Text → Proxy × Response
connect_host w p io fields raw_host port_text =
    let h = host w.to_ascii raw_host in
    let (port, port_ok) = validate_port p port_text (codes "https") in
    let (in_scope, why) = check_host_scope w p h in
    if not (validate_scheme p (codes "https"))
    then deny p io "deny" (scheme_denied (codes "https")) fields
    else if not port_ok
    then deny p io "deny" (port_denied port_text)
        (("host", text h) ∷ ("port", text port_text) ∷ fields)
    else if not in_scope
    then deny p io "deny" (out_of_scope why) (("host", text h) ∷ fields)
    else connect_dns w p io h port fields (io.dns h)

abbrev pub connect_parts :
    Libraries → Proxy → Io → List (String × Field) → Option (Text × Text) → Proxy × Response
connect_parts w p io fields none = deny p io "deny" authority_unparsed fields
connect_parts w p io fields (some (h, port)) = connect_host w p io fields h port

-- handleConnect
unfoldable pub handle_connect : Libraries → Proxy → Text → Text → Text → Io → Proxy × Response
handle_connect w p method request_host url_host io =
    let authority = if text_eq request_host [] then url_host else request_host in
    let fields =
      ("authority", text authority)
      ∷ ("method", text method)
      ∷ ("program_id", name p.config.program_id)
      ∷ [] in
    if check_kill_switch p
    then deny p io "block" kill_switch_active fields
    else if not p.config.active_testing_enabled
    then deny p io "deny" testing_disabled fields
    else connect_parts w p io fields (w.split_host_port authority)
