-- ===== src/Proxy/Redirect.antt =====
-- The client that NewProxy of internal/proxy/proxy.go makes: validateRedirectTarget, and the
-- functions CheckRedirect and DialContext of the client.
pub mod Follow
use scopepilot.Prelude.{
  ℕ, suc, Bool, true, false, not, List, [], ◌∷◌, Option, none, some, leb, if◌then◌else◌, lookup,
}
use scopepilot.Text.{Text, text_eq, text_keys}
use scopepilot.Normalize.{host, Url, hostname, port_of}
use scopepilot.Scope.{Reason}
use scopepilot.Proxy.{
  Proxy, Libraries, Io, validate_scheme, validate_port, check_host_scope, check_path_exclusion,
  validate_ips, store_resolved_ips,
}

-- The errors of validateRedirectTarget, with the arguments of their formats.
pub data RedirectError : Type 0 where
  target_without_host : RedirectError
  target_scheme target_port target_path target_unresolved : Text → RedirectError
  target_out_of_scope : Reason → RedirectError
  target_blocked : Text → Text → RedirectError

abbrev pub redirect_ips : Proxy → Io → Text → List Text → Option Text → Proxy × Option RedirectError
redirect_ips p io h ips (some bad) = (p, some (target_blocked h bad))
redirect_ips p io h ips none = (store_resolved_ips p io.victim h ips, none)

abbrev pub redirect_dns :
    Libraries → Proxy → Io → Text → Option (List Text) → Proxy × Option RedirectError
redirect_dns w p io h none = (p, some (target_unresolved h))
redirect_dns w p io h (some ips) = redirect_ips p io h ips (validate_ips w ips)

-- validateRedirectTarget, with its error or none
unfoldable pub validate_redirect_target :
    Libraries → Proxy → Io → Url → Proxy × Option RedirectError
validate_redirect_target w p io u =
    let h = host w.to_ascii (hostname u) in
    let (in_scope, why) = check_host_scope w p h in
    if text_eq h []
    then (p, some target_without_host)
    else if not (validate_scheme p u.scheme)
    then (p, some (target_scheme u.scheme))
    else if not (validate_port p (port_of u) u.scheme).1
    then (p, some (target_port (port_of u)))
    else if not in_scope
    then (p, some (target_out_of_scope why))
    else if check_path_exclusion w p h u.path
    then (p, some (target_path u.path))
    else redirect_dns w p io h (io.dns h)

-- The answer of CheckRedirect: nil, ErrUseLastResponse, or the error of the target.
pub data RedirectAnswer : Type 0 where
  follow use_last_response : RedirectAnswer
  refuse : RedirectError → RedirectAnswer

abbrev pub limit : ℕ → RedirectAnswer
limit via = if leb 10 via then use_last_response else follow

abbrev pub answer_of : ℕ → Proxy × Option RedirectError → Proxy × RedirectAnswer
answer_of via (p, some e) = (p, refuse e)
answer_of via (p, none) = (p, limit via)

-- CheckRedirect, with the number of the requests made before
unfoldable pub check_redirect : Libraries → Proxy → Io → Url → ℕ → Proxy × RedirectAnswer
check_redirect w p io u via =
    if leb 1 via then answer_of via (validate_redirect_target w p io u) else (p, limit via)

-- Where a connection goes: to an address of the map, or wherever the system's resolver says.
pub data Dial : Type 0 where
  dial_address : Text → Text → Dial
  dial_system : Text → Dial

abbrev pub dial_pinned : Text → Text → Option (List Text) → Dial
dial_pinned addr port none = dial_system addr
dial_pinned addr port (some []) = dial_system addr
dial_pinned addr port (some (ip ∷ ips)) = dial_address ip port

abbrev pub dial_parts : Proxy → Text → Option (Text × Text) → Dial
dial_parts p addr none = dial_system addr
dial_parts p addr (some (h, port)) = dial_pinned addr port (lookup h p.resolved_ips)

-- DialContext, where no dial function was set
unfoldable pub dial_context : Libraries → Proxy → Text → Dial
dial_context w p addr = dial_parts p addr (w.split_host_port addr)
