-- ===== src/Proxy/Pins/Served.antt =====
-- What a served request and a redirect keep of the map of addresses.
use scopepilot.Prelude.{
  ℕ, ◌≡◌, refl, Bool, true, false, not, List, [], ◌&&◌, ◌==◌, Option, none, some, length, leb,
  branch, if◌then◌else◌, String,
}
use scopepilot.Text.{Text, codes, text_eq, text_keys}
use scopepilot.Normalize.{host, Url, hostname, port_of}
use scopepilot.Proxy.{
  Proxy, Libraries, Io, Response, Field, store_resolved_ips, check_kill_switch, validate_scheme,
  validate_port, check_host_scope, check_path_exclusion, validate_ips, check_rate_limit,
  log_decision,
}
use scopepilot.Proxy.Layers.{validate_ips_iff}
use scopepilot.Proxy.Connect.{
  handle_connect, connect_parts, connect_host, connect_dns, connect_ips, connect_admit,
}
use scopepilot.Proxy.Serve.{
  Request, Parsed, parsed, unusable, parse_request, keep_checked, keep_if_safe, forward_request,
  admit, after_ips, after_dns, after_parse, serve_url, serve_http,
}
use scopepilot.Proxy.Redirect.{
  RedirectError, redirect_ips, redirect_dns, validate_redirect_target, check_redirect, answer_of,
  limit,
}
use scopepilot.Proxy.Pins.Stored.{IsSound, store-IsSound, logged-IsSound, limited-IsSound}

module _ (w : Libraries) where
  module _ (io : Io) where
    abbrev Sound : Proxy × Response → Type 0
    Sound x = IsSound w x.0

    forward-IsSound : (p : Proxy) (u : Url) → IsSound w p → Sound (forward_request w p io u)
    unfolding forward_request
    forward-IsSound p u s = go (not (text_eq h []) && (length (w.parse_ip h) == 0))
      where
        h : Text
        h = host w.to_ascii (hostname u)

        by_ips :
            (ips : List Text) (o : Option Text)
            → validate_ips w ips ≡ o
            → IsSound w (keep_checked p io h ips o)
        by_ips ips none e =
            store-IsSound w p io.victim (hostname u) ips ((validate_ips_iff w ips).0 e) s
        by_ips ips (some bad) e = s

        by_dns : (a : Option (List Text)) → IsSound w (keep_if_safe w p io h a)
        by_dns none = s
        by_dns (some ips) = by_ips ips (validate_ips w ips) refl

        go : (b : Bool) → IsSound w (if b then keep_if_safe w p io h (io.dns_again h) else p)
        go true = by_dns (io.dns_again h)
        go false = s

    admit-IsSound :
        (p : Proxy) (r : Request) (u : Url) (h : Text) (ips : List Text)
        → IsSound w p
        → Sound (admit w p r io u h ips)
    unfolding admit
    admit-IsSound p r u h ips s =
        let l = limited-IsSound w p io h s in
        branch Sound p.config.dry_run _ _ (logged-IsSound w p io "dry_run" _ s) (
          branch Sound (check_rate_limit p io h).1 _ _
            (forward-IsSound (log_decision (check_rate_limit p io h).0 io "allow" _) u
              (logged-IsSound w (check_rate_limit p io h).0 io "allow" _ l))
            (logged-IsSound w (check_rate_limit p io h).0 io "deny" _ l))

    dns-IsSound :
        (p : Proxy) (r : Request) (u : Url) (x : Text) (answer : Option (List Text))
        → IsSound w p
        → Sound (after_dns w p r io u (host w.to_ascii x) answer)
    dns-IsSound p r u x none s = logged-IsSound w p io "deny" _ s
    dns-IsSound p r u x (some ips) s = go (validate_ips w ips) refl
      where
        go :
            (o : Option Text)
            → validate_ips w ips ≡ o
            → Sound (after_ips w p r io u (host w.to_ascii x) ips o)
        go none e =
            admit-IsSound (store_resolved_ips p io.victim (host w.to_ascii x) ips) r u
              (host w.to_ascii x) ips
              (store-IsSound w p io.victim x ips ((validate_ips_iff w ips).0 e) s)
        go (some bad) e = logged-IsSound w p io "block" _ s

    parse-IsSound :
        (p : Proxy) (r : Request) (a : Parsed) → IsSound w p → Sound (after_parse w p r io a)
    unfolding serve_url
    parse-IsSound p r (unusable why) s = logged-IsSound w p io "deny" _ s
    parse-IsSound p r (parsed u) s =
        branch Sound (not p.config.active_testing_enabled) _ _ (logged-IsSound w p io "deny" _ s) (
          branch Sound (not (validate_scheme p u.scheme)) _ _ (logged-IsSound w p io "deny" _ s) (
            branch Sound (not (validate_port p (port_of u) u.scheme).1) _ _
              (logged-IsSound w p io "deny" _ s)
              (branch Sound (not (check_host_scope w p h).0) _ _ (logged-IsSound w p io "deny" _ s)
                (branch Sound (check_path_exclusion w p h u.path) _ _
                  (logged-IsSound w p io "deny" _ s)
                  (dns-IsSound p r u (hostname u) (io.dns h) s)))))
      where
        h : Text
        h = host w.to_ascii (hostname u)

    connect_dns-IsSound :
        (p : Proxy) (x : Text) (n : ℕ) (fields : List (String × Field))
        (answer : Option (List Text))
        → IsSound w p
        → Sound (connect_dns w p io (host w.to_ascii x) n fields answer)
    unfolding connect_admit
    connect_dns-IsSound p x n fields none s = logged-IsSound w p io "deny" _ s
    connect_dns-IsSound p x n fields (some ips) s = go (validate_ips w ips) refl
      where
        h : Text
        h = host w.to_ascii x

        go : (o : Option Text) → validate_ips w ips ≡ o → Sound (connect_ips p io h n fields ips o)
        go none e =
            let l =
              limited-IsSound w (store_resolved_ips p io.victim h ips) io h
                (store-IsSound w p io.victim x ips ((validate_ips_iff w ips).0 e) s) in
            branch Sound (check_rate_limit (store_resolved_ips p io.victim h ips) io h).1 _ _ l (
              logged-IsSound w (check_rate_limit (store_resolved_ips p io.victim h ips) io h).0 io
                "deny" _ l)
        go (some bad) e = logged-IsSound w p io "block" _ s

    connect-IsSound :
        (p : Proxy) (fields : List (String × Field)) (a : Option (Text × Text))
        → IsSound w p
        → Sound (connect_parts w p io fields a)
    unfolding connect_host
    connect-IsSound p fields none s = logged-IsSound w p io "deny" _ s
    connect-IsSound p fields (some (raw, port)) s =
        branch Sound (not (validate_scheme p (codes "https"))) _ _
          (logged-IsSound w p io "deny" _ s)
          (branch Sound (not (validate_port p port (codes "https")).1) _ _
            (logged-IsSound w p io "deny" _ s)
            (branch Sound (not (check_host_scope w p (host w.to_ascii raw)).0) _ _
              (logged-IsSound w p io "deny" _ s)
              (connect_dns-IsSound p raw (validate_port p port (codes "https")).0 fields
                (io.dns (host w.to_ascii raw)) s)))

    pub serve-IsSound : (p : Proxy) (r : Request) → IsSound w p → Sound (serve_http w p r io)
    unfolding serve_http handle_connect
    serve-IsSound p r s = branch Sound (text_eq r.url.path (codes "/health")) _ _ s (
        branch Sound (text_eq r.method (codes "CONNECT")) _ _
          (branch Sound (check_kill_switch p) _ _ (logged-IsSound w p io "block" _ s) (
            branch Sound (not p.config.active_testing_enabled) _ _
              (logged-IsSound w p io "deny" _ s)
              (connect-IsSound p _
                (w.split_host_port (if text_eq r.host [] then r.url.host_port else r.host)) s)))
          (branch Sound (check_kill_switch p) _ _ (logged-IsSound w p io "block" _ s)
            (parse-IsSound p r (parse_request w r) s)))

    abbrev SoundTarget : Proxy × Option RedirectError → Type 0
    SoundTarget x = IsSound w x.0

    redirect_dns-IsSound :
        (p : Proxy) (x : Text) (answer : Option (List Text))
        → IsSound w p
        → SoundTarget (redirect_dns w p io (host w.to_ascii x) answer)
    redirect_dns-IsSound p x none s = s
    redirect_dns-IsSound p x (some ips) s = go (validate_ips w ips) refl
      where
        go :
            (o : Option Text)
            → validate_ips w ips ≡ o
            → SoundTarget (redirect_ips p io (host w.to_ascii x) ips o)
        go none e = store-IsSound w p io.victim x ips ((validate_ips_iff w ips).0 e) s
        go (some bad) e = s

    redirect-IsSound :
        (p : Proxy) (u : Url) → IsSound w p → SoundTarget (validate_redirect_target w p io u)
    unfolding validate_redirect_target
    redirect-IsSound p u s = branch SoundTarget (text_eq h []) _ _ s (
        branch SoundTarget (not (validate_scheme p u.scheme)) _ _ s (
          branch SoundTarget (not (validate_port p (port_of u) u.scheme).1) _ _ s (
            branch SoundTarget (not (check_host_scope w p h).0) _ _ s (
              branch SoundTarget (check_path_exclusion w p h u.path) _ _ s
                (redirect_dns-IsSound p (hostname u) (io.dns h) s)))))
      where
        h : Text
        h = host w.to_ascii (hostname u)

    answer-IsSound :
        (via : ℕ) (x : Proxy × Option RedirectError) → SoundTarget x → IsSound w (answer_of via x).0
    answer-IsSound via (p, some e) s = s
    answer-IsSound via (p, none) s = s

    pub check_redirect-IsSound :
        (p : Proxy) (u : Url) (via : ℕ) → IsSound w p → IsSound w (check_redirect w p io u via).0
    unfolding check_redirect
    check_redirect-IsSound p u via s = go (leb 1 via)
      where
        go :
            (b : Bool)
            → IsSound w
                (if b then answer_of via (validate_redirect_target w p io u) else (p, limit via)).0
        go true = answer-IsSound via (validate_redirect_target w p io u) (redirect-IsSound p u s)
        go false = s
