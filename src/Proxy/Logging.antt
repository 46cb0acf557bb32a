-- ===== src/Proxy/Logging.antt =====
-- What the proxy writes into the audit log.
use scopepilot.Prelude.{
  branch, ℕ, ◌≡◌, refl, sym, ap, subst, ◌&&◌, ◌==◌, length, ◌⊎◌, inl, inr, String, Bool, true,
  false, List, [], ◌∷◌, Option, none, some, if◌then◌else◌, not,
}
use scopepilot.Text.{Text, codes, text_eq}
use scopepilot.Normalize.{host, Url, hostname, port_of}
use scopepilot.Audit.{Logger, log}
use scopepilot.RateLimit.{host_allow}
use scopepilot.Proxy.{
  Proxy, Libraries, Io, Response, DenyReason, Field, because, dns_failed, ip_blocked, rate_limited,
  health, denied, would_allow, forwarded, tunnel, denied_unlogged, closed, dial_failed, Takeover,
  no_hijacker, hijack_error, write_error, dial_error, relays, deny, check_kill_switch,
  validate_scheme, validate_port, check_host_scope, check_path_exclusion, validate_ips,
  store_resolved_ips, check_rate_limit, log_decision,
}
use scopepilot.Proxy.Connect.{
  relay, handle_connect, connect_parts, connect_host, connect_dns, connect_ips, connect_admit,
}
use scopepilot.Proxy.Serve.{
  Request, Parsed, parsed, unusable, parse_request, keep_checked, keep_if_safe, forward_request,
  admit, after_ips, after_dns, after_parse, serve_url, serve_http,
}

-- One entry of the proxy with this event is appended.
abbrev pub Appends : Io → Logger Field → String → Logger Field → Type 0
Appends io l event l' =
    (fields : List (String × Field)) × (l'
      ≡ (log l io.entry_id io.timestamp "proxy" event (some fields)).0)

-- The entry that goes with an answer.
abbrev pub Logged : Io → Logger Field → Response → Logger Field → Type 0
Logged io l health l' = l' ≡ l
Logged io l (tunnel ip n) l' = l' ≡ l
Logged io l (denied_unlogged why) l' = l' ≡ l
Logged io l closed l' = l' ≡ l
Logged io l (dial_failed ip n) l' = l' ≡ l
Logged io l (forwarded u) l' = Appends io l "allow" l'
Logged io l (would_allow h) l' = Appends io l "dry_run" l'
Logged io l (denied why) l' = Appends io l "deny" l' ⊎ Appends io l "block" l'

module _ (w : Libraries) (io : Io) (l : Logger Field) where
  abbrev Fits : Proxy × Response → Type 0
  Fits x = Logged io l x.1 x.0.logger

  kept :
      (p : Proxy) (h : Text) (a : Option (List Text)) → (keep_if_safe w p io h a).logger ≡ p.logger
  unfolding store_resolved_ips
  kept p h none = refl
  kept p h (some ips) = go (validate_ips w ips)
    where
      go : (o : Option Text) → (keep_checked p io h ips o).logger ≡ p.logger
      go none = refl
      go (some bad) = refl

  forward-Fits :
      (p : Proxy) (u : Url) → Logged io l (forwarded u) p.logger → Fits (forward_request w p io u)
  unfolding forward_request
  forward-Fits p u h =
      subst (Logged io l (forwarded u))
        (sym (
          go (
            not (text_eq (host w.to_ascii (hostname u)) [])
            && (length (w.parse_ip (host w.to_ascii (hostname u))) == 0))))
        h
    where
      go :
          (b : Bool)
          → (if b
              then keep_if_safe w p io
                  (host w.to_ascii (hostname u))
                  (io.dns_again (host w.to_ascii (hostname u)))
              else p).logger
            ≡ p.logger
      go true = kept p _ (io.dns_again (host w.to_ascii (hostname u)))
      go false = refl

  entry :
      (p : Proxy) (event : String) (fields : List (String × Field))
      → p.logger ≡ l
      → Appends io l event (log_decision p io event fields).logger
  unfolding log_decision
  entry p event fields e =
      (fields, ap (λ k. (log k io.entry_id io.timestamp "proxy" event (some fields)).0) e)

  denied-Fits :
      (p : Proxy) (why : DenyReason) (fields : List (String × Field))
      → p.logger ≡ l
      → Fits (deny p io "deny" why fields)
  denied-Fits p why fields e = inl (entry p "deny" (("reason", because why) ∷ fields) e)

  blocked-Fits :
      (p : Proxy) (why : DenyReason) (fields : List (String × Field))
      → p.logger ≡ l
      → Fits (deny p io "block" why fields)
  blocked-Fits p why fields e = inr (entry p "block" (("reason", because why) ∷ fields) e)

  admit-Fits :
      (p : Proxy) (r : Request) (u : Url) (h : Text) (ips : List Text)
      → p.logger ≡ l
      → Fits (admit w p r io u h ips)
  unfolding admit check_rate_limit
  admit-Fits p r u h ips e = branch Fits p.config.dry_run _ _ (entry p "dry_run" _ e) (
      branch Fits (host_allow p.limiter h io.created io.since io.now).1 _ _
        (forward-Fits _ u (entry _ "allow" _ e)) (denied-Fits _ (rate_limited h) _ e))

  after_dns-Fits :
      (p : Proxy) (r : Request) (u : Url) (h : Text) (answer : Option (List Text))
      → p.logger ≡ l
      → Fits (after_dns w p r io u h answer)
  unfolding store_resolved_ips
  after_dns-Fits p r u h none e = denied-Fits p (dns_failed h) _ e
  after_dns-Fits p r u h (some ips) e = go (validate_ips w ips)
    where
      go : (o : Option Text) → Fits (after_ips w p r io u h ips o)
      go none = admit-Fits (store_resolved_ips p io.victim h ips) r u h ips e
      go (some bad) = blocked-Fits p (ip_blocked h bad) _ e

  after_parse-Fits :
      (p : Proxy) (r : Request) (a : Parsed) → p.logger ≡ l → Fits (after_parse w p r io a)
  unfolding serve_url
  after_parse-Fits p r (unusable why) e = denied-Fits p why _ e
  after_parse-Fits p r (parsed u) e =
      branch Fits (not p.config.active_testing_enabled) _ _ (denied-Fits p _ _ e) (
        branch Fits (not (validate_scheme p u.scheme)) _ _ (denied-Fits p _ _ e) (
          branch Fits (not (validate_port p (port_of u) u.scheme).1) _ _ (denied-Fits p _ _ e) (
            branch Fits (not (check_host_scope w p h).0) _ _ (denied-Fits p _ _ e) (
              branch Fits (check_path_exclusion w p h u.path) _ _ (denied-Fits p _ _ e)
                (after_dns-Fits p r u h (io.dns h) e)))))
    where
      h : Text
      h = host w.to_ascii (hostname u)

  relay-Logged :
      {l' : Logger Field} (t : Takeover) (ip : Text) (n : ℕ)
      → l' ≡ l
      → Logged io l (relay t ip n) l'
  relay-Logged no_hijacker ip n e = e
  relay-Logged hijack_error ip n e = e
  relay-Logged write_error ip n e = e
  relay-Logged dial_error ip n e = e
  relay-Logged relays ip n e = e

  connect_dns-Fits :
      (p : Proxy) (h : Text) (n : ℕ) (fields : List (String × Field)) (answer : Option (List Text))
      → p.logger ≡ l
      → Fits (connect_dns w p io h n fields answer)
  unfolding connect_admit check_rate_limit store_resolved_ips
  connect_dns-Fits p h n fields none e = denied-Fits p (dns_failed h) _ e
  connect_dns-Fits p h n fields (some ips) e = go (validate_ips w ips)
    where
      go : (o : Option Text) → Fits (connect_ips p io h n fields ips o)
      go none =
          branch Fits (host_allow p.limiter h io.created io.since io.now).1 _ _
            (relay-Logged io.takeover _ _ e) (denied-Fits _ (rate_limited h) _ e)
      go (some bad) = blocked-Fits p (ip_blocked h bad) _ e

  connect_parts-Fits :
      (p : Proxy) (fields : List (String × Field)) (a : Option (Text × Text))
      → p.logger ≡ l
      → Fits (connect_parts w p io fields a)
  unfolding connect_host
  connect_parts-Fits p fields none e = denied-Fits p _ _ e
  connect_parts-Fits p fields (some (raw, port)) e =
      branch Fits (not (validate_scheme p (codes "https"))) _ _ (denied-Fits p _ _ e) (
        branch Fits (not (validate_port p port (codes "https")).1) _ _ (denied-Fits p _ _ e) (
          branch Fits (not (check_host_scope w p h).0) _ _ (denied-Fits p _ _ e)
            (connect_dns-Fits p h (validate_port p port (codes "https")).0 fields (io.dns h) e)))
    where
      h : Text
      h = host w.to_ascii raw

  serve-Fits : (p : Proxy) (r : Request) → p.logger ≡ l → Fits (serve_http w p r io)
  unfolding serve_http handle_connect
  serve-Fits p r e = branch Fits (text_eq r.url.path (codes "/health")) _ _ e (
      branch Fits (text_eq r.method (codes "CONNECT")) _ _
        (branch Fits (check_kill_switch p) _ _ (blocked-Fits p _ _ e) (
          branch Fits (not p.config.active_testing_enabled) _ _ (denied-Fits p _ _ e)
            (connect_parts-Fits p _ (w.split_host_port authority) e)))
        (branch Fits (check_kill_switch p) _ _ (blocked-Fits p _ _ e)
          (after_parse-Fits p r (parse_request w r) e)))
    where
      authority : Text
      authority = if text_eq r.host [] then r.url.host_port else r.host

-- ServeHTTP writes exactly one entry for every request that its checks deny, that it forwards, or
-- lets pass in its dry run, and the entry's event says which of the three it did ("deny" or "block", "allow",
-- "dry_run"). The health endpoint, an opened tunnel and a CONNECT that fails after the last check
-- leave the log as it was.
pub serve_http-logs :
    (w : Libraries) (p : Proxy) (r : Request) (io : Io)
    → let (p', answer) = serve_http w p r io in Logged io p.logger answer p'.logger
serve_http-logs w p r io = serve-Fits w io p.logger p r refl
